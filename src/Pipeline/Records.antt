-- ===== src/Pipeline/Records.antt =====
-- What a deployment writes to the history of commits.
use cicd.Prelude.{ℕ, Option, none, some, arith, Text}
use cicd.Config.{Config}
use cicd.Process.{deploying, failed}
use cicd.History.{Trigger, mark_commit_rolled_back}
use cicd.History.Single.{
  IsWellFormed, add_commit-IsWellFormed, set_current_commit-IsWellFormed,
  mark_rolled_back-IsWellFormed,
}
use cicd.Projects.{get_project_id_by_dir}
use cicd.Pipeline.{
  World, Flow, Next, finished, health_check, Outcome, RollbackEnv, DeployEnv, HealthEnv, set_status,
  with_project, rolled_and_current, rollback_to_commit, target, previous, roll_back, made_current,
  post_deploy_health_check, known_hash, trigger_of, recorded, full_deploy_pipeline, returned,
  panicked, daemon_ended, in_goroutine, follow, deploy,
}

pub rolled-IsWellFormed :
    (env : RollbackEnv) (hash : Text) (id : Option ℕ) (w : World)
    → IsWellFormed w.history
    → IsWellFormed (with_project id (rolled_and_current env hash) w).history
rolled-IsWellFormed env hash none w h = h
rolled-IsWellFormed env hash (some id) w h =
    set_current_commit-IsWellFormed env.sets env.now id hash
      (mark_commit_rolled_back env.marks id hash w.history).0
      (mark_rolled_back-IsWellFormed env.marks id hash w.history h)

current-IsWellFormed :
    (env : HealthEnv) (hash : Text) (id : Option ℕ) (w : World)
    → IsWellFormed w.history
    → IsWellFormed (with_project id (made_current env hash) w).history
current-IsWellFormed env hash none w h = h
current-IsWellFormed env hash (some id) w h =
    set_current_commit-IsWellFormed env.sets env.now id hash w.history h

pub recorded-IsWellFormed :
    (env : DeployEnv) (hash msg : Text) (by : Trigger) (id : Option ℕ) (w : World)
    → IsWellFormed w.history
    → IsWellFormed (with_project id (recorded env hash msg by) w).history
recorded-IsWellFormed env hash msg by none w h = h
recorded-IsWellFormed env hash msg by (some id) w h =
    add_commit-IsWellFormed env.records env.now id hash msg by w.history h

rollback-IsWellFormed :
    (env : RollbackEnv) (cfg : Config) (hash : Text) (w : World)
    → IsWellFormed w.history
    → IsWellFormed (rollback_to_commit env cfg hash w).world.history
unfolding rollback_to_commit
rollback-IsWellFormed env cfg hash w h =
    let w₁ : World = set_status cfg.service_dir deploying w in
    ground
      (arith, rolled-IsWellFormed env hash (get_project_id_by_dir cfg.service_dir w.projects) w₁ h)

roll_back-IsWellFormed :
    (env : RollbackEnv) (cfg : Config) (o : Option Text) (w : World)
    → IsWellFormed w.history
    → IsWellFormed (roll_back env cfg o w).world.history
roll_back-IsWellFormed env cfg none w h = h
roll_back-IsWellFormed env cfg (some hash) w h = rollback-IsWellFormed env cfg hash w h

health-IsWellFormed :
    (env : HealthEnv) (cfg : Config) (hash : Text) (depth : ℕ) (w : World)
    → IsWellFormed w.history
    → IsWellFormed (post_deploy_health_check env cfg hash depth w).world.history
unfolding post_deploy_health_check
health-IsWellFormed env cfg hash depth w h =
    let id : Option ℕ = get_project_id_by_dir cfg.service_dir w.projects in
    let w₁ : World = set_status cfg.service_dir failed w in
    ground (
      arith,
      current-IsWellFormed env hash id w h,
      roll_back-IsWellFormed env.on_failure cfg (target hash (previous id w₁.history)) w₁ h,
    )

pipeline-IsWellFormed :
    (env : DeployEnv) (cfg : Config) (hash msg : Text) (w : World)
    → IsWellFormed w.history
    → IsWellFormed (full_deploy_pipeline env cfg hash msg w).world.history
unfolding full_deploy_pipeline
pipeline-IsWellFormed env cfg hash msg w h =
    let dir : Text = cfg.service_dir in
    let id : Option ℕ = get_project_id_by_dir dir w.projects in
    let w₁ : World = set_status dir deploying w in
    let full : Text = known_hash hash env.head in
    let w₂ : World = with_project id (recorded env full msg (trigger_of hash)) w₁ in
    let w₃ : World = set_status dir failed w₂ in
    let kept : IsWellFormed w₂.history =
      recorded-IsWellFormed env full msg (trigger_of hash) id w₁ h in
    ground (
      arith,
      kept,
      roll_back-IsWellFormed env.on_failure cfg (target full (previous id w₃.history)) w₃ kept,
    )

goroutine-IsWellFormed :
    (w : World) (next : Next) (flow : Flow)
    → IsWellFormed w.history
    → IsWellFormed (in_goroutine (record { world = w; next = next; flow = flow })).world.history
goroutine-IsWellFormed w next returned h = h
goroutine-IsWellFormed w next panicked h = h
goroutine-IsWellFormed w next daemon_ended h = h

follow-IsWellFormed :
    (env : HealthEnv) (cfg : Config) (w : World) (flow : Flow) (next : Next)
    → IsWellFormed w.history
    → IsWellFormed (follow env cfg (record { world = w; next = next; flow = flow })).world.history
unfolding follow
follow-IsWellFormed env cfg w flow finished h = h
follow-IsWellFormed env cfg w flow (health_check hash trigger d) h =
    let o : Outcome = post_deploy_health_check env cfg hash d w in
    goroutine-IsWellFormed o.world o.next o.flow (health-IsWellFormed env cfg hash d w h)

-- A deployment, with everything that it starts, keeps the history of commits in order with at most
-- one current commit for each project, whatever Git, the scripts, SQLite and the health checks answer.
pub deploy-IsWellFormed :
    (env : DeployEnv) (first second : HealthEnv) (cfg : Config) (hash msg : Text) (w : World)
    → IsWellFormed w.history
    → IsWellFormed (deploy env first second cfg hash msg w).world.history
unfolding deploy
deploy-IsWellFormed env first second cfg hash msg w h =
    let o : Outcome = full_deploy_pipeline env cfg hash msg w in
    let o₁ : Outcome = follow first cfg o in
    follow-IsWellFormed second cfg o₁.world o₁.flow o₁.next (
      follow-IsWellFormed first cfg o.world o.flow o.next
        (pipeline-IsWellFormed env cfg hash msg w h))
