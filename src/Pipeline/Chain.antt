-- ===== src/Pipeline/Chain.antt =====
-- A deployment ends: an automatic rollback is never followed by another.
use cicd.Prelude.{ℕ, ◌≤◌, ◌≡◌, refl, Option, none, some, arith, Text}
use cicd.Config.{Config}
use cicd.Process.{failed}
use cicd.Projects.{get_project_id_by_dir}
use cicd.Pipeline.{
  World, Flow, Next, finished, health_check, Outcome, RollbackEnv, DeployEnv, HealthEnv,
  rollback_to_commit, roll_back, target, previous, post_deploy_health_check, full_deploy_pipeline,
  returned, panicked, daemon_ended, in_goroutine, follow, deploy, set_status,
}

-- A health check that is still to come is at this depth or deeper.
abbrev AtDepth : ℕ → Next → Type 0
AtDepth n finished = Unit
AtDepth n (health_check hash trigger d) = n ≤ d

rollback-AtDepth :
    (env : RollbackEnv) (cfg : Config) (hash : Text) (w : World)
    → AtDepth 1 (rollback_to_commit env cfg hash w).next
unfolding rollback_to_commit
rollback-AtDepth env cfg hash w = ground arith

roll_back-AtDepth :
    (env : RollbackEnv) (cfg : Config) (o : Option Text) (w : World)
    → AtDepth 1 (roll_back env cfg o w).next
roll_back-AtDepth env cfg none w = tt
roll_back-AtDepth env cfg (some prev) w = rollback-AtDepth env cfg prev w

-- A health check at any depth asks for a later one at depth 1 at least, and at depth 1 for none.
health-AtDepth :
    (env : HealthEnv) (cfg : Config) (hash : Text) (depth : ℕ) (w : World)
    → AtDepth 1 (post_deploy_health_check env cfg hash depth w).next
unfolding post_deploy_health_check
health-AtDepth env cfg hash depth w =
    let w₁ : World = set_status cfg.service_dir failed w in
    let after : AtDepth 1
        (roll_back env.on_failure cfg
          (target hash (previous (get_project_id_by_dir cfg.service_dir w.projects) w₁.history))
          w₁).next =
      roll_back-AtDepth env.on_failure cfg
        (target hash (previous (get_project_id_by_dir cfg.service_dir w.projects) w₁.history)) w₁ in
    ground arith

health-finished :
    (env : HealthEnv) (cfg : Config) (hash : Text) (depth : ℕ) (w : World)
    → 1 ≤ depth
    → (post_deploy_health_check env cfg hash depth w).next ≡ finished
unfolding post_deploy_health_check
health-finished env cfg hash depth w h = ground arith

goroutine-AtDepth :
    (d : ℕ) (w : World) (next : Next) (flow : Flow)
    → AtDepth d next
    → AtDepth d (in_goroutine (record { world = w; next = next; flow = flow })).next
goroutine-AtDepth d w next returned h = h
goroutine-AtDepth d w next panicked h = tt
goroutine-AtDepth d w next daemon_ended h = h

goroutine-finished :
    (w : World) (next : Next) (flow : Flow)
    → next ≡ finished
    → (in_goroutine (record { world = w; next = next; flow = flow })).next ≡ finished
goroutine-finished w next returned h = h
goroutine-finished w next panicked h = refl
goroutine-finished w next daemon_ended h = h

-- The step after an outcome, by what the outcome asks for.
abbrev step : HealthEnv → Config → World → Flow → Next → Outcome
unfolding follow
step env cfg w flow next = follow env cfg (record { world = w; next = next; flow = flow })

step-AtDepth :
    (env : HealthEnv) (cfg : Config) (w : World) (flow : Flow) (next : Next)
    → AtDepth 1 (step env cfg w flow next).next
unfolding follow
step-AtDepth env cfg w flow finished = tt
step-AtDepth env cfg w flow (health_check hash trigger d) =
    let o : Outcome = post_deploy_health_check env cfg hash d w in
    goroutine-AtDepth 1 o.world o.next o.flow (health-AtDepth env cfg hash d w)

step-finished :
    (env : HealthEnv) (cfg : Config) (w : World) (flow : Flow) (next : Next)
    → AtDepth 1 next
    → (step env cfg w flow next).next ≡ finished
unfolding follow
step-finished env cfg w flow finished h = refl
step-finished env cfg w flow (health_check hash trigger d) h =
    let o : Outcome = post_deploy_health_check env cfg hash d w in
    goroutine-finished o.world o.next o.flow (health-finished env cfg hash d w h)

-- A deployment, with everything that it starts, ends after two health checks at most: a rollback
-- that a failed health check starts is never followed by another one.
pub deploy-finished :
    (env : DeployEnv) (first second : HealthEnv) (cfg : Config) (hash msg : Text) (w : World)
    → (deploy env first second cfg hash msg w).next ≡ finished
unfolding deploy
deploy-finished env first second cfg hash msg w =
    let o : Outcome = full_deploy_pipeline env cfg hash msg w in
    let o₁ : Outcome = follow first cfg o in
    step-finished second cfg o₁.world o₁.flow o₁.next (step-AtDepth first cfg o.world o.flow o.next)
