-- ===== src/Pipeline.antt =====
-- The deployment pipeline (gosrc/actions/executor.go: FullDeployPipeline, RollbackToCommit,
-- PostDeployHealthCheck). Git, the user's scripts and the process engine enter by what they answer.
-- The plain updates of the table of projects are taken to be done. A goroutine that a function
-- starts for the health check is its result `Next`, so that a deployment is a chain of calls.
pub mod Install
pub mod Chain
pub mod Records
pub mod Rows
pub mod Restore
pub mod Fallback
pub mod Settles
pub mod Success
mod Tests
use cicd.Prelude.{
  ℕ, ◌+◌, Bool, true, false, not, ◌&&◌, ◌||◌, Option, none, some, List, [], ◌∷◌, Text, same,
  is_empty, is_set, ltb, ◌==◌, length, if◌then◌else◌,
}
use cicd.Config.{Config}
use cicd.Process.{
  RunMode, blocking, background, delegating, install_only, DeployStatus, deploying, running, failed,
  installed, externally_managed,
}
use cicd.History.{
  Trigger, webhook, manual, rollback, History, Answers, add_commit_to_history, set_current_commit,
  mark_commit_rolled_back, get_previous_current_commit,
}
use cicd.Projects.{
  Projects, get_project_id_by_dir, set_deploy_status_by_dir, update_commit_hash_local,
  update_last_commit_info,
}

pub record World : Type 0 where
  pub projects : Projects
  pub history : History

-- What follows: nothing, or `PostDeployHealthCheck` for a commit at a depth.
pub data Next : Type 0 where
  finished : Next
  health_check : Text → Trigger → ℕ → Next

-- How a function ends. A slice `hash[:8]` of a shorter hash panics; in the goroutine of a health check
-- nobody recovers, and the daemon ends.
pub data Flow : Type 0 where
  returned panicked daemon_ended : Flow

pub record Outcome : Type 0 where
  pub world : World
  pub next : Next
  pub flow : Flow

-- What a rollback meets.
pub record RollbackEnv : Type 0 where
  pub log_opens : Bool
  pub deploys : Bool  -- `RunDeployment` returns nil
  pub marks : Bool  -- SQLite's answer to `MarkCommitRolledBack`
  pub sets : Answers
  pub now : ℕ

pub record DeployEnv : Type 0 where
  pub syncs : Bool  -- `SyncRepo` returns nil
  pub head : Option Text  -- `GetRepoHash`
  pub records : Bool  -- SQLite's answer to `AddCommitToHistory`
  pub deploys : Bool
  pub now : ℕ
  pub on_failure : RollbackEnv

pub record HealthEnv : Type 0 where
  pub mode : RunMode  -- `GetRunMode`
  pub alive : Bool  -- the health script passes, or without one the process is alive
  pub sets : Answers
  pub now : ℕ
  pub on_failure : RollbackEnv

abbrev pub set_status : Text → DeployStatus → World → World
set_status dir status w = record w {
  projects = (set_deploy_status_by_dir true dir status w.projects).0;
}

abbrev pub too_short : Text → Bool
too_short hash = ltb (length hash) 8

-- `projectID > 0`, for the id that `GetProjectIDByDir` returned
abbrev pub with_project : Option ℕ → (ℕ → World → World) → World → World
with_project none f w = w
with_project (some id) f w = f id w

abbrev pub rolled_and_current : RollbackEnv → Text → ℕ → World → World
rolled_and_current env hash id w = record w {
  history =
      (set_current_commit env.sets env.now id hash
        (mark_commit_rolled_back env.marks id hash w.history).0).0;
}

-- `RollbackToCommit`
unfoldable pub rollback_to_commit : RollbackEnv → Config → Text → World → Outcome
rollback_to_commit env cfg hash w =
    let dir : Text = cfg.service_dir in
    let id : Option ℕ = get_project_id_by_dir dir w.projects in
    let w₁ : World = set_status dir deploying w in
    let end : Flow = if too_short hash then panicked else returned in
    if env.log_opens && too_short hash
    then record { world = w; next = finished; flow = panicked }
    else if not env.deploys
    then record { world = set_status dir failed w₁; next = finished; flow = end }
    else let w₂ : World = with_project id (rolled_and_current env hash) w₁ in
      record {
        world = record w₂ { projects = (update_commit_hash_local true dir hash w₂.projects).0 };
        next = health_check hash rollback 1;
        flow = end;
      }

-- The previous commit to go back to: one that is set and is not the commit that failed.
abbrev pub target : Text → Option Text → Option Text
target hash none = none
target hash (some prev) = if is_set prev && not (same prev hash) then some prev else none

-- `GetPreviousCurrentCommit`, where there is a project
abbrev pub previous : Option ℕ → History → Option Text
previous none h = none
previous (some id) h = get_previous_current_commit id h

abbrev pub roll_back : RollbackEnv → Config → Option Text → World → Outcome
roll_back env cfg none w = record { world = w; next = finished; flow = returned }
roll_back env cfg (some prev) w = rollback_to_commit env cfg prev w

abbrev pub healthy_status : RunMode → DeployStatus
healthy_status delegating = externally_managed
healthy_status blocking = running
healthy_status background = running
healthy_status install_only = running

abbrev pub is_install_only : RunMode → Bool
is_install_only install_only = true
is_install_only blocking = false
is_install_only background = false
is_install_only delegating = false

abbrev pub made_current : HealthEnv → Text → ℕ → World → World
made_current env hash id w = record w {
  history = (set_current_commit env.sets env.now id hash w.history).0;
}

-- `PostDeployHealthCheck`
unfoldable pub post_deploy_health_check : HealthEnv → Config → Text → ℕ → World → Outcome
unfolding rollback_to_commit
post_deploy_health_check env cfg hash depth w =
    let dir : Text = cfg.service_dir in
    let id : Option ℕ = get_project_id_by_dir dir w.projects in
    let w₁ : World = set_status dir failed w in
    if is_install_only env.mode
    then record { world = set_status dir installed w; next = finished; flow = returned }
    else if env.alive
    then record {
      world = set_status dir (healthy_status env.mode) (with_project id (made_current env hash) w);
      next = finished;
      flow = returned;
    }
    else if ltb depth 1
    then roll_back env.on_failure cfg (target hash (previous id w₁.history)) w₁
    else record { world = w₁; next = finished; flow = returned }

abbrev pub known_hash : Text → Option Text → Text
known_hash [] none = []
known_hash [] (some head) = head
known_hash (c ∷ hash) head = c ∷ hash

abbrev pub trigger_of : Text → Trigger
trigger_of [] = manual
trigger_of (c ∷ hash) = webhook

abbrev pub recorded : DeployEnv → Text → Text → Trigger → ℕ → World → World
recorded env hash msg trigger id w = record w {
  history = (add_commit_to_history env.records env.now id hash msg trigger w.history).0;
}

-- `FullDeployPipeline`
unfoldable pub full_deploy_pipeline : DeployEnv → Config → Text → Text → World → Outcome
unfolding rollback_to_commit
full_deploy_pipeline env cfg commit_hash msg w =
    let dir : Text = cfg.service_dir in
    let id : Option ℕ = get_project_id_by_dir dir w.projects in
    let w₁ : World = set_status dir deploying w in
    let hash : Text = known_hash commit_hash env.head in
    let trigger : Trigger = trigger_of commit_hash in
    let w₂ : World = with_project id (recorded env hash msg trigger) w₁ in
    let w₃ : World = set_status dir failed w₂ in
    if not env.syncs
    then record { world = set_status dir failed w₁; next = finished; flow = returned }
    else if not env.deploys
    then roll_back env.on_failure cfg (target hash (previous id w₃.history)) w₃
    else record {
      world = record w₂ {
        projects =
            (update_last_commit_info true dir hash msg
              (update_commit_hash_local true dir hash w₂.projects).0).0;
      };
      next = health_check hash trigger 0;
      flow = returned;
    }

-- A health check in its goroutine: a panic ends the daemon, and with it the health check that was started
-- just before.
abbrev pub in_goroutine : Outcome → Outcome
in_goroutine o = elim o.flow [
  | returned ↦ o
  | panicked ↦ record o { next = finished; flow = daemon_ended }
  | daemon_ended ↦ o
]

-- The health check that an outcome asks for. A panic of the outcome itself is one of the pipeline, which
-- the queue's worker recovers.
unfoldable pub follow : HealthEnv → Config → Outcome → Outcome
unfolding post_deploy_health_check
follow env cfg o = elim o.next [
  | finished ↦ o
  | health_check hash trigger depth ↦
      in_goroutine (post_deploy_health_check env cfg hash depth o.world)
]

-- A deployment with everything that it starts: the pipeline and at most two health checks.
unfoldable pub deploy : DeployEnv → HealthEnv → HealthEnv → Config → Text → Text → World → Outcome
unfolding full_deploy_pipeline follow
deploy env first second cfg hash msg w =
    follow second cfg (follow first cfg (full_deploy_pipeline env cfg hash msg w))
