-- ===== src/Boot.antt =====
-- The start of the daemon (gosrc/main.go): every registered project is deployed through its queue. Each
-- project has its goroutine, so the calls come in any order: a list is one such order.
pub mod Fleet
pub mod Setup
mod Tests
use cicd.Prelude.{
  Bool, true, false, not, ◌||◌, Option, none, some, List, [], ◌∷◌, Text, codes, same, is_set,
  if◌then◌else◌,
}
use cicd.Config.{Config}
use cicd.Settings.{Settings}
use cicd.Projects.{Project}
use cicd.Projects.ToConfig.{Outcome, config, lacks, to_config}
use cicd.Queue.Store.{Queues, enqueue_deployment}

-- The environment that `isRunningUnderSystemd` looks at; `folds_to_run` is `strings.EqualFold` with "run".
pub record SystemdEnv : Type 0 where
  pub invocation_id : Text
  pub journal_stream : Text
  pub folds_to_run : Text → Bool

-- `isRunningUnderSystemd`
abbrev pub is_running_under_systemd : SystemdEnv → Config → Bool
is_running_under_systemd env cfg =
    env.folds_to_run cfg.setup || (is_set env.invocation_id || is_set env.journal_stream)

abbrev pub queued : Outcome → Queues → Queues
queued (lacks fs) qs = qs
queued (config cfg) qs = (enqueue_deployment cfg [] [] qs).0

-- The loop over `GetAllProjects`
unfoldable pub restore_fleet : Option Settings → List Project → Queues → Queues
unfolding to_config enqueue_deployment
restore_fleet row [] qs = qs
restore_fleet row (p ∷ ps) qs = restore_fleet row ps (queued (to_config row p) qs)
