-- ===== src/Dashboard/Run.antt =====
-- A single command for a project (gosrc/api/server.go: POST /projects/:id/run;
-- gosrc/actions/executor.go: RunCustomCommand). The accounts that the system has, and what a command
-- writes and whether it succeeds, are arguments.
use cicd.Prelude.{
  ℕ, ◌≡◌, refl, Bool, Bool-cases, inl, inr, true, not, Option, none, some, List, [], ◌∷◌, ◌++◌,
  Text, codes, if◌then◌else◌,
}
use cicd.Config.{Config}
use cicd.Projects.{get_project_by_id}
use cicd.Projects.ToConfig.{Outcome, config, lacks, to_config}
use cicd.Terminal.{Account}
use cicd.Dashboard.{Dashboard}
use cicd.Dashboard.Create.{is_valid_username}

-- The process of a command.
pub record Launch : Type 0 where
  pub command : Text
  pub dir : Text
  pub uid : ℕ
  pub gid : ℕ
  pub added_env : List Text

pub data RunAnswer : Type 0 where
  invalid_request unknown_project incomplete_project : RunAnswer
  invalid_user unknown_user : RunAnswer
  output command_failed : Text → RunAnswer

pub record RunEnv : Type 0 where
  pub lookup : Text → Option Account
  pub combined_output : Launch → Text × Bool

abbrev pub launch_as : Config → Text → Account → Launch
launch_as cfg command u = record {
  command = command;
  dir = cfg.service_dir;
  uid = u.uid;
  gid = u.gid;
  added_env = (codes "HOME=" ++ u.home_dir) ∷ (codes "USER=" ++ cfg.service_user) ∷ [];
}

abbrev pub answer_of : Text × Bool → RunAnswer
answer_of (text, ok) = if ok then output text else command_failed text

abbrev pub run_as : RunEnv → Config → Text → Option Account → Option Launch × RunAnswer
run_as env cfg command none = (none, unknown_user)
run_as env cfg command (some u) =
    (some (launch_as cfg command u), answer_of (env.combined_output (launch_as cfg command u)))

-- `RunCustomCommand`, with the process that it starts.
unfoldable pub run_custom_command : RunEnv → Config → Text → Option Launch × RunAnswer
unfolding is_valid_username
run_custom_command env cfg command =
    if not (is_valid_username cfg.service_user)
    then (none, invalid_user)
    else run_as env cfg command (env.lookup cfg.service_user)

abbrev pub run_configured : RunEnv → Text → Outcome → Option Launch × RunAnswer
run_configured env command (lacks fs) = (none, incomplete_project)
run_configured env command (config cfg) = run_custom_command env cfg command

-- `POST /projects/:id/run`
unfoldable pub run_command : RunEnv → ℕ → Option Text → Dashboard → Option Launch × RunAnswer
unfolding run_custom_command to_config
run_command env id none d = (none, invalid_request)
run_command env id (some command) d = elim (get_project_by_id id d.projects) [
  | none ↦ (none, unknown_project)
  | some p ↦ run_configured env command (to_config d.settings p)
]

-- The user is one that the system knows by the project's name for it, and the name is valid.
abbrev pub IsOwn : RunEnv → Config → Option Launch → Type 0
IsOwn env cfg none = Unit
IsOwn env cfg (some l) =
    (is_valid_username cfg.service_user ≡ true)
    × ((u : Account) × (env.lookup cfg.service_user ≡ some u)
        × (l.uid ≡ u.uid)
        × (l.dir ≡ cfg.service_dir))

run_as-IsOwn :
    (env : RunEnv) (cfg : Config) (command : Text) (o : Option Account)
    → is_valid_username cfg.service_user ≡ true
    → env.lookup cfg.service_user ≡ o
    → IsOwn env cfg (run_as env cfg command o).0
run_as-IsOwn env cfg command none v e = tt
run_as-IsOwn env cfg command (some u) v e = (v, (u, e, refl, refl))

-- A command runs, if it runs at all, as the project's user: other than a terminal, it never falls back
-- to the daemon's.
pub run_custom_command-IsOwn :
    (env : RunEnv) (cfg : Config) (command : Text)
    → IsOwn env cfg (run_custom_command env cfg command).0
unfolding run_custom_command
run_custom_command-IsOwn env cfg command = elim (Bool-cases (is_valid_username cfg.service_user)) [
  | inl e ↦ rw e (run_as-IsOwn env cfg command (env.lookup cfg.service_user) e refl)
  | inr e ↦ rw e tt
]
