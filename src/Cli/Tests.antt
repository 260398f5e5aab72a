-- ===== src/Cli/Tests.antt =====
-- Runs of the commands, and the theorem at a concrete input.
use cicd.Prelude.{
  ℕ, ◌≡◌, refl, true, false, none, some, Option, pos, [], ◌∷◌, Text, codes, text_discrete, find,
}
use cicd.Config.{Config}
use cicd.Process.{install_only, installed}
use cicd.History.Target.{all_done}
use cicd.Projects.{new_project, status_of}
use cicd.Projects.ToConfig.{missing, bare_config, to_config}
use cicd.Pipeline.{World, RollbackEnv}
use cicd.Pipeline.Rows.{row}
use cicd.Cli.{done, crashed, resolve_project, handle_rollback, handle_pin}
use cicd.Cli.Rollback.{handle_rollback-deploying}

abbrev site : Config
site = record {
  setup = [];
  repo_url = codes "r";
  branch = [];
  admin_email = codes "ops";
  mongo_db_uri = [];
  git_username = [];
  git_password = [];
  smtp_host = [];
  smtp_port = pos 587;
  smtp_user = [];
  smtp_pass = [];
  user = [];
  sudo_pass = [];
  service_name = codes "site";
  service_dir = codes "/srv/site";
  service_user = codes "root";
  service_reset = [];
  webhook = pos 9641;
  webhook_secret = codes "s";
  public_ip = codes "localhost";
  notify_url = [];
  deploy_timeout = pos 1800;
  skip_install_hash = false;
}

abbrev start : World
start = record {
  projects = record { rows = new_project 1 site ∷ []; next_id = 2 };
  history = record { entries = []; next_id = 1 };
}

abbrev as_id : Text → Option ℕ
as_id arg = none

abbrev env : RollbackEnv
env = record { log_opens = true; deploys = true; marks = true; sets = all_done; now = 5 }

handle_rollback-deploying_example :
    ((handle_rollback as_id true install_only env none
        (codes "site" ∷ codes "1234567890" ∷ [])
        start).1
      ≡ done)
    × (status_of (
          row
            (codes "/srv/site")
            (handle_rollback as_id true install_only env none
              (codes "site" ∷ codes "1234567890" ∷ [])
              start).0)
        ≡ some installed)
handle_rollback-deploying_example =
    handle_rollback-deploying as_id true install_only env none (codes "site") (codes "1234567890")
      start (new_project 1 site) (new_project 1 site) (bare_config (new_project 1 site))
      (unfold resolve_project find text_discrete in refl) (unfold to_config missing in refl)
      (unfold find text_discrete in refl) refl refl

-- A hash of seven characters.
short_hash :
    (handle_rollback as_id true install_only env none (codes "site" ∷ codes "1234567" ∷ []) start).1
    ≡ crashed
unfolding handle_rollback find text_discrete
short_hash = refl

-- The hash that the help names for `cicd pin` is not looked at.
pin_ignores_hash :
    handle_pin as_id true true (codes "site" ∷ codes "abc" ∷ []) start.projects
    ≡ handle_pin as_id true true (codes "site" ∷ []) start.projects
unfolding handle_pin
pin_ignores_hash = refl
