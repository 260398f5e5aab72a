-- ===== src/Boot/Tests.antt =====
-- A start of the daemon.
use cicd.Prelude.{◌≡◌, refl, true, false, none, some, pos, [], ◌∷◌, Text, codes}
use cicd.Config.{Config}
use cicd.Config.Args.{ArgsEnv, parsed, finish_parse, validate_requirements}
use cicd.Config.Flags.{Given, parse_flags, parse}
use cicd.Paths.Resolve.{missing as not_there}
use cicd.Dashboard.Create.{CreateEnv}
use cicd.Boot.Setup.{SetupEnv, Host, serving, start_program}
use cicd.Boot.Setup.Survival.{nothing_given, Survives, loaded, settings-Survives}
use cicd.Process.{idle}
use cicd.Projects.{Project}
use cicd.Projects.ToConfig.{missing}
use cicd.Queue.Store.{no_queues, is_deployment_running}
use cicd.Boot.{SystemdEnv, restore_fleet}

abbrev site : Text → Text → Project
site name dir = record {
  id = 1;
  service_name = name;
  service_user = codes "www";
  repo_url = codes "r";
  branch = [];
  public_ip = [];
  webhook = pos 80;
  admin_email = [];
  service_dir = dir;
  user = [];
  last_commit_hash = [];
  last_commit_msg = [];
  github_token = [];
  github_username = [];
  sudo_pass = [];
  webhook_secret = [];
  mongo_db_uri = [];
  is_pinned = true;
  deploy_status = idle;
}

-- A project without a directory is skipped.
skipped :
    is_deployment_running (codes "/b") (restore_fleet none (site (codes "a") [] ∷ []) no_queues)
    ≡ false
unfolding restore_fleet is_deployment_running missing
skipped = refl

-- A setup in which every flag is given, on a host without tables.
abbrev all_given : Given
all_given = record { texts = λ name. some (codes "x"); numbers = λ name. some (pos 25) }

abbrev quiet_args : ArgsEnv
quiet_args = record { is_valid = λ s. true; public_ip = codes "192.0.2.7"; secret_key = codes "k" }

abbrev outside : SystemdEnv
outside = record { invocation_id = []; journal_stream = []; folds_to_run = λ s. false }

abbrev bare_create : CreateEnv
bare_create = record {
  disk = record {
    cwd = record { rooted = true; parts = [] };
    eval_symlinks = λ p. none;
    stat = λ p. not_there;
    random = none;
    to_lower = λ s. s;
  };
  user_random = none;
  user_number = codes "7";
  is_ip = λ s. true;
  prepares = λ user dir. true;
  registers = true;
}

abbrev first_start : SetupEnv
first_start = record {
  args = quiet_args;
  systemd = outside;
  create = bare_create;
  saves = true;
  executable = true;
  reads_paths = true;
  writes_service = true;
  systemctl = true;
}

abbrev second_start : SetupEnv
second_start = record first_start { systemd = record outside { invocation_id = codes "i" } }

abbrev bare_host : Host
bare_host = record { settings = none; projects = record { rows = []; next_id = 1 }; fleet = [] }

chosen : Config
unfolding parse_flags
chosen = parse_flags all_given

chosen-parsed : parse first_start.args all_given ≡ parsed chosen
unfolding parse finish_parse validate_requirements parse_flags chosen
chosen-parsed = refl

settings-Survives_example :
    (after : Config) × (start_program second_start nothing_given
        (start_program first_start all_given bare_host).0
      ≡ ((start_program first_start all_given bare_host).0, serving after))
    × Survives (loaded all_given bare_host chosen) after
settings-Survives_example =
    settings-Survives first_start second_start all_given bare_host chosen chosen-parsed refl refl
      refl
