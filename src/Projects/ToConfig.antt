-- ===== src/Projects/ToConfig.antt =====
-- `ToConfig`: the runtime configuration of a registered project.
use cicd.Prelude.{
  pos, ◌≡◌, true, false, ◌&&◌, Option, List, [], ◌∷◌, arith, Text, is_set, if◌then◌else◌,
}
use cicd.Config.{Config}
use cicd.Settings.{Settings, load_global_into}
use cicd.Projects.{Project, overwrite}

pub data Field : Type 0 where
  service_dir repo_url service_name service_user : Field

abbrev required : Field → Text → List Field → List Field
required f [] rest = f ∷ rest
required f (c ∷ s) rest = rest

-- The required fields that a row lacks, in the order of the error message
unfoldable pub missing : Project → List Field
missing p = required service_dir p.service_dir (
    required repo_url p.repo_url
      (required service_name p.service_name (required service_user p.service_user [])))

-- The configuration before the gateway's settings are merged in. Fields that `ToConfig` does not name
-- have Go's zero values.
abbrev pub bare_config : Project → Config
bare_config p = record {
  setup = [];
  repo_url = p.repo_url;
  branch = p.branch;
  admin_email = p.admin_email;
  mongo_db_uri = p.mongo_db_uri;
  git_username = p.github_username;
  git_password = p.github_token;
  smtp_host = [];
  smtp_port = pos 0;
  smtp_user = [];
  smtp_pass = [];
  user = p.user;
  sudo_pass = p.sudo_pass;
  service_name = p.service_name;
  service_dir = p.service_dir;
  service_user = p.service_user;
  service_reset = [];
  webhook = p.webhook;
  webhook_secret = p.webhook_secret;
  public_ip = p.public_ip;
  notify_url = [];
  deploy_timeout = pos 0;
  skip_install_hash = false;
}

-- `ToConfig`: the configuration, or the missing fields
pub data Outcome : Type 0 where
  config : Config → Outcome
  lacks : List Field → Outcome

abbrev checked : List Field → Config → Outcome
checked [] cfg = config cfg
checked (f ∷ fs) cfg = lacks (f ∷ fs)

unfoldable pub to_config : Option Settings → Project → Outcome
unfolding missing load_global_into
to_config row p = checked (missing p) (load_global_into row (bare_config p))

-- A row is turned into a configuration exactly when the four required fields are set.
pub to_config_total :
    (row : Option Settings) (p : Project)
    → to_config row p ≡ (
        if is_set p.service_dir
          && (is_set p.repo_url && (is_set p.service_name && is_set p.service_user))
        then config (load_global_into row (bare_config p))
        else lacks (missing p))
unfolding to_config
to_config_total row p = ground arith

-- A row written from a configuration gives that configuration back, but for what is no column: its
-- directory, names, repository, branch, port and credentials, and its mail address and secrets if
-- they are set.
to_config-overwrite :
    (row : Option Settings) (cfg : Config) (p : Project)
    → is_set cfg.service_dir
        && (is_set cfg.repo_url && (is_set cfg.service_name && is_set cfg.service_user))
      ≡ true
    → to_config row (overwrite cfg p)
      ≡ config (
          load_global_into row (record cfg {
            setup = [];
            smtp_host = [];
            smtp_port = pos 0;
            smtp_user = [];
            smtp_pass = [];
            service_reset = [];
            notify_url = [];
            deploy_timeout = pos 0;
            skip_install_hash = false;
          }))
unfolding to_config
to_config-overwrite row cfg p h = ground arith
