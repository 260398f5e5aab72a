-- ===== src/Settings.antt =====
-- The single row of gateway settings (gosrc/database/registry.go, GLOBAL SETTINGS), how it is merged
-- into a configuration, and what `Notify` (gosrc/actions/notify.go) does to one.
pub mod Merge
pub mod Token
pub mod Expiry
mod Tests
use cicd.Prelude.{
  ℕ, ℤ, pos, negsuc, is_positive, is_zero, Bool, true, false, not, ◌&&◌, Option, none, some, List,
  [], ◌∷◌, Text, codes, same, is_empty, is_set, if◌then◌else◌,
}
use cicd.Config.{Config}

pub record Settings : Type 0 where
  pub mongo_db_uri : Text
  pub admin_email : Text
  pub webhook_port : ℤ
  pub webhook_secret : Text
  pub smtp_host : Text
  pub smtp_port : ℤ
  pub smtp_user : Text
  pub smtp_pass : Text
  pub public_ip : Text
  pub notify_url : Text
  pub deploy_timeout : ℤ
  pub jwt_secret : Text
  pub setup_token : Text
  pub setup_token_expires : Option Text

-- A row with the table's defaults
abbrev pub default_settings : Settings
default_settings = record {
  mongo_db_uri = [];
  admin_email = [];
  webhook_port = pos 9641;
  webhook_secret = [];
  smtp_host = [];
  smtp_port = pos 587;
  smtp_user = [];
  smtp_pass = [];
  public_ip = [];
  notify_url = [];
  deploy_timeout = pos 1800;
  jwt_secret = [];
  setup_token = [];
  setup_token_expires = none;
}

abbrev row_or_default : Option Settings → Settings
row_or_default none = default_settings
row_or_default (some s) = s

-- `SaveGlobalSettings`: an upsert of the row with id 1
unfoldable pub save_global_settings : Bool → Config → Option Settings → Option Settings
save_global_settings done cfg row =
    if done
    then some (record (row_or_default row) {
      mongo_db_uri = cfg.mongo_db_uri;
      admin_email = cfg.admin_email;
      webhook_port = cfg.webhook;
      webhook_secret = cfg.webhook_secret;
      smtp_host = cfg.smtp_host;
      smtp_port = cfg.smtp_port;
      smtp_user = cfg.smtp_user;
      smtp_pass = cfg.smtp_pass;
      public_ip = cfg.public_ip;
      notify_url = cfg.notify_url;
      deploy_timeout = cfg.deploy_timeout;
    })
    else row

-- The closure `apply` of `LoadGlobalSettings`
abbrev pub apply : Bool → Text → Text → Text
apply explicit db current = if explicit then current else if is_set db then db else current

abbrev pub apply_int : Bool → ℤ → ℤ → ℤ
apply_int explicit db current = if not explicit && is_positive db then db else current

-- `LoadGlobalSettings`; `flags` is `parser.ExplicitFlags`.
unfoldable pub load_global_settings : (Text → Bool) → Option Settings → Config → Config
load_global_settings flags none cfg = cfg
load_global_settings flags (some s) cfg = record cfg {
  mongo_db_uri = apply (flags (codes "mongodb-uri")) s.mongo_db_uri cfg.mongo_db_uri;
  admin_email = apply (flags (codes "admin-email")) s.admin_email cfg.admin_email;
  webhook_secret = apply (flags (codes "webhook-secret")) s.webhook_secret cfg.webhook_secret;
  smtp_host = apply (flags (codes "smtp-host")) s.smtp_host cfg.smtp_host;
  smtp_user = apply (flags (codes "smtp-user")) s.smtp_user cfg.smtp_user;
  smtp_pass = apply (flags (codes "smtp-pass")) s.smtp_pass cfg.smtp_pass;
  public_ip = apply (flags (codes "public-ip")) s.public_ip cfg.public_ip;
  notify_url = apply (flags (codes "notify-url")) s.notify_url cfg.notify_url;
  smtp_port = apply_int (flags (codes "smtp-port")) s.smtp_port cfg.smtp_port;
  deploy_timeout = apply_int (flags (codes "deploy-timeout")) s.deploy_timeout cfg.deploy_timeout;
  webhook = apply_int (flags (codes "webhook")) s.webhook_port cfg.webhook;
}

abbrev pub fill : Text → Text → Text
fill current db = if is_empty current then db else current

abbrev pub fill_int : ℤ → ℤ → ℤ
fill_int current db = if is_zero current then db else current

-- `loadGlobalInto`
unfoldable pub load_global_into : Option Settings → Config → Config
load_global_into none cfg = cfg
load_global_into (some s) cfg = record cfg {
  smtp_host = fill cfg.smtp_host s.smtp_host;
  smtp_port = fill_int cfg.smtp_port s.smtp_port;
  smtp_user = fill cfg.smtp_user s.smtp_user;
  smtp_pass = fill cfg.smtp_pass s.smtp_pass;
  notify_url = fill cfg.notify_url s.notify_url;
  admin_email = fill cfg.admin_email s.admin_email;
  deploy_timeout = fill_int cfg.deploy_timeout s.deploy_timeout;
  public_ip = fill cfg.public_ip s.public_ip;
  mongo_db_uri = fill cfg.mongo_db_uri s.mongo_db_uri;
  webhook_secret = fill cfg.webhook_secret s.webhook_secret;
}

abbrev restored : Text → Text → Text
restored project merged = if is_set project then project else merged

-- What `Notify` leaves in the caller's configuration before it sends anything.
unfoldable pub notify_config : (Text → Bool) → Option Settings → Config → Config
unfolding load_global_settings
notify_config flags row cfg =
    if not (is_empty cfg.smtp_host)
    then cfg
    else let merged : Config = load_global_settings flags row cfg in
      record merged {
        admin_email = restored cfg.admin_email merged.admin_email;
        notify_url = restored cfg.notify_url merged.notify_url;
      }
