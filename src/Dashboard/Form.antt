-- ===== src/Dashboard/Form.antt =====
-- The gateway's settings form (gosrc/api/server.go: PUT /settings).
use cicd.Prelude.{
  ℤ, is_positive, ◌≡◌, refl, ap, Bool, true, false, ◌||◌, Option, none, some, [], ◌∷◌, Text, codes,
  same, is_set, is_zero, is_empty, arith, if◌then◌else◌,
}
use cicd.Config.{Config}
use cicd.Settings.{Settings, apply, apply_int, load_global_settings, save_global_settings}

pub record SettingsRequest : Type 0 where
  pub mongo_db_uri : Text
  pub admin_email : Text
  pub webhook_port : ℤ
  pub webhook_secret : Text
  pub smtp_host : Text
  pub smtp_port : ℤ
  pub smtp_user : Text
  pub smtp_pass : Text
  pub public_ip : Text
  pub notify_url : Text
  pub deploy_timeout : ℤ

abbrev pub given : Text → Text → Text
given value old = if is_set value then value else old

abbrev pub given_int : ℤ → ℤ → ℤ
given_int value old = if is_zero value then old else value

-- The fields that were sent replace the gateway's; `detected` is the answer of `GetPublicIP`.
unfoldable pub form_config : (Text → Text) → Text → SettingsRequest → Config → Config
form_config to_upper detected r cfg = record cfg {
  mongo_db_uri = given r.mongo_db_uri cfg.mongo_db_uri;
  admin_email = given r.admin_email cfg.admin_email;
  webhook = given_int r.webhook_port cfg.webhook;
  webhook_secret = given r.webhook_secret cfg.webhook_secret;
  smtp_host = given r.smtp_host cfg.smtp_host;
  smtp_port = given_int r.smtp_port cfg.smtp_port;
  smtp_user = given r.smtp_user cfg.smtp_user;
  smtp_pass = given r.smtp_pass cfg.smtp_pass;
  notify_url = given r.notify_url cfg.notify_url;
  deploy_timeout = given_int r.deploy_timeout cfg.deploy_timeout;
  public_ip =
      if same (to_upper r.public_ip) (codes "AUTO") || is_empty r.public_ip
      then detected
      else cfg.public_ip;
}

-- The row of settings and the configuration that the route leaves, and whether the gateway restarts.
-- An error of the write is ignored.
unfoldable pub put_settings :
    (Text → Text)
    → Text
    → Bool
    → Option SettingsRequest
    → Config
    → Option Settings
    → (Option Settings × Config) × Bool
unfolding form_config save_global_settings
put_settings to_upper detected written none cfg row = ((row, cfg), false)
put_settings to_upper detected written (some r) cfg row =
    let new : Config = form_config to_upper detected r cfg in
    ((save_global_settings written new row, new), true)

abbrev pub with_ip : SettingsRequest → Text → SettingsRequest
with_ip r ip = record r { public_ip = ip }

form_config-address :
    (to_upper : Text → Text) (detected a b : Text) (r : SettingsRequest) (cfg : Config)
    → (same (to_upper a) (codes "AUTO") || is_empty a) ≡ false
    → (same (to_upper b) (codes "AUTO") || is_empty b) ≡ false
    → form_config to_upper detected (with_ip r a) cfg
      ≡ form_config to_upper detected (with_ip r b) cfg
unfolding form_config
form_config-address to_upper detected a b r cfg h k = rw (h, k) refl

-- An address that is sent is never saved: what the form leaves does not depend on it, unless it is
-- empty or its upper case is AUTO.
put_settings-address :
    (to_upper : Text → Text) (detected a b : Text) (written : Bool) (r : SettingsRequest)
    (cfg : Config) (row : Option Settings)
    → (same (to_upper a) (codes "AUTO") || is_empty a) ≡ false
    → (same (to_upper b) (codes "AUTO") || is_empty b) ≡ false
    → put_settings to_upper detected written (some (with_ip r a)) cfg row
      ≡ put_settings to_upper detected written (some (with_ip r b)) cfg row
unfolding put_settings
put_settings-address to_upper detected a b written r cfg row h k =
    ap (λ (new : Config). ((save_global_settings written new row, new), true))
      (form_config-address to_upper detected a b r cfg h k)

given-apply : (a b c : Text) → apply false (given a b) c ≡ given a (given b c)
given-apply [] b c = refl
given-apply (x ∷ a) b c = refl

given_int-apply : (a b c : ℤ) → is_positive a ≡ true → apply_int false (given_int a b) c ≡ a
given_int-apply a b c h = ground arith

-- What a gateway that is started without flags finds after the form was saved: of the mail host and
-- user, the mail address, the secret, the MongoDB address and the notification address each is what
-- was sent, or else what the gateway had, or else what the new process has. The port, the mail port
-- and the timeout are what was sent, if that is above 0.
put_settings-restart :
    (to_upper : Text → Text) (detected : Text) (r : SettingsRequest) (cfg other : Config)
    (row : Option Settings)
    → is_positive r.webhook_port ≡ true
    → is_positive r.smtp_port ≡ true
    → is_positive r.deploy_timeout ≡ true
    → let left : (Option Settings × Config) × Bool =
        put_settings to_upper detected true (some r) cfg row in
      let loaded : Config = load_global_settings (λ name. false) left.0.0 other in
      (loaded.smtp_host ≡ given r.smtp_host (given cfg.smtp_host other.smtp_host))
      × (loaded.smtp_user ≡ given r.smtp_user (given cfg.smtp_user other.smtp_user))
      × (loaded.admin_email ≡ given r.admin_email (given cfg.admin_email other.admin_email))
      × (loaded.webhook_secret
          ≡ given r.webhook_secret (given cfg.webhook_secret other.webhook_secret))
      × (loaded.mongo_db_uri ≡ given r.mongo_db_uri (given cfg.mongo_db_uri other.mongo_db_uri))
      × (loaded.notify_url ≡ given r.notify_url (given cfg.notify_url other.notify_url))
      × (loaded.webhook ≡ r.webhook_port)
      × (loaded.smtp_port ≡ r.smtp_port)
      × (loaded.deploy_timeout ≡ r.deploy_timeout)
unfolding put_settings form_config load_global_settings save_global_settings
put_settings-restart to_upper detected r cfg other row h k l = (
  given-apply r.smtp_host cfg.smtp_host other.smtp_host,
  given-apply r.smtp_user cfg.smtp_user other.smtp_user,
  given-apply r.admin_email cfg.admin_email other.admin_email,
  given-apply r.webhook_secret cfg.webhook_secret other.webhook_secret,
  given-apply r.mongo_db_uri cfg.mongo_db_uri other.mongo_db_uri,
  given-apply r.notify_url cfg.notify_url other.notify_url,
  given_int-apply r.webhook_port cfg.webhook other.webhook h,
  given_int-apply r.smtp_port cfg.smtp_port other.smtp_port k,
  given_int-apply r.deploy_timeout cfg.deploy_timeout other.deploy_timeout l,
)
