-- ===== src/Boot/Setup/Survival.antt =====
-- What the daemon takes over from its setup.
use cicd.Prelude.{
  ℤ, is_positive, ◌≡◌, refl, sym, ap, ◌∙◌, Bool, true, false, not, Option, none, [], ◌∷◌, arith,
  Text, codes, is_empty, is_set, if◌then◌else◌,
}
use mathlib.Core.Path.{subst}
use cicd.Config.{Config}
use cicd.Config.Args.{ArgsEnv, Parsed, parsed, validate_requirements, completed, finish_parse}
use cicd.Config.Flags.{Given, explicit_flags, parse_flags, parse}
use cicd.Settings.{Settings, apply, apply_int, save_global_settings, load_global_settings}
use cicd.Paths.Resolve.{Resolved, ok, err, resolve_deployment_path}
use cicd.Paths.{print}
use cicd.Dashboard.Create.{setup_project_folder}
use cicd.Boot.{SystemdEnv, is_running_under_systemd}
use cicd.Boot.Setup.{
  SetupEnv, Host, Started, serving, install_service, register_on, on_placed, set_up, setup_path,
  configured, on_flags, start_program,
}

-- No flag at all.
abbrev pub nothing_given : Given
nothing_given = record { texts = λ name. none; numbers = λ name. none }

-- The settings of the daemon are those of the setup: those that can be empty in any case, and the
-- others if they were set.
pub record Survives (before after : Config) : Type 0 where
  pub mongo_db_uri : after.mongo_db_uri ≡ before.mongo_db_uri
  pub admin_email : after.admin_email ≡ before.admin_email
  pub smtp_host : after.smtp_host ≡ before.smtp_host
  pub smtp_user : after.smtp_user ≡ before.smtp_user
  pub smtp_pass : after.smtp_pass ≡ before.smtp_pass
  pub notify_url : after.notify_url ≡ before.notify_url
  pub webhook_secret :
      is_set before.webhook_secret ≡ true → after.webhook_secret ≡ before.webhook_secret
  pub public_ip : is_set before.public_ip ≡ true → after.public_ip ≡ before.public_ip
  pub webhook : is_positive before.webhook ≡ true → after.webhook ≡ before.webhook
  pub smtp_port : is_positive before.smtp_port ≡ true → after.smtp_port ≡ before.smtp_port
  pub deploy_timeout :
      is_positive before.deploy_timeout ≡ true → after.deploy_timeout ≡ before.deploy_timeout

apply-empty : (b : Bool) (db current : Text) → b ≡ false → current ≡ [] → apply b db current ≡ db
apply-empty b [] current h e = ground (arith, h, e)
apply-empty b (c ∷ db) current h e = ground (arith, h)

apply-set : (b : Bool) (db current : Text) → b ≡ false → is_set db ≡ true → apply b db current ≡ db
apply-set b db current h e = ground (arith, h, e)

apply_int-positive :
    (b : Bool) (db current : ℤ) → b ≡ false → is_positive db ≡ true → apply_int b db current ≡ db
apply_int-positive b db current h e = ground (arith, h, e)

-- Loading, without flags and into empty defaults, what was saved.
load-save :
    (before : Config) (row : Option Settings) (flags : Text → Bool) (fresh : Config)
    → ((name : Text) → flags name ≡ false)
    → fresh.mongo_db_uri ≡ []
    → fresh.admin_email ≡ []
    → fresh.smtp_host ≡ []
    → fresh.smtp_user ≡ []
    → fresh.smtp_pass ≡ []
    → fresh.notify_url ≡ []
    → Survives before (load_global_settings flags (save_global_settings true before row) fresh)
unfolding load_global_settings save_global_settings
load-save before row flags fresh f m a h u p n = record {
  mongo_db_uri = apply-empty _ before.mongo_db_uri _ (f (codes "mongodb-uri")) m;
  admin_email = apply-empty _ before.admin_email _ (f (codes "admin-email")) a;
  smtp_host = apply-empty _ before.smtp_host _ (f (codes "smtp-host")) h;
  smtp_user = apply-empty _ before.smtp_user _ (f (codes "smtp-user")) u;
  smtp_pass = apply-empty _ before.smtp_pass _ (f (codes "smtp-pass")) p;
  notify_url = apply-empty _ before.notify_url _ (f (codes "notify-url")) n;
  webhook_secret = apply-set _ before.webhook_secret _ (f (codes "webhook-secret"));
  public_ip = apply-set _ before.public_ip _ (f (codes "public-ip"));
  webhook = apply_int-positive _ before.webhook _ (f (codes "webhook"));
  smtp_port = apply_int-positive _ before.smtp_port _ (f (codes "smtp-port"));
  deploy_timeout = apply_int-positive _ before.deploy_timeout _ (f (codes "deploy-timeout"));
}

either :
    (b : Bool) (x y : Host × Started) (s : Option Settings)
    → x.0.settings ≡ s
    → y.0.settings ≡ s
    → (if b then x else y).0.settings ≡ s
either true x y s p q = p
either false x y s p q = q

install-settings :
    (env : SetupEnv) (cfg : Config) (h : Host) → (install_service env cfg h).0.settings ≡ h.settings
install-settings env cfg h =
    either (not env.writes_service) _ _ h.settings refl
      (either env.systemctl _ _ h.settings refl refl)

on_placed-settings :
    (env : SetupEnv) (cfg : Config) (h : Host) (r : Resolved)
    → (on_placed env cfg h r).0.settings ≡ h.settings
unfolding on_placed register_on
on_placed-settings env cfg h (err e) = refl
on_placed-settings env cfg h (ok p) =
    either (not (setup_project_folder env.create (record cfg { service_dir = print p.final_path })))
      _ _ h.settings refl
      (install-settings env (record cfg { service_dir = print p.final_path })
        (register_on env (record cfg { service_dir = print p.final_path }) h))

-- Whatever the setup does behind it, the saved settings stay.
set_up-settings :
    (env : SetupEnv) (cfg : Config) (h : Host) → (set_up env cfg h).0.settings ≡ h.settings
unfolding set_up
set_up-settings env cfg h = either (not env.executable) _ _ h.settings refl (
    either (is_empty cfg.repo_url) _ _ h.settings (install-settings env cfg h) (
      on_placed-settings env cfg h
        (resolve_deployment_path env.create.disk (setup_path env cfg h))))

-- The configuration of a start behind `LoadGlobalSettings`.
abbrev pub loaded : Given → Host → Config → Config
loaded given h cfg = load_global_settings (explicit_flags given) h.settings cfg

configured-settings :
    (env : SetupEnv) (cfg : Config) (h : Host)
    → is_running_under_systemd env.systemd cfg ≡ false
    → env.saves ≡ true
    → (configured env cfg h).0.settings ≡ save_global_settings true cfg h.settings
unfolding configured
configured-settings env cfg h d s =
    let saved : Host = record h { settings = save_global_settings env.saves cfg h.settings } in
    ap (λ (b : Bool). (if b then (h, serving cfg) else set_up env cfg saved).0.settings) d
    ∙ set_up-settings env cfg saved
    ∙ ap (λ (b : Bool). save_global_settings b cfg h.settings) s

setup-settings :
    (env : SetupEnv) (given : Given) (h : Host) (cfg : Config)
    → parse env.args given ≡ parsed cfg
    → is_running_under_systemd env.systemd (loaded given h cfg) ≡ false
    → env.saves ≡ true
    → (start_program env given h).0.settings
      ≡ save_global_settings true (loaded given h cfg) h.settings
unfolding start_program on_flags
setup-settings env given h cfg p d s =
    ap (λ (r : Parsed). (on_flags env given h r).0.settings) p
    ∙ configured-settings env (loaded given h cfg) h d s

-- What `Parse` gives without flags.
fresh_config : ArgsEnv → Config
fresh_config env = completed env (parse_flags nothing_given)

under_systemd :
    (env : SystemdEnv) (cfg : Config)
    → is_set env.invocation_id ≡ true
    → is_running_under_systemd env cfg ≡ true
under_systemd env cfg h = ground (arith, h)

serves :
    (env : SetupEnv) (h : Host)
    → is_set env.systemd.invocation_id ≡ true
    → start_program env nothing_given h
      ≡ (h, serving (loaded nothing_given h (fresh_config env.args)))
unfolding start_program on_flags configured parse finish_parse validate_requirements parse_flags
    fresh_config
serves env h i =
    let cfg : Config = loaded nothing_given h (fresh_config env.args) in
    ap
      (λ (b : Bool).
        if b
        then (h, serving cfg)
        else set_up env cfg (record h { settings = save_global_settings env.saves cfg h.settings }))
      (under_systemd env.systemd cfg i)

-- A start under systemd without flags serves with the settings that the setup ran with, whatever flags
-- the setup was given, whatever was stored before, and whatever of the setup failed after the settings
-- were saved: the addresses, the mail host and its account in any case, the webhook secret, the public
-- address, the ports and the time limit if they were set. The setup is no start under systemd, its flags
-- are accepted, and its settings are saved.
pub settings-Survives :
    (setup daemon : SetupEnv) (given : Given) (h : Host) (cfg : Config)
    → parse setup.args given ≡ parsed cfg
    → is_running_under_systemd setup.systemd (loaded given h cfg) ≡ false
    → setup.saves ≡ true
    → is_set daemon.systemd.invocation_id ≡ true
    → let left : Host = (start_program setup given h).0 in
      (after : Config) × (start_program daemon nothing_given left ≡ (left, serving after))
      × Survives (loaded given h cfg) after
unfolding fresh_config parse_flags
settings-Survives setup daemon given h cfg p d s i =
    let left : Host = (start_program setup given h).0 in
    (
      loaded nothing_given left (fresh_config daemon.args),
      serves daemon left i,
      subst
          (λ (row : Option Settings).
            Survives (loaded given h cfg)
              (load_global_settings (explicit_flags nothing_given) row (fresh_config daemon.args)))
          (sym (setup-settings setup given h cfg p d s))
          (load-save (loaded given h cfg) h.settings (explicit_flags nothing_given)
            (fresh_config daemon.args) (λ name. refl) refl refl refl refl refl refl),
    )
