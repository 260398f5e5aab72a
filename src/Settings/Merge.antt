-- ===== src/Settings/Merge.antt =====
-- What the merges keep and what they replace.
use cicd.Prelude.{
  ◌⊎◌, inl, inr, zero, ℕ, suc, ℤ, pos, negsuc, is_positive, ◌≡◌, refl, Bool, true, false, ◌&&◌,
  Option, none, some, [], ◌∷◌, arith, Text, codes, is_set,
}
use cicd.Config.{Config}
use cicd.Settings.{
  Settings, save_global_settings, apply, apply_int, load_global_settings, fill, fill_int,
  load_global_into, notify_config,
}

fill_idem : (a b : Text) → fill (fill a b) b ≡ fill a b
fill_idem [] [] = refl
fill_idem [] (c ∷ b) = refl
fill_idem (c ∷ a) b = refl

fill_int_idem : (a b : ℤ) → fill_int (fill_int a b) b ≡ fill_int a b
fill_int_idem a b = ground arith

apply_idem : (x : Bool) (a b : Text) → apply x a (apply x a b) ≡ apply x a b
apply_idem x a b = ground arith

apply_int_idem : (x : Bool) (a b : ℤ) → apply_int x a (apply_int x a b) ≡ apply_int x a b
apply_int_idem x a b = ground arith

-- Merging the same settings a second time changes nothing, at the start of the daemon and for a
-- project alike.
load_idem :
    (flags : Text → Bool) (row : Option Settings) (cfg : Config)
    → (load_global_into row (load_global_into row cfg) ≡ load_global_into row cfg)
      × (load_global_settings flags row (load_global_settings flags row cfg)
          ≡ load_global_settings flags row cfg)
unfolding load_global_into load_global_settings
load_idem flags none cfg = (refl, refl)
load_idem flags (some s) cfg = (simp (fill_idem, fill_int_idem), simp (apply_idem, apply_int_idem))

-- The merge into a project replaces a field only where the project has none: every text that is set
-- and every number that is not 0 stays.
pub record Keeps (before after : Config) : Type 0 where
  pub smtp_host : before.smtp_host ≡ [] ⊎ after.smtp_host ≡ before.smtp_host
  pub smtp_port : before.smtp_port ≡ pos 0 ⊎ after.smtp_port ≡ before.smtp_port
  pub notify_url : before.notify_url ≡ [] ⊎ after.notify_url ≡ before.notify_url
  pub admin_email : before.admin_email ≡ [] ⊎ after.admin_email ≡ before.admin_email
  pub deploy_timeout : before.deploy_timeout ≡ pos 0 ⊎ after.deploy_timeout ≡ before.deploy_timeout
  pub public_ip : before.public_ip ≡ [] ⊎ after.public_ip ≡ before.public_ip
  pub mongo_db_uri : before.mongo_db_uri ≡ [] ⊎ after.mongo_db_uri ≡ before.mongo_db_uri
  pub webhook_secret : before.webhook_secret ≡ [] ⊎ after.webhook_secret ≡ before.webhook_secret
  pub webhook : after.webhook ≡ before.webhook
  pub repo_url : after.repo_url ≡ before.repo_url
  pub branch : after.branch ≡ before.branch
  pub service_dir : after.service_dir ≡ before.service_dir

fill_keeps : (a b : Text) → a ≡ [] ⊎ fill a b ≡ a
fill_keeps [] b = inl refl
fill_keeps (c ∷ a) b = inr refl

fill_int_keeps : (a b : ℤ) → a ≡ pos 0 ⊎ fill_int a b ≡ a
fill_int_keeps (pos zero) b = inl refl
fill_int_keeps (pos (suc n)) b = inr refl
fill_int_keeps (negsuc n) b = inr refl

-- The merge into a project keeps its port, repository, branch and directory, and every other field
-- that the project has set.
load_global_into-Keeps :
    (row : Option Settings) (cfg : Config) → Keeps cfg (load_global_into row cfg)
unfolding load_global_into
load_global_into-Keeps none cfg = record {
  smtp_host = inr refl;
  smtp_port = inr refl;
  notify_url = inr refl;
  admin_email = inr refl;
  deploy_timeout = inr refl;
  public_ip = inr refl;
  mongo_db_uri = inr refl;
  webhook_secret = inr refl;
  webhook = refl;
  repo_url = refl;
  branch = refl;
  service_dir = refl;
}
load_global_into-Keeps (some s) cfg = record {
  smtp_host = fill_keeps _ _;
  smtp_port = fill_int_keeps _ _;
  notify_url = fill_keeps _ _;
  admin_email = fill_keeps _ _;
  deploy_timeout = fill_int_keeps _ _;
  public_ip = fill_keeps _ _;
  mongo_db_uri = fill_keeps _ _;
  webhook_secret = fill_keeps _ _;
  webhook = refl;
  repo_url = refl;
  branch = refl;
  service_dir = refl;
}

-- Without a mail host, a notification replaces the project's own port and webhook secret by those of
-- the gateway, unless they were given on the command line.
notify_replaces :
    (flags : Text → Bool) (s : Settings) (cfg : Config) (port : ℕ)
    → cfg.smtp_host ≡ []
    → s.webhook_port ≡ pos (suc port)
    → is_set s.webhook_secret ≡ true
    → flags (codes "webhook") ≡ false
    → flags (codes "webhook-secret") ≡ false
    → ((notify_config flags (some s) cfg).webhook ≡ pos (suc port))
      × ((notify_config flags (some s) cfg).webhook_secret ≡ s.webhook_secret)
unfolding notify_config
notify_replaces flags s cfg port h p q f g = (ground arith, ground arith)

-- With no flags given, what was saved is what a load gives back: every text that is set and every
-- number above 0, whatever the configuration held before.
load-save :
    (cfg other : Config) (row : Option Settings)
    → is_set cfg.mongo_db_uri
        && (is_set cfg.admin_email && (is_set cfg.webhook_secret && is_set cfg.public_ip))
      ≡ true
    → is_positive cfg.webhook && (is_positive cfg.smtp_port && is_positive cfg.deploy_timeout)
      ≡ true
    → let loaded : Config =
        load_global_settings (λ name. false) (save_global_settings true cfg row) other in
      (loaded.mongo_db_uri ≡ cfg.mongo_db_uri)
      × (loaded.admin_email ≡ cfg.admin_email)
      × (loaded.webhook_secret ≡ cfg.webhook_secret)
      × (loaded.public_ip ≡ cfg.public_ip)
      × (loaded.webhook ≡ cfg.webhook)
      × (loaded.smtp_port ≡ cfg.smtp_port)
      × (loaded.deploy_timeout ≡ cfg.deploy_timeout)
unfolding load_global_settings save_global_settings
load-save cfg other row h k = (
  ground arith,
  ground arith,
  ground arith,
  ground arith,
  ground arith,
  ground arith,
  ground arith,
)
