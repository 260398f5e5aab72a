-- ===== src/Config/Flags.antt =====
-- The flags of the command line (gosrc/parser/args.go: Parse). What `flag.Parse` reads is an argument:
-- the flags that were set, by their names.
use cicd.Prelude.{ℤ, pos, Bool, true, false, ◌||◌, Option, none, some, [], Text, codes}
use cicd.Config.{Config}
use cicd.Config.Args.{ArgsEnv, Parsed, finish_parse}

pub record Given : Type 0 where
  pub texts : Text → Option Text
  pub numbers : Text → Option ℤ

abbrev pub text_or : Text → Option Text → Text
text_or default none = default
text_or default (some t) = t

abbrev pub number_or : ℤ → Option ℤ → ℤ
number_or default none = default
number_or default (some n) = n

abbrev was_set : {A : Type 0} → Option A → Bool
was_set none = false
was_set (some a) = true

-- `ExplicitFlags`
abbrev pub explicit_flags : Given → Text → Bool
explicit_flags given name = was_set (given.texts name) || was_set (given.numbers name)

-- The variables behind `flag.Parse`, with their defaults.
unfoldable pub parse_flags : Given → Config
parse_flags given = record {
  setup = text_or [] (given.texts (codes "setup"));
  repo_url = text_or [] (given.texts (codes "repo-url"));
  branch = text_or (codes "main") (given.texts (codes "branch"));
  admin_email = text_or [] (given.texts (codes "admin-email"));
  mongo_db_uri = text_or [] (given.texts (codes "mongodb-uri"));
  git_username = text_or [] (given.texts (codes "git-username"));
  git_password = text_or [] (given.texts (codes "git-password"));
  smtp_host = text_or [] (given.texts (codes "smtp-host"));
  smtp_port = number_or (pos 587) (given.numbers (codes "smtp-port"));
  smtp_user = text_or [] (given.texts (codes "smtp-user"));
  smtp_pass = text_or [] (given.texts (codes "smtp-pass"));
  user = text_or [] (given.texts (codes "user"));
  sudo_pass = text_or [] (given.texts (codes "sudo-pass"));
  service_name = text_or (codes "mycicdapp") (given.texts (codes "service-name"));
  service_dir = text_or (codes "/home/") (given.texts (codes "service-dir"));
  service_user = text_or [] (given.texts (codes "service-user"));
  service_reset = text_or (codes "False") (given.texts (codes "service-reset"));
  webhook = number_or (pos 9641) (given.numbers (codes "webhook"));
  webhook_secret = text_or [] (given.texts (codes "webhook-secret"));
  public_ip = text_or [] (given.texts (codes "public-ip"));
  notify_url = text_or [] (given.texts (codes "notify-url"));
  deploy_timeout = number_or (pos 1800) (given.numbers (codes "deploy-timeout"));
  skip_install_hash = false;
}

-- `Parse`
unfoldable pub parse : ArgsEnv → Given → Parsed
unfolding finish_parse parse_flags
parse env given = finish_parse env (parse_flags given)
