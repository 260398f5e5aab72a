-- ===== src/Settings/Tests.antt =====
-- Runs of the settings and the setup token.
use cicd.Prelude.{
  ℕ, ◌≡◌, refl, true, false, Option, none, some, pos, [], ◌∷◌, Text, codes, text_discrete,
}
use cicd.Config.{Config}
use cicd.Settings.{Settings, default_settings, notify_config}
use cicd.Settings.Token.{
  Times, no_settings, generate_setup_token, check_setup_token, clear_setup_token,
  validate_setup_token,
}

abbrev blog : Config
blog = record {
  setup = [];
  repo_url = codes "https://example.org/blog";
  branch = codes "main";
  admin_email = codes "root@example.org";
  mongo_db_uri = codes "mongodb://db";
  git_username = [];
  git_password = [];
  smtp_host = [];
  smtp_port = pos 25;
  smtp_user = [];
  smtp_pass = [];
  user = [];
  sudo_pass = [];
  service_name = codes "blog";
  service_dir = codes "/srv/blog";
  service_user = codes "www";
  service_reset = [];
  webhook = pos 8080;
  webhook_secret = codes "s1";
  public_ip = codes "192.0.2.1";
  notify_url = [];
  deploy_timeout = pos 60;
  skip_install_hash = false;
}

abbrev gateway : Settings
gateway = record default_settings { webhook_secret = codes "gw" }

-- A driver that writes a time in a form that is read back: here, one mark for each second.
abbrev marks : ℕ → Text
marks n = n ∷ []

abbrev read_marks : Text → Option ℕ
read_marks [] = none
read_marks (n ∷ s) = some n

abbrev readable : Times
readable = record { written = marks; parse = read_marks; parse_plain = λ t. none }

abbrev token : Text
token = codes "00ff00ff00ff00ff00ff00ff00ff00ff"

abbrev offered : Option Settings
offered = some (record gateway { setup_token = codes "t1"; setup_token_expires = some (marks 50) })

-- A notification without a mail host gives the project the gateway's port and secret.
notified :
    ((notify_config (λ name. false) (some gateway) blog).webhook ≡ pos 9641)
    × ((notify_config (λ name. false) (some gateway) blog).webhook_secret ≡ codes "gw")
unfolding notify_config
notified = (refl, refl)

-- A refused UPDATE leaves the token usable.
abbrev used : Option Settings
unfolding validate_setup_token check_setup_token clear_setup_token text_discrete
used = (validate_setup_token readable false 40 (codes "t1") offered).0

used_again : (validate_setup_token readable true 41 (codes "t1") used).1 ≡ none
unfolding validate_setup_token check_setup_token clear_setup_token text_discrete
used_again = refl

-- Before the settings row exists the token that is shown is stored nowhere.
shown_in_vain :
    (validate_setup_token readable true 1001 token
      (generate_setup_token readable true true 1000 token none).0).1
    ≡ some no_settings
unfolding generate_setup_token validate_setup_token check_setup_token
shown_in_vain = refl
