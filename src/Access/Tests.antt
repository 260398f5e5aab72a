-- ===== src/Access/Tests.antt =====
-- Logins at concrete inputs.
use cicd.Prelude.{
  ℕ, ◌+◌, ◌≡◌, refl, ap, true, false, ◌&&◌, Option, none, some, [], ◌∷◌, ◌++◌, Text, codes, same,
  ltb, leb, length, take, drop, pos, ℤ, if◌then◌else◌,
}
use cicd.Config.{Config}
use cicd.Settings.{default_settings}
use cicd.Settings.Token.{Times}
use cicd.Dashboard.{Dashboard, token_login}
use cicd.Queue.Store.{no_queues}
use cicd.Access.{
  Claims, Jwt, Outbox, session_token, sent, wrong_email, magic_link, magic_link_text, link_token,
}
use cicd.Access.Link.{OpensFor, magic_link-opens}
use cicd.Access.Session.{IsSound, admitted, with_token, login-session}

take-length : (s t : Text) → take (length s) (s ++ t) ≡ s
take-length [] t = refl
take-length (c ∷ s) t = ap (λ (r : Text). c ∷ r) (take-length s t)

drop-length : (s t : Text) → drop (length s) (s ++ t) ≡ t
drop-length [] t = refl
drop-length (c ∷ s) t = drop-length s t

-- A token that shows its claims.
abbrev claims_of : Text → Option Claims
claims_of [] = none
claims_of (e ∷ []) = none
claims_of (e ∷ n ∷ s) = some (record { role = take n s; email = drop n s; exp = e })

abbrev until : ℕ → Option Claims → Option Claims
until now none = none
until now (some c) = if ltb now c.exp then some c else none

abbrev open_jwt : Jwt
open_jwt = record {
  signed_string = λ k c. c.exp ∷ length c.role ∷ (c.role ++ c.email);
  parse = λ now k t. until now (claims_of t);
}

claims_of-signed : (k : Text) (c : Claims) → claims_of (open_jwt.signed_string k c) ≡ some c
claims_of-signed k c = rw (take-length c.role c.email, drop-length c.role c.email) refl

open_jwt-IsSound : IsSound open_jwt
open_jwt-IsSound = record {
  parses = λ now k c. ap (until now) (claims_of-signed k c);
  is_set = λ k c. refl;
}

-- A driver that writes a time as one mark.
abbrev marked : Text → Option ℕ
marked [] = none
marked (n ∷ s) = some n

abbrev times : Times
times = record { written = λ n. n ∷ []; parse = marked; parse_plain = λ t. none }

abbrev start : Dashboard
start = record {
  projects = record { rows = []; next_id = 1 };
  settings = none;
  queues = no_queues;
  stops = [];
  rollbacks = [];
  reinstalls = [];
  fleet = [];
}

abbrev setup_token : Text
setup_token = codes "9f2c"

login-session_example :
    admitted open_jwt (codes "k") 87699 (
      session_token open_jwt
        (codes "k")
        (1000 + 300)
        (token_login times true
          (1000 + 300)
          (some setup_token)
          (with_token times 1000 setup_token default_settings start)).1)
    ≡ (leb 300 900 && ltb 87699 (1000 + 300 + 86400))
login-session_example =
    login-session open_jwt times true default_settings start (codes "k") setup_token 1000 300 87699
      open_jwt-IsSound refl refl

abbrev shop : Config
shop = record {
  setup = [];
  repo_url = codes "https://example.org/blog";
  branch = codes "main";
  admin_email = codes "root@example.org";
  mongo_db_uri = codes "mongodb://db";
  git_username = [];
  git_password = [];
  smtp_host = [];
  smtp_port = pos 25;
  smtp_user = [];
  smtp_pass = [];
  user = [];
  sudo_pass = [];
  service_name = codes "blog";
  service_dir = codes "/srv/blog";
  service_user = codes "www";
  service_reset = [];
  webhook = pos 8080;
  webhook_secret = codes "s1";
  public_ip = codes "192.0.2.1";
  notify_url = [];
  deploy_timeout = pos 60;
  skip_install_hash = false;
}

abbrev shown_number : ℤ → Text
shown_number z = codes "9641"

abbrev nothing : Outbox
nothing = record { mails = []; log = [] }

-- No address of an administrator is set, none is asked for, and no mail can be sent.
magic_link-opens_example :
    OpensFor open_jwt (codes "k") 1000 [] 1899
    × (if same [] shop.admin_email
        then ((magic_link open_jwt (codes "k") shown_number shop false 1000 (some []) nothing).1
            ≡ sent)
          × ((magic_link open_jwt
                (codes "k")
                shown_number
                shop
                false
                1000
                (some [])
                nothing).0.mails
              ≡ (if false
                  then magic_link_text shown_number shop (link_token open_jwt (codes "k") 1000 [])
                    ∷ []
                  else []))
          × ((magic_link open_jwt (codes "k") shown_number shop false 1000 (some []) nothing).0.log
              ≡ (codes "📧 MAGIC LINK: "
                  ++ magic_link_text shown_number shop (link_token open_jwt (codes "k") 1000 []))
                ∷ [])
        else (magic_link open_jwt (codes "k") shown_number shop false 1000 (some []) nothing
            ≡ (nothing, wrong_email)))
magic_link-opens_example =
    magic_link-opens open_jwt (codes "k") shown_number shop false 1000 1899 [] nothing
      open_jwt-IsSound
