-- ===== src/Access.antt =====
-- Who may use the dashboard (gosrc/api/server.go: /auth/token-login, /auth/magic-link, /auth/verify and
-- authMiddleware). The JWT library is an interface; times are seconds, and how `fmt` prints a number is
-- an argument. A body that cannot be read is `none`. What `Notify` makes of the gateway's configuration
-- at the end of a route is left out.
pub mod Session
pub mod Link
mod Tests
use cicd.Prelude.{
  ℕ, ℤ, ◌+◌, Bool, true, false, not, Option, none, some, List, [], ◌∷◌, ◌++◌, Text, codes, same,
  is_empty, if◌then◌else◌,
}
use cicd.Dashboard.{
  Answer, done, started, updated, created, deleted, bad_request, not_found, server_error,
  port_conflict, path_failed, invalid_ip, folder_failed, unauthorized, panicked,
}
use cicd.Config.{Config}

-- `jwt.MapClaims`, as far as the program sets them; a claim that is not set is empty.
pub record Claims : Type 0 where
  pub role : Text
  pub email : Text
  pub exp : ℕ

-- The library: `SignedString` by the secret, and `Parse` at a time with the secret.
pub record Jwt : Type 0 where
  pub signed_string : Text → Claims → Text
  pub parse : ℕ → Text → Text → Option Claims

-- The JWT that a login by setup token is answered with.
abbrev pub login_claims : ℕ → Claims
login_claims now = record { role = codes "admin"; email = []; exp = now + 86400 }

-- The body of the answer of `POST /auth/token-login`, which carries a JWT if the login succeeded.
abbrev pub session_token : Jwt → Text → ℕ → Answer → Option Text
session_token jwt secret now done = some (jwt.signed_string secret (login_claims now))
session_token jwt secret now started = none
session_token jwt secret now updated = none
session_token jwt secret now created = none
session_token jwt secret now deleted = none
session_token jwt secret now bad_request = none
session_token jwt secret now not_found = none
session_token jwt secret now server_error = none
session_token jwt secret now port_conflict = none
session_token jwt secret now path_failed = none
session_token jwt secret now invalid_ip = none
session_token jwt secret now folder_failed = none
session_token jwt secret now unauthorized = none
session_token jwt secret now panicked = none

abbrev pub is_valid : Option Claims → Bool
is_valid none = false
is_valid (some c) = true

-- `authMiddleware`, for the header `Authorization` and the parameter `token`.
unfoldable pub auth_middleware : Jwt → Text → ℕ → Text → Text → Bool
auth_middleware jwt secret now header query =
    is_valid (jwt.parse now secret (if is_empty header then query else header))

-- `GET /auth/verify`: the token that the page stores.
unfoldable pub verify : Jwt → Text → ℕ → Text → Option Text
verify jwt secret now token = if is_valid (jwt.parse now secret token) then some token else none

-- What was mailed and logged, newest first. The answer of `SendMail` is ignored.
pub record Outbox : Type 0 where
  pub mails : List Text
  pub log : List Text

pub data LinkAnswer : Type 0 where
  invalid wrong_email sent : LinkAnswer

abbrev pub link_token : Jwt → Text → ℕ → Text → Text
link_token jwt secret now email =
    jwt.signed_string secret (record { role = []; email = email; exp = now + 900 })

abbrev pub magic_link_text : (ℤ → Text) → Config → Text → Text
magic_link_text decimal cfg token =
    codes "http://"
    ++ (cfg.public_ip ++ 58 ∷ (decimal cfg.webhook ++ (codes "/auth/verify?token=" ++ token)))

-- `POST /auth/magic-link`; `mailed` tells whether `SendMail` hands the mail over.
unfoldable pub magic_link :
    Jwt → Text → (ℤ → Text) → Config → Bool → ℕ → Option Text → Outbox → Outbox × LinkAnswer
magic_link jwt secret decimal cfg mailed now none o = (o, invalid)
magic_link jwt secret decimal cfg mailed now (some email) o =
    let link : Text = magic_link_text decimal cfg (link_token jwt secret now email) in
    if not (same email cfg.admin_email) then (o, wrong_email) else (
      record {
        mails = if mailed then link ∷ o.mails else o.mails;
        log = (codes "📧 MAGIC LINK: " ++ link) ∷ o.log;
      },
      sent,
    )
