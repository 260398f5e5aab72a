-- ===== src/Access/Session.antt =====
-- From the setup token to the requests of a session.
use cicd.Prelude.{
  ℕ, ◌+◌, ◌≡◌, refl, ap, ◌∙◌, Bool, true, false, ◌&&◌, Option, none, some, [], arith, Text,
  is_empty, ltb, leb, if◌then◌else◌,
}
use cicd.Settings.{Settings}
use cicd.Settings.Token.{
  Times, TokenError, token_expired, generate_setup_token, validate_setup_token,
}
use cicd.Settings.Expiry.{validate-generate}
use cicd.Dashboard.{Dashboard, Answer, done, unauthorized, token_login}
use cicd.Access.{Claims, Jwt, login_claims, session_token, auth_middleware}

-- What the code relies on: a token that was signed is read back with the same secret before it expires
-- and refused from then on, and is not empty.
pub record IsSound (jwt : Jwt) : Type 0 where
  pub parses :
      (now : ℕ) (secret : Text) (c : Claims)
      → jwt.parse now secret (jwt.signed_string secret c) ≡ (if ltb now c.exp then some c else none)
  pub is_set : (secret : Text) (c : Claims) → is_empty (jwt.signed_string secret c) ≡ false

-- A signed token opens the routes until it expires, in the header or as a parameter.
pub auth-signed :
    (jwt : Jwt)
    → IsSound jwt
    → (secret : Text) (now : ℕ) (c : Claims)
    → (auth_middleware jwt secret now (jwt.signed_string secret c) [] ≡ ltb now c.exp)
      × (auth_middleware jwt secret now [] (jwt.signed_string secret c) ≡ ltb now c.exp)
unfolding auth_middleware
auth-signed jwt sound secret now c = (
  ground (arith, sound.parses now secret c, sound.is_set secret c),
  ground (arith, sound.parses now secret c),
)

login-answer :
    (times : Times) (clears : Bool) (now : ℕ) (token : Text) (d : Dashboard)
    → (token_login times clears now (some token) d).1
      ≡ elim (validate_setup_token times clears now token d.settings).1 [
        | none ↦ done
        | some e ↦ unauthorized
      ]
unfolding token_login
login-answer times clears now token d = refl

-- Whether a request with the token of the answer as its header is let through.
abbrev pub admitted : Jwt → Text → ℕ → Option Text → Bool
admitted jwt secret later none = false
admitted jwt secret later (some token) = auth_middleware jwt secret later token []

abbrev pub with_token : Times → ℕ → Text → Settings → Dashboard → Dashboard
with_token times now token s d = record d {
  settings = (generate_setup_token times true true now token (some s)).0;
}

-- A setup token that is typed in within 900 seconds after it was generated opens a session of exactly a
-- day from the login, also if SQLite refuses the UPDATE that clears it; typed in later it opens none.
-- There was a settings row before, SQLite took the UPDATE that stored the token, the token is not
-- empty, the driver's text for the expiry is read back, and the JWT library reads what it signed until
-- it expires.
pub login-session :
    (jwt : Jwt) (times : Times) (clears : Bool) (s : Settings) (d : Dashboard) (secret token : Text)
    (now wait later : ℕ)
    → IsSound jwt
    → is_empty token ≡ false
    → times.parse (times.written (now + 900)) ≡ some (now + 900)
    → admitted jwt secret later (
        session_token jwt secret
          (now + wait)
          (token_login times clears (now + wait) (some token) (with_token times now token s d)).1)
      ≡ (leb wait 900 && ltb later (now + wait + 86400))
login-session jwt times clears s d secret token now wait later sound t p =
    let validated = validate-generate times clears s now wait token t p in
    ap (λ (a : Answer). admitted jwt secret later (session_token jwt secret (now + wait) a))
      (login-answer times clears (now + wait) token (with_token times now token s d)
        ∙ ap answer validated)
    ∙ in_time (leb wait 900)
  where
    answer : Option TokenError → Answer
    answer none = done
    answer (some e) = unauthorized

    in_time :
        (b : Bool)
        → admitted jwt secret later (
            session_token jwt secret (now + wait) (answer (if b then none else some token_expired)))
          ≡ (b && ltb later (now + wait + 86400))
    in_time true = (auth-signed jwt sound secret later (login_claims (now + wait))).0
    in_time false = refl
