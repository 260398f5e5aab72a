-- ===== src/Access/Link.antt =====
-- What a login link opens.
use cicd.Prelude.{
  ℕ, ℤ, Bool, ◌+◌, ◌≡◌, none, some, [], ◌∷◌, ◌++◌, arith, Text, codes, same, ltb, if◌then◌else◌,
}
use cicd.Config.{Config}
use cicd.Access.{
  Claims, Jwt, auth_middleware, verify, Outbox, LinkAnswer, sent, wrong_email, link_token,
  magic_link_text, magic_link,
}
use cicd.Access.Session.{IsSound, auth-signed}

verify-signed :
    (jwt : Jwt)
    → IsSound jwt
    → (secret : Text) (now : ℕ) (c : Claims)
    → verify jwt secret now (jwt.signed_string secret c)
      ≡ (if ltb now c.exp then some (jwt.signed_string secret c) else none)
unfolding verify
verify-signed jwt sound secret now c = ground (arith, sound.parses now secret c)

-- The token of a link is stored by the page, and opens the routes, until second 900.
abbrev pub OpensFor : Jwt → Text → ℕ → Text → ℕ → Type 0
OpensFor jwt secret now email later =
    (verify jwt secret later (link_token jwt secret now email)
      ≡ (if ltb later (now + 900) then some (link_token jwt secret now email) else none))
    × (auth_middleware jwt secret later (link_token jwt secret now email) []
        ≡ ltb later (now + 900))

-- A link is made exactly for the administrator's address, and one for an empty address if none is set.
-- Then the answer is `sent` and the link stands in the log whether or not the mail can be sent, and in
-- the mails exactly if it can. Whoever reads it has the routes for 900 seconds: its token is stored by
-- the page and let through until then. For another address nothing is mailed or logged. The JWT library
-- reads what it signed until it expires.
pub magic_link-opens :
    (jwt : Jwt) (secret : Text) (decimal : ℤ → Text) (cfg : Config) (mailed : Bool) (now later : ℕ)
    (email : Text) (o : Outbox)
    → IsSound jwt
    → let result : Outbox × LinkAnswer =
        magic_link jwt secret decimal cfg mailed now (some email) o in
      let link : Text = magic_link_text decimal cfg (link_token jwt secret now email) in
      OpensFor jwt secret now email later
      × (if same email cfg.admin_email
          then (result.1 ≡ sent)
            × (result.0.mails ≡ (if mailed then link ∷ o.mails else o.mails))
            × (result.0.log ≡ (codes "📧 MAGIC LINK: " ++ link) ∷ o.log)
          else (result ≡ (o, wrong_email)))
unfolding magic_link
magic_link-opens jwt secret decimal cfg mailed now later email o sound = (
  (
    verify-signed jwt sound secret later (record { role = []; email = email; exp = now + 900 }),
    (auth-signed jwt sound secret later (record { role = []; email = email; exp = now + 900 })).0,
  ),
  ground arith,
)
