-- ===== src/Settings/Token.antt =====
-- The setup token: a one-time password for the first login (`GenerateSetupToken`,
-- `GetOrGenerateSetupToken`, `ValidateSetupToken`).
use cicd.Prelude.{
  ℕ, ◌+◌, ◌≡◌, Bool, true, false, not, ◌&&◌, ◌||◌, Option, none, some, [], arith, Text, same,
  is_empty, is_set, ltb, if◌then◌else◌,
}
use cicd.Settings.{Settings, default_settings}

-- Times are seconds. How the SQLite driver writes a time, and how `time.Parse` reads a text by the
-- first three layouts and by the fourth, `2006-01-02 15:04:05`; `none` if no layout fits, or for the
-- zero time.
pub record Times : Type 0 where
  pub written : ℕ → Text
  pub parse : Text → Option ℕ
  pub parse_plain : Text → Option ℕ

abbrev or_else : Option ℕ → Option ℕ → Option ℕ
or_else none b = b
or_else (some t) b = some t

pub data TokenError : Type 0 where
  no_settings invalid_token token_expired : TokenError

-- `GenerateSetupToken`, for a token that was drawn. An UPDATE that finds no row is no error, so the
-- INSERT behind the error is not made for it. `updates` and `inserts` are what SQLite answers.
unfoldable pub generate_setup_token :
    Times → Bool → Bool → ℕ → Text → Option Settings → Option Settings × Option Text
generate_setup_token times updates inserts now token row =
    if updates
    then (
      elim row [
        | none ↦ none
        | some s ↦ some (record s {
          setup_token = token;
          setup_token_expires = some (times.written (now + 900));
        })
      ],
      some token,
    )
    else if not inserts
    then (row, none)
    else (
      elim row [
        | none ↦ some (record default_settings {
          setup_token = token;
          setup_token_expires = some (times.written (now + 900));
        })
        | some s ↦ some s
      ],
      some token,
    )

abbrev passed : Option ℕ → ℕ → Bool
passed none now = false
passed (some expires) now = ltb expires now

abbrev expiry : (Text → Option ℕ) → Option Text → Option ℕ
expiry parse none = none
expiry parse (some text) = parse text

-- `ValidateSetupToken`: the SELECT and the tests on its row, and then an UPDATE that clears the token,
-- whose answer is ignored: `clears` tells whether SQLite takes it. There is no transaction.
unfoldable pub check_setup_token : Times → ℕ → Text → Option Settings → Option TokenError
check_setup_token times now token none = some no_settings
check_setup_token times now token (some s) =
    if is_empty s.setup_token || not (same s.setup_token token)
    then some invalid_token
    else if passed (expiry times.parse s.setup_token_expires) now
    then some token_expired
    else none

unfoldable pub clear_setup_token : Bool → Option Settings → Option Settings
clear_setup_token false row = row
clear_setup_token true none = none
clear_setup_token true (some s) = some (record s { setup_token = []; setup_token_expires = none })

unfoldable pub validate_setup_token :
    Times → Bool → ℕ → Text → Option Settings → Option Settings × Option TokenError
unfolding check_setup_token clear_setup_token
validate_setup_token times clears now token row = elim (check_setup_token times now token row) [
  | none ↦ (clear_setup_token clears row, none)
  | some e ↦ (row, some e)
]

abbrev still_active : Option ℕ → ℕ → Bool
still_active none now = false
still_active (some expires) now = ltb now expires

-- `GetOrGenerateSetupToken`; `fresh` is the token that would be drawn.
unfoldable pub get_or_generate_setup_token :
    Times → Bool → Bool → ℕ → Text → Option Settings → Option Settings × Option Text
unfolding generate_setup_token
get_or_generate_setup_token times updates inserts now fresh none =
    generate_setup_token times updates inserts now fresh none
get_or_generate_setup_token times updates inserts now fresh (some s) =
    if is_set s.setup_token
      && still_active
          (expiry (λ t. or_else (times.parse t) (times.parse_plain t)) s.setup_token_expires) now
    then (some s, some s.setup_token)
    else generate_setup_token times updates inserts now fresh (some s)

-- `GetJWTSecret`: the environment, the table, or a secret that is drawn and stored.
unfoldable pub get_jwt_secret : Text → Text → Option Settings → Option Settings × Text
get_jwt_secret env fresh row = if is_set env then (row, env) else elim row [
  | none ↦ (some (record default_settings { jwt_secret = fresh }), fresh)
  | some s ↦
      if is_set s.jwt_secret
      then (some s, s.jwt_secret)
      else (some (record s { jwt_secret = fresh }), fresh)
]

-- Without an environment variable, the secret that one call returns is the one that every later call
-- returns, so that logins stay valid over a restart.
get_jwt_secret-stable :
    (fresh later : Text) (row : Option Settings)
    → is_set fresh ≡ true
    → (get_jwt_secret [] later (get_jwt_secret [] fresh row).0).1 ≡ (get_jwt_secret [] fresh row).1
unfolding get_jwt_secret
get_jwt_secret-stable fresh later row h = ground arith

-- Once the clearing UPDATE is taken, every token is refused.
validate_cleared :
    (times : Times) (now then_ : ℕ) (token other : Text) (row : Option Settings)
    → (validate_setup_token times true now token row).1 ≡ none
    → (validate_setup_token times true then_ other
        (validate_setup_token times true now token row).0).1
      ≡ some invalid_token
unfolding validate_setup_token check_setup_token clear_setup_token
validate_cleared times now then_ token other none h = cc
validate_cleared times now then_ token other (some s) h = ground arith

-- Two logins whose SELECTs both come before the first UPDATE are judged by the same row, and a refused
-- UPDATE leaves the token as it was.
validate_uncleared :
    (times : Times) (now : ℕ) (token : Text) (row : Option Settings)
    → (validate_setup_token times false now token row).0 ≡ row
unfolding validate_setup_token check_setup_token clear_setup_token
validate_uncleared times now token none = cc
validate_uncleared times now token (some s) = ground arith
