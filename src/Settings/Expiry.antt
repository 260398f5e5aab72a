-- ===== src/Settings/Expiry.antt =====
-- How long a setup token is good.
use cicd.Prelude.{
  ℕ, ◌+◌, ◌<◌, ◌≡◌, Bool, true, false, Option, none, some, arith, Text, is_empty, is_set, leb,
  if◌then◌else◌,
}
use cicd.Settings.{Settings}
use cicd.Settings.Token.{
  Times, token_expired, generate_setup_token, validate_setup_token, check_setup_token,
  clear_setup_token, get_or_generate_setup_token,
}

-- If the driver's text for the expiry is read back, a generated token is accepted for the 15 minutes
-- after its generation, that is until second 900, and refused later.
pub validate-generate :
    (times : Times) (clears : Bool) (s : Settings) (now wait : ℕ) (token : Text)
    → is_empty token ≡ false
    → times.parse (times.written (now + 900)) ≡ some (now + 900)
    → (validate_setup_token times clears
        (now + wait)
        token
        (generate_setup_token times true true now token (some s)).0).1
      ≡ (if leb wait 900 then none else some token_expired)
unfolding validate_setup_token check_setup_token clear_setup_token generate_setup_token
validate-generate times clears s now wait token h p = ground arith

-- If the driver's text for the expiry is not read by any of the three layouts, the token is accepted
-- at every later time.
validate_unreadable :
    (times : Times) (clears : Bool) (s : Settings) (now later : ℕ) (token : Text)
    → is_empty token ≡ false
    → times.parse (times.written (now + 900)) ≡ none
    → (validate_setup_token times clears later token
        (generate_setup_token times true true now token (some s)).0).1
      ≡ none
unfolding validate_setup_token check_setup_token clear_setup_token generate_setup_token
validate_unreadable times clears s now later token h p = ground arith

-- While the stored token is active, asking for a token gives that one and changes nothing.
get_or_generate-active :
    (times : Times) (s : Settings) (updates inserts : Bool) (now wait : ℕ) (token fresh : Text)
    → is_set token ≡ true
    → wait < 900
    → times.parse (times.written (now + 900)) ≡ some (now + 900)
    → let stored : Option Settings = (generate_setup_token times true true now token (some s)).0 in
      get_or_generate_setup_token times updates inserts (now + wait) fresh stored
      ≡ (stored, some token)
unfolding get_or_generate_setup_token generate_setup_token
get_or_generate-active times s updates inserts now wait token fresh h w p = ground arith
