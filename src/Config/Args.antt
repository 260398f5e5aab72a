-- ===== src/Config/Args.antt =====
-- The end of the reading of the command line (gosrc/parser/args.go: validateRequirements and the end of
-- Parse). What the regular expression of `isValid`, the look-up of the public address and the random
-- bytes answer is an argument.
use cicd.Prelude.{
  ◌≡◌, ◌⊎◌, inl, inr, refl, Bool, true, false, ◌&&◌, List, [], ◌∷◌, ◌++◌, arith, Text, codes,
  is_empty, is_set, if◌then◌else◌, Bool-cases,
}
use cicd.Config.{Config}

pub record ArgsEnv : Type 0 where
  pub is_valid : Text → Bool
  pub public_ip : Text
  pub secret_key : Text  -- empty if no random bytes can be read

-- The flags that are reported as missing.
abbrev pub missing_flag : Text → Text → List Text
missing_flag value flag = if is_empty value then flag ∷ [] else []

-- The process ends with status 1, or goes on with a configuration.
pub data Parsed : Type 0 where
  missing_flags : List Text → Parsed
  bad_email : Parsed
  parsed : Config → Parsed

abbrev pub checked : ArgsEnv → List Text → Config → Parsed
checked env [] cfg = if env.is_valid cfg.admin_email then parsed cfg else bad_email
checked env (f ∷ fs) cfg = missing_flags (f ∷ fs)

-- `validateRequirements`
unfoldable pub validate_requirements : ArgsEnv → Config → Parsed
validate_requirements env cfg =
    if is_empty cfg.repo_url
    then parsed cfg
    else checked env
        (missing_flag cfg.admin_email (codes "--admin-email")
          ++ missing_flag cfg.webhook_secret (codes "--webhook-secret"))
        cfg

abbrev pub completed : ArgsEnv → Config → Config
completed env cfg = record cfg {
  public_ip = if is_empty cfg.public_ip then env.public_ip else cfg.public_ip;
  webhook_secret =
      if is_empty cfg.repo_url && is_empty cfg.webhook_secret
      then env.secret_key
      else cfg.webhook_secret;
}

abbrev pub on_parsed : ArgsEnv → Parsed → Parsed
on_parsed env (missing_flags fs) = missing_flags fs
on_parsed env bad_email = bad_email
on_parsed env (parsed cfg) = parsed (completed env cfg)

-- The end of `Parse`, behind `flag.Parse`.
unfoldable pub finish_parse : ArgsEnv → Config → Parsed
unfolding validate_requirements
finish_parse env cfg = on_parsed env (validate_requirements env cfg)

-- What a configuration has that the daemon goes on with.
abbrev pub IsReady : ArgsEnv → Config → Parsed → Type 0
IsReady env given (missing_flags fs) = is_set given.repo_url ≡ true
IsReady env given bad_email = env.is_valid given.admin_email ≡ false
IsReady env given (parsed cfg) =
    (is_set cfg.webhook_secret ≡ true)
    × ((is_empty given.repo_url ≡ true) ⊎ (env.is_valid cfg.admin_email ≡ true))
    × (cfg.webhook_secret
        ≡ (if is_set given.webhook_secret then given.webhook_secret else env.secret_key))

-- The tests of a configuration that has a repository.
with_repository :
    (env : ArgsEnv) (cfg : Config) (email secret : Text)
    → cfg.admin_email ≡ email
    → cfg.webhook_secret ≡ secret
    → is_set cfg.repo_url ≡ true
    → IsReady env cfg (
        on_parsed env (
          checked env
            (missing_flag email (codes "--admin-email")
              ++ missing_flag secret (codes "--webhook-secret"))
            cfg))
with_repository env cfg [] [] e f r = r
with_repository env cfg [] (c ∷ secret) e f r = r
with_repository env cfg (a ∷ email) [] e f r = r
with_repository env cfg (a ∷ email) (c ∷ secret) e f r =
    elim (Bool-cases (env.is_valid cfg.admin_email)) [
      | inl t ↦ rw t (ground arith, inr t, ground arith)
      | inr v ↦ rw v v
    ]

-- If random bytes can be read, the process ends only for a repository without its flags or for an
-- address that is not valid, and else goes on with a webhook secret: the one that was given, or in
-- gateway mode a random one; and with a valid mail address, unless it is in gateway mode.
finish_parse-IsReady :
    (env : ArgsEnv) (cfg : Config)
    → is_set env.secret_key ≡ true
    → IsReady env cfg (finish_parse env cfg)
unfolding finish_parse
finish_parse-IsReady env cfg h = elim (Bool-cases (is_empty cfg.repo_url)) [
  | inl t ↦ rw t (ground arith, inl t, ground arith)
  | inr f ↦
      rw f (with_repository env cfg cfg.admin_email cfg.webhook_secret refl refl (ground arith))
]
