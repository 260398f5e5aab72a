-- ===== src/Sync/Calls.antt =====
-- What the calls of Git in a synchronisation leave: the configuration, and the last call.
use cicd.Prelude.{
  ◌≡◌, refl, ap, ◌∙◌, ◌⊎◌, inl, inr, Bool, true, false, List, [], ◌∷◌, Text, is_set, if◌then◌else◌,
  Bool-cases,
}
use mathlib.Core.Path.{subst}
use cicd.Config.{Config}
use cicd.Sync.{
  Command, SyncEnv, Sync, run_git, in_folder, or_main, origin, reset_to, try_both,
  authenticated_url, clone_branch, checkout, fetch, clone, update_clone,
}

-- The last call was made in `dir` with the one list of arguments or the other, and Git took it.
pub record IsLast (env : SyncEnv) (dir : Text) (first second : List Text) (ran : List Command)
    : Type 0 where
  pub args : List Text
  pub before : List Command
  pub last : ran ≡ record { dir = dir; args = args } ∷ before
  pub accepted : env.git before (record { dir = dir; args = args }) ≡ true
  pub chosen : (args ≡ first) ⊎ (args ≡ second)

-- The result is an error, or the last call is one of the two.
abbrev pub IsTried : SyncEnv → Text → List Text → List Text → Sync × Bool → Type 0
IsTried env dir first second (s, ok) = (ok ≡ false) ⊎ IsLast env dir first second s.ran

pub branch :
    (P : Sync × Bool → Type 0) (b : Bool) (x y : Sync × Bool)
    → (b ≡ true → P x)
    → (b ≡ false → P y)
    → P (if b then x else y)
branch P true x y h k = h refl
branch P false x y h k = k refl

pub same_cfg :
    (cfg : Config) (b : Bool) (x y : Sync × Bool)
    → x.0.cfg ≡ cfg
    → y.0.cfg ≡ cfg
    → (if b then x else y).0.cfg ≡ cfg
same_cfg cfg true x y h k = h
same_cfg cfg false x y h k = k

module _ (env : SyncEnv) (first second : List Text) where
  ran-IsTried :
      (args : List Text) (s : Sync)
      → (args ≡ first) ⊎ (args ≡ second)
      → IsTried env s.cfg.service_dir first second (run_git env args s)
  ran-IsTried args s c = elim (Bool-cases (run_git env args s).1) [
    | inl t ↦ inr (record { args = args; before = s.ran; last = refl; accepted = t; chosen = c })
    | inr f ↦ inl f
  ]

  try_both-IsTried :
      (s : Sync) → IsTried env s.cfg.service_dir first second (try_both env first second s)
  try_both-IsTried s =
      branch (IsTried env s.cfg.service_dir first second) (run_git env first s).1 _ _
        (λ t.
          inr
            (record { args = first; before = s.ran; last = refl; accepted = t; chosen = inl refl }))
        (λ f. ran-IsTried second (run_git env first s).0 (inr refl))

  try_both-cfg : (s : Sync) → (try_both env first second s).0.cfg ≡ s.cfg
  try_both-cfg s = same_cfg s.cfg (run_git env first s).1 _ _ refl refl

abbrev pub wanted : Text → Config → List Text
wanted hash cfg = reset_to (if is_set hash then hash else origin (or_main cfg.branch))

abbrev pub tip : Config → List Text
tip cfg = reset_to (origin (or_main cfg.branch))

clone_branch-cfg :
    (env : SyncEnv) (b url : Text) (s : Sync) → (clone_branch env b url s).0.cfg ≡ s.cfg
unfolding clone_branch
clone_branch-cfg env b url s = try_both-cfg env _ _ s

checkout-cfg : (env : SyncEnv) (hash : Text) (s : Sync) → (checkout env hash s).cfg ≡ s.cfg
unfolding checkout
checkout-cfg env [] s = refl
checkout-cfg env (c ∷ hash) s = refl

fetch-cfg : (env : SyncEnv) (b url : Text) (s : Sync) → (fetch env b url s).0.cfg ≡ s.cfg
unfolding fetch
fetch-cfg env b url s = try_both-cfg env _ _ _

abbrev pub back_in : Text → Config → Config
back_in dir cfg = record cfg { service_dir = dir }

module _ (env : SyncEnv) (hash : Text) (s : Sync) where
  abbrev fetched : Sync × Bool
  fetched = fetch env (or_main s.cfg.branch) (authenticated_url env s.cfg) s

  fetched-cfg : fetched.0.cfg ≡ s.cfg
  fetched-cfg = fetch-cfg env (or_main s.cfg.branch) (authenticated_url env s.cfg) s

  pub update_clone-cfg : (update_clone env hash s).0.cfg ≡ s.cfg
  unfolding update_clone
  update_clone-cfg =
      same_cfg s.cfg fetched.1 _ _ (try_both-cfg env _ _ fetched.0 ∙ fetched-cfg) fetched-cfg

  pub update_clone-IsTried :
      IsTried env s.cfg.service_dir (wanted hash s.cfg) (tip s.cfg) (update_clone env hash s)
  unfolding update_clone
  update_clone-IsTried =
      branch (IsTried env s.cfg.service_dir (wanted hash s.cfg) (tip s.cfg)) fetched.1 _ _
        (λ t.
          subst
            (λ (cfg : Config).
              IsTried env cfg.service_dir (wanted hash s.cfg) (tip s.cfg)
                (try_both env (wanted hash s.cfg) (tip s.cfg) fetched.0))
            fetched-cfg (try_both-IsTried env (wanted hash s.cfg) (tip s.cfg) fetched.0))
        (λ f. inl refl)

  abbrev pub cloned : Text → Sync × Bool
  cloned codebase =
      clone_branch env (or_main s.cfg.branch) (authenticated_url env s.cfg) (in_folder codebase s)

  cloned-cfg : (codebase : Text) → back_in s.cfg.service_dir (cloned codebase).0.cfg ≡ s.cfg
  cloned-cfg codebase = ap (back_in s.cfg.service_dir) (
      clone_branch-cfg env (or_main s.cfg.branch) (authenticated_url env s.cfg)
        (in_folder codebase s))

  pub clone-cfg : (codebase : Text) → (clone env codebase hash s).0.cfg ≡ s.cfg
  unfolding clone
  clone-cfg codebase =
      same_cfg s.cfg (cloned codebase).1 _ _
        (ap (back_in s.cfg.service_dir) (checkout-cfg env hash (cloned codebase).0)
          ∙ cloned-cfg codebase)
        (cloned-cfg codebase)
