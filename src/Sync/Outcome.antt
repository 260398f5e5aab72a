-- ===== src/Sync/Outcome.antt =====
-- What a synchronisation leaves: the configuration and the last call of Git.
use cicd.Prelude.{
  ◌≡◌, refl, ap, ◌⊎◌, inl, inr, Bool, true, false, not, [], ◌∷◌, arith, Text, codes, if◌then◌else◌,
  Bool-cases,
}
use cicd.Config.{Config}
use cicd.Settings.{notify_config}
use cicd.Sync.{SyncEnv, Sync, check_disk_space, run_git, in_folder, clone, update_clone, sync_repo}
use cicd.Sync.Calls.{
  IsLast, IsTried, branch, wanted, tip, back_in, cloned, update_clone-cfg, update_clone-IsTried,
  clone-cfg,
}

abbrev snd : Sync × Bool → Bool
snd (s, ok) = ok

clone-unchecked :
    (env : SyncEnv) (codebase hash : Text) (s : Sync)
    → (clone env codebase hash s).1 ≡ (clone env codebase [] s).1
unfolding clone
clone-unchecked env codebase hash s = same_answer (cloned env hash s codebase).1 _ _ _ _
  where
    same_answer :
        (b : Bool) (x y z w : Sync)
        → snd (if b then (x, true) else (y, false)) ≡ snd (if b then (z, true) else (w, false))
    same_answer true x y z w = refl
    same_answer false x y z w = refl

-- The directory of the clone.
abbrev pub codebase_of : SyncEnv → Config → Text
codebase_of env cfg = env.join cfg.service_dir (codes "codebase")

module _ (env : SyncEnv) (cfg : Config) (hash : Text) where
  abbrev started : Sync
  started =
      (run_git env
        (codes "config"
          ∷ codes "--global"
          ∷ codes "--add"
          ∷ codes "safe.directory"
          ∷ codebase_of env cfg
          ∷ [])
        (record { cfg = cfg; ran = [] })).0

  synced-cfg :
      (b : Bool)
      → (if not b then clone env (codebase_of env cfg) hash started else (
        in_folder cfg.service_dir
            (update_clone env hash (in_folder (codebase_of env cfg) started)).0,
        (update_clone env hash (in_folder (codebase_of env cfg) started)).1,
      )).0.cfg
        ≡ cfg
  synced-cfg false = clone-cfg env hash started (codebase_of env cfg)
  synced-cfg true =
      ap (back_in cfg.service_dir)
        (update_clone-cfg env hash (in_folder (codebase_of env cfg) started))

sync_repo-cfg :
    (env : SyncEnv) (cfg : Config) (hash : Text)
    → (sync_repo env cfg hash).0.cfg
      ≡ (if check_disk_space env.free_space then cfg else notify_config env.flags env.settings cfg)
unfolding sync_repo
sync_repo-cfg env cfg hash = elim (Bool-cases (check_disk_space env.free_space)) [
  | inl t ↦ rw t (synced-cfg env cfg hash env.has_git)
  | inr f ↦ rw f refl
]

-- The result is an error, or with a clone in place the last call is one of the two.
abbrev pub IsReset : SyncEnv → Config → Text → Sync × Bool → Type 0
IsReset env cfg hash (s, ok) =
    (ok ≡ false)
    ⊎ ((env.has_git ≡ false) ⊎ IsLast env (codebase_of env cfg) (wanted hash cfg) (tip cfg) s.ran)

-- `SyncRepo` leaves the configuration as it was on every path, with or without a clone, though it
-- changes its directory on the way, but for a full disk, where it leaves what `Notify` makes of it. With a
-- clone in place it returns an error, or the last call of Git was a hard reset in the clone that Git took:
-- to the commit that was asked for, or to the tip of the branch on the remote.
pub sync_repo-IsReset :
    (env : SyncEnv) (cfg : Config) (hash : Text)
    → ((sync_repo env cfg hash).0.cfg ≡ (
        if check_disk_space env.free_space then cfg else notify_config env.flags env.settings cfg))
      × IsReset env cfg hash (sync_repo env cfg hash)
sync_repo-IsReset env cfg hash = (sync_repo-cfg env cfg hash, reset_last)
  where
    in_place :
        (r : Sync × Bool)
        → IsTried env (codebase_of env cfg) (wanted hash cfg) (tip cfg) r
        → IsReset env cfg hash (in_folder cfg.service_dir r.0, r.1)
    in_place (s, ok) (inl f) = inl f
    in_place (s, ok) (inr l) = inr (inr l)

    reset_last : IsReset env cfg hash (sync_repo env cfg hash)
    reset_last =
        unfold sync_repo in
        branch (IsReset env cfg hash) (not (check_disk_space env.free_space)) _ _ (λ l. inl refl)
          (λ e.
            branch (IsReset env cfg hash) (not env.has_git) _ _ (λ t. inr (inl (ground arith)))
              (λ f.
                in_place
                  (update_clone env hash (in_folder (codebase_of env cfg) (started env cfg hash)))
                  (update_clone-IsTried env hash
                    (in_folder (codebase_of env cfg) (started env cfg hash)))))

answers :
    (low has_git : Bool) (x y z u v : Sync × Bool)
    → has_git ≡ false
    → snd x ≡ snd y
    → snd (if low then z else if not has_git then x else u)
      ≡ snd (if low then z else if not has_git then y else v)
answers low has_git x y z u v g e = ground arith

-- Without a clone the answer of the checkout does not count: whatever commit is asked for, `SyncRepo`
-- returns an error exactly when it does so for none.
pub sync_repo_unchecked :
    (env : SyncEnv) (cfg : Config) (hash : Text)
    → env.has_git ≡ false
    → (sync_repo env cfg hash).1 ≡ (sync_repo env cfg []).1
unfolding sync_repo
sync_repo_unchecked env cfg hash g =
    answers (not (check_disk_space env.free_space)) env.has_git _ _ _ _ _ g
      (clone-unchecked env (codebase_of env cfg) hash (started env cfg hash))
