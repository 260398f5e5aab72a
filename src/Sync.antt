-- ===== src/Sync.antt =====
-- The synchronisation of a project's clone (gosrc/actions/executor.go: SyncRepo; executor_linux.go:
-- checkDiskSpace). A call of Git is its directory and its arguments; what it answers depends on the
-- calls before it, newest first. Owners of files and log lines are left out.
pub mod Calls
pub mod Outcome
mod Tests
use cicd.Prelude.{
  ℕ, ◌*◌, ◌%◌, ◌^◌, Bool, true, false, not, ◌&&◌, ◌||◌, Option, none, some, List, [], ◌∷◌, ◌++◌,
  drop, Text, codes, is_empty, is_set, ltb, if◌then◌else◌,
}
use cicd.Config.{Config}
use cicd.Settings.{Settings, notify_config}
use cicd.Script.{has_prefix}

pub record Command : Type 0 where
  pub dir : Text
  pub args : List Text

-- `Bavail` and `Bsize` of `syscall.Statfs`.
pub record FreeSpace : Type 0 where
  pub blocks : ℕ
  pub block_size : ℕ

pub record SyncEnv : Type 0 where
  pub flags : Text → Bool  -- the explicit flags of the command line
  pub settings : Option Settings
  pub free_space : Option FreeSpace
  pub join : Text → Text → Text  -- `filepath.Join`
  pub query_escape : Text → Text  -- `url.QueryEscape`
  pub has_git : Bool  -- `codebase/.git` is there
  pub git : List Command → Command → Bool

pub record Sync : Type 0 where
  pub cfg : Config
  pub ran : List Command

-- `checkDiskSpace` returns nil; the product is a `uint64`.
abbrev pub check_disk_space : Option FreeSpace → Bool
check_disk_space none = true
check_disk_space (some f) = not (ltb ((f.blocks * f.block_size) % 2 ^ 64) (500 * 1024 * 1024))

-- `RunAsUserWithContext` of `git`, in the directory of the configuration.
abbrev pub run_git : SyncEnv → List Text → Sync → Sync × Bool
run_git env args s =
    let c : Command = record { dir = s.cfg.service_dir; args = args } in
    (record s { ran = c ∷ s.ran }, env.git s.ran c)

abbrev pub in_folder : Text → Sync → Sync
in_folder dir s = record s { cfg = record s.cfg { service_dir = dir } }

abbrev pub https : Text
https = codes "https://"

-- The address with the credentials, for one that begins with `https://`.
unfoldable pub authenticated_url : SyncEnv → Config → Text
unfolding has_prefix
authenticated_url env cfg =
    if (is_set cfg.git_username && is_set cfg.git_password) && has_prefix cfg.repo_url https
    then https
      ++ (cfg.git_username ++ 58 ∷ (env.query_escape cfg.git_password ++ 64 ∷ drop 8 cfg.repo_url))
    else cfg.repo_url

abbrev pub or_main : Text → Text
or_main branch = if is_set branch then branch else codes "main"

abbrev pub origin : Text → Text
origin branch = codes "origin/" ++ branch

abbrev pub reset_to : Text → List Text
reset_to target = codes "reset" ∷ codes "--hard" ∷ target ∷ []

-- A call, and a second one if it fails.
abbrev pub try_both : SyncEnv → List Text → List Text → Sync → Sync × Bool
try_both env first second s =
    let (s₁, ok) = run_git env first s in if ok then (s₁, true) else run_git env second s₁

-- The clone, first of the branch and then of the default branch.
unfoldable pub clone_branch : SyncEnv → Text → Text → Sync → Sync × Bool
clone_branch env branch url =
    try_both env (codes "clone" ∷ codes "--branch" ∷ branch ∷ url ∷ codes "." ∷ [])
      (codes "clone" ∷ url ∷ codes "." ∷ [])

-- The checkout of a commit, whose answer is ignored.
unfoldable pub checkout : SyncEnv → Text → Sync → Sync
checkout env hash s = if is_empty hash then s else (run_git env (codes "checkout" ∷ hash ∷ []) s).0

-- The clone of a project that has none.
unfoldable pub clone : SyncEnv → Text → Text → Sync → Sync × Bool
unfolding clone_branch checkout authenticated_url
clone env codebase hash s =
    let (s', ok) =
      clone_branch env (or_main s.cfg.branch) (authenticated_url env s.cfg)
        (in_folder codebase s) in
    if ok
    then (in_folder s.cfg.service_dir (checkout env hash s'), true)
    else (in_folder s.cfg.service_dir s', false)

-- The address is set, changes are dropped, and the branch is fetched, or else everything.
unfoldable pub fetch : SyncEnv → Text → Text → Sync → Sync × Bool
fetch env branch url s =
    let (s₁, a) = run_git env (codes "remote" ∷ codes "set-url" ∷ codes "origin" ∷ url ∷ []) s in
    let (s₂, b) = run_git env (reset_to (codes "HEAD")) s₁ in
    try_both env (codes "fetch" ∷ codes "origin" ∷ branch ∷ []) (codes "fetch" ∷ codes "--all" ∷ [])
      s₂

-- The clone that is there, in its directory.
unfoldable pub update_clone : SyncEnv → Text → Sync → Sync × Bool
unfolding fetch authenticated_url
update_clone env hash s =
    let branch : Text = or_main s.cfg.branch in
    let (s', ok) = fetch env branch (authenticated_url env s.cfg) s in
    if ok
    then try_both env (reset_to (if is_set hash then hash else origin branch))
        (reset_to (origin branch)) s'
    else (s', false)

-- `SyncRepo` returns nil if the flag is true. When the disk is full, `Notify` merges the gateway's
-- settings into the configuration that it gets.
unfoldable pub sync_repo : SyncEnv → Config → Text → Sync × Bool
unfolding clone update_clone notify_config
sync_repo env cfg hash =
    let codebase : Text = env.join cfg.service_dir (codes "codebase") in
    let start : Sync = record { cfg = cfg; ran = [] } in
    if not (check_disk_space env.free_space)
    then (record start { cfg = notify_config env.flags env.settings cfg }, false)
    else let (s, safe) =
        run_git env
          (codes "config"
            ∷ codes "--global"
            ∷ codes "--add"
            ∷ codes "safe.directory"
            ∷ codebase
            ∷ [])
          start in
      if not env.has_git
      then clone env codebase hash s
      else let (s', ok) = update_clone env hash (in_folder codebase s) in
        (in_folder cfg.service_dir s', ok)
