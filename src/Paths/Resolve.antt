-- ===== src/Paths/Resolve.antt =====
-- The directory of a new project (gosrc/deploypath/path.go: ResolveDeploymentPath).
pub mod Names
pub mod Placed
use cicd.Prelude.{
  ℕ, Bool, true, false, not, ◌&&◌, ◌||◌, Option, none, some, List, [], ◌∷◌, ◌++◌, Text, codes, same,
  is_empty, if◌then◌else◌,
}
use cicd.Paths.{FilePath, dash, clean, join_path, absolute, is_subpath, slugify, random_hex}

-- What `os.Stat` returns.
pub data Stat : Type 0 where
  missing unreadable file directory : Stat

-- The file system, the random bytes and the conversion to lower case.
pub record Disk : Type 0 where
  pub cwd : FilePath
  pub eval_symlinks : FilePath → Option FilePath
  pub stat : FilePath → Stat
  pub random : Option (List ℕ)
  pub to_lower : Text → Text

pub record PathConfig : Type 0 where
  pub base_dir : Text
  pub project_name : Text
  pub existing_deployments : List Text

pub record Placement : Type 0 where
  pub base_dir : FilePath
  pub deployment_name : Text
  pub final_path : FilePath

pub data PathError : Type 0 where
  base_dir_required project_name_required path_not_absolute protected_path : PathError
  path_does_not_exist stat_failed path_not_directory path_inside_deploy : PathError
  no_random_bytes final_path_escaped final_path_collision : PathError

pub data Resolved : Type 0 where
  ok : Placement → Resolved
  err : PathError → Resolved

abbrev protected_names : List Text
protected_names =
    codes "etc"
    ∷ codes "usr"
    ∷ codes "bin"
    ∷ codes "sbin"
    ∷ codes "lib"
    ∷ codes "lib64"
    ∷ codes "boot"
    ∷ codes "dev"
    ∷ codes "proc"
    ∷ codes "sys"
    ∷ codes "run"
    ∷ []

unfoldable pub one_of : Text → List Text → Bool
one_of name [] = false
one_of name (n ∷ ns) = same name n || one_of name ns

-- `protectedPaths[baseDir]`
unfoldable pub is_protected : List Text → Bool
unfolding one_of
is_protected [] = true
is_protected (p ∷ []) = one_of p protected_names
is_protected (p ∷ q ∷ ps) = false

-- The loop over the deployments that exist.
unfoldable pub is_nested : FilePath → List Text → Bool
unfolding clean is_subpath
is_nested base [] = false
is_nested base (d ∷ ds) = is_subpath base (clean d) || is_nested base ds

abbrev pub real_path : Disk → FilePath → FilePath
real_path disk p = elim (disk.eval_symlinks p) [ none ↦ p | some q ↦ q ]

abbrev pub is_there : Stat → Bool
is_there missing = false
is_there unreadable = false
is_there file = true
is_there directory = true

-- From the joined path on.
unfoldable pub place : Disk → FilePath → Text → Resolved
unfolding join_path is_subpath
place disk base name =
    let final : FilePath = join_path base name in
    if not (is_subpath final base)
    then err final_path_escaped
    else if is_there (disk.stat final)
    then err final_path_collision
    else ok (record { base_dir = base; deployment_name = name; final_path = final })

abbrev pub deployment_name : Disk → Text → Text → Text
deployment_name disk project_name suffix = slugify disk.to_lower project_name ++ dash ∷ suffix

unfoldable pub named : Disk → Text → FilePath → Option Text → Resolved
unfolding place slugify
named disk project_name base none = err no_random_bytes
named disk project_name base (some suffix) =
    place disk base (deployment_name disk project_name suffix)

unfoldable pub on_directory : Disk → PathConfig → FilePath → Stat → Resolved
unfolding named is_nested random_hex
on_directory disk cfg base missing = err path_does_not_exist
on_directory disk cfg base unreadable = err stat_failed
on_directory disk cfg base file = err path_not_directory
on_directory disk cfg base directory =
    if is_nested base cfg.existing_deployments
    then err path_inside_deploy
    else named disk cfg.project_name base (random_hex 6 disk.random)

unfoldable pub on_base : Disk → PathConfig → FilePath → Resolved
unfolding on_directory is_protected
on_base disk cfg base =
    if not base.rooted
    then err path_not_absolute
    else if is_protected base.parts
    then err protected_path
    else on_directory disk cfg base (disk.stat base)

-- `ResolveDeploymentPath`
unfoldable pub resolve_deployment_path : Disk → PathConfig → Resolved
unfolding on_base absolute
resolve_deployment_path disk cfg =
    if is_empty cfg.base_dir
    then err base_dir_required
    else if is_empty cfg.project_name
    then err project_name_required
    else on_base disk cfg (real_path disk (absolute disk.cwd cfg.base_dir))
