-- ===== src/Paths/Project.antt =====
-- The paths that the dashboard's file editor may touch (gosrc/api/server.go:
-- resolveAndValidateProjectPath). The texts of the paths are compared, as in the code.
pub mod Inside
pub mod Links
use cicd.Prelude.{
  ℕ, Bool, true, false, not, ◌&&◌, ◌||◌, Option, none, some, List, [], ◌∷◌, ◌++◌, map, Text, same,
  ◌==◌, if◌then◌else◌,
}
use cicd.Script.{trim_left, has_prefix}
use cicd.Paths.{FilePath, slash, join_path, absolute, flat, print}

pub data ProjectPath : Type 0 where
  accepted : FilePath → ProjectPath
  null_byte traversal symlink_outside : ProjectPath

-- `strings.Contains requestedPath "\x00"`
unfoldable pub has_null : Text → Bool
has_null [] = false
has_null (c ∷ s) = c == 0 || has_null s

abbrev pub to_slash : ℕ → ℕ
to_slash c = if c == 92 then slash else c

abbrev pub is_slash : ℕ → Bool
is_slash c = c == slash

-- The request with backslashes turned round and no slash in front.
unfoldable pub project_relative : Text → Text
unfolding trim_left
project_relative s = trim_left is_slash (map to_slash s)

-- `targetAbs == cleanBase || strings.HasPrefix targetAbs basePrefix`
unfoldable pub within : FilePath → FilePath → Bool
unfolding print has_prefix
within base target =
    same (print target) (print base) || has_prefix (print target) (print base ++ slash ∷ [])

abbrev pub follows : FilePath → FilePath → Option FilePath → ProjectPath
unfolding within
follows base target none = accepted target
follows base target (some real) = if within base real then accepted target else symlink_outside

-- `resolveAndValidateProjectPath`, for the working directory and what `EvalSymlinks` answers.
unfoldable pub resolve_and_validate_project_path :
    FilePath → (FilePath → Option FilePath) → Text → Text → ProjectPath
unfolding has_null absolute join_path within follows project_relative
resolve_and_validate_project_path cwd eval_symlinks base_dir requested =
    let base : FilePath = absolute cwd base_dir in
    let target : FilePath = join_path base (project_relative requested) in
    if has_null requested
    then null_byte
    else if not (within base target)
    then traversal
    else follows base target (eval_symlinks target)
