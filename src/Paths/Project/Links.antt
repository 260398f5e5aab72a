-- ===== src/Paths/Project/Links.antt =====
-- What later changes of the file system do to a path that was accepted.
use cicd.Prelude.{
  Bool-cases, ◌⊎◌, inl, inr, ◌≡◌, refl, Bool, true, false, not, Option, none, some, arith, Text,
  if◌then◌else◌,
}
use cicd.Paths.{FilePath, join_path, absolute}
use cicd.Paths.Project.{
  ProjectPath, accepted, null_byte, traversal, symlink_outside, has_null, project_relative, within,
  follows, resolve_and_validate_project_path,
}

ruled : Bool → Bool → ProjectPath → ProjectPath
ruled null inside r = if null then null_byte else if not inside then traversal else r

follows-target :
    (base aim target : FilePath) (o : Option FilePath)
    → follows base aim o ≡ accepted target
    → aim ≡ target
unfolding follows
follows-target base aim target none h = ground (arith, h)
follows-target base aim target (some real) h = ground (arith, h)

ruled-accepted :
    (null inside : Bool) (base aim target : FilePath) (o : Option FilePath)
    (later : FilePath → Option FilePath)
    → ruled null inside (follows base aim o) ≡ accepted target
    → ruled null inside (follows base aim (later aim)) ≡ follows base target (later target)
unfolding ruled
ruled-accepted true inside base aim target o later h = ground (arith, h)
ruled-accepted false false base aim target o later h = ground (arith, h)
ruled-accepted false true base aim target o later h = rw (follows-target base aim target o h) refl

-- Once a path was accepted, only the link behind it decides later.
pub accepted-follows :
    (cwd : FilePath) (links later : FilePath → Option FilePath) (base_dir requested : Text)
    (target : FilePath)
    → resolve_and_validate_project_path cwd links base_dir requested ≡ accepted target
    → resolve_and_validate_project_path cwd later base_dir requested
      ≡ follows (absolute cwd base_dir) target (later target)
unfolding resolve_and_validate_project_path ruled
accepted-follows cwd links later base_dir requested target h =
    let base : FilePath = absolute cwd base_dir in
    let aim : FilePath = join_path base (project_relative requested) in
    ruled-accepted (has_null requested) (within base aim) base aim target (links aim) later h

-- A path that was accepted is accepted as it is, or is a link to the outside.
pub follows-cases :
    (base target : FilePath) (o : Option FilePath)
    → (follows base target o ≡ accepted target) ⊎ (follows base target o ≡ symlink_outside)
unfolding follows
follows-cases base target none = inl refl
follows-cases base target (some real) = elim (Bool-cases (within base real)) [
  | inl e ↦ inl (rw e refl)
  | inr e ↦ inr (rw e refl)
]
