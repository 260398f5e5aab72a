-- ===== src/Paths/Resolve/Placed.antt =====
-- Where `ResolveDeploymentPath` puts a project.
use cicd.Prelude.{
  ◌≡◌, ◌≢◌, refl, sym, ap, ◌∙◌, ◌⊎◌, inl, inr, Bool, true, false, not, Option, none, some, List, [],
  ◌∷◌, ◌++◌, arith, Text, codes, is_empty, if◌then◌else◌, Bool-cases, All,
}
use mathlib.Core.Path.{subst}
use cicd.Script.{has_prefix}
use cicd.Paths.{
  FilePath, dash, split_path, clean_from, clean, starts_with_slash, join_path, absolute, is_subpath,
  slugify, random_hex,
}
use cicd.Paths.Slug.{slugify-is_slug}
use cicd.Paths.Clean.{
  IsElement, IsAbsolute, join_path-IsAbsolute, absolute-IsAbsolute, element-HasNoSlash,
  split_path-plain, clean_from-elements, clean-IsAbsolute,
}
use cicd.Paths.Resolve.Names.{slug-IsElement, suffix-no_slash, dash-no_slash}
use cicd.Paths.Subpath.{is_inside, is_subpath-is_inside, is_subpath_dotted}
use cicd.Paths.Resolve.{
  Stat, missing, unreadable, file, directory, Disk, PathConfig, Placement, final_path_escaped,
  final_path_collision, Resolved, ok, err, is_protected, is_nested, real_path, is_there, place,
  deployment_name, named, on_directory, on_base, resolve_deployment_path,
}

join_path-element :
    (base : FilePath) (name : Text)
    → IsAbsolute base
    → IsElement name
    → (join_path base name).parts ≡ base.parts ++ name ∷ []
unfolding join_path
join_path-element base name a h =
    ap (λ b. clean_from b base.parts (split_path name)) a.rooted
    ∙ ap (clean_from true base.parts) (split_path-plain name (element-HasNoSlash name h))
    ∙ clean_from-elements base.parts (name ∷ []) (h, tt)

-- The deployment is no absolute path, or its elements do not come first in those of `base`, or the next
-- element begins with two dots.
abbrev pub IsApart : FilePath → Text → Type 0
IsApart base d = (starts_with_slash d ≡ false) ⊎ (is_inside (clean d).parts base.parts ≡ false)

is_subpath-IsApart :
    (base : FilePath) (d : Text)
    → IsAbsolute base
    → is_subpath base (clean d) ≡ false
    → IsApart base d
is_subpath-IsApart base d a h = elim (Bool-cases (starts_with_slash d)) [
  | inl t ↦ inr (sym (is_subpath-is_inside base (clean d) a (clean-IsAbsolute d t)) ∙ h)
  | inr f ↦ inl f
]

is_nested-IsApart :
    (base : FilePath) (ds : List Text)
    → IsAbsolute base
    → is_nested base ds ≡ false
    → All (IsApart base) ds
unfolding is_nested
is_nested-IsApart base [] a h = tt
is_nested-IsApart base (d ∷ ds) a h =
    (is_subpath-IsApart base d a (ground arith), is_nested-IsApart base ds a (ground arith))

-- A project was placed: in a directory of its own, one level below a base that is a directory, not
-- protected and apart from each deployment, at a path where nothing is.
pub record IsPlaced (disk : Disk) (cfg : PathConfig) (p : Placement) : Type 0 where
  pub base : IsAbsolute p.base_dir
  pub below : p.final_path.parts ≡ p.base_dir.parts ++ p.deployment_name ∷ []
  pub unprotected : is_protected p.base_dir.parts ≡ false
  pub exists : disk.stat p.base_dir ≡ directory
  pub apart : All (IsApart p.base_dir) cfg.existing_deployments
  pub free : is_there (disk.stat p.final_path) ≡ false

abbrev outcome : Bool → Bool → Placement → Resolved
outcome inside there p =
    if not inside then err final_path_escaped else if there then err final_path_collision else ok p

-- What `ResolveDeploymentPath` returns: a project that was placed, or an error that is not
-- `ErrFinalPathEscaped`.
abbrev pub IsDecided : Disk → PathConfig → Resolved → Type 0
IsDecided disk cfg (ok p) = IsPlaced disk cfg p
IsDecided disk cfg (err e) = e ≢ final_path_escaped

branch :
    (P : Resolved → Type 0) (b : Bool) (x y : Resolved)
    → P x
    → (b ≡ false → P y)
    → P (if b then x else y)
branch P true x y h k = h
branch P false x y h k = k refl

module _ (disk : Disk) (cfg : PathConfig) (base : FilePath) (a : IsAbsolute base) where
  -- For a name that is an element without two dots in front, the joined path is below the base.
  placed :
      (name : Text)
      → IsElement name
      → has_prefix name (codes "..") ≡ false
      → is_protected base.parts ≡ false
      → disk.stat base ≡ directory
      → is_nested base cfg.existing_deployments ≡ false
      → (place disk base name ≡ err final_path_collision)
        ⊎ ((p : Placement) × (place disk base name ≡ ok p) × IsPlaced disk cfg p)
  unfolding place
  placed name h dots u e n =
      let final : FilePath = join_path base name in
      let p : Placement = record { base_dir = base; deployment_name = name; final_path = final } in
      let below : final.parts ≡ base.parts ++ name ∷ [] = join_path-element base name a h in
      let inside : is_subpath final base ≡ true =
        is_subpath_dotted final base name [] (join_path-IsAbsolute base name a) a below
        ∙ ap not dots in
      elim (Bool-cases (is_there (disk.stat final))) [
        | inl t ↦ inl (
            ap (λ b. outcome b (is_there (disk.stat final)) p) inside
            ∙ ap (λ b. outcome true b p) t)
        | inr t ↦ inr (
          p,
          ap (λ b. outcome b (is_there (disk.stat final)) p) inside ∙ ap (λ b. outcome true b p) t,
          record {
            base = a;
            below = below;
            unprotected = u;
            exists = e;
            apart = is_nested-IsApart base cfg.existing_deployments a n;
            free = t;
          },
        )
      ]

  decided :
      (r : Resolved)
      → (r ≡ err final_path_collision) ⊎ ((p : Placement) × (r ≡ ok p) × IsPlaced disk cfg p)
      → IsDecided disk cfg r
  decided r (inl e) = subst (IsDecided disk cfg) (sym e) (λ f. cc)
  decided r (inr (p, e, h)) = subst (IsDecided disk cfg) (sym e) h

  named-IsDecided :
      (o : Option Text)
      → random_hex 6 disk.random ≡ o
      → is_protected base.parts ≡ false
      → disk.stat base ≡ directory
      → is_nested base cfg.existing_deployments ≡ false
      → IsDecided disk cfg (named disk cfg.project_name base o)
  unfolding named
  named-IsDecided none r u e n = λ f. cc
  named-IsDecided (some suffix) r u e n =
      let slug : Text = slugify disk.to_lower cfg.project_name in
      let parts =
        slug-IsElement slug (dash ∷ suffix) (slugify-is_slug disk.to_lower cfg.project_name)
          (dash-no_slash suffix (suffix-no_slash 6 disk.random suffix r)) in
      decided (place disk base (deployment_name disk cfg.project_name suffix))
        (placed (deployment_name disk cfg.project_name suffix) parts.0 parts.1 u e n)

  on_directory-IsDecided :
      (s : Stat)
      → disk.stat base ≡ s
      → is_protected base.parts ≡ false
      → IsDecided disk cfg (on_directory disk cfg base s)
  unfolding on_directory
  on_directory-IsDecided missing e u = λ f. cc
  on_directory-IsDecided unreadable e u = λ f. cc
  on_directory-IsDecided file e u = λ f. cc
  on_directory-IsDecided directory e u =
      branch (IsDecided disk cfg) (is_nested base cfg.existing_deployments) _ _ (λ f. cc)
        (named-IsDecided (random_hex 6 disk.random) refl u e)

  on_base-IsDecided : IsDecided disk cfg (on_base disk cfg base)
  unfolding on_base
  on_base-IsDecided =
      branch (IsDecided disk cfg) (not base.rooted) _ _ (λ f. cc)
        (λ r.
          branch (IsDecided disk cfg) (is_protected base.parts) _ _ (λ f. cc)
            (on_directory-IsDecided (disk.stat base) refl))

-- The answers that `os.Getwd` and `filepath.EvalSymlinks` are documented to give: absolute paths.
pub record AnswersAbsolute (disk : Disk) : Type 0 where
  pub cwd : IsAbsolute disk.cwd
  pub links : (p q : FilePath) → disk.eval_symlinks p ≡ some q → IsAbsolute q

real_path-IsAbsolute :
    (disk : Disk) (p : FilePath)
    → AnswersAbsolute disk
    → IsAbsolute p
    → IsAbsolute (real_path disk p)
real_path-IsAbsolute disk p d a = followed (disk.eval_symlinks p) refl
  where
    followed :
        (o : Option FilePath)
        → disk.eval_symlinks p ≡ o
        → IsAbsolute (elim o as (λ v. FilePath) [ none ↦ p | some q ↦ q ])
    followed none e = a
    followed (some q) e = d.links p q e

-- If the system answers with absolute paths, `ResolveDeploymentPath` either places the project one
-- level below a base directory that is not protected, at a path where nothing is, or fails for another
-- reason than an escaped path: that last check never fails. The base is then not inside an existing
-- deployment with an absolute path, unless the next element behind the deployment's begins with two dots.
pub resolve-IsDecided :
    (disk : Disk) (cfg : PathConfig)
    → AnswersAbsolute disk
    → IsDecided disk cfg (resolve_deployment_path disk cfg)
unfolding resolve_deployment_path
resolve-IsDecided disk cfg d =
    let base : FilePath = real_path disk (absolute disk.cwd cfg.base_dir) in
    let a =
      real_path-IsAbsolute disk (absolute disk.cwd cfg.base_dir) d
        (absolute-IsAbsolute disk.cwd cfg.base_dir d.cwd) in
    branch (IsDecided disk cfg) (is_empty cfg.base_dir) _ _ (λ f. cc)
      (λ n.
        branch (IsDecided disk cfg) (is_empty cfg.project_name) _ _ (λ f. cc)
          (λ m. on_base-IsDecided disk cfg base a))
