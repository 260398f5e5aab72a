-- ===== src/Paths/Project/Inside.antt =====
-- What an accepted path of a project is.
use cicd.Prelude.{
  ◌≡◌, refl, sym, ap, ◌∙◌, inl, inr, Bool, true, false, not, ◌||◌, Option, none, some, List, [],
  ◌∷◌, ◌++◌, append-nil, append_assoc, arith, Text, same, All, if◌then◌else◌, Bool-cases, cons-eq,
}
use mathlib.Core.Path.{subst}
use cicd.Script.{has_prefix}
use cicd.Paths.{FilePath, slash, join_path, absolute, flat, print, clean, parent_dir}
use cicd.Paths.Clean.{
  no_slash, HasNoSlash, IsElement, IsAbsolute, element-HasNoSlash, join_path-IsAbsolute,
  absolute-IsAbsolute, root, clean-print,
}
use cicd.Paths.Project.{
  ProjectPath, accepted, null_byte, traversal, symlink_outside, has_null, project_relative, within,
  follows, resolve_and_validate_project_path,
}

-- Two texts without slashes are equal if one, with a slash behind it, begins the other.
begins :
    (t b s r : Text)
    → HasNoSlash t
    → HasNoSlash b
    → has_prefix (t ++ slash ∷ s) (b ++ slash ∷ r) ≡ true
    → (t ≡ b) × (has_prefix s r ≡ true)
unfolding no_slash has_prefix
begins [] [] s r ht hb h = (refl, ground arith)
begins [] (d ∷ b) s r ht hb h = (ground arith, ground arith)
begins (c ∷ t) [] s r ht hb h = (ground arith, ground arith)
begins (c ∷ t) (d ∷ b) s r ht hb h =
    let rest = begins t b s r in (ground (arith, rest), ground (arith, rest))

begins_not : (t b r : Text) → HasNoSlash t → has_prefix t (b ++ slash ∷ r) ≡ true → (false ≡ true)
unfolding no_slash has_prefix
begins_not [] [] r ht h = h
begins_not [] (d ∷ b) r ht h = h
begins_not (c ∷ t) [] r ht h = ground arith
begins_not (c ∷ t) (d ∷ b) r ht h = ground (arith, begins_not t b r)

-- The elements that a beginning of the text stands for.
flat-begins :
    (bs ts : List Text)
    → All IsElement bs
    → All IsElement ts
    → has_prefix (flat ts) (flat bs ++ slash ∷ []) ≡ true
    → (rest : List Text) × (ts ≡ bs ++ rest)
unfolding flat has_prefix
flat-begins [] ts a h e = (ts, refl)
flat-begins (b ∷ bs) [] a h e = cc
flat-begins (b ∷ []) (t ∷ []) (a, as') (h, hs) e = cc (
    begins_not t b [] (element-HasNoSlash t h) (
      ap (λ v. has_prefix v (b ++ slash ∷ [])) (sym (append-nil t))
      ∙ ap (λ v. has_prefix (t ++ []) (v ++ slash ∷ [])) (sym (append-nil b))
      ∙ e))
flat-begins (b ∷ q ∷ bs) (t ∷ []) (a, as') (h, hs) e = cc (
    begins_not t b ((q ++ flat bs) ++ slash ∷ []) (element-HasNoSlash t h) (
      ap (λ v. has_prefix v (b ++ slash ∷ ((q ++ flat bs) ++ slash ∷ []))) (sym (append-nil t))
      ∙ ap (has_prefix (t ++ [])) (sym (append_assoc b (slash ∷ (q ++ flat bs)) (slash ∷ [])))
      ∙ e))
flat-begins (b ∷ []) (t ∷ u ∷ ts) (a, as') (h, hs) e =
    let split = begins t b (u ++ flat ts) [] (element-HasNoSlash t h) (element-HasNoSlash b a) (
      ap (λ v. has_prefix (t ++ slash ∷ (u ++ flat ts)) (v ++ slash ∷ [])) (sym (append-nil b))
      ∙ e) in
    (u ∷ ts, cons-eq split.0 refl)
flat-begins (b ∷ q ∷ bs) (t ∷ u ∷ ts) (a, as') (h, hs) e =
    let split =
      begins t b (u ++ flat ts) ((q ++ flat bs) ++ slash ∷ []) (element-HasNoSlash t h)
        (element-HasNoSlash b a)
        (ap (has_prefix (t ++ slash ∷ (u ++ flat ts)))
            (sym (append_assoc b (slash ∷ (q ++ flat bs)) (slash ∷ [])))
          ∙ e) in
    let (rest, same_rest) = flat-begins (q ∷ bs) (u ∷ ts) as' hs split.1 in
    (rest, cons-eq split.0 same_rest)

prefix-parts :
    (bs ts : List Text)
    → All IsElement bs
    → All IsElement ts
    → has_prefix (print (root ts)) (print (root bs) ++ slash ∷ []) ≡ true
    → (rest : List Text) × (ts ≡ bs ++ rest)
unfolding print flat has_prefix
prefix-parts [] ts a h e = (ts, refl)
prefix-parts ([] ∷ bs) [] (a, as') h e = cc
prefix-parts ((c ∷ b) ∷ bs) [] a h e = cc
prefix-parts (b ∷ bs) (t ∷ ts) a h e = flat-begins (b ∷ bs) (t ∷ ts) a h e

root-eq : (p : FilePath) → p.rooted ≡ true → p ≡ root p.parts
root-eq p e = ground arith

-- A path that the test lets through has the elements of the project's directory in front.
within-parts :
    (base target : FilePath)
    → IsAbsolute base
    → IsAbsolute target
    → within base target ≡ true
    → (rest : List Text) × (target.parts ≡ base.parts ++ rest)
unfolding within
within-parts base target a b h = elim (Bool-cases (same (print target) (print base))) [
  | inl e ↦ (
    [],
    ap (λ (p : FilePath). p.parts)
          (sym (clean-print target b)
            ∙ ap clean (same-eq (print target) (print base) e)
            ∙ clean-print base a)
        ∙ sym (append-nil base.parts),
  )
  | inr e ↦ prefix-parts base.parts target.parts a.elements b.elements (
      ap (λ (p : FilePath). has_prefix (print p) (print (root base.parts) ++ slash ∷ []))
        (sym (root-eq target b.rooted))
      ∙ ap (λ (p : FilePath). has_prefix (print target) (print p ++ slash ∷ []))
          (sym (root-eq base a.rooted))
      ∙ other (same (print target) (print base)) e h)
]
  where
    other : (s : Bool) {p : Bool} → s ≡ false → (s || p) ≡ true → p ≡ true
    other true e f = cc
    other false e f = f

    same-eq : (x y : Text) → same x y ≡ true → x ≡ y
    same-eq x y e = ground arith

-- An accepted path lies in the project's directory, by its elements, and so does the file that it
-- leads to if it is there.
pub record LiesInside (eval_symlinks : FilePath → Option FilePath) (base target : FilePath)
    : Type 0 where
  pub absolute : IsAbsolute target
  pub below : (rest : List Text) × (target.parts ≡ base.parts ++ rest)
  pub leads_inside :
      (real : FilePath)
      → eval_symlinks target ≡ some real
      → (rest : List Text) × (real.parts ≡ base.parts ++ rest)

module _ (eval_symlinks : FilePath → Option FilePath) (base : FilePath) where
  abbrev IsSafe : ProjectPath → Type 0
  IsSafe (accepted target) = LiesInside eval_symlinks base target
  IsSafe null_byte = Unit
  IsSafe traversal = Unit
  IsSafe symlink_outside = Unit

  branch-IsSafe :
      (b : Bool) (x y : ProjectPath)
      → IsSafe x
      → (b ≡ false → IsSafe y)
      → IsSafe (if b then x else y)
  branch-IsSafe true x y h k = h
  branch-IsSafe false x y h k = k refl

  follows-IsSafe :
      (links : (p q : FilePath) → eval_symlinks p ≡ some q → IsAbsolute q) (target : FilePath)
      → IsAbsolute base
      → IsAbsolute target
      → within base target ≡ true
      → (o : Option FilePath) → eval_symlinks target ≡ o
      → IsSafe (follows base target o)
  unfolding follows
  follows-IsSafe links target a b w none e = record {
    absolute = b;
    below = within-parts base target a b w;
    leads_inside = λ real f. cc;
  }
  follows-IsSafe links target a b w (some real) e = elim (Bool-cases (within base real)) [
    | inl i ↦
        subst (λ v. IsSafe (if v then accepted target else symlink_outside)) (sym i)
          (record {
            absolute = b;
            below = within-parts base target a b w;
            leads_inside = λ other f.
                let same_file : real ≡ other = cc in
                subst (λ (p : FilePath). (rest : List Text) × (p.parts ≡ base.parts ++ rest))
                  same_file (within-parts base real a (links target real e) i);
          })
    | inr i ↦ subst (λ v. IsSafe (if v then accepted target else symlink_outside)) (sym i) tt
  ]

-- If the system answers with absolute paths, a path that `resolveAndValidateProjectPath` accepts has
-- the elements of the project's directory in front, whatever was requested; and if a file is there,
-- its real path has them too.
pub accepted-LiesInside :
    (cwd : FilePath) (eval_symlinks : FilePath → Option FilePath) (base_dir requested : Text)
    (target : FilePath)
    → IsAbsolute cwd
    → ((p q : FilePath) → eval_symlinks p ≡ some q → IsAbsolute q)
    → resolve_and_validate_project_path cwd eval_symlinks base_dir requested ≡ accepted target
    → LiesInside eval_symlinks (absolute cwd base_dir) target
unfolding resolve_and_validate_project_path
accepted-LiesInside cwd eval_symlinks base_dir requested target a links e =
    subst (IsSafe eval_symlinks base) e (
      branch-IsSafe eval_symlinks base (has_null requested) _ _ tt (λ n.
        branch-IsSafe eval_symlinks base (not (within base aim)) _ _ tt (λ w.
          follows-IsSafe eval_symlinks base links aim (absolute-IsAbsolute cwd base_dir a)
            (join_path-IsAbsolute base (project_relative requested)
              (absolute-IsAbsolute cwd base_dir a))
            (not_false (within base aim) w) (eval_symlinks aim) refl)))
  where
    base : FilePath
    base = absolute cwd base_dir

    aim : FilePath
    aim = join_path base (project_relative requested)

    not_false : (b : Bool) → not b ≡ false → b ≡ true
    not_false true h = refl
    not_false false h = cc

abbrev ruled : Bool → Bool → ProjectPath → ProjectPath
ruled null inside r = if null then null_byte else if not inside then traversal else r

-- A file that is not there yet is accepted without a look at the links on the way to it: also where
-- its parent directory really lies outside of the project's.
new_file-accepted :
    (cwd : FilePath) (eval_symlinks : FilePath → Option FilePath) (base_dir requested : Text)
    (outside : FilePath)
    → has_null requested ≡ false
    → within
        (absolute cwd base_dir)
        (join_path (absolute cwd base_dir) (project_relative requested))
      ≡ true
    → eval_symlinks (join_path (absolute cwd base_dir) (project_relative requested)) ≡ none
    → eval_symlinks (parent_dir (join_path (absolute cwd base_dir) (project_relative requested)))
      ≡ some outside
    → within (absolute cwd base_dir) outside ≡ false
    → resolve_and_validate_project_path cwd eval_symlinks base_dir requested
      ≡ accepted (join_path (absolute cwd base_dir) (project_relative requested))
unfolding resolve_and_validate_project_path follows
new_file-accepted cwd eval_symlinks base_dir requested outside n w e p o =
    let base : FilePath = absolute cwd base_dir in
    let target : FilePath = join_path base (project_relative requested) in
    ap (λ b. ruled b (within base target) (follows base target (eval_symlinks target))) n
    ∙ ap (λ b. ruled false b (follows base target (eval_symlinks target))) w
    ∙ ap (follows base target) e
