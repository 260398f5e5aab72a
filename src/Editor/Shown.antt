-- ===== src/Editor/Shown.antt =====
-- The paths that a listing shows lead back to its entries.
use cicd.Prelude.{
  ℕ, ◌≡◌, refl, sym, ap, ◌∙◌, Bool, true, false, not, ◌&&◌, ◌||◌, Option, none, some, List, [], ◌∷◌,
  ◌++◌, map, append_assoc, append-nil, arith, Text, same, same_self, All, All-append, ◌==◌,
  if◌then◌else◌,
}
use cicd.Script.{trim_left, has_prefix}
use cicd.Paths.{
  same_bool, FilePath, slash, clean, absolute, starts_with_slash, clean_from, join_path,
  without_common, flat, print,
}
use cicd.Paths.Clean.{no_slash, IsElement, root, split_path-flat, clean_from-elements}
use cicd.Paths.Project.{
  ProjectPath, null_byte, traversal, to_slash, is_slash, has_null, project_relative, within,
  follows, resolve_and_validate_project_path,
}
use cicd.Editor.{DirEntry, FileItem, rel_of, rel_path, item_of, items_of}

-- No backslash and no NUL character.
unfoldable pub no_odd : Text → Bool
no_odd [] = true
no_odd (c ∷ s) = not (c == 92) && (not (c == 0) && no_odd s)

-- An element that the editor can name.
abbrev pub IsPlain : Text → Type 0
IsPlain p = (IsElement p) × (no_odd p ≡ true)

plain-elements : (ts : List Text) → All IsPlain ts → All IsElement ts
plain-elements [] a = tt
plain-elements (t ∷ ts) (a, rest) = (a.0, plain-elements ts rest)

without_common-below : (bs ts : List Text) → without_common bs (bs ++ ts) ≡ ([], ts)
unfolding without_common
without_common-below [] ts = refl
without_common-below (b ∷ bs) ts = rw (same_self b) (without_common-below bs ts)

no_odd-append : (s t : Text) → no_odd s ≡ true → no_odd t ≡ true → no_odd (s ++ t) ≡ true
unfolding no_odd
no_odd-append [] t h k = k
no_odd-append (c ∷ s) t h k = ground (arith, no_odd-append s t)

no_odd-flat : (ts : List Text) → All IsPlain ts → no_odd (flat ts) ≡ true
unfolding flat no_odd
no_odd-flat [] a = refl
no_odd-flat (t ∷ ts) (a, rest) = no_odd-append t (flat ts) a.1 (no_odd-flat ts rest)

map-no_odd : (s : Text) → no_odd s ≡ true → map to_slash s ≡ s
unfolding no_odd
map-no_odd [] h = refl
map-no_odd (c ∷ s) h = ground (arith, map-no_odd s)

has_null-no_odd : (s : Text) → no_odd s ≡ true → has_null s ≡ false
unfolding no_odd has_null
has_null-no_odd [] h = refl
has_null-no_odd (c ∷ s) h = ground (arith, has_null-no_odd s)

has_prefix-append : (s t : Text) → has_prefix (s ++ t) s ≡ true
unfolding has_prefix
has_prefix-append [] t = refl
has_prefix-append (c ∷ s) t = ground (arith, has_prefix-append s t)

flat-append : (bs ts : List Text) → flat (bs ++ ts) ≡ flat bs ++ flat ts
unfolding flat
flat-append [] ts = refl
flat-append (b ∷ bs) ts =
    ap (λ (s : Text). slash ∷ (b ++ s)) (flat-append bs ts)
    ∙ ap (λ (s : Text). slash ∷ s) (sym (append_assoc b (flat bs) (flat ts)))

or_true : (x y : Bool) → y ≡ true → (x || y) ≡ true
or_true true y h = refl
or_true false y h = h

below-within :
    (b : Text) (bs : List Text) (t : Text) (ts : List Text)
    → within (root (b ∷ bs)) (root ((b ∷ bs) ++ (t ∷ ts))) ≡ true
unfolding within print flat
below-within b bs t ts =
    let base : Text = flat (b ∷ bs) in
    or_true (same (flat ((b ∷ bs) ++ (t ∷ ts))) base) _ (
      ap (λ (s : Text). has_prefix s (base ++ slash ∷ []))
        (flat-append (b ∷ bs) (t ∷ ts) ∙ sym (append_assoc base (slash ∷ []) (t ++ flat ts)))
      ∙ has_prefix-append (base ++ slash ∷ []) (t ++ flat ts))

trim-element : (t s : Text) → IsElement t → trim_left is_slash (t ++ s) ≡ t ++ s
unfolding trim_left no_slash
trim-element [] s h = ground (arith, h)
trim-element (c ∷ t) s h = ground (arith, h)

relative-below :
    (t : Text) (ts : List Text)
    → All IsPlain (t ∷ ts)
    → project_relative (t ++ flat ts) ≡ t ++ flat ts
unfolding project_relative
relative-below t ts (a, rest) =
    ap (trim_left is_slash)
      (map-no_odd (t ++ flat ts) (no_odd-append t (flat ts) a.1 (no_odd-flat ts rest)))
    ∙ trim-element t (flat ts) a.0

join-below :
    (bs : List Text) (t : Text) (ts : List Text)
    → All IsPlain (t ∷ ts)
    → join_path (root bs) (t ++ flat ts) ≡ root (bs ++ (t ∷ ts))
unfolding join_path
join-below bs t ts a =
    ap (λ (ps : List Text). root (clean_from true bs ps))
      (split_path-flat t ts (plain-elements (t ∷ ts) a))
    ∙ ap root (clean_from-elements bs (t ∷ ts) (plain-elements (t ∷ ts) a))

abbrev ruled : Bool → Bool → ProjectPath → ProjectPath
ruled null inside r = if null then null_byte else if not inside then traversal else r

resolve-below :
    (cwd : FilePath) (links : FilePath → Option FilePath) (d b : Text) (bs : List Text) (t : Text)
    (ts : List Text)
    → absolute cwd d ≡ root (b ∷ bs)
    → All IsPlain (t ∷ ts)
    → resolve_and_validate_project_path cwd links d (t ++ flat ts)
      ≡ follows (root (b ∷ bs)) (root ((b ∷ bs) ++ (t ∷ ts))) (links (root ((b ∷ bs) ++ (t ∷ ts))))
unfolding resolve_and_validate_project_path
resolve-below cwd links d b bs t ts e a =
    let asked : Text = t ++ flat ts in
    let base : FilePath = root (b ∷ bs) in
    let target : FilePath = root ((b ∷ bs) ++ (t ∷ ts)) in
    let at_aim = λ (c p : FilePath). ruled (has_null asked) (within c p) (follows c p (links p)) in
    let odd : no_odd asked ≡ true = no_odd-append t (flat ts) a.0.1 (no_odd-flat ts a.1) in
    ap (λ (c : FilePath). at_aim c (join_path c (project_relative asked))) e
    ∙ ap (λ (s : Text). at_aim base (join_path base s)) (relative-below t ts a)
    ∙ ap (at_aim base) (join-below (b ∷ bs) t ts a)
    ∙ ap (λ (n : Bool). ruled n (within base target) (follows base target (links target)))
        (has_null-no_odd asked odd)
    ∙ ap (λ (w : Bool). ruled false w (follows base target (links target))) (below-within b bs t ts)

rel_path-below :
    (d b : Text) (bs : List Text) (t : Text) (ts : List Text)
    → clean d ≡ root (b ∷ bs)
    → rel_path d (root ((b ∷ bs) ++ (t ∷ ts))) ≡ t ++ flat ts
unfolding rel_path rel_of print flat
rel_path-below d b bs t ts e =
    let parts : List Text = (b ∷ bs) ++ (t ∷ ts) in
    ap
      (λ (p : FilePath).
        if same_bool p.rooted true then rel_of (without_common p.parts parts) else [])
      e
    ∙ ap rel_of (without_common-below (b ∷ bs) (t ∷ ts))

-- A directory that is cleaned to a rooted path is that path, wherever the daemon runs.
absolute-clean :
    (cwd : FilePath) (d : Text) (p : FilePath) → clean d ≡ p → p.rooted ≡ true → absolute cwd d ≡ p
unfolding absolute clean
absolute-clean cwd d p e r =
    let begins : starts_with_slash d ≡ true = ap (λ (q : FilePath). q.rooted) e ∙ r in
    ap (λ (b : Bool). if b then clean d else join_path cwd d) begins ∙ e

module _ (cwd : FilePath) (links : FilePath → Option FilePath) (d b : Text) (bs : List Text)
    (cleaned : clean d ≡ root (b ∷ bs)) where
  -- The path that is shown for these elements below the project's directory is accepted as the path of
  -- these elements, as far as links do not lead outside.
  abbrev pub LeadsBack : List Text → Text → Type 0
  LeadsBack ts path =
      resolve_and_validate_project_path cwd links d path
      ≡ follows (root (b ∷ bs)) (root ((b ∷ bs) ++ ts)) (links (root ((b ∷ bs) ++ ts)))

  shown-LeadsBack :
      (t : Text) (ts : List Text)
      → All IsPlain (t ∷ ts)
      → LeadsBack (t ∷ ts) (rel_path d (root ((b ∷ bs) ++ (t ∷ ts))))
  shown-LeadsBack t ts a =
      ap (resolve_and_validate_project_path cwd links d) (rel_path-below d b bs t ts cleaned)
      ∙ resolve-below cwd links d b bs t ts (absolute-clean cwd d (root (b ∷ bs)) cleaned refl) a

  entry-LeadsBack :
      (ts : List Text) (n : Text)
      → All IsPlain ts
      → IsPlain n
      → LeadsBack (ts ++ n ∷ []) (rel_path d (root ((b ∷ bs) ++ (ts ++ n ∷ []))))
  entry-LeadsBack [] n a h = shown-LeadsBack n [] (h, tt)
  entry-LeadsBack (t ∷ ts) n (a, rest) h =
      shown-LeadsBack t (ts ++ n ∷ []) (a, All-append IsPlain ts (n ∷ []) rest (h, tt))

  entry-path :
      (ts : List Text) (n : Text)
      → IsPlain n
      → join_path (root ((b ∷ bs) ++ ts)) n ≡ root ((b ∷ bs) ++ (ts ++ n ∷ []))
  unfolding flat
  entry-path ts n h =
      ap (join_path (root ((b ∷ bs) ++ ts))) (sym (append-nil n))
      ∙ join-below ((b ∷ bs) ++ ts) n [] (h, tt)
      ∙ ap root (append_assoc (b ∷ bs) ts (n ∷ []))

  abbrev pub ItemLeadsBack : List Text → FileItem → Type 0
  ItemLeadsBack ts item = LeadsBack (ts ++ item.name ∷ []) item.path

  item_of-LeadsBack :
      (ts : List Text) (e : DirEntry) (o : Option (ℕ × ℕ))
      → All IsPlain ts
      → IsPlain e.name
      → All (ItemLeadsBack ts) (item_of d (root ((b ∷ bs) ++ ts)) e o)
  item_of-LeadsBack ts e none a h = tt
  item_of-LeadsBack ts e (some (size, time)) a h = (
    ap (λ (p : FilePath). resolve_and_validate_project_path cwd links d (rel_path d p))
          (entry-path ts e.name h)
        ∙ entry-LeadsBack ts e.name a h,
    tt,
  )

  -- Each item of a listing names its entry: the path that is shown with it is accepted as the path of
  -- the entry, unless its real path lies outside of the project. The project's directory is rooted and
  -- not the root itself, and no element below it has a slash, a backslash or a NUL character.
  pub items_of-LeadsBack :
      (ts : List Text) (es : List DirEntry)
      → All IsPlain ts
      → All (λ (e : DirEntry). IsPlain e.name) es
      → All (ItemLeadsBack ts) (items_of d (root ((b ∷ bs) ++ ts)) es)
  unfolding items_of
  items_of-LeadsBack ts [] a h = tt
  items_of-LeadsBack ts (e ∷ es) a (h, hs) =
      All-append (ItemLeadsBack ts) (item_of d (root ((b ∷ bs) ++ ts)) e e.info)
        (items_of d (root ((b ∷ bs) ++ ts)) es) (item_of-LeadsBack ts e e.info a h)
        (items_of-LeadsBack ts es a hs)
