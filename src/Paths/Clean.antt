-- ===== src/Paths/Clean.antt =====
-- What `filepath.Clean` makes of a rooted path.
use cicd.Prelude.{
  ℕ, ◌≡◌, refl, sym, ap, ◌∙◌, Bool, true, false, not, ◌&&◌, List, [], ◌∷◌, ◌++◌, append_assoc,
  append-nil, arith, Text, codes, same, is_empty, All, All-append, ◌==◌, if◌then◌else◌,
  text_discrete,
}
use mathlib.Core.Path.{subst}
use cicd.Script.{push}
use cicd.Paths.{
  FilePath, slash, split_path, drop_last, resolve_part, clean_from, clean, join_path, absolute,
  starts_with_slash, flat, print,
}

unfoldable pub no_slash : Text → Bool
no_slash [] = true
no_slash (c ∷ s) = let rest = no_slash s in not (c == slash) && rest

-- An element of a clean rooted path: not empty, not `.` and not `..`, with no slash in it.
abbrev pub is_element : Text → Bool
is_element p =
    not (is_empty p) && (not (same p (codes ".")) && (not (same p (codes "..")) && no_slash p))

abbrev pub IsElement : Text → Type 0
IsElement p = is_element p ≡ true

abbrev pub HasNoSlash : Text → Type 0
HasNoSlash p = no_slash p ≡ true

-- A path that `filepath.Clean` and `filepath.Abs` return on Linux.
pub record IsAbsolute (p : FilePath) : Type 0 where
  pub rooted : p.rooted ≡ true
  pub elements : All IsElement p.parts

push-HasNoSlash :
    (c : ℕ) (ws : List Text)
    → not (c == slash) ≡ true
    → All HasNoSlash ws
    → All HasNoSlash (push c ws)
unfolding no_slash
push-HasNoSlash c [] h a = (ground arith, tt)
push-HasNoSlash c (w ∷ ws) h (a, rest) = (ground arith, rest)

split_path-HasNoSlash : (s : Text) → All HasNoSlash (split_path s)
unfolding split_path no_slash
split_path-HasNoSlash [] = (refl, tt)
split_path-HasNoSlash (c ∷ s) =
    ground (arith, split_path-HasNoSlash s, push-HasNoSlash c (split_path s))

drop_last-IsElement : (ps : List Text) → All IsElement ps → All IsElement (drop_last ps)
unfolding drop_last
drop_last-IsElement [] a = tt
drop_last-IsElement (p ∷ []) a = tt
drop_last-IsElement (p ∷ q ∷ ps) (a, rest) = (a, drop_last-IsElement (q ∷ ps) rest)

resolve_part-IsElement :
    (kept : List Text) (part : Text)
    → All IsElement kept
    → HasNoSlash part
    → All IsElement (resolve_part true kept part)
unfolding resolve_part
resolve_part-IsElement kept part a h =
    ground (arith, drop_last-IsElement kept a, All-append IsElement kept (part ∷ []) a)

clean_from-IsElement :
    (kept parts : List Text)
    → All IsElement kept
    → All HasNoSlash parts
    → All IsElement (clean_from true kept parts)
unfolding clean_from
clean_from-IsElement kept [] a h = a
clean_from-IsElement kept (part ∷ parts) a (h, rest) =
    clean_from-IsElement (resolve_part true kept part) parts (resolve_part-IsElement kept part a h)
      rest

-- Joining any text to an absolute path gives an absolute path.
pub join_path-IsAbsolute : (p : FilePath) (s : Text) → IsAbsolute p → IsAbsolute (join_path p s)
unfolding join_path
join_path-IsAbsolute p s a = record {
  rooted = a.rooted;
  elements =
      subst (λ b. All IsElement (clean_from b p.parts (split_path s))) (sym a.rooted)
        (clean_from-IsElement p.parts (split_path s) a.elements (split_path-HasNoSlash s));
}

pub clean-IsAbsolute : (s : Text) → starts_with_slash s ≡ true → IsAbsolute (clean s)
unfolding clean
clean-IsAbsolute s h = record {
  rooted = h;
  elements =
      subst (λ b. All IsElement (clean_from b [] (split_path s))) (sym h)
        (clean_from-IsElement [] (split_path s) tt (split_path-HasNoSlash s));
}

-- `filepath.Abs` of any text, seen from an absolute working directory, is an absolute path: rooted,
-- with no empty element, no `.`, no `..` and no slash inside an element.
pub absolute-IsAbsolute : (cwd : FilePath) (s : Text) → IsAbsolute cwd → IsAbsolute (absolute cwd s)
unfolding absolute
absolute-IsAbsolute cwd s a = chosen (starts_with_slash s) refl
  where
    chosen :
        (b : Bool) → starts_with_slash s ≡ b → IsAbsolute (if b then clean s else join_path cwd s)
    chosen true h = clean-IsAbsolute s h
    chosen false h = join_path-IsAbsolute cwd s a

resolve_part-element :
    (kept : List Text) (part : Text)
    → IsElement part
    → resolve_part true kept part ≡ kept ++ part ∷ []
unfolding resolve_part
resolve_part-element kept part h = ground arith

-- Elements are kept as they are.
pub clean_from-elements :
    (kept parts : List Text) → All IsElement parts → clean_from true kept parts ≡ kept ++ parts
unfolding clean_from
clean_from-elements kept [] a = sym (append-nil kept)
clean_from-elements kept (part ∷ parts) (a, rest) =
    ap (λ v. clean_from true v parts) (resolve_part-element kept part a)
    ∙ clean_from-elements (kept ++ part ∷ []) parts rest
    ∙ append_assoc kept (part ∷ []) parts

pub split_path-plain : (p : Text) → HasNoSlash p → split_path p ≡ p ∷ []
unfolding split_path no_slash
split_path-plain [] h = refl
split_path-plain (c ∷ p) h = ground (arith, split_path-plain p)

split_path-slash : (p s : Text) → HasNoSlash p → split_path (p ++ slash ∷ s) ≡ p ∷ split_path s
unfolding split_path no_slash
split_path-slash [] s h = refl
split_path-slash (c ∷ p) s h = ground (arith, split_path-slash p s)

pub element-HasNoSlash : (p : Text) → IsElement p → HasNoSlash p
element-HasNoSlash p h = ground arith

pub split_path-flat :
    (p : Text) (ps : List Text) → All IsElement (p ∷ ps) → split_path (p ++ flat ps) ≡ p ∷ ps
unfolding flat
split_path-flat p [] (a, rest) =
    ap split_path (append-nil p) ∙ split_path-plain p (element-HasNoSlash p a)
split_path-flat p (q ∷ ps) (a, rest) =
    split_path-slash p (q ++ flat ps) (element-HasNoSlash p a)
    ∙ ap (λ v. p ∷ v) (split_path-flat q ps rest)

abbrev pub root : List Text → FilePath
root ps = record { rooted = true; parts = ps }

clean-flat : (ps : List Text) → All IsElement ps → clean (print (root ps)) ≡ root ps
unfolding clean print flat split_path clean_from resolve_part text_discrete
clean-flat [] a = refl
clean-flat (p ∷ ps) a =
    ap (λ v. root (clean_from true [] v)) (split_path-flat p ps a)
    ∙ ap root (clean_from-elements [] (p ∷ ps) a)

-- An absolute path is read back from its text.
pub clean-print : (p : FilePath) → IsAbsolute p → clean (print p) ≡ p
clean-print p a =
    let e : p ≡ root p.parts = ground arith in
    ap (λ v. clean (print v)) e ∙ clean-flat p.parts a.elements ∙ sym e
