-- ===== src/Paths/Subpath.antt =====
-- When one path counts as inside another.
use cicd.Prelude.{
  ◌≡◌, refl, ap, ◌∙◌, Bool, true, false, not, ◌&&◌, none, List, [], ◌∷◌, ◌++◌, arith, Text, codes,
  same, same_self, All, if◌then◌else◌,
}
use cicd.Script.{has_prefix}
use cicd.Paths.{
  FilePath, same_parts, same_path, without_common, rel_head, relative, goes_up, same_bool,
  is_subpath,
}
use cicd.Paths.Clean.{IsElement, IsAbsolute}

-- The elements of `base` come first, and the next one does not begin with two dots.
unfoldable pub is_inside : List Text → List Text → Bool
is_inside [] [] = true
is_inside [] (t ∷ ts) = not (has_prefix t (codes ".."))
is_inside (b ∷ bs) [] = false
is_inside (b ∷ bs) (t ∷ ts) = same b t && is_inside bs ts

parts-inside :
    (base target : List Text)
    → All IsElement base
    → (if same_parts target base
        then true
        else not (goes_up (rel_head (without_common base target))))
      ≡ is_inside base target
unfolding same_parts rel_head without_common is_inside has_prefix
parts-inside [] [] a = refl
parts-inside [] (t ∷ ts) a = ground arith
parts-inside (b ∷ bs) [] (a, rest) = ground arith
parts-inside (b ∷ bs) (t ∷ ts) (a, rest) = ground (arith, parts-inside bs ts rest)

-- For absolute paths `IsSubpath` says whether the elements of the parent come first in the path and
-- the next element, if there is one, does not begin with two dots.
pub is_subpath-is_inside :
    (path parent : FilePath)
    → IsAbsolute path
    → IsAbsolute parent
    → is_subpath path parent ≡ is_inside parent.parts path.parts
unfolding is_subpath same_path relative
is_subpath-is_inside path parent a b =
    ap (λ r. shape r parent.rooted) a.rooted
    ∙ ap (shape true) b.rooted
    ∙ parts-inside parent.parts path.parts b.elements
  where
    shape : Bool → Bool → Bool
    shape r q =
        if same_bool r q && same_parts path.parts parent.parts
        then true
        else not (
            goes_up
              (if same_bool q r then rel_head (without_common parent.parts path.parts) else none))

inside-append :
    (base : List Text) (p : Text) (ps : List Text)
    → is_inside base (base ++ p ∷ ps) ≡ not (has_prefix p (codes ".."))
unfolding is_inside
inside-append [] p ps = refl
inside-append (b ∷ bs) p ps = ground (arith, same_self b, inside-append bs p ps)

-- A directory inside another one does not count as inside it when its name begins with two dots.
pub is_subpath_dotted :
    (path parent : FilePath) (p : Text) (ps : List Text)
    → IsAbsolute path
    → IsAbsolute parent
    → path.parts ≡ parent.parts ++ p ∷ ps
    → is_subpath path parent ≡ not (has_prefix p (codes ".."))
is_subpath_dotted path parent p ps a b e =
    is_subpath-is_inside path parent a b
    ∙ ap (is_inside parent.parts) e
    ∙ inside-append parent.parts p ps
