-- ===== src/Paths/Resolve/Names.antt =====
-- The name of a deployment as an element of a path.
use cicd.Prelude.{
  ℕ, zero, suc, ◌≡◌, refl, Bool, true, false, Option, none, some, List, [], ◌∷◌, ◌++◌, arith, Text,
  codes, take, ◌==◌,
}
use mathlib.Core.Path.{subst}
use cicd.Script.{has_prefix}
use cicd.Paths.{dash, encode_to_string, random_hex}
use cicd.Paths.Slug.{slug_from, is_slug}
use cicd.Paths.Clean.{no_slash, IsElement}

slug-no_slash :
    (d : Bool) (s t : Text) → slug_from d s ≡ true → no_slash t ≡ true → no_slash (s ++ t) ≡ true
unfolding slug_from no_slash
slug-no_slash d [] t h k = k
slug-no_slash d (c ∷ s) t h k = ground (arith, slug-no_slash true s t, slug-no_slash false s t)

encode-no_slash : (bs : List ℕ) → no_slash (encode_to_string bs) ≡ true
unfolding encode_to_string no_slash
encode-no_slash [] = refl
encode-no_slash (b ∷ bs) = ground (arith, encode-no_slash bs)

take-no_slash : (n : ℕ) (s : Text) → no_slash s ≡ true → no_slash (take n s) ≡ true
unfolding no_slash
take-no_slash zero s h = refl
take-no_slash (suc n) [] h = refl
take-no_slash (suc n) (c ∷ s) h = ground (arith, take-no_slash n s)

-- A slug with anything behind it that has no slash is an element of a path, and does not begin with
-- a dot.
pub slug-IsElement :
    (s t : Text)
    → is_slug s ≡ true
    → no_slash t ≡ true
    → (IsElement (s ++ t)) × (has_prefix (s ++ t) (codes "..") ≡ false)
unfolding slug_from has_prefix
slug-IsElement [] t h k = cc
slug-IsElement (c ∷ s) t h k =
    let first : (c == 46) ≡ false = ground arith in
    let clear : no_slash (c ∷ (s ++ t)) ≡ true = slug-no_slash true (c ∷ s) t h k in
    (ground arith, ground arith)

-- The name of a deployment, for the suffix that `RandomHex` returned.
pub suffix-no_slash :
    (n : ℕ) (random : Option (List ℕ)) (suffix : Text)
    → random_hex n random ≡ some suffix
    → no_slash suffix ≡ true
unfolding random_hex
suffix-no_slash n none suffix e = cc
suffix-no_slash n (some bytes) suffix e =
    subst (λ s. no_slash s ≡ true) (cc)
      (take-no_slash n (encode_to_string bytes) (encode-no_slash bytes))

pub dash-no_slash : (suffix : Text) → no_slash suffix ≡ true → no_slash (dash ∷ suffix) ≡ true
unfolding no_slash
dash-no_slash suffix h = ground arith
