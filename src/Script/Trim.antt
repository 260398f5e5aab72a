-- ===== src/Script/Trim.antt =====
-- Lemmas on the trimming and splitting of texts.
use cicd.Prelude.{
  ℕ, ◌≡◌, refl, true, false, [], ◌∷◌, ◌++◌, arith, Text, ◌⊎◌, inl, inr, Bool-cases, is_empty,
}
use cicd.Script.{is_space, is_blank, trim_left, cut_left, trim_right}

pub blank-space : (c : ℕ) → is_blank c ≡ true → is_space c ≡ true
blank-space c h = ground arith

-- Spaces and tabs in front do not matter to `TrimSpace`.
pub trim_left-cut :
    (s t : Text) → trim_left is_space (cut_left is_blank s ++ t) ≡ trim_left is_space t
unfolding trim_left cut_left
trim_left-cut [] t = refl
trim_left-cut (c ∷ s) t = ground (arith, blank-space c, trim_left-cut s t)

append-set : (p : Text) (c : ℕ) (t : Text) → is_empty (p ++ c ∷ t) ≡ false
append-set [] c t = refl
append-set (d ∷ p) c t = refl

-- A text whose last character is no space is kept by trimming on the right.
pub trim_right-keep :
    (p : Text) (c : ℕ) (t : Text)
    → is_space c ≡ false
    → trim_right (p ++ c ∷ t) ≡ p ++ c ∷ trim_right t
unfolding trim_right
trim_right-keep [] c t h = ground arith
trim_right-keep (d ∷ p) c t h =
    ground (arith, trim_right-keep p c t h, append-set p c (trim_right t))

-- What trimming leaves of a text that begins with a space: nothing, or a text that does so too.
pub trim_right-space :
    (t : Text) → (trim_right (32 ∷ t) ≡ []) ⊎ (trim_right (32 ∷ t) ≡ 32 ∷ trim_right t)
unfolding trim_right
trim_right-space t = elim (Bool-cases (is_empty (trim_right t))) [
  | inl e ↦ inl (ground arith)
  | inr e ↦ inr (ground arith)
]
