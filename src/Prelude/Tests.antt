-- ===== src/Prelude/Tests.antt =====
-- Boolean tests on numbers and texts, the conditional, and case analysis on a computed value.
use Prim.Native.Nat.{ℕ, compare, Ordering}
use Prim.Native.Char.{code}
use Prim.Native.String.{String}
use mathlib.Core.Path.{◌≡◌, refl}
use mathlib.Core.Logic.{◌⊎◌, inl, inr}
use mathlib.Core.Bool.{Bool, true, false}
use mathlib.Core.Option.{Option, none, some}
use mathlib.Core.List.{List, [], ◌∷◌}
use native.Mathlib.Decide.{ℕ_discrete}

-- The characters of a Go string, in order.
abbrev pub Text : Type 0
Text = List ℕ

abbrev pub codes : String → Text
codes String.[] = []
codes (String.◌∷◌ c s) = code c ∷ codes s

abbrev pub ltb : ℕ → ℕ → Bool
ltb a b = elim (compare a b) [ Ordering.lt ↦ true | _ ↦ false ]

abbrev pub leb : ℕ → ℕ → Bool
leb a b = elim (compare a b) [ Ordering.gt ↦ false | _ ↦ true ]

infix 50 ◌==◌
abbrev pub ◌==◌ : ℕ → ℕ → Bool
a == b = elim (compare a b) [ Ordering.eq ↦ true | _ ↦ false ]

infix 1 if◌then◌else◌
abbrev pub if◌then◌else◌ {ℓ} : {A : Type ℓ} → Bool → A → A → A
if true then x else y = x
if false then x else y = y

module _ {ℓ} {A : Type ℓ} {x y : A} {xs ys : List A} where
  pub cons-eq : x ≡ y → xs ≡ ys → x ∷ xs ≡ y ∷ ys
  cons-eq p q = cc

  pub cons-ne-head : (x ≡ y → ⊥) → x ∷ xs ≡ y ∷ ys → ⊥
  cons-ne-head p e = p (cc)

  pub cons-ne-tail : (xs ≡ ys → ⊥) → x ∷ xs ≡ y ∷ ys → ⊥
  cons-ne-tail q e = q (cc)

  abbrev cons_dec : Dec (x ≡ y) → Dec (xs ≡ ys) → Dec (x ∷ xs ≡ y ∷ ys)
  cons_dec (yes p) (yes q) = yes (cons-eq p q)
  cons_dec (yes p) (no q) = no (cons-ne-tail q)
  cons_dec (no p) d = no (cons-ne-head p)

module _ {ℓ} {A : Type ℓ} {x : A} {xs : List A} where
  pub nil-ne-cons : [] ≡ x ∷ xs → ⊥
  nil-ne-cons e = cc

  pub cons-ne-nil : x ∷ xs ≡ [] → ⊥
  cons-ne-nil e = cc

unfoldable pub text_discrete : Discrete Text
unfolding ℕ_discrete
text_discrete [] [] = yes refl
text_discrete [] (y ∷ ys) = no nil-ne-cons
text_discrete (x ∷ xs) [] = no cons-ne-nil
text_discrete (x ∷ xs) (y ∷ ys) = cons_dec (ℕ_discrete x y) (text_discrete xs ys)

-- Equality of texts, as a test. The tactics split on the decision and keep the equation.
abbrev pub same : Text → Text → Bool
same a b = elim (text_discrete a b) [ yes p ↦ true | no p ↦ false ]

pub same_self : (a : Text) → same a a ≡ true
same_self a = cases (text_discrete a a)
  where
    cases : (d : Dec (a ≡ a)) → (elim d [ yes p ↦ true | no p ↦ false ]) ≡ true
    cases (yes p) = refl
    cases (no p) = absurd (p refl)

pub same_ne : (a b : Text) → (a ≡ b → ⊥) → same a b ≡ false
same_ne a b h = cases (text_discrete a b)
  where
    cases : (d : Dec (a ≡ b)) → (elim d [ yes p ↦ true | no p ↦ false ]) ≡ false
    cases (yes p) = absurd (h p)
    cases (no p) = refl

-- `s == ""`
abbrev pub is_empty : Text → Bool
is_empty [] = true
is_empty (c ∷ s) = false

-- `s != ""`
abbrev pub is_set : Text → Bool
is_set [] = false
is_set (c ∷ s) = true

pub Bool-cases : (b : Bool) → (b ≡ true) ⊎ (b ≡ false)
Bool-cases true = inl refl
Bool-cases false = inr refl

pub Option-cases {ℓ} : {A : Type ℓ} (o : Option A) → (o ≡ none) ⊎ ((a : A) × (o ≡ some a))
Option-cases none = inl refl
Option-cases (some a) = inr (a, refl)
