-- ===== src/Script/Flags.antt =====
-- The injection of `set -e` into an install script.
use cicd.Prelude.{◌≡◌, refl, ◌∙◌, Bool, true, false, [], ◌∷◌, ◌++◌, arith, Text, codes}
use cicd.Script.{
  has_prefix, contains, first_line, injected_tail, injected, insert_at, has_set_e,
  inject_safety_flags,
}

has_prefix-append : (s t p : Text) → has_prefix s p ≡ true → has_prefix (s ++ t) p ≡ true
unfolding has_prefix
has_prefix-append s t [] h = ground arith
has_prefix-append [] t (d ∷ p) h = cc
has_prefix-append (c ∷ s) t (d ∷ p) h = ground (arith, has_prefix-append s t p)

contains-append : (s t p : Text) → contains s p ≡ true → contains (s ++ t) p ≡ true
unfolding contains
contains-append [] [] p h = h
contains-append [] (c ∷ t) [] h = ground arith
contains-append [] (c ∷ t) (d ∷ p) h = ground arith
contains-append (c ∷ s) t p h = ground (arith, has_prefix-append (c ∷ s) t p, contains-append s t p)

contains-prepend : (s t p : Text) → contains t p ≡ true → contains (s ++ t) p ≡ true
unfolding contains
contains-prepend [] t p h = h
contains-prepend (c ∷ s) t p h = ground (arith, contains-prepend s t p)

first_line-append : (s : Text) → (first_line s).0 ++ (first_line s).1 ≡ s
unfolding first_line
first_line-append [] = refl
first_line-append (c ∷ s) = ground (arith, first_line-append s)

first_line-shebang :
    (s : Text) → has_prefix (first_line s).0 (codes "#!") ≡ has_prefix s (codes "#!")
unfolding first_line has_prefix
first_line-shebang [] = refl
first_line-shebang (c ∷ []) = ground arith
first_line-shebang (c ∷ d ∷ s) = ground arith

has_set_e-append : (s t : Text) → has_set_e s ≡ true → has_set_e (s ++ t) ≡ true
has_set_e-append s t h = ground (
  arith,
  contains-append s t (codes "set -e"),
  contains-append s t (codes "set -eo"),
  contains-append s t (codes "set -xe"),
)

has_set_e-prepend : (s t : Text) → contains t (codes "set -e") ≡ true → has_set_e (s ++ t) ≡ true
has_set_e-prepend s t h = ground (arith, contains-prepend s t (codes "set -e"))

tail-set : contains injected_tail (codes "set -e") ≡ true
unfolding contains has_prefix
tail-set = refl

injected-set : (name t : Text) → contains (injected name ++ t) (codes "set -e") ≡ true
injected-set name t = contains-append (injected name) t (codes "set -e") (
    contains-prepend (10 ∷ codes "# --- injected by CICD (") (name ++ injected_tail)
      (codes "set -e") (contains-prepend name injected_tail (codes "set -e") tail-set))

insert_at-set :
    (b : Bool) (content name : Text) → has_set_e (insert_at b (injected name) content) ≡ true
unfolding insert_at
insert_at-set true content name =
    has_set_e-prepend (first_line content).0 (injected name ++ (first_line content).1)
      (injected-set name (first_line content).1)
insert_at-set false content name =
    has_set_e-prepend [] (injected name ++ content) (injected-set name content)

insert_at-shebang :
    (b : Bool) (content name : Text)
    → has_prefix (first_line content).0 (codes "#!") ≡ b
    → has_prefix (insert_at b (injected name) content) (codes "#!") ≡ b
unfolding insert_at
insert_at-shebang true content name h =
    has_prefix-append (first_line content).0 (injected name ++ (first_line content).1) (codes "#!")
      h
insert_at-shebang false content name h = unfold has_prefix in refl

-- After `injectSafetyFlags` the script sets `set -e`, has a shebang exactly if it had one, and is not
-- changed by a second run.
inject_once :
    (content name : Text)
    → (has_set_e (inject_safety_flags content name).0 ≡ true)
      × (has_prefix (inject_safety_flags content name).0 (codes "#!")
          ≡ has_prefix content (codes "#!"))
      × (inject_safety_flags (inject_safety_flags content name).0 name
          ≡ ((inject_safety_flags content name).0, false))
unfolding inject_safety_flags
inject_once content name =
    let b : Bool = has_prefix (first_line content).0 (codes "#!") in
    let set = insert_at-set b content name in
    let shebang = insert_at-shebang b content name refl ∙ first_line-shebang content in
    (ground arith, ground arith, ground arith)
