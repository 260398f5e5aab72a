-- ===== src/Process/Group/Stat.antt =====
-- Reading the group from a `stat` file, which has the command in parentheses.
use cicd.Prelude.{
  ℕ, ◌≡◌, refl, Bool, true, false, not, ◌&&◌, Option, none, some, [], ◌∷◌, ◌++◌, arith, Text,
  is_empty, ◌==◌,
}
use cicd.Script.{is_space, push, fields}
use cicd.Process.Group.{after_last_paren, third, group_behind, group_of_stat}

-- The text has no space and no closing parenthesis.
unfoldable pub plain : Text → Bool
plain [] = true
plain (c ∷ s) = not (is_space c) && (not (c == 41) && plain s)

abbrev pub IsWord : Text → Type 0
IsWord s = (is_empty s ≡ false) × (plain s ≡ true)

unfoldable pub no_paren : Text → Bool
no_paren [] = true
no_paren (c ∷ s) = not (c == 41) && no_paren s

fields-space : (s : Text) → fields (32 ∷ s) ≡ fields s
unfolding fields
fields-space [] = refl
fields-space (d ∷ s) = refl

fields-word :
    (c : ℕ) (w s : Text) → plain (c ∷ w) ≡ true → fields ((c ∷ w) ++ 32 ∷ s) ≡ (c ∷ w) ∷ fields s
unfolding fields plain push
fields-word c [] s h = ground (arith, fields-space s)
fields-word c (d ∷ w) s h = ground (arith, fields-word d w s)

word-fields : (w s : Text) → IsWord w → fields (w ++ 32 ∷ s) ≡ w ∷ fields s
word-fields [] s h = ground arith
word-fields (c ∷ w) s (e, h) = fields-word c w s h

after-none : (s : Text) → no_paren s ≡ true → after_last_paren s ≡ none
unfolding after_last_paren no_paren
after-none [] h = refl
after-none (c ∷ s) h = ground (arith, after-none s)

after-some :
    (t s rest : Text) → after_last_paren s ≡ some rest → after_last_paren (t ++ s) ≡ some rest
unfolding after_last_paren
after-some [] s rest h = h
after-some (c ∷ t) s rest h = rw (after-some t s rest h) refl

after-paren : (s : Text) → no_paren s ≡ true → after_last_paren (41 ∷ s) ≡ some s
unfolding after_last_paren
after-paren s h = rw (after-none s h) refl

plain-no_paren : (w s : Text) → plain w ≡ true → no_paren s ≡ true → no_paren (w ++ 32 ∷ s) ≡ true
unfolding plain no_paren
plain-no_paren [] s h e = e
plain-no_paren (c ∷ w) s h e = ground (arith, plain-no_paren w s)

-- The line that the kernel writes: the PID, the command in parentheses, the state, the parent, the
-- group, and the rest.
abbrev pub stat_line : Text → Text → Text → Text → Text → Text → Text
stat_line pid comm state ppid pgrp rest =
    (pid ++ 32 ∷ 40 ∷ comm) ++ 41 ∷ 32 ∷ (state ++ 32 ∷ (ppid ++ 32 ∷ (pgrp ++ 32 ∷ rest)))

behind : Text → Text → Text → Text → Text
behind state ppid pgrp rest = 32 ∷ (state ++ 32 ∷ (ppid ++ 32 ∷ (pgrp ++ 32 ∷ rest)))

behind-no_paren :
    (state ppid pgrp rest : Text)
    → IsWord state
    → IsWord ppid
    → IsWord pgrp
    → no_paren rest ≡ true
    → no_paren (behind state ppid pgrp rest) ≡ true
unfolding behind plain
behind-no_paren state ppid pgrp rest s p g r =
    plain-no_paren [] _ refl
      (plain-no_paren state _ s.1 (plain-no_paren ppid _ p.1 (plain-no_paren pgrp rest g.1 r)))

behind-third :
    (state ppid pgrp rest : Text)
    → IsWord state
    → IsWord ppid
    → IsWord pgrp
    → third (fields (state ++ 32 ∷ (ppid ++ 32 ∷ (pgrp ++ 32 ∷ rest)))) ≡ some pgrp
behind-third state ppid pgrp rest s p g =
    rw
      (
        word-fields state (ppid ++ 32 ∷ (pgrp ++ 32 ∷ rest)) s,
        word-fields ppid (pgrp ++ 32 ∷ rest) p,
        word-fields pgrp rest g,
      )
      refl

behind-group :
    (s : Text) (o : Option Text)
    → is_empty s ≡ false
    → third (fields s) ≡ o
    → group_behind (32 ∷ s) ≡ o
behind-group [] o e h = ground arith
behind-group (c ∷ s) o e h = h

starts : (w s : Text) → IsWord w → is_empty (w ++ 32 ∷ s) ≡ false
starts [] s h = refl
starts (c ∷ w) s h = refl

-- The group is read from the line that the kernel writes, whatever the command is called: it may have
-- spaces and parentheses. The state, the parent and the group are words, and no `)` follows them.
pub group_of_stat-line :
    (pid comm state ppid pgrp rest : Text)
    → IsWord state
    → IsWord ppid
    → IsWord pgrp
    → no_paren rest ≡ true
    → group_of_stat (stat_line pid comm state ppid pgrp rest) ≡ some pgrp
unfolding group_of_stat behind
group_of_stat-line pid comm state ppid pgrp rest s p g r =
    let found : after_last_paren (stat_line pid comm state ppid pgrp rest)
        ≡ some (behind state ppid pgrp rest) =
      after-some (pid ++ 32 ∷ 40 ∷ comm) _ _
        (after-paren _ (behind-no_paren state ppid pgrp rest s p g r)) in
    rw (found, group_of_stat)
      (behind-group _ _ (starts state (ppid ++ 32 ∷ (pgrp ++ 32 ∷ rest)) s)
        (behind-third state ppid pgrp rest s p g))
