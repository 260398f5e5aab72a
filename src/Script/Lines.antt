-- ===== src/Script/Lines.antt =====
-- The normalisation of a whole script.
use cicd.Prelude.{
  ℕ, ◌≡◌, refl, sym, ap, ◌∙◌, Bool, true, false, not, ◌&&◌, ◌||◌, List, [], ◌∷◌, ◌++◌, map, arith,
  Text, codes, same, same_self, cons-eq, All, ◌==◌, if◌then◌else◌,
}
use cicd.Script.{
  is_blank, cut_left, fields, push, split_lines, join, after_sudo, rebuilt, without_flag,
  is_sudo_command_line, sudo_has_a_immediately, move_sudo_a_to_front, normalize_line, any_changed,
  normalize_sudo_a_flags,
}
use cicd.Script.Sudo.{normalize_line_lem}

-- No newline is in the text.
unfoldable one_line : Text → Bool
one_line [] = true
one_line (c ∷ s) = not (c == 10) && one_line s

abbrev IsOneLine : Text → Type 0
IsOneLine s = one_line s ≡ true

IsOneLine-append : (s t : Text) → IsOneLine s → IsOneLine t → IsOneLine (s ++ t)
unfolding one_line
IsOneLine-append [] t hs ht = ht
IsOneLine-append (c ∷ s) t hs ht = ground (arith, IsOneLine-append s t)

push-All :
    (c : ℕ) (ws : List Text) → not (c == 10) ≡ true → All IsOneLine ws → All IsOneLine (push c ws)
unfolding one_line
push-All c [] h a = (ground arith, tt)
push-All c (w ∷ ws) h (a, rest) = (ground arith, rest)

split_lines-All : (s : Text) → All IsOneLine (split_lines s)
unfolding split_lines one_line
split_lines-All [] = (refl, tt)
split_lines-All (c ∷ s) = ground (arith, split_lines-All s, push-All c (split_lines s))

fields-All : (s : Text) → All IsOneLine (fields s)
unfolding fields one_line
fields-All [] = tt
fields-All (c ∷ []) = ground arith
fields-All (c ∷ d ∷ s) = ground (arith, fields-All (d ∷ s), push-All c (fields (d ∷ s)))

without_flag-All : (ts : List Text) → All IsOneLine ts → All IsOneLine (without_flag ts)
unfolding without_flag
without_flag-All [] a = tt
without_flag-All (t ∷ ts) (a, rest) = ground (arith, without_flag-All ts rest)

join-IsOneLine : (ts : List Text) → All IsOneLine ts → IsOneLine (join 32 ts)
unfolding join one_line
join-IsOneLine [] a = refl
join-IsOneLine (t ∷ []) (a, rest) = a
join-IsOneLine (t ∷ u ∷ ts) (a, rest) =
    IsOneLine-append t (32 ∷ join 32 (u ∷ ts)) a (ground (arith, join-IsOneLine (u ∷ ts) rest))

cut_left-IsOneLine : (s : Text) → IsOneLine (cut_left is_blank s)
unfolding cut_left one_line
cut_left-IsOneLine [] = refl
cut_left-IsOneLine (c ∷ s) = ground (arith, cut_left-IsOneLine s)

rebuilt-IsOneLine : (ts : List Text) → All IsOneLine ts → IsOneLine (rebuilt ts)
unfolding one_line
rebuilt-IsOneLine [] a = refl
rebuilt-IsOneLine (t ∷ ts) a =
    IsOneLine-append (codes "sudo -A ") (join 32 (t ∷ ts)) refl (join-IsOneLine (t ∷ ts) a)

move-IsOneLine : (line : Text) → IsOneLine (move_sudo_a_to_front line)
unfolding move_sudo_a_to_front
move-IsOneLine line =
    let ts : List Text = fields (after_sudo line) in
    IsOneLine-append (cut_left is_blank line) (rebuilt (without_flag ts)) (cut_left-IsOneLine line)
      (rebuilt-IsOneLine (without_flag ts) (without_flag-All ts (fields-All (after_sudo line))))

normalize-IsOneLine : (line : Text) → IsOneLine line → IsOneLine (normalize_line line)
unfolding normalize_line
normalize-IsOneLine line h = chosen (is_sudo_command_line line && not (sudo_has_a_immediately line))
  where
    chosen : (b : Bool) → IsOneLine (if b then move_sudo_a_to_front line else line)
    chosen true = move-IsOneLine line
    chosen false = h

map-All : (ls : List Text) → All IsOneLine ls → All IsOneLine (map normalize_line ls)
map-All [] a = tt
map-All (l ∷ ls) (a, rest) = (normalize-IsOneLine l a, map-All ls rest)

split_lines-one : (w : Text) → IsOneLine w → split_lines w ≡ w ∷ []
unfolding split_lines one_line
split_lines-one [] h = refl
split_lines-one (c ∷ w) h = ground (arith, split_lines-one w)

split_lines-newline : (w t : Text) → IsOneLine w → split_lines (w ++ 10 ∷ t) ≡ w ∷ split_lines t
unfolding split_lines one_line
split_lines-newline [] t h = refl
split_lines-newline (c ∷ w) t h = ground (arith, split_lines-newline w t)

-- Splitting what was joined gives the lines back.
split_lines-join :
    (l : Text) (ls : List Text) → All IsOneLine (l ∷ ls) → split_lines (join 10 (l ∷ ls)) ≡ l ∷ ls
unfolding join
split_lines-join l [] (a, rest) = split_lines-one l a
split_lines-join l (k ∷ ls) (a, rest) =
    split_lines-newline l (join 10 (k ∷ ls)) a ∙ ap (λ v. l ∷ v) (split_lines-join k ls rest)

map_idem : (ls : List Text) → map normalize_line (map normalize_line ls) ≡ map normalize_line ls
map_idem [] = refl
map_idem (l ∷ ls) = cons-eq (normalize_line_lem l).2 (map_idem ls)

unchanged : (ls : List Text) → any_changed (map normalize_line ls) ≡ false
unfolding any_changed
unchanged [] = refl
unchanged (l ∷ ls) =
    step (normalize_line (normalize_line l)) (normalize_line l) (normalize_line_lem l).2
      (unchanged ls)
  where
    step : (a b : Text) {r : Bool} → a ≡ b → r ≡ false → (not (same a b) || r) ≡ false
    step a b e h = ground (arith, same_self b)

abbrev has_none : List Text → Bool
has_none [] = true
has_none (l ∷ ls) = false

abbrev pair : Text → Bool → Text × Bool
pair s b = (s, b)

pair-eq : (s t : Text) (b d : Bool) → s ≡ t → b ≡ d → pair s b ≡ pair t d
pair-eq s t b d e f = cc

twice :
    (lines ls : List Text)
    → lines ≡ ls
    → All IsOneLine ls
    → not (has_none ls) ≡ true
    → let out : Text = join 10 (map normalize_line lines) in
      pair (join 10 (map normalize_line (split_lines out))) (any_changed (split_lines out))
      ≡ pair out false
twice lines [] e a h = cc
twice lines (l ∷ ls) e a h =
    ap
      (λ v.
        pair (join 10 (map normalize_line (split_lines (join 10 (map normalize_line v)))))
          (any_changed (split_lines (join 10 (map normalize_line v)))))
      e
    ∙ ap (λ v. pair (join 10 (map normalize_line v)) (any_changed v))
        (split_lines-join (normalize_line l) (map normalize_line ls) (map-All (l ∷ ls) a))
    ∙ pair-eq (join 10 (map normalize_line (map normalize_line (l ∷ ls))))
        (join 10 (map normalize_line (l ∷ ls))) (any_changed (map normalize_line (l ∷ ls))) false
        (ap (join 10) (map_idem (l ∷ ls))) (unchanged (l ∷ ls))
    ∙ ap (λ v. pair (join 10 (map normalize_line v)) false) (sym e)

split_lines-some : (s : Text) → not (has_none (split_lines s)) ≡ true
unfolding split_lines
split_lines-some [] = refl
split_lines-some (c ∷ s) = ground (arith, pushed c (split_lines s))
  where
    pushed : (d : ℕ) (ws : List Text) → not (has_none (push d ws)) ≡ true
    pushed d [] = refl
    pushed d (w ∷ ws) = refl

-- Normalising a script that was normalised changes nothing, and reports that it did not.
normalize_twice :
    (content : Text)
    → normalize_sudo_a_flags (normalize_sudo_a_flags content).0
      ≡ ((normalize_sudo_a_flags content).0, false)
unfolding normalize_sudo_a_flags
normalize_twice content =
    twice (split_lines content) (split_lines content) refl (split_lines-All content)
      (split_lines-some content)
