-- ===== src/Script/Sudo.antt =====
-- The normalisation of the lines that call sudo.
use cicd.Prelude.{
  ◌≡◌, ◌⊎◌, inl, inr, refl, ap, ◌∙◌, Bool, true, not, ◌&&◌, ◌||◌, List, [], ◌∷◌, ◌++◌, arith, Text,
  codes, same, same_self, text_discrete, if◌then◌else◌,
}
use cicd.Script.{
  is_blank, trim_left, cut_left, trim_right, trim_space, trim_prefix, fields, join, after_sudo,
  has_prefix, drop_matching, sudo, flag_a, rebuilt, without_flag, is_sudo_command_line,
  sudo_has_a_immediately, move_sudo_a_to_front, normalize_line,
}
use cicd.Script.Trim.{trim_left-cut, trim_right-keep, trim_right-space}

-- What stands behind `sudo -A` in a rebuilt line.
abbrev behind : List Text → Text
behind [] = []
behind (t ∷ ts) = 32 ∷ join 32 (t ∷ ts)

rebuilt-behind : (ts : List Text) → rebuilt ts ≡ codes "sudo -A" ++ behind ts
rebuilt-behind [] = refl
rebuilt-behind (t ∷ ts) = refl

trimmed :
    (line r : Text)
    → trim_space (cut_left is_blank line ++ (codes "sudo -A" ++ r))
      ≡ codes "sudo -A" ++ trim_right r
unfolding trim_space
trimmed line r =
    ap trim_right (trim_left-cut line (codes "sudo -A" ++ r) ∙ unfold trim_left in refl)
    ∙ trim_right-keep (codes "sudo -") 65 r refl

after-trimmed :
    (line : Text) (s : Text)
    → trim_space line ≡ codes "sudo -A" ++ s
    → after_sudo line ≡ codes "-A" ++ s
unfolding trim_left has_prefix drop_matching
after-trimmed line s e = ap (λ t. trim_left is_blank (trim_prefix t sudo)) e

-- A trimmed line that begins with `sudo -A` and ends or goes on with a space.
has_a-space :
    (line s : Text)
    → trim_space line ≡ codes "sudo -A" ++ s
    → (s ≡ []) ⊎ ((t : Text) × (s ≡ 32 ∷ t))
    → sudo_has_a_immediately line ≡ true
unfolding sudo_has_a_immediately has_prefix text_discrete
has_a-space line s e (inl n) =
    ap (λ v. same v flag_a || has_prefix v (codes "-A "))
      (after-trimmed line s e ∙ ap (λ v. codes "-A" ++ v) n)
has_a-space line s e (inr (t, n)) =
    ap (λ v. same v flag_a || has_prefix v (codes "-A "))
      (after-trimmed line s e ∙ ap (λ v. codes "-A" ++ v) n)

behind-space :
    (ts : List Text)
    → (trim_right (behind ts) ≡ []) ⊎ ((t : Text) × (trim_right (behind ts) ≡ 32 ∷ t))
unfolding trim_right
behind-space [] = inl refl
behind-space (t ∷ ts) = elim (trim_right-space (join 32 (t ∷ ts))) [
  | inl e ↦ inl e
  | inr e ↦ inr (trim_right (join 32 (t ∷ ts)), e)
]

has_a-move : (line : Text) → sudo_has_a_immediately (move_sudo_a_to_front line) ≡ true
unfolding move_sudo_a_to_front
has_a-move line =
    let ts : List Text = without_flag (fields (after_sudo line)) in
    has_a-space (move_sudo_a_to_front line) (trim_right (behind ts))
      (ap (λ r. trim_space (cut_left is_blank line ++ r)) (rebuilt-behind ts)
        ∙ trimmed line (behind ts))
      (behind-space ts)

-- The step of a loop that repairs a line where a test asks for it, for a repair that does its work.
module _ (test has : Text → Bool) (move : Text → Text)
    (moved : (l : Text) → has (move l) ≡ true) where
  abbrev repaired : Text → Text
  repaired l = if test l && not (has l) then move l else l

  repaired-has : (l : Text) → (not (test l) || has (repaired l)) ≡ true
  repaired-has l = ground (arith, moved l)

  repaired-other : (l : Text) → (test l || same (repaired l) l) ≡ true
  repaired-other l = ground (arith, same_self l)

  repaired_idem : (l : Text) → repaired (repaired l) ≡ repaired l
  repaired_idem l = ground (arith, moved l)

-- A line that calls sudo has `-A` as its first argument when it is normalised; any other line is as
-- it was; and normalising a line a second time changes nothing.
pub normalize_line_lem :
    (line : Text)
    → ((not (is_sudo_command_line line) || sudo_has_a_immediately (normalize_line line)) ≡ true)
      × ((is_sudo_command_line line || same (normalize_line line) line) ≡ true)
      × (normalize_line (normalize_line line) ≡ normalize_line line)
unfolding normalize_line
normalize_line_lem line = (
  repaired-has is_sudo_command_line sudo_has_a_immediately move_sudo_a_to_front has_a-move line,
  repaired-other is_sudo_command_line sudo_has_a_immediately move_sudo_a_to_front has_a-move line,
  repaired_idem is_sudo_command_line sudo_has_a_immediately move_sudo_a_to_front has_a-move line,
)
