-- ===== src/Log/Rotation.antt =====
-- What a rotation does to the files.
use cicd.Prelude.{
  ℕ, zero, suc, Bool, ◌-◌, ◌≤◌, ◌≡◌, refl, true, false, Option, none, some, [], arith, Text, ltb,
  leb, ◌==◌, if◌then◌else◌,
}
use cicd.Log.{Logs, with_file, remove, rename, max_log_size, shift_from, rotate_log_if_needed}

-- The file with a number after a rotation: the log is new and empty, each other one has the text of
-- the one before, and files above the fifth are not touched.
abbrev pub rotated : Logs → ℕ → Option Text
rotated logs zero = some []
rotated logs (suc i) = if ltb i 5 then logs i else logs (suc i)

abbrev moved : ℕ → ℕ → Logs → Option Text → Logs
moved src dst logs o = elim o [
  | none ↦ logs
  | some content ↦ remove src (with_file dst (some content) logs)
]

rename-at :
    (src dst : ℕ) (logs : Logs) (j : ℕ)
    → logs dst ≡ none
    → rename true src dst logs j
      ≡ (if j == src then none else if j == dst then logs src else logs j)
unfolding rename
rename-at src dst logs j h = cases (logs src) refl
  where
    cases :
        (o : Option Text)
        → logs src ≡ o
        → moved src dst logs o j ≡ (if j == src then none else if j == dst then o else logs j)
    cases none e = ground arith
    cases (some content) e = ground arith

-- The files when the loop has come down to `i`: above it, each has the text of the one before.
abbrev Shifted : ℕ → Logs → Logs → Type 0
Shifted i logs now =
    (j : ℕ)
    → now j ≡ (
        if leb j i
        then logs j
        else if j == suc i
        then none
        else if leb j 5
        then logs (j - 1)
        else logs j)

shift-Shifted :
    (i : ℕ) (logs now : Logs)
    → suc i ≤ 4
    → Shifted (suc i) logs now
    → Shifted i logs (rename true (suc i) (suc (suc i)) now)
shift-Shifted i logs now b s j =
    ground (arith, rename-at (suc i) (suc (suc i)) now j, s (suc (suc i)), s (suc i), s j)

below_five : (i : ℕ) → suc i ≤ 4 → (suc i == 5) ≡ false
below_five i b = ground arith

shift_from-Shifted :
    (renames : ℕ → Bool) (i : ℕ) (logs now : Logs)
    → ((j : ℕ) → renames j ≡ true)
    → i ≤ 4
    → Shifted i logs now
    → Shifted 0 logs (shift_from renames i now)
unfolding shift_from
shift_from-Shifted renames zero logs now a b s = s
shift_from-Shifted renames (suc i) logs now a b s =
    rw (below_five i b, a (suc i))
      (shift_from-Shifted renames i logs (rename true (suc i) (suc (suc i)) now) a (omega arith)
        (shift-Shifted i logs now b s))

removed-Shifted : (logs : Logs) → Shifted 4 logs (remove 5 logs)
removed-Shifted logs j = ground arith

shifted :
    (renames : ℕ → Bool) (logs : Logs)
    → ((j : ℕ) → renames j ≡ true)
    → Shifted 0 logs (shift_from renames 5 logs)
unfolding shift_from
shifted renames logs a =
    shift_from-Shifted renames 4 logs (remove 5 logs) a (omega arith) (removed-Shifted logs)

renamed :
    (logs now : Logs)
    → Shifted 0 logs now
    → (j : ℕ) → with_file 0 (some []) (rename true 0 1 now) j ≡ rotated logs j
renamed logs now s zero = refl
renamed logs now s (suc j) = ground (arith, rename-at 0 1 now (suc j), s 1, s 0, s (suc j))

-- A log that has grown to 50 MB is rotated, if the renames that are tried and the new file succeed: the log is new and empty, the files 1 to 5 have the texts
-- of the log and of the files 1 to 4 before, a missing one included, and no other file is touched. So
-- only the text of the fifth file is lost.
pub rotate_log-at :
    (size : ℕ) (renames : ℕ → Bool) (logs : Logs) (j : ℕ)
    → ((i : ℕ) → renames i ≡ true)
    → ltb size max_log_size ≡ false
    → rotate_log_if_needed (some size) renames true logs j ≡ rotated logs j
unfolding rotate_log_if_needed
rotate_log-at size renames logs j a h =
    rw (h, a 0) (renamed logs (shift_from renames 5 logs) (shifted renames logs a) j)
