-- ===== src/Log.antt =====
-- The rotation of a log file (gosrc/logger/log.go: RotateLogIfNeeded). A directory maps the log's
-- number to its text: 0 is the log itself, `i` the file with `.i` behind its name.
pub mod Rotation
pub mod Tail
mod Tests
use cicd.Prelude.{
  ℕ, zero, suc, ◌+◌, ◌*◌, Bool, true, false, Option, none, some, [], Text, ltb, ◌==◌, if◌then◌else◌,
}

abbrev pub Logs : Type 0
Logs = ℕ → Option Text

abbrev pub with_file : ℕ → Option Text → Logs → Logs
with_file i content logs j = if j == i then content else logs j

-- `os.Remove`; a missing file is an error that the code ignores.
abbrev pub remove : ℕ → Logs → Logs
remove i = with_file i none

-- `os.Rename`, whose error the code ignores: nothing happens if the source is missing or if the
-- operating system refuses.
unfoldable pub rename : Bool → ℕ → ℕ → Logs → Logs
rename false src dst logs = logs
rename true src dst logs = elim (logs src) [
  | none ↦ logs
  | some content ↦ remove src (with_file dst (some content) logs)
]

abbrev pub max_log_size : ℕ
max_log_size = 50 * 1024 * 1024

abbrev pub max_log_rotation : ℕ
max_log_rotation = 5

-- The loop, from `i` down to 1; `renames i` tells whether the file `i` can be renamed.
unfoldable pub shift_from : (ℕ → Bool) → ℕ → Logs → Logs
unfolding rename
shift_from renames zero logs = logs
shift_from renames (suc i) logs =
    let shifted : Logs =
      if suc i == max_log_rotation
      then remove (suc i) logs
      else rename (renames (suc i)) (suc i) (suc (suc i)) logs in
    shift_from renames i shifted

-- `RotateLogIfNeeded`, for the size that `os.Stat` reports, if it does, and whether the file is
-- created.
unfoldable pub rotate_log_if_needed : Option ℕ → (ℕ → Bool) → Bool → Logs → Logs
unfolding shift_from
rotate_log_if_needed none renames creates logs = logs
rotate_log_if_needed (some size) renames creates logs =
    if ltb size max_log_size
    then logs
    else let moved : Logs = rename (renames 0) 0 1 (shift_from renames max_log_rotation logs) in
      if creates then with_file 0 (some []) moved else moved
