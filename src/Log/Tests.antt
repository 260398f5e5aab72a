-- ===== src/Log/Tests.antt =====
-- A run of the rotation, and the theorem at a concrete input.
use cicd.Prelude.{
  Text, length, ◌≤◌, ◌∷◌, ◌++◌, ◌≡◌, refl, true, none, some, codes, if◌then◌else◌, ◌==◌,
}
use cicd.Log.{Logs, rename, shift_from, rotate_log_if_needed}
use cicd.Log.Rotation.{rotate_log-at}
use cicd.Log.Tail.{skip_line, system_logs, IsTail, system_logs-IsTail}

-- The log and the files .1 and .5
abbrev some_logs : Logs
some_logs j =
    if j == 0
    then some (codes "now")
    else if j == 1
    then some (codes "old")
    else if j == 5
    then some (codes "oldest")
    else none

second : rotate_log_if_needed (some 60000000) (λ i. true) true some_logs 2 ≡ some (codes "old")
unfolding rotate_log_if_needed shift_from rename
second = refl

rotate_log-at_example :
    rotate_log_if_needed (some 60000000) (λ i. true) true some_logs 1 ≡ some (codes "now")
rotate_log-at_example = rotate_log-at 60000000 (λ i. true) some_logs 1 (λ i. refl) refl

-- Two lines of which the second is cut behind its first character.
abbrev lines : Text
lines = codes "ab" ++ 10 ∷ (codes "cd" ++ 10 ∷ codes "ef")

system_logs-IsTail_example :
    (result : Text) × (system_logs 4 (some lines) ≡ some result)
    × IsTail 4 lines result
    × (length lines ≤ 4 → result ≡ lines)
system_logs-IsTail_example = system_logs-IsTail 4 lines

tail_shown : system_logs 4 (some lines) ≡ some (codes "ef")
unfolding system_logs skip_line
tail_shown = refl

-- The line `cd` is whole and would fit, but is dropped.
whole_line_dropped : system_logs 5 (some lines) ≡ some (codes "ef")
unfolding system_logs skip_line
whole_line_dropped = refl
