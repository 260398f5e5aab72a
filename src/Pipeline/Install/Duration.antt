-- ===== src/Pipeline/Install/Duration.antt =====
-- The time limit of an install script.
use cicd.Prelude.{ℕ, ◌*◌, ◌≤◌, ◌≡◌, Option, none, some, ℤ, pos, negsuc, arith, ◌==◌, if◌then◌else◌}
use cicd.Pipeline.Install.{seconds, global_timeout, get_deploy_timeout}

-- The seconds that are chosen: those of the file if they are positive, else the global ones.
abbrev pub chosen : Option ℤ → ℤ → ℕ
chosen none global_secs = global_timeout global_secs
chosen (some (pos n)) global_secs = if n == 0 then global_timeout global_secs else n
chosen (some (negsuc n)) global_secs = global_timeout global_secs

seconds-exact : (n : ℕ) → n ≤ 9223372036 → seconds n ≡ pos (n * 1000000000)
seconds-exact n h = ground arith

-- The time limit is the project's own if its file holds a positive number, else the global one, and
-- 1800 seconds if that is not positive, counted in nanoseconds. It is exact up to 9223372036 seconds.
get_deploy_timeout_lem :
    (file : Option ℤ) (global_secs : ℤ)
    → chosen file global_secs ≤ 9223372036
    → get_deploy_timeout file global_secs ≡ pos (chosen file global_secs * 1000000000)
unfolding get_deploy_timeout
get_deploy_timeout_lem none g h = seconds-exact (global_timeout g) h
get_deploy_timeout_lem (some (pos n)) g h =
    ground (arith, seconds-exact n, seconds-exact (global_timeout g))
get_deploy_timeout_lem (some (negsuc n)) g h = seconds-exact (global_timeout g) h
