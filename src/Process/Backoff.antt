-- ===== src/Process/Backoff.antt =====
-- The restart delays, and the limit on restarts.
use cicd.Prelude.{ℕ, zero, suc, ◌≤◌, ◌≡◌, arith}
use cicd.Process.{
  ManagedProcess, Engine, Os, put_address, counted, backoff_delay, max_restarts,
  restart_with_backoff,
}

-- Delays lie between 2 and 120 seconds, and the next delay is never shorter.
pub backoff_delay_lem :
    (n : ℕ)
    → (2 ≤ backoff_delay n) × (backoff_delay n ≤ backoff_delay (suc n)) × (backoff_delay n ≤ 120)
unfolding backoff_delay
backoff_delay_lem zero = omega arith
backoff_delay_lem (suc zero) = omega arith
backoff_delay_lem (suc (suc zero)) = omega arith
backoff_delay_lem (suc (suc (suc zero))) = omega arith
backoff_delay_lem (suc (suc (suc (suc zero)))) = omega arith
backoff_delay_lem (suc (suc (suc (suc (suc n))))) = omega arith

-- A process with ten restarts behind it is given up: only its own counter changes.
restart-gives_up :
    (os : Os) (wait : ℕ → Engine → Engine) (p : ℕ) (proc : ManagedProcess) (e : Engine)
    → max_restarts ≤ proc.restart_count
    → restart_with_backoff os wait p proc e
      ≡ record e { heap = put_address e.heap p (counted proc) }
unfolding restart_with_backoff
restart-gives_up os wait p proc e h = ground arith
