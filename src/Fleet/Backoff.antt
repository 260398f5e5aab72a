-- ===== src/Fleet/Backoff.antt =====
-- The waits between the streams.
use cicd.Prelude.{
  ℕ, zero, suc, ◌*◌, ◌≤◌, ◌≡◌, refl, Bool, true, false, List, [], ◌∷◌, arith, All, ltb,
  if◌then◌else◌,
}
use cicd.Fleet.{next_backoff, sleeps}

-- A wait of 2 to 60 seconds
abbrev pub IsWait : ℕ → Type 0
IsWait n = (2 ≤ n) × (n ≤ 60)

next-IsWait : (failed : Bool) (n : ℕ) → IsWait n → IsWait (next_backoff failed n)
next-IsWait true n (a, b) = ground arith
next-IsWait false n w = (omega arith, omega arith)

each-IsWait : (results : List Bool) (n : ℕ) → IsWait n → All IsWait (sleeps results n)
unfolding sleeps
each-IsWait [] n w = tt
each-IsWait (true ∷ rs) n w = (w, each-IsWait rs (next_backoff true n) (next-IsWait true n w))
each-IsWait (false ∷ rs) n w = each-IsWait rs (next_backoff false n) (next-IsWait false n w)

-- The waits of a row of `n` failures that begins with `backoff`: doubled each time, at most 60.
unfoldable pub doubled : ℕ → ℕ → List ℕ
doubled zero backoff = []
doubled (suc n) backoff = backoff ∷ doubled n (if ltb 30 backoff then 60 else 2 * backoff)

unfoldable pub failures : ℕ → List Bool → List Bool
failures zero rest = rest
failures (suc n) rest = true ∷ failures n rest

doubled-sleeps : (n backoff : ℕ) → sleeps (failures n []) backoff ≡ doubled n backoff
unfolding sleeps doubled failures
doubled-sleeps zero backoff = refl
doubled-sleeps (suc n) backoff = ground (arith, doubled-sleeps n (next_backoff true backoff))

-- Whatever the streams answer, `WatchChanges` waits 2 to 60 seconds after each failure; after `n`
-- failures in a row the waits were 2 seconds, then twice the one before, up to 60.
sleeps-IsWait :
    (results : List Bool) (n : ℕ)
    → All IsWait (sleeps results 2) × (sleeps (failures n []) 2 ≡ doubled n 2)
sleeps-IsWait results n = (each-IsWait results 2 (omega arith, omega arith), doubled-sleeps n 2)
