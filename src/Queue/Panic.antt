-- ===== src/Queue/Panic.antt =====
-- A panic of `deployFn`: the deferred `recover` ends the worker and does not clear `isRunning`.
use cicd.Prelude.{◌≡◌, refl, sym, ◌∙◌, true, false, List, [], ◌∷◌, ◌++◌, arith}
use cicd.Queue.{PendingDeploy, Worker, deploying, Lane, enqueue, recover_panic}
use cicd.Queue.Steps.{Step, calls, returns, panics, checks, Reach, here, next}

-- Marked as running, with no worker left.
pub record IsStuck (s : Lane) : Type 0 where
  pub running : s.queue.is_running ≡ true
  pub no_worker : s.workers ≡ []

enqueue-IsStuck :
    (d : PendingDeploy) (s : Lane)
    → IsStuck s
    → IsStuck (enqueue d s).0 × ((enqueue d s).0.deployed ≡ s.deployed)
unfolding enqueue
enqueue-IsStuck d s h = (ground arith, ground arith)

not-middle : (w : Worker) (before after : List Worker) → [] ≡ before ++ w ∷ after → ⊥
not-middle w [] after e = cc
not-middle w (b ∷ before) after e = cc

Step-IsStuck : {s t : Lane} → Step s t → IsStuck s → IsStuck t × (t.deployed ≡ s.deployed)
Step-IsStuck {s} (calls d) h = enqueue-IsStuck d s h
Step-IsStuck {s} (returns before after d e) h =
    absurd (not-middle _ before after (sym h.no_worker ∙ e))
Step-IsStuck {s} (panics before after d e) h =
    absurd (not-middle _ before after (sym h.no_worker ∙ e))
Step-IsStuck {s} (checks before after e) h =
    absurd (not-middle _ before after (sym h.no_worker ∙ e))

pub Reach-IsStuck : {s t : Lane} → Reach s t → IsStuck s → IsStuck t × (t.deployed ≡ s.deployed)
Reach-IsStuck here h = (h, refl)
Reach-IsStuck (next r st) h =
    let (k, e) = Reach-IsStuck r h in let (k', e') = Step-IsStuck st k in (k', cc (e, e'))

enqueue-refused : (d : PendingDeploy) (s : Lane) → IsStuck s → (enqueue d s).1 ≡ false
unfolding enqueue
enqueue-refused d s h = ground arith

panicked-IsStuck : (s : Lane) → s.queue.is_running ≡ true → IsStuck (recover_panic [] [] s)
unfolding recover_panic
panicked-IsStuck s h = record { running = h; no_worker = refl }

panicked-deployed : (s : Lane) → (recover_panic [] [] s).deployed ≡ s.deployed
unfolding recover_panic
panicked-deployed s = refl

-- Once the only deployment of a running queue has panicked, no deployment of the project is started
-- in any later state, and every later call is told that it was queued.
pub panic_blocks :
    (s t : Lane) (d next_call : PendingDeploy)
    → s.queue.is_running ≡ true
    → s.workers ≡ deploying d ∷ []
    → Reach (recover_panic [] [] s) t
    → (t.deployed ≡ s.deployed) × ((enqueue next_call t).1 ≡ false)
panic_blocks s t d next_call h w r =
    let (k, e) = Reach-IsStuck r (panicked-IsStuck s h) in
    (e ∙ panicked-deployed s, enqueue-refused next_call t k)
