-- ===== src/Queue/Latest.antt =====
-- Calls that arrive during a deployment share one slot: the latest is deployed, the others are not.
use cicd.Prelude.{◌≡◌, refl, true, some, List, [], ◌∷◌, ◌++◌, arith}
use cicd.Queue.{PendingDeploy, Lane, new_queue, enqueue}

-- Calls one after the other, with no step of a worker between them.
unfoldable pub enqueue_all : List PendingDeploy → Lane → Lane
enqueue_all [] s = s
enqueue_all (d ∷ ds) s = enqueue_all ds (enqueue d s).0

enqueue-running :
    (d : PendingDeploy) (s : Lane)
    → s.queue.is_running ≡ true
    → (enqueue d s).0 ≡ record s { queue = record { is_running = true; pending = some d } }
unfolding enqueue
enqueue-running d s h = ground arith

-- While a deployment runs, a burst of calls only fills the slot, and with the last call.
pub enqueue_all-running :
    (ds : List PendingDeploy) (d : PendingDeploy) (s : Lane)
    → s.queue.is_running ≡ true
    → enqueue_all (ds ++ d ∷ []) s
      ≡ record s { queue = record { is_running = true; pending = some d } }
unfolding enqueue_all
enqueue_all-running [] d s h = enqueue-running d s h
enqueue_all-running (e ∷ ds) d s h =
    rw (enqueue_all, enqueue-running e s h)
      (enqueue_all-running ds d
        (record s { queue = record { is_running = true; pending = some e } }) refl)

-- The lane when a worker has found the slot empty.
abbrev pub idle_after : List PendingDeploy → Lane
idle_after ds = record { queue = new_queue; workers = []; deployed = ds }
