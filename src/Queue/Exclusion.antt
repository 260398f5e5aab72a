-- ===== src/Queue/Exclusion.antt =====
-- At most one deployment of a project runs at a time, and an idle queue holds nothing back.
use cicd.Prelude.{
  ◌≤◌, ◌≡◌, ap, true, false, none, List, [], ◌∷◌, ◌++◌, arith, length, length-append,
}
use cicd.Queue.{
  PendingDeploy, Worker, deploying, checking, Lane, new_lane, enqueue, check_pending, recover_panic,
}
use cicd.Queue.Steps.{Step, calls, returns, panics, checks, Reach, here, next}

pub record IsSound (s : Lane) : Type 0 where
  pub one_worker : length s.workers ≤ 1
  pub idle_workers : s.queue.is_running ≡ false → s.workers ≡ []
  pub idle_pending : s.queue.is_running ≡ false → s.queue.pending ≡ none

enqueue-IsSound : (d : PendingDeploy) (s : Lane) → IsSound s → IsSound (enqueue d s).0
unfolding enqueue
enqueue-IsSound d s h = ground arith

-- A lane with a worker in the middle is running, and that worker is the only one.
pub alone :
    (s : Lane) (before after : List Worker) (w : Worker)
    → IsSound s
    → s.workers ≡ before ++ w ∷ after
    → (before ≡ []) × (after ≡ []) × (s.queue.is_running ≡ true)
alone s [] [] w h e = ground arith
alone s [] (a ∷ after) w h e = ground (arith, ap (length {0}) e)
alone s (b ∷ before) after w h e =
    ground (arith, ap (length {0}) e, length-append {0} before (w ∷ after))

check_pending-IsSound : (s : Lane) → IsSound s → IsSound (check_pending [] [] s)
unfolding check_pending
check_pending-IsSound s h = ground arith

recover_panic-IsSound :
    (s : Lane) → IsSound s → s.queue.is_running ≡ true → IsSound (recover_panic [] [] s)
unfolding recover_panic
recover_panic-IsSound s h r = ground arith

Step-IsSound : {s t : Lane} → Step s t → IsSound s → IsSound t
Step-IsSound {s} (calls d) h = enqueue-IsSound d s h
Step-IsSound {s} (returns before after d e) h =
    let (p, q, r) = alone s before after (deploying d) h e in ground arith
Step-IsSound {s} (panics before after d e) h =
    let (p, q, r) = alone s before after (deploying d) h e in
    rw (p, q) (recover_panic-IsSound s h r)
Step-IsSound {s} (checks before after e) h =
    let (p, q, r) = alone s before after checking h e in rw (p, q) (check_pending-IsSound s h)

pub new_lane-IsSound : IsSound new_lane
new_lane-IsSound = ground arith

-- In every state that calls, returns, panics and checks can reach from a new queue, at most one
-- worker exists, and a queue that is not running has no worker and an empty slot.
pub Reach-IsSound : {s : Lane} → Reach new_lane s → IsSound s
Reach-IsSound here = new_lane-IsSound
Reach-IsSound (next r st) = Step-IsSound st (Reach-IsSound r)
