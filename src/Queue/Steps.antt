-- ===== src/Queue/Steps.antt =====
-- Every interleaving of callers and workers of one project's queue, as steps on a `Lane`.
use cicd.Prelude.{◌≡◌, List, ◌∷◌, ◌++◌}
use cicd.Queue.{
  PendingDeploy, Worker, deploying, checking, Lane, enqueue, check_pending, recover_panic,
}

pub data Step (s : Lane) : Lane → Type 0 where
  -- some goroutine calls `EnqueueDeployment`
  calls : (d : PendingDeploy) → Step s (enqueue d s).0
  -- `deployFn` returns in a worker
  returns :
      (before after : List Worker) (d : PendingDeploy)
      → s.workers ≡ before ++ deploying d ∷ after
      → Step s (record s { workers = before ++ checking ∷ after })
  -- `deployFn` panics in a worker: the deferred `recover` ends the goroutine
  panics :
      (before after : List Worker) (d : PendingDeploy)
      → s.workers ≡ before ++ deploying d ∷ after
      → Step s (recover_panic before after s)
  -- a worker locks the queue and looks at the slot
  checks :
      (before after : List Worker)
      → s.workers ≡ before ++ checking ∷ after
      → Step s (check_pending before after s)

pub data Reach (s : Lane) : Lane → Type 0 where
  here : Reach s s
  next : {t u : Lane} → Reach s t → Step t u → Reach s u

pub Reach-trans : {s t u : Lane} → Reach s t → Reach t u → Reach s u
Reach-trans r here = r
Reach-trans r (next q st) = next (Reach-trans r q) st
