-- ===== src/Queue.antt =====
-- The per-project deployment queue (gosrc/actions/queue.go). One project's queue is a `Lane`: the
-- `ProjectQueue` behind its mutex, the goroutines of `runQueuedDeploy` that are alive, and the calls
-- of `deployFn` so far, newest first. Each critical section of the source is one atomic step.
pub mod Steps
pub mod Exclusion
pub mod Latest
pub mod Panic
pub mod Mailbox
pub mod Store
mod Tests
use cicd.Prelude.{Bool, true, false, Option, none, some, List, [], ◌∷◌, ◌++◌, Text, if◌then◌else◌}
use cicd.Config.{Config}

pub record PendingDeploy : Type 0 where
  pub commit_hash : Text
  pub commit_msg : Text
  pub config : Config

pub record ProjectQueue : Type 0 where
  pub is_running : Bool
  pub pending : Option PendingDeploy

-- Where a goroutine of `runQueuedDeploy` stands: inside `deployFn`, or about to lock the queue.
pub data Worker : Type 0 where
  deploying : PendingDeploy → Worker
  checking : Worker

pub record Lane : Type 0 where
  pub queue : ProjectQueue
  pub workers : List Worker
  pub deployed : List PendingDeploy

-- `&ProjectQueue{}`
abbrev pub new_queue : ProjectQueue
new_queue = record { is_running = false; pending = none }

abbrev pub new_lane : Lane
new_lane = record { queue = new_queue; workers = []; deployed = [] }

-- `EnqueueDeployment`, behind the lookup of the queue: the result is true if the deployment was
-- started by this call, and false if it was put in the slot.
unfoldable pub enqueue : PendingDeploy → Lane → Lane × Bool
enqueue d s =
    if s.queue.is_running
    then (record s { queue = record s.queue { pending = some d } }, false)
    else (
      record {
        queue = record s.queue { is_running = true };
        workers = deploying d ∷ s.workers;
        deployed = d ∷ s.deployed;
      },
      true,
    )

-- The deferred function of `runQueuedDeploy` after a panic of `deployFn`: it recovers, logs, and the
-- goroutine ends.
unfoldable pub recover_panic : List Worker → List Worker → Lane → Lane
recover_panic before after s = record s { workers = before ++ after }

-- One round of the loop of `runQueuedDeploy`, for the worker between `before` and `after`: an empty
-- slot clears `isRunning` and ends the goroutine; a full one is emptied and deployed.
unfoldable pub check_pending : List Worker → List Worker → Lane → Lane
check_pending before after s = elim s.queue.pending [
  | none ↦ record s { queue = record s.queue { is_running = false }; workers = before ++ after }
  | some d ↦ record {
    queue = record s.queue { pending = none };
    workers = before ++ deploying d ∷ after;
    deployed = d ∷ s.deployed;
  }
]
