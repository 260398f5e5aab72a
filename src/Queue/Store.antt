-- ===== src/Queue/Store.antt =====
-- The registry of queues (`queues`, `getQueue`), keyed by the service directory.
use cicd.Prelude.{
  same_self, same_ne, ap, ◌∙◌, ◌≡◌, ◌≢◌, Bool, true, not, Option, none, some, Text, same, arith,
  if◌then◌else◌,
}
use cicd.Config.{Config}
use cicd.Queue.{PendingDeploy, Lane, new_lane, enqueue}

abbrev pub Queues : Type 0
Queues = Text → Option Lane

abbrev pub store : Queues → Text → Lane → Queues
store qs dir l other = if same other dir then some l else qs other

abbrev pub no_queues : Queues
no_queues dir = none

-- `getQueue`: the queue of a directory that has none is new.
unfoldable pub get_queue : Text → Queues → Lane
get_queue dir qs = elim (qs dir) [ none ↦ new_lane | some l ↦ l ]

-- `EnqueueDeployment`
unfoldable pub enqueue_deployment : Config → Text → Text → Queues → Queues × Bool
unfolding get_queue enqueue
enqueue_deployment cfg hash msg qs =
    let (l, started) =
      enqueue (record { commit_hash = hash; commit_msg = msg; config = cfg })
        (get_queue cfg.service_dir qs) in
    (store qs cfg.service_dir l, started)

-- `IsDeploymentRunning`
unfoldable pub is_deployment_running : Text → Queues → Bool
unfolding get_queue
is_deployment_running dir qs = (get_queue dir qs).queue.is_running

store_other :
    (qs : Queues) (dir : Text) (l : Lane) (other : Text)
    → (other ≡ dir → ⊥)
    → store qs dir l other ≡ qs other
store_other qs dir l other h = rw (same_ne other dir h)

pub get_queue-store : (qs : Queues) (dir : Text) (l : Lane) → get_queue dir (store qs dir l) ≡ l
unfolding get_queue
get_queue-store qs dir l = rw (get_queue, same_self dir)

pub get_queue_other :
    (qs : Queues) (dir : Text) (l : Lane) (other : Text)
    → (other ≡ dir → ⊥)
    → get_queue other (store qs dir l) ≡ get_queue other qs
unfolding get_queue
get_queue_other qs dir l other h = rw (get_queue, same_ne other dir h)

pub enqueue_runs : (d : PendingDeploy) (s : Lane) → (enqueue d s).0.queue.is_running ≡ true
unfolding enqueue
enqueue_runs d s = ground arith

enqueue_started : (d : PendingDeploy) (s : Lane) → (enqueue d s).1 ≡ not s.queue.is_running
unfolding enqueue
enqueue_started d s = ground arith

-- A call starts a deployment exactly when none of its project runs, one runs after it, and the
-- queues of all other directories are as before.
enqueue_deployment_lem :
    (cfg : Config) (hash msg : Text) (qs : Queues) (other : Text)
    → other ≢ cfg.service_dir
    → let (qs', started) = enqueue_deployment cfg hash msg qs in
      (started ≡ not (is_deployment_running cfg.service_dir qs))
      × (is_deployment_running cfg.service_dir qs' ≡ true)
      × (qs' other ≡ qs other)
enqueue_deployment_lem cfg hash msg qs other h =
    let d : PendingDeploy = record { commit_hash = hash; commit_msg = msg; config = cfg } in
    let dir : Text = cfg.service_dir in
    let s : Lane = get_queue dir qs in
    unfold enqueue_deployment is_deployment_running in
    (
      enqueue_started d s,
      ap (λ (l : Lane). l.queue.is_running) (get_queue-store qs dir (enqueue d s).0)
          ∙ enqueue_runs d s,
      store_other qs dir (enqueue d s).0 other h,
    )
