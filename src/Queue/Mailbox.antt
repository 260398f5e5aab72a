-- ===== src/Queue/Mailbox.antt =====
-- What the queue of a project promises: a mailbox with one place, which the latest call fills.
use cicd.Prelude.{
  ◌≡◌, refl, sym, ap, ◌∙◌, Bool, true, false, Option, none, some, List, [], ◌∷◌, ◌++◌, arith,
}
use mathlib.Core.Path.{subst}
use cicd.Queue.{
  PendingDeploy, Worker, deploying, checking, Lane, new_lane, enqueue, check_pending, recover_panic,
}
use cicd.Queue.Steps.{Step, calls, returns, panics, checks, Reach, here, next}
use cicd.Queue.Exclusion.{IsSound, alone, Reach-IsSound}

-- Nothing runs; one deployment runs; or the one that ran has panicked, and nothing runs any more.
pub data Mode : Type 0 where
  idle : Mode
  busy stuck : Option PendingDeploy → Mode

pub record Mailbox : Type 0 where
  pub mode : Mode
  pub started : List PendingDeploy

abbrev pub empty_mailbox : Mailbox
empty_mailbox = record { mode = idle; started = [] }

abbrev submit_in : PendingDeploy → Mode → List PendingDeploy → Mailbox
submit_in d idle ds = record { mode = busy none; started = d ∷ ds }
submit_in d (busy o) ds = record { mode = busy (some d); started = ds }
submit_in d (stuck o) ds = record { mode = stuck (some d); started = ds }

-- A call: it starts a deployment, or replaces the one that waits.
abbrev pub submit : PendingDeploy → Mailbox → Mailbox
submit d m = submit_in d m.mode m.started

-- A move, by the call that it takes, if it takes one.
pub data Move (m : Mailbox) : Option PendingDeploy → Mailbox → Type 0 where
  stays : Move m none m
  submits : (d : PendingDeploy) → Move m (some d) (submit d m)
  finishes : m.mode ≡ busy none → Move m none (record m { mode = idle })
  starts_next :
      (d : PendingDeploy)
      → m.mode ≡ busy (some d)
      → Move m none (record { mode = busy none; started = d ∷ m.started })
  breaks : (o : Option PendingDeploy) → m.mode ≡ busy o → Move m none (record m { mode = stuck o })

abbrev pub with_call : Option PendingDeploy → List PendingDeploy → List PendingDeploy
with_call none ds = ds
with_call (some d) ds = d ∷ ds

-- Moves that take the calls of a list, newest first, and no others.
pub data Moves (m : Mailbox) : List PendingDeploy → Mailbox → Type 0 where
  none_yet : Moves m [] m
  and_then :
      {ds : List PendingDeploy} {l : Option PendingDeploy} {n k : Mailbox}
      → Moves m ds n
      → Move n l k
      → Moves m (with_call l ds) k

-- The call of a step, if it is one, and the calls of a run, newest first.
unfoldable pub call_of : {s t : Lane} → Step s t → Option PendingDeploy
call_of (calls d) = some d
call_of (returns before after d e) = none
call_of (panics before after d e) = none
call_of (checks before after e) = none

unfoldable pub calls_of : {s t : Lane} → Reach s t → List PendingDeploy
unfolding call_of
calls_of here = []
calls_of (next r st) = with_call (call_of st) (calls_of r)

abbrev mode_of : Bool → List Worker → Option PendingDeploy → Mode
mode_of false ws o = idle
mode_of true [] o = stuck o
mode_of true (w ∷ ws) o = busy o

-- The mailbox that a lane stands for.
abbrev pub view : Lane → Mailbox
view s = record {
  mode = mode_of s.queue.is_running s.workers s.queue.pending;
  started = s.deployed;
}

view-enqueue : (d : PendingDeploy) (s : Lane) → IsSound s → view (enqueue d s).0 ≡ submit d (view s)
unfolding enqueue
view-enqueue d s h = ground arith

view-alone :
    (s : Lane) (w : Worker)
    → s.queue.is_running ≡ true
    → s.workers ≡ w ∷ []
    → (view s).mode ≡ busy s.queue.pending
view-alone s w r e = ground arith

check-Move :
    (s : Lane) (o : Option PendingDeploy)
    → s.queue.is_running ≡ true
    → s.workers ≡ checking ∷ []
    → s.queue.pending ≡ o
    → Move (view s) none (view (check_pending [] [] s))
unfolding check_pending
check-Move s none r e f =
    subst (Move (view s) none) (ground arith) (finishes (view-alone s checking r e ∙ ap busy f))
check-Move s (some d) r e f =
    subst (Move (view s) none) (ground arith)
      (starts_next d (view-alone s checking r e ∙ ap busy f))

return-view :
    (s : Lane) (before after : List Worker) (d : PendingDeploy)
    → before ≡ []
    → after ≡ []
    → s.queue.is_running ≡ true
    → s.workers ≡ deploying d ∷ []
    → view s ≡ view (record s { workers = before ++ checking ∷ after })
return-view s before after d p q r e = rw (p, q, r, e)

panic-view :
    (s : Lane) (before after : List Worker)
    → before ≡ []
    → after ≡ []
    → s.queue.is_running ≡ true
    → record (view s) { mode = stuck s.queue.pending } ≡ view (recover_panic before after s)
unfolding recover_panic
panic-view s before after p q r = rw (p, q, r)

-- Every step of a sound lane is a move of its mailbox, or changes nothing of it.
Step-Move : {s t : Lane} → IsSound s → (st : Step s t) → Move (view s) (call_of st) (view t)
unfolding call_of
Step-Move {s} h (calls d) = subst (Move (view s) (some d)) (sym (view-enqueue d s h)) (submits d)
Step-Move {s} h (returns before after d e) =
    let (p, q, r) = alone s before after (deploying d) h e in
    let only : s.workers ≡ deploying d ∷ [] = cc in
    subst (Move (view s) none) (return-view s before after d p q r only) stays
Step-Move {s} h (panics before after d e) =
    let (p, q, r) = alone s before after (deploying d) h e in
    let only : s.workers ≡ deploying d ∷ [] = cc in
    subst (Move (view s) none) (panic-view s before after p q r)
      (breaks s.queue.pending (view-alone s (deploying d) r only))
Step-Move {s} h (checks before after e) =
    let (p, q, r) = alone s before after checking h e in
    let only : s.workers ≡ checking ∷ [] = cc in
    rw (p, q) (check-Move s s.queue.pending r only refl)

-- Every run of a queue, under any interleaving of calls, returns, panics and checks, ends in a state that
-- its mailbox reaches by its own moves, taking exactly the same calls in the same order, and with the same
-- deployments started in the same order and the same one waiting: the queue implements the mailbox.
pub Reach-Moves : {s : Lane} (r : Reach new_lane s) → Moves empty_mailbox (calls_of r) (view s)
unfolding calls_of
Reach-Moves here = none_yet
Reach-Moves (next r st) = and_then (Reach-Moves r) (Step-Move (Reach-IsSound r) st)
