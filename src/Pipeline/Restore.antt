-- ===== src/Pipeline/Restore.antt =====
-- A rollback to a commit of the history.
use cicd.Prelude.{
  ℕ, ◌≡◌, refl, ap, ◌∙◌, Bool, true, false, Option, none, some, List, [], ◌∷◌, map, arith, Text,
  find,
}
use cicd.Config.{Config}
use cicd.Process.{deploying}
use cicd.History.{
  CommitEntry, Trigger, rollback, History, of_commit, current_of, hash_of, rolled,
  add_commit_to_history, set_current_commit, mark_commit_rolled_back, get_previous_current_commit,
}
use cicd.History.Single.{IsWellFormed, mark_rolled_back-IsWellFormed}
use cicd.History.Target.{all_done, get_previous-set_current}
use cicd.Projects.{id_of, get_project_id_by_dir, update_commit_hash_local}
use cicd.Pipeline.Rows.{row, with_status, with_hash, row-set_status, row-hash, row-rolled}
use cicd.Pipeline.Success.{id_of-changed}
use cicd.Pipeline.{
  World, returned, health_check, RollbackEnv, set_status, with_project, too_short,
  rolled_and_current, rollback_to_commit,
}

abbrev is_row : Option CommitEntry → Bool
is_row none = false
is_row (some e) = true

-- The project has a row for the hash.
abbrev pub has : ℕ → Text → History → Bool
has pid hash h = is_row (find (of_commit pid hash) h.entries)

has-current :
    (pid : ℕ) (hash : Text) (es : List CommitEntry)
    → hash_of (find (current_of pid) es) ≡ some hash
    → is_row (find (of_commit pid hash) es) ≡ true
unfolding find
has-current pid hash [] f = cc
has-current pid hash (e ∷ es) f = ground (arith, has-current pid hash es)

pub has-previous :
    (pid : ℕ) (hash : Text) (h : History)
    → get_previous_current_commit pid h ≡ some hash
    → has pid hash h ≡ true
unfolding get_previous_current_commit
has-previous pid hash h f = has-current pid hash h.entries f

has-map :
    (pid : ℕ) (hash other : Text) (es : List CommitEntry)
    → is_row (find (of_commit pid hash) es) ≡ true
    → is_row (find (of_commit pid hash) (map (rolled pid other) es)) ≡ true
unfolding find
has-map pid hash other [] f = f
has-map pid hash other (e ∷ es) f = ground (arith, has-map pid hash other es)

has-mark :
    (done : Bool) (pid : ℕ) (hash other : Text) (h : History)
    → has pid hash h ≡ true
    → has pid hash (mark_commit_rolled_back done pid other h).0 ≡ true
unfolding mark_commit_rolled_back
has-mark true pid hash other h f = has-map pid hash other h.entries f
has-mark false pid hash other h f = f

-- A commit that is added is not current, so the project's current one stays.
pub previous-add :
    (done : Bool) (now pid : ℕ) (hash msg : Text) (by : Trigger) (h : History)
    → get_previous_current_commit pid (add_commit_to_history done now pid hash msg by h).0
      ≡ get_previous_current_commit pid h
unfolding get_previous_current_commit add_commit_to_history find
previous-add true now pid hash msg by h = ground arith
previous-add false now pid hash msg by h = refl

pub set_current-has :
    (now pid : ℕ) (hash : Text) (h : History) (o : Option CommitEntry)
    → IsWellFormed h
    → find (of_commit pid hash) h.entries ≡ o
    → is_row o ≡ true
    → get_previous_current_commit pid (set_current_commit all_done now pid hash h).0 ≡ some hash
set_current-has now pid hash h none w e t = cc
set_current-has now pid hash h (some x) w e t = get_previous-set_current now pid hash h x w e

-- A commit of the project that is marked as rolled back and then set is the current one.
restore :
    (done : Bool) (now pid : ℕ) (hash : Text) (h : History)
    → IsWellFormed h
    → has pid hash h ≡ true
    → get_previous_current_commit pid
        (set_current_commit all_done now pid hash (mark_commit_rolled_back done pid hash h).0).0
      ≡ some hash
restore done now pid hash h w t =
    let h₁ : History = (mark_commit_rolled_back done pid hash h).0 in
    set_current-has now pid hash h₁ (find (of_commit pid hash) h₁.entries)
      (mark_rolled_back-IsWellFormed done pid hash h w) refl (has-mark done pid hash hash h t)

abbrev pub rolled_world : RollbackEnv → Text → Text → World → World
rolled_world env dir hash w =
    let w₂ : World =
      with_project (get_project_id_by_dir dir w.projects) (rolled_and_current env hash)
        (set_status dir deploying w) in
    record w₂ { projects = (update_commit_hash_local true dir hash w₂.projects).0 }

pub rollback-passes :
    (env : RollbackEnv) (cfg : Config) (hash : Text) (w : World)
    → env.deploys ≡ true
    → too_short hash ≡ false
    → rollback_to_commit env cfg hash w ≡ record {
      world = rolled_world env cfg.service_dir hash w;
      next = health_check hash rollback 1;
      flow = returned;
    }
unfolding rollback_to_commit
rollback-passes env cfg hash w d s = ground arith

pub rolled-id :
    (env : RollbackEnv) (dir hash : Text) (w : World) (id : ℕ)
    → get_project_id_by_dir dir w.projects ≡ some id
    → get_project_id_by_dir dir (rolled_world env dir hash w).projects ≡ some id
unfolding get_project_id_by_dir
rolled-id env dir hash w id registered =
    let w₁ : World = set_status dir deploying w in
    let w₂ : World = with_project (id_of (row dir w)) (rolled_and_current env hash) w₁ in
    ap id_of (row-hash dir hash w₂)
    ∙ id_of-changed (with_hash hash) (row dir w₂) id (λ p. refl)
        (ap id_of (row-rolled env dir hash (id_of (row dir w)) w₁ ∙ row-set_status dir deploying w)
          ∙ id_of-changed (with_status deploying) (row dir w) id (λ p. refl) registered)

pub rolled-previous :
    (env : RollbackEnv) (dir hash : Text) (w : World) (id : ℕ)
    → get_project_id_by_dir dir w.projects ≡ some id
    → IsWellFormed w.history
    → has id hash w.history ≡ true
    → env.sets ≡ all_done
    → get_previous_current_commit id (rolled_world env dir hash w).history ≡ some hash
rolled-previous env dir hash w id registered h t sets =
    ap
      (λ o.
        get_previous_current_commit id
          (with_project o (rolled_and_current env hash) (set_status dir deploying w)).history)
      registered
    ∙ ap
        (λ s.
          get_previous_current_commit id
            (set_current_commit s env.now id hash
              (mark_commit_rolled_back env.marks id hash w.history).0).0)
        sets
    ∙ restore env.marks env.now id hash w.history h t

-- If SQLite refuses no statement that sets the current commit, a rollback of a registered project to
-- a commit of its history, of 8 characters at least and whose build succeeds, makes that commit the
-- project's current one and asks for a health check after which no other rollback follows.
pub rollback_current :
    (env : RollbackEnv) (cfg : Config) (hash : Text) (w : World) (id : ℕ)
    → get_project_id_by_dir cfg.service_dir w.projects ≡ some id
    → IsWellFormed w.history
    → has id hash w.history ≡ true
    → env.sets ≡ all_done
    → env.deploys ≡ true
    → too_short hash ≡ false
    → (get_previous_current_commit id (rollback_to_commit env cfg hash w).world.history ≡ some hash)
      × ((rollback_to_commit env cfg hash w).next ≡ health_check hash rollback 1)
rollback_current env cfg hash w id registered h t sets d s =
    let e = rollback-passes env cfg hash w d s in
    (
      ap (λ o. get_previous_current_commit id o.world.history) e
          ∙ rolled-previous env cfg.service_dir hash w id registered h t sets,
      ap (λ o. o.next) e,
    )
