-- ===== src/History/Tests.antt =====
-- Runs of the commit history, and the theorems at concrete inputs.
use cicd.Prelude.{
  ◌≡◌, refl, true, false, some, none, [], ◌∷◌, ℕ, Text, codes, text_discrete, find, count, arith,
}
use cicd.History.{
  CommitEntry, current, intermediate, webhook, History, set_current_commit, mark_commit_rolled_back,
  get_previous_current_commit, Answers,
}
use cicd.History.Single.{IsWellFormed}
use cicd.History.Target.{all_done, get_previous-set_current}

abbrev row : ℕ → ℕ → Text → CommitEntry
row id project_id hash = record {
  id = id;
  project_id = project_id;
  commit_hash = hash;
  commit_msg = [];
  status = intermediate;
  triggered_by = webhook;
  started_at = some 10;
  finished_at = none;
}

-- Project 1 deployed c1 and c2, project 2 deployed c3; c1 is current.
abbrev three : History
three = record {
  entries =
      row 3 1 (codes "c2")
      ∷ row 2 2 (codes "c3")
      ∷ (record (row 1 1 (codes "c1")) { status = current })
      ∷ [];
  next_id = 4;
}

three-IsWellFormed : IsWellFormed three
unfolding count
three-IsWellFormed = record { ordered = omega arith; one_current = λ q. ground arith }

set_second :
    get_previous_current_commit 1 (set_current_commit all_done 20 1 (codes "c2") three).0
    ≡ some (codes "c2")
unfolding get_previous_current_commit set_current_commit find text_discrete
set_second = refl

-- SQLite refuses the second update: the transaction is rolled back.
abbrev refused : Answers
refused = record all_done { set_current = false }

get_previous-set_current_example :
    get_previous_current_commit 1 (set_current_commit all_done 20 1 (codes "c2") three).0
    ≡ some (codes "c2")
unfolding find text_discrete
get_previous-set_current_example =
    get_previous-set_current 20 1 (codes "c2") three (row 3 1 (codes "c2")) three-IsWellFormed refl

-- A commit that is rolled back to is marked as rolled back first, and then made current again.
rollback_to_first :
    get_previous_current_commit 1
      (set_current_commit all_done 40 1
        (codes "c1")
        (mark_commit_rolled_back true 1
          (codes "c1")
          (set_current_commit all_done 20 1 (codes "c2") three).0).0).0
    ≡ some (codes "c1")
unfolding get_previous_current_commit set_current_commit mark_commit_rolled_back find text_discrete
rollback_to_first = refl
