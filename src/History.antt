-- ===== src/History.antt =====
-- The commit history table (gosrc/database/registry.go, COMMIT HISTORY). Rows are listed newest
-- first, as `ORDER BY id DESC` returns them. What SQLite answers to a statement, done or refused, is
-- an argument: a refused statement changes nothing.
pub mod Order
pub mod Single
pub mod Target
mod Tests
use cicd.Prelude.{
  ℕ, suc, ℤ, pos, is_positive, Bool, true, false, ◌&&◌, Option, none, some, List, [], ◌∷◌, map,
  Text, same, ◌==◌, find, take, if◌then◌else◌,
}

pub data CommitStatus : Type 0 where
  current intermediate rolled_back : CommitStatus

pub data Trigger : Type 0 where
  webhook manual rollback boot : Trigger

pub record CommitEntry : Type 0 where
  pub id : ℕ
  pub project_id : ℕ
  pub commit_hash : Text
  pub commit_msg : Text
  pub status : CommitStatus
  pub triggered_by : Trigger
  pub started_at : Option ℕ
  pub finished_at : Option ℕ

-- The table, and the next value of its AUTOINCREMENT key.
pub record History : Type 0 where
  pub entries : List CommitEntry
  pub next_id : ℕ

abbrev pub no_history : History
no_history = record { entries = []; next_id = 1 }

abbrev pub is_current : CommitStatus → Bool
is_current current = true
is_current intermediate = false
is_current rolled_back = false

abbrev pub is_intermediate : CommitStatus → Bool
is_intermediate current = false
is_intermediate intermediate = true
is_intermediate rolled_back = false

-- `AddCommitToHistory`
unfoldable pub add_commit_to_history :
    Bool → ℕ → ℕ → Text → Text → Trigger → History → History × Option ℕ
add_commit_to_history done now project_id hash msg triggered_by h =
    if done
    then (record { entries = entry ∷ h.entries; next_id = suc h.next_id }, some h.next_id)
    else (h, none)
  where
    entry : CommitEntry
    entry = record {
      id = h.next_id;
      project_id = project_id;
      commit_hash = hash;
      commit_msg = msg;
      status = intermediate;
      triggered_by = triggered_by;
      started_at = some now;
      finished_at = none;
    }

-- `WHERE project_id = ? AND commit_hash = ?`
abbrev pub of_commit : ℕ → Text → CommitEntry → Bool
of_commit project_id hash e = (e.project_id == project_id) && same e.commit_hash hash

-- `WHERE project_id = ? AND commit_hash = ? AND status = 'intermediate'`
abbrev pub awaits : ℕ → Text → CommitEntry → Bool
awaits project_id hash e = of_commit project_id hash e && is_intermediate e.status

-- `WHERE project_id = ? AND status = 'current'`
abbrev pub current_of : ℕ → CommitEntry → Bool
current_of project_id e = (e.project_id == project_id) && is_current e.status

-- `SET status = 'intermediate' WHERE project_id = ? AND status = 'current'`
abbrev pub reset : ℕ → CommitEntry → CommitEntry
reset project_id e = if current_of project_id e then record e { status = intermediate } else e

abbrev pub made_current : ℕ → CommitEntry → CommitEntry
made_current now e = record e { status = current; finished_at = some now }

-- `SET status = 'current', finished_at = CURRENT_TIMESTAMP WHERE id = ?`
abbrev pub mark : ℕ → ℕ → CommitEntry → CommitEntry
mark id now e = if e.id == id then made_current now e else e

-- `WHERE id = (SELECT id … ORDER BY id DESC LIMIT 1)`; no such row, no change.
unfoldable pub mark_latest : ℕ → Option CommitEntry → List CommitEntry → List CommitEntry
mark_latest now none es = es
mark_latest now (some e) es = map (mark e.id now) es

-- What SQLite answers to each statement of the transaction.
pub record Answers : Type 0 where
  pub begin : Bool
  pub reset_current : Bool
  pub set_current : Bool
  pub fallback : Bool
  pub commit : Bool

-- The rows after both updates. Without an intermediate row for the hash, the newest row for the hash
-- is taken; the answer to that fallback is not looked at.
unfoldable pub current_rows : Bool → ℕ → ℕ → Text → List CommitEntry → List CommitEntry
unfolding mark_latest
current_rows fallback now project_id hash es =
    let es' : List CommitEntry = map (reset project_id) es in
    elim (find (awaits project_id hash) es') [
      | some e ↦ mark_latest now (some e) es'
      | none ↦ if fallback then mark_latest now (find (of_commit project_id hash) es') es' else es'
    ]

-- `SetCurrentCommit`: a transaction, rolled back on every error.
unfoldable pub set_current_commit : Answers → ℕ → ℕ → Text → History → History × Bool
unfolding current_rows
set_current_commit a now project_id hash h =
    if a.begin && (a.reset_current && (a.set_current && a.commit))
    then (record h { entries = current_rows a.fallback now project_id hash h.entries }, true)
    else (h, false)

abbrev pub rolled : ℕ → Text → CommitEntry → CommitEntry
rolled project_id hash e =
    if of_commit project_id hash e then record e { status = rolled_back } else e

-- `MarkCommitRolledBack`
unfoldable pub mark_commit_rolled_back : Bool → ℕ → Text → History → History × Bool
mark_commit_rolled_back done project_id hash h =
    if done
    then (record h { entries = map (rolled project_id hash) h.entries }, true)
    else (h, false)

abbrev pub hash_of : Option CommitEntry → Option Text
hash_of none = none
hash_of (some e) = some e.commit_hash

-- `GetPreviousCurrentCommit`; `none` is `sql.ErrNoRows`.
unfoldable pub get_previous_current_commit : ℕ → History → Option Text
get_previous_current_commit project_id h = hash_of (find (current_of project_id) h.entries)

-- `WHERE project_id = ?`
unfoldable pub rows_of : ℕ → List CommitEntry → List CommitEntry
rows_of project_id [] = []
rows_of project_id (e ∷ es) =
    let rest = rows_of project_id es in if e.project_id == project_id then e ∷ rest else rest

abbrev limit_of : ℤ → ℕ
limit_of (pos n) = if n == 0 then 50 else n
limit_of (ℤ.negsuc n) = 50

-- `GetCommitHistory`
unfoldable pub get_commit_history : ℕ → ℤ → History → List CommitEntry
unfolding rows_of
get_commit_history project_id limit h = take (limit_of limit) (rows_of project_id h.entries)
