-- ===== src/Pipeline/Rows.antt =====
-- The row of a project after each write of a deployment.
use cicd.Prelude.{ℕ, ◌≡◌, refl, true, Option, none, some, List, [], ◌∷◌, arith, Text, find}
use cicd.History.{Trigger}
use cicd.Process.{DeployStatus}
use cicd.Projects.{
  Project, Projects, in_dir, update_where, set_deploy_status_by_dir, update_commit_hash_local,
  update_last_commit_info,
}
use cicd.Pipeline.{
  with_project, made_current, recorded, rolled_and_current, World, RollbackEnv, DeployEnv,
  HealthEnv, set_status,
}

abbrev pub changed : (Project → Project) → Option Project → Option Project
changed f none = none
changed f (some p) = some (f p)

-- The first row of a directory after an update of the rows of that directory.
pub find-update_where :
    (dir : Text) (f : Project → Project)
    → ((p : Project) → (f p).service_dir ≡ p.service_dir)
    → (ps : List Project)
    → find (in_dir dir) (update_where (in_dir dir) f ps) ≡ changed f (find (in_dir dir) ps)
unfolding find update_where
find-update_where dir f keeps [] = refl
find-update_where dir f keeps (p ∷ ps) =
    let same_dir : (f p).service_dir ≡ p.service_dir = keeps p in
    ground (arith, find-update_where dir f keeps ps)

abbrev pub row : Text → World → Option Project
row dir w = find (in_dir dir) w.projects.rows

abbrev pub with_status : DeployStatus → Project → Project
with_status status p = record p { deploy_status = status }

abbrev pub with_hash : Text → Project → Project
with_hash hash p = record p { last_commit_hash = hash }

abbrev pub with_commit : Text → Text → Project → Project
with_commit hash msg p = record p { last_commit_hash = hash; last_commit_msg = msg }

pub row-set_status :
    (dir : Text) (s : DeployStatus) (w : World)
    → row dir (set_status dir s w) ≡ changed (with_status s) (row dir w)
unfolding set_deploy_status_by_dir
row-set_status dir s w = find-update_where dir (with_status s) (λ p. refl) w.projects.rows

pub row-hash :
    (dir hash : Text) (w : World)
    → find (in_dir dir) (update_commit_hash_local true dir hash w.projects).0.rows
      ≡ changed (with_hash hash) (row dir w)
unfolding update_commit_hash_local
row-hash dir hash w = find-update_where dir (with_hash hash) (λ p. refl) w.projects.rows

pub row-commit :
    (dir hash msg : Text) (t : Projects)
    → find (in_dir dir) (update_last_commit_info true dir hash msg t).0.rows
      ≡ changed (with_commit hash msg) (find (in_dir dir) t.rows)
unfolding update_last_commit_info
row-commit dir hash msg t = find-update_where dir (with_commit hash msg) (λ p. refl) t.rows

pub row-rolled :
    (env : RollbackEnv) (dir hash : Text) (id : Option ℕ) (w : World)
    → row dir (with_project id (rolled_and_current env hash) w) ≡ row dir w
row-rolled env dir hash none w = refl
row-rolled env dir hash (some id) w = refl

pub row-made_current :
    (env : HealthEnv) (dir hash : Text) (id : Option ℕ) (w : World)
    → row dir (with_project id (made_current env hash) w) ≡ row dir w
row-made_current env dir hash none w = refl
row-made_current env dir hash (some id) w = refl

pub row-recorded :
    (env : DeployEnv) (dir hash msg : Text) (by : Trigger) (id : Option ℕ) (w : World)
    → row dir (with_project id (recorded env hash msg by) w) ≡ row dir w
row-recorded env dir hash msg by none w = refl
row-recorded env dir hash msg by (some id) w = refl
