-- ===== src/Projects.antt =====
-- The table `users` of registered projects (gosrc/database/registry.go, PROJECT CRUD, PINNING, DEPLOY
-- STATUS). Rows are listed in the order in which SQLite returns them. What SQLite answers to a
-- statement, done or refused, is an argument: a refused statement changes nothing. The port is
-- written to the table as a decimal text; the model keeps the number that the text stands for.
pub mod Keys
pub mod Lookup
pub mod ToConfig
mod Tests
use cicd.Prelude.{
  ℕ, suc, ℤ, pos, Bool, true, false, not, ◌&&◌, Option, none, some, List, [], ◌∷◌, ◌++◌, map, Text,
  same, is_empty, ◌==◌, find, if◌then◌else◌,
}
use cicd.Config.{Config}
use cicd.Process.{DeployStatus, idle}

pub record Project : Type 0 where
  pub id : ℕ
  pub service_name : Text
  pub service_user : Text
  pub repo_url : Text
  pub branch : Text
  pub public_ip : Text
  pub webhook : ℤ
  pub admin_email : Text
  pub service_dir : Text
  pub user : Text
  pub last_commit_hash : Text
  pub last_commit_msg : Text
  pub github_token : Text
  pub github_username : Text
  pub sudo_pass : Text
  pub webhook_secret : Text
  pub mongo_db_uri : Text
  pub is_pinned : Bool
  pub deploy_status : DeployStatus

-- The table, and the next value of its AUTOINCREMENT key.
pub record Projects : Type 0 where
  pub rows : List Project
  pub next_id : ℕ

-- What the INSERT and the UPDATE write from a configuration.
abbrev pub overwrite : Config → Project → Project
overwrite cfg p = record p {
  service_name = cfg.service_name;
  service_user = cfg.service_user;
  repo_url = cfg.repo_url;
  branch = cfg.branch;
  public_ip = cfg.public_ip;
  webhook = cfg.webhook;
  admin_email = cfg.admin_email;
  service_dir = cfg.service_dir;
  user = cfg.user;
  github_token = cfg.git_password;
  github_username = cfg.git_username;
  sudo_pass = cfg.sudo_pass;
  webhook_secret = cfg.webhook_secret;
  mongo_db_uri = cfg.mongo_db_uri;
}

-- A new row: the columns that the INSERT leaves out get their defaults.
abbrev pub new_project : ℕ → Config → Project
new_project id cfg = record {
  id = id;
  service_name = cfg.service_name;
  service_user = cfg.service_user;
  repo_url = cfg.repo_url;
  branch = cfg.branch;
  public_ip = cfg.public_ip;
  webhook = cfg.webhook;
  admin_email = cfg.admin_email;
  service_dir = cfg.service_dir;
  user = cfg.user;
  last_commit_hash = [];
  last_commit_msg = [];
  github_token = cfg.git_password;
  github_username = cfg.git_username;
  sudo_pass = cfg.sudo_pass;
  webhook_secret = cfg.webhook_secret;
  mongo_db_uri = cfg.mongo_db_uri;
  is_pinned = false;
  deploy_status = idle;
}

-- `UNIQUE(repoURL, branch, serviceName)`
abbrev pub has_key : Text → Text → Text → Project → Bool
has_key url branch name p =
    same p.repo_url url && (same p.branch branch && same p.service_name name)

abbrev pub conflicts : Config → Project → Bool
conflicts cfg = has_key cfg.repo_url cfg.branch cfg.service_name

abbrev pub with_id : ℕ → Project → Bool
with_id id p = p.id == id

abbrev pub in_dir : Text → Project → Bool
in_dir dir p = same p.service_dir dir

-- `UPDATE … WHERE test`
unfoldable pub update_where : (Project → Bool) → (Project → Project) → List Project → List Project
update_where test f [] = []
update_where test f (p ∷ ps) =
    let rest = update_where test f ps in if test p then f p ∷ rest else p ∷ rest

-- `RegisterProject`: the row with the configuration's key is updated; if there is none, one is added.
unfoldable pub register_project : Bool → Config → Projects → Projects × Bool
unfolding update_where
register_project done cfg t = if not done then (t, false) else elim (find (conflicts cfg) t.rows) [
  | some p ↦ (record t { rows = update_where (conflicts cfg) (overwrite cfg) t.rows }, true)
  | none ↦
      (record { rows = t.rows ++ new_project t.next_id cfg ∷ []; next_id = suc t.next_id }, true)
]

-- Another row than the one with key `id` has the configuration's unique key.
abbrev pub taken : ℕ → Config → Project → Bool
taken id cfg p = conflicts cfg p && not (p.id == id)

abbrev pub is_some : {A : Type 0} → Option A → Bool
is_some none = false
is_some (some a) = true

-- `UpdateProject`: refused if the UNIQUE constraint would be violated.
unfoldable pub update_project : Bool → ℕ → Config → Projects → Projects × Bool
unfolding update_where
update_project done id cfg t =
    if done && not (is_some (find (with_id id) t.rows) && is_some (find (taken id cfg) t.rows))
    then (record t { rows = update_where (with_id id) (overwrite cfg) t.rows }, true)
    else (t, false)

unfoldable pub delete_where : (Project → Bool) → List Project → List Project
delete_where test [] = []
delete_where test (p ∷ ps) = let rest = delete_where test ps in if test p then rest else p ∷ rest

-- `DeleteProject`
unfoldable pub delete_project : Bool → ℕ → Projects → Projects × Bool
unfolding delete_where
delete_project done id t =
    if done then (record t { rows = delete_where (with_id id) t.rows }, true) else (t, false)

-- `UPDATE users SET … WHERE …`, on columns that no constraint speaks of.
abbrev update_column : Bool → (Project → Bool) → (Project → Project) → Projects → Projects × Bool
update_column done test f t =
    if done then (record t { rows = update_where test f t.rows }, true) else (t, false)

-- `SetProjectPinned`
unfoldable pub set_project_pinned : Bool → ℕ → Bool → Projects → Projects × Bool
unfolding update_where
set_project_pinned done id pinned =
    update_column done (with_id id) (λ p. record p { is_pinned = pinned })

-- `SetDeployStatus`
unfoldable pub set_deploy_status : Bool → ℕ → DeployStatus → Projects → Projects × Bool
unfolding update_where
set_deploy_status done id status =
    update_column done (with_id id) (λ p. record p { deploy_status = status })

-- `SetDeployStatusByDir`
unfoldable pub set_deploy_status_by_dir : Bool → Text → DeployStatus → Projects → Projects × Bool
unfolding update_where
set_deploy_status_by_dir done dir status =
    update_column done (in_dir dir) (λ p. record p { deploy_status = status })

-- `UpdateCommitHashLocal`
unfoldable pub update_commit_hash_local : Bool → Text → Text → Projects → Projects × Bool
unfolding update_where
update_commit_hash_local done dir hash =
    update_column done (in_dir dir) (λ p. record p { last_commit_hash = hash })

-- `UpdateLastCommitInfo`
unfoldable pub update_last_commit_info : Bool → Text → Text → Text → Projects → Projects × Bool
unfolding update_where
update_last_commit_info done dir hash msg =
    update_column done (in_dir dir)
      (λ p. record p { last_commit_hash = hash; last_commit_msg = msg })

-- `GetProjectByID`, `GetProjectByRepoURL`, `GetProjectByName`: the first row that SQLite returns.
unfoldable pub get_project_by_id : ℕ → Projects → Option Project
get_project_by_id id t = find (with_id id) t.rows

unfoldable pub get_project_by_repo_url : Text → Projects → Option Project
get_project_by_repo_url url t = find (λ p. same p.repo_url url) t.rows

unfoldable pub get_project_by_name : Text → Projects → Option Project
get_project_by_name name t = find (λ p. same p.service_name name) t.rows

abbrev pub id_of : Option Project → Option ℕ
id_of none = none
id_of (some p) = some p.id

-- `GetProjectIDByDir`
unfoldable pub get_project_id_by_dir : Text → Projects → Option ℕ
get_project_id_by_dir dir t = id_of (find (in_dir dir) t.rows)

abbrev pub status_of : Option Project → Option DeployStatus
status_of none = none
status_of (some p) = some p.deploy_status

-- `GetDeployStatusByDir`
unfoldable pub get_deploy_status_by_dir : Text → Projects → Option DeployStatus
get_deploy_status_by_dir dir t = status_of (find (in_dir dir) t.rows)

-- `GetAllDeploymentPaths`
unfoldable pub get_all_deployment_paths : Projects → List Text
get_all_deployment_paths t = map (λ p. p.service_dir) t.rows
