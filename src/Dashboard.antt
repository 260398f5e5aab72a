-- ===== src/Dashboard.antt =====
-- The dashboard's routes that change state (gosrc/api/server.go). Each route is a function of what it
-- was sent and of the state; streams and most of the reading routes are left out. `stops` and
-- `rollbacks` are the calls of `StopAppProcess` and `RollbackToCommit`, newest first. An id that is no
-- number finds no row, so ids are numbers. A body that cannot be read is `none`.
pub mod Create
pub mod Form
pub mod Keyed
pub mod Sent
pub mod Ports
pub mod Run
mod Tests
use cicd.Prelude.{
  ℕ, ℤ, pos, negsuc, is_positive, is_zero, Bool, true, false, not, ◌&&◌, ◌||◌, Option, none, some,
  List, [], ◌∷◌, ◌++◌, Text, codes, same, is_empty, is_set, ltb, ◌==◌, length, find, if◌then◌else◌,
}
use cicd.Config.{Config}
use cicd.Settings.{Settings, save_global_settings}
use cicd.Settings.Token.{Times, validate_setup_token}
use cicd.Process.{DeployStatus, idle}
use cicd.Projects.{
  Project, Projects, update_project, delete_project, set_project_pinned, set_deploy_status,
  get_project_by_id,
}
use cicd.Projects.ToConfig.{Outcome, config, lacks, to_config}
use cicd.Queue.Store.{Queues, enqueue_deployment}

pub record Dashboard : Type 0 where
  pub projects : Projects
  pub settings : Option Settings
  pub queues : Queues
  pub stops : List Text
  pub rollbacks : List (Config × Text)
  pub reinstalls : List Text  -- the projects whose install.hash was removed
  pub fleet : List Config  -- what `RegisterToMongo` was called with

pub data Answer : Type 0 where
  done started updated created deleted : Answer
  bad_request not_found server_error port_conflict : Answer
  path_failed invalid_ip folder_failed unauthorized panicked : Answer

abbrev pub enqueue_config : Config → Dashboard → Dashboard
enqueue_config cfg d = record d { queues = (enqueue_deployment cfg [] [] d.queues).0 }

-- `POST /projects/:id/stop`
unfoldable pub stop_project : Bool → ℕ → Dashboard → Dashboard × Answer
stop_project written id d = elim (get_project_by_id id d.projects) [
  | none ↦ (d, not_found)
  | some p ↦ (
    record d {
      stops = p.service_dir ∷ d.stops;
      projects = (set_deploy_status written id idle d.projects).0;
    },
    done,
  )
]

abbrev on_config :
    Outcome → (Config → Dashboard → Dashboard × Answer) → Dashboard → Dashboard × Answer
on_config (lacks fs) f d = (d, server_error)
on_config (config cfg) f d = f cfg d

-- `POST /projects/:id/deploy`
unfoldable pub deploy_project : ℕ → Dashboard → Dashboard × Answer
unfolding to_config enqueue_deployment
deploy_project id d = elim (get_project_by_id id d.projects) [
  | none ↦ (d, not_found)
  | some p ↦ on_config (to_config d.settings p) (λ cfg e. (enqueue_config cfg e, started)) d
]

-- `POST /projects/:id/reinstall`: the hash file is removed before the configuration is looked at.
unfoldable pub reinstall_project : ℕ → Dashboard → Dashboard × Answer
unfolding to_config enqueue_deployment
reinstall_project id d = elim (get_project_by_id id d.projects) [
  | none ↦ (d, not_found)
  | some p ↦
      on_config (to_config d.settings p) (λ cfg e. (enqueue_config cfg e, started))
        (record d { reinstalls = p.service_dir ∷ d.reinstalls })
]

-- `POST /projects/:id/rollback`: the rollback is started, then the answer slices the hash.
unfoldable pub rollback_project : ℕ → Option Text → Dashboard → Dashboard × Answer
unfolding to_config
rollback_project id none d = (d, bad_request)
rollback_project id (some hash) d =
    if is_empty hash then (d, bad_request) else elim (get_project_by_id id d.projects) [
      | none ↦ (d, not_found)
      | some p ↦
          on_config (to_config d.settings p)
            (λ cfg e. (
              record e { rollbacks = (cfg, hash) ∷ e.rollbacks },
              if ltb (length hash) 8 then panicked else started,
            ))
            d
    ]

-- `POST /projects/:id/pin` and `unpin`
unfoldable pub pin_project : Bool → ℕ → Bool → Dashboard → Dashboard × Answer
pin_project written id pinned d = (
  record d { projects = (set_project_pinned written id pinned d.projects).0 },
  if written then done else server_error,
)

-- `DELETE /projects/:id`
unfoldable pub remove_project : Bool → ℕ → Dashboard → Dashboard × Answer
remove_project written id d = elim (get_project_by_id id d.projects) [
  | none ↦ (d, not_found)
  | some p ↦ (
    record d {
      stops = p.service_dir ∷ d.stops;
      projects = (delete_project written id d.projects).0;
    },
    if written then deleted else server_error,
  )
]

-- `*string` and `*int` of a request: `none` was not sent.
pub record UpdateRequest : Type 0 where
  pub repo_url : Option Text
  pub branch : Option Text
  pub service_name : Option Text
  pub service_user : Option Text
  pub admin_email : Option Text
  pub git_username : Option Text
  pub git_password : Option Text
  pub webhook_port : Option ℤ
  pub public_ip : Option Text
  pub sudo_pass : Option Text
  pub webhook_secret : Option Text
  pub mongo_db_uri : Option Text

abbrev pub sent : Option Text → Text → Text
sent none old = old
sent (some new) old = new

abbrev pub applied : UpdateRequest → Config → Config
applied r cfg = record cfg {
  repo_url = sent r.repo_url cfg.repo_url;
  branch = sent r.branch cfg.branch;
  service_name = sent r.service_name cfg.service_name;
  service_user = sent r.service_user cfg.service_user;
  admin_email = sent r.admin_email cfg.admin_email;
  git_username = sent r.git_username cfg.git_username;
  git_password = sent r.git_password cfg.git_password;
  public_ip = sent r.public_ip cfg.public_ip;
  sudo_pass = sent r.sudo_pass cfg.sudo_pass;
  webhook_secret = sent r.webhook_secret cfg.webhook_secret;
  mongo_db_uri = sent r.mongo_db_uri cfg.mongo_db_uri;
}

abbrev pub same_int : ℤ → ℤ → Bool
same_int (pos m) (pos n) = m == n
same_int (negsuc m) (negsuc n) = m == n
same_int (pos m) (negsuc n) = false
same_int (negsuc m) (pos n) = false

abbrev pub uses_port : ℤ → ℕ → Project → Bool
uses_port port except p = same_int p.webhook port && not (p.id == except)

abbrev name_of : Option Project → Text
name_of none = []
name_of (some p) = p.service_name

-- `CheckPortConflict` returned a name that is not empty.
unfoldable pub check_port_conflict : ℤ → ℕ → Projects → Bool
check_port_conflict port except t = is_set (name_of (find (uses_port port except) t.rows))

-- The port of a request that counts, and its conflict.
abbrev pub port_taken : Option ℤ → ℕ → Projects → Bool
unfolding check_port_conflict
port_taken none except t = false
port_taken (some port) except t = is_positive port && check_port_conflict port except t

abbrev pub with_port : Option ℤ → Config → Config
with_port none cfg = cfg
with_port (some port) cfg = if is_positive port then record cfg { webhook = port } else cfg

unfoldable pub change_project :
    Bool → ℕ → UpdateRequest → Project → Config → Dashboard → Dashboard × Answer
unfolding check_port_conflict
change_project written id r p cfg d =
    let new : Config = with_port r.webhook_port (applied r cfg) in
    if port_taken r.webhook_port p.id d.projects
    then (d, port_conflict)
    else if not (update_project written id new d.projects).1
    then (d, server_error)
    else (
      enqueue_config new (record d { projects = (update_project written id new d.projects).0 }),
      updated,
    )

-- `PUT /projects/:id`
unfoldable pub put_project : Bool → ℕ → Option UpdateRequest → Dashboard → Dashboard × Answer
unfolding change_project to_config
put_project written id r d = elim (get_project_by_id id d.projects) [
  | none ↦ (d, not_found)
  | some p ↦ elim r [
    | none ↦ (d, bad_request)
    | some req ↦ on_config (to_config d.settings p) (change_project written id req p) d
  ]
]

-- `POST /auth/token-login`, the answer `done` carries a JWT. `clears` is SQLite's answer to the UPDATE.
unfoldable pub token_login : Times → Bool → ℕ → Option Text → Dashboard → Dashboard × Answer
unfolding validate_setup_token
token_login times clears now none d = (d, bad_request)
token_login times clears now (some token) d =
    let (row, refused) = validate_setup_token times clears now token d.settings in
    (record d { settings = row }, elim refused [ none ↦ done | some e ↦ unauthorized ])
