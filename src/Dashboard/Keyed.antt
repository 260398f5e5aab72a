-- ===== src/Dashboard/Keyed.antt =====
-- The routes and the constraints of the table of projects.
use cicd.Prelude.{
  ℕ, Bool, true, false, not, ◌&&◌, ◌||◌, Option, none, some, List, [], ◌∷◌, Text, is_empty,
  is_positive, if◌then◌else◌,
}
use cicd.Config.{Config}
use cicd.Settings.Token.{Times}
use cicd.Process.{idle}
use cicd.Projects.{update_project, Projects, Project, delete_project, get_project_by_id}
use cicd.Projects.Keys.Update.{update_project-IsKeyed}
use cicd.Projects.Keys.{
  IsKeyed, register_project-IsKeyed, delete_project-IsKeyed, column_writes-IsKeyed,
}
use cicd.Projects.ToConfig.{Outcome, config, lacks, to_config}
use cicd.Paths.{print}
use cicd.Paths.Resolve.{Resolved, ok, err, resolve_deployment_path}
use cicd.Dashboard.{
  Dashboard, Answer, created, bad_request, UpdateRequest, applied, with_port, port_taken,
  check_port_conflict, on_config, stop_project, deploy_project, reinstall_project, rollback_project,
  pin_project, remove_project, change_project, put_project, token_login,
}
use cicd.Dashboard.Create.{
  CreateRequest, CreateEnv, good_ip, setup_project_folder, project_config, register_and_deploy,
  on_resolved, path_request, with_defaults, create_project,
}

-- A request to one of the routes; `written` says whether the database takes the write.
pub data RouteCall : Type 0 where
  create : CreateEnv → Config → Option CreateRequest → RouteCall
  put : (written : Bool) → ℕ → Option UpdateRequest → RouteCall
  stop : (written : Bool) → ℕ → RouteCall
  deploy : ℕ → RouteCall
  reinstall : ℕ → RouteCall
  rollback : ℕ → Option Text → RouteCall
  pin : (written : Bool) → ℕ → Bool → RouteCall
  remove : (written : Bool) → ℕ → RouteCall
  login : Times → (clears : Bool) → ℕ → Option Text → RouteCall

unfoldable pub handle : RouteCall → Dashboard → Dashboard × Answer
unfolding create_project put_project stop_project deploy_project reinstall_project rollback_project
    pin_project remove_project token_login
handle (create env cfg r) d = create_project env cfg r d
handle (put written id r) d = put_project written id r d
handle (stop written id) d = stop_project written id d
handle (deploy id) d = deploy_project id d
handle (reinstall id) d = reinstall_project id d
handle (rollback id hash) d = rollback_project id hash d
handle (pin written id pinned) d = pin_project written id pinned d
handle (remove written id) d = remove_project written id d
handle (login times clears now token) d = token_login times clears now token d

-- The requests of a list, one after the other.
unfoldable pub handle_all : List RouteCall → Dashboard → Dashboard
unfolding handle
handle_all [] d = d
handle_all (r ∷ rs) d = handle_all rs (handle r d).0

abbrev Keeps : Dashboard × Answer → Type 0
Keeps (d, a) = IsKeyed d.projects

branch : (b : Bool) (x y : Dashboard × Answer) → Keeps x → Keeps y → Keeps (if b then x else y)
branch true x y h k = h
branch false x y h k = k

found :
    (o : Option Project) (f : Project → Dashboard × Answer) (x : Dashboard × Answer)
    → Keeps x
    → ((p : Project) → Keeps (f p))
    → Keeps (elim o [ none ↦ x | some p ↦ f p ])
found none f x k h = k
found (some p) f x k h = h p

on_config-Keeps :
    (o : Outcome) (f : Config → Dashboard → Dashboard × Answer) (d : Dashboard)
    → IsKeyed d.projects
    → ((cfg : Config) → Keeps (f cfg d))
    → Keeps (on_config o f d)
on_config-Keeps (lacks fs) f d w h = w
on_config-Keeps (config cfg) f d w h = h cfg

delete-IsKeyed :
    (written : Bool) (id : ℕ) (t : Projects) → IsKeyed t → IsKeyed (delete_project written id t).0
delete-IsKeyed true id t w = (delete_project-IsKeyed id t w).0
delete-IsKeyed false id t w = unfold delete_project in w

module _ (d : Dashboard) (w : IsKeyed d.projects) where
  registered :
      (registers : Bool) (cfg : Config) → Keeps (register_and_deploy registers cfg d, created)
  unfolding register_and_deploy
  registered registers cfg = register_project-IsKeyed registers cfg d.projects w

  on_resolved-Keeps :
      (env : CreateEnv) (cfg : Config) (r : CreateRequest) (o : Resolved)
      → Keeps (on_resolved env cfg r o d)
  unfolding on_resolved
  on_resolved-Keeps env cfg r (err e) = w
  on_resolved-Keeps env cfg r (ok p) = branch (not (good_ip env r.public_ip)) _ _ w (
      branch (not (setup_project_folder env (project_config cfg r (print p.final_path)))) _ _ w
        (registered env.registers (project_config cfg r (print p.final_path))))

  create_project-Keeps :
      (env : CreateEnv) (cfg : Config) (r : Option CreateRequest)
      → Keeps (create_project env cfg r d)
  unfolding create_project
  create_project-Keeps env cfg none = w
  create_project-Keeps env cfg (some req) =
      let r : CreateRequest = with_defaults env cfg req in
      branch (is_empty req.repo_url || is_empty req.service_name) _ _ w (
        branch (is_positive r.webhook_port && check_port_conflict r.webhook_port 0 d.projects) _ _ w
          (on_resolved-Keeps env cfg r
            (resolve_deployment_path env.disk (path_request r d.projects))))

  change_project-Keeps :
      (written : Bool) (id : ℕ) (r : UpdateRequest) (p : Project) (cfg : Config)
      → Keeps (change_project written id r p cfg d)
  unfolding change_project
  change_project-Keeps written id r p cfg =
      branch (port_taken r.webhook_port p.id d.projects) _ _ w (
        branch
          (not (update_project written id (with_port r.webhook_port (applied r cfg)) d.projects).1)
          _ _ w
          (update_project-IsKeyed written id (with_port r.webhook_port (applied r cfg)) d.projects
            w))

  put_project-Keeps :
      (written : Bool) (id : ℕ) (r : Option UpdateRequest) → Keeps (put_project written id r d)
  unfolding put_project
  put_project-Keeps written id r = found (get_project_by_id id d.projects) _ _ w (λ p.
      elim r
        as (λ o. Keeps (elim o [
          | none ↦ (d, bad_request)
          | some req ↦ on_config (to_config d.settings p) (change_project written id req p) d
        ])) [
          | none ↦ w
          | some req ↦
              on_config-Keeps (to_config d.settings p) (change_project written id req p) d w
                (change_project-Keeps written id req p)
        ])

  stop_project-Keeps : (written : Bool) (id : ℕ) → Keeps (stop_project written id d)
  unfolding stop_project
  stop_project-Keeps written id =
      found (get_project_by_id id d.projects) _ _ w
        (λ p. (column_writes-IsKeyed written false id [] [] [] idle d.projects w).1)

  deploy_project-Keeps : (id : ℕ) → Keeps (deploy_project id d)
  unfolding deploy_project
  deploy_project-Keeps id =
      found (get_project_by_id id d.projects) _ _ w
        (λ p. on_config-Keeps (to_config d.settings p) _ d w (λ cfg. w))

  reinstall_project-Keeps : (id : ℕ) → Keeps (reinstall_project id d)
  unfolding reinstall_project
  reinstall_project-Keeps id = found (get_project_by_id id d.projects) _ _ w (λ p.
      on_config-Keeps (to_config d.settings p) _
        (record d { reinstalls = p.service_dir ∷ d.reinstalls }) w (λ cfg. w))

  rollback_project-Keeps : (id : ℕ) (hash : Option Text) → Keeps (rollback_project id hash d)
  unfolding rollback_project
  rollback_project-Keeps id none = w
  rollback_project-Keeps id (some hash) = branch (is_empty hash) _ _ w (
      found (get_project_by_id id d.projects) _ _ w
        (λ p. on_config-Keeps (to_config d.settings p) _ d w (λ cfg. w)))

  pin_project-Keeps :
      (written : Bool) (id : ℕ) (pinned : Bool) → Keeps (pin_project written id pinned d)
  unfolding pin_project
  pin_project-Keeps written id pinned =
      (column_writes-IsKeyed written pinned id [] [] [] idle d.projects w).0

  remove_project-Keeps : (written : Bool) (id : ℕ) → Keeps (remove_project written id d)
  unfolding remove_project
  remove_project-Keeps written id =
      found (get_project_by_id id d.projects) _ _ w (λ p. delete-IsKeyed written id d.projects w)

  token_login-Keeps :
      (times : Times) (clears : Bool) (now : ℕ) (token : Option Text)
      → Keeps (token_login times clears now token d)
  unfolding token_login
  token_login-Keeps times clears now none = w
  token_login-Keeps times clears now (some token) = w

  handle-Keeps : (r : RouteCall) → Keeps (handle r d)
  unfolding handle
  handle-Keeps (create env cfg r) = create_project-Keeps env cfg r
  handle-Keeps (put written id r) = put_project-Keeps written id r
  handle-Keeps (stop written id) = stop_project-Keeps written id
  handle-Keeps (deploy id) = deploy_project-Keeps id
  handle-Keeps (reinstall id) = reinstall_project-Keeps id
  handle-Keeps (rollback id hash) = rollback_project-Keeps id hash
  handle-Keeps (pin written id pinned) = pin_project-Keeps written id pinned
  handle-Keeps (remove written id) = remove_project-Keeps written id
  handle-Keeps (login times clears now token) = token_login-Keeps times clears now token

-- Whatever requests arrive, in any order and with any failures of the database, no two projects of the
-- table share a repository, branch and service name, and no two share an id.
handle_all-IsKeyed :
    (rs : List RouteCall) (d : Dashboard) → IsKeyed d.projects → IsKeyed (handle_all rs d).projects
unfolding handle_all
handle_all-IsKeyed [] d w = w
handle_all-IsKeyed (r ∷ rs) d w = handle_all-IsKeyed rs (handle r d).0 (handle-Keeps d w r)
