-- ===== src/Dashboard/Create.antt =====
-- Creating a project (gosrc/api/server.go: POST /projects; gosrc/actions/executor.go: isValidUsername,
-- SetupProjectFolder).
pub mod Laws
use cicd.Prelude.{
  ℕ, ℤ, pos, is_positive, Bool, true, false, not, ◌&&◌, ◌||◌, Option, none, some, List, [], ◌∷◌,
  ◌++◌, map, Text, codes, same, is_empty, is_set, leb, ◌==◌, if◌then◌else◌,
}
use cicd.Config.{Config}
use cicd.Projects.{Project, Projects, register_project, get_all_deployment_paths}
use cicd.Paths.{dash, print, slugify, random_hex}
use cicd.Paths.Resolve.{Disk, PathConfig, Placement, Resolved, ok, err, resolve_deployment_path}
use cicd.Dashboard.{
  Dashboard, Answer, created, bad_request, port_conflict, path_failed, invalid_ip, folder_failed,
  enqueue_config, check_port_conflict,
}

-- The body of the request. The code reads the mail host and the MongoDB address and uses neither.
pub record CreateRequest : Type 0 where
  pub repo_url : Text
  pub branch : Text
  pub service_name : Text
  pub service_user : Text
  pub base_dir : Text
  pub admin_email : Text
  pub git_username : Text
  pub git_password : Text
  pub webhook_secret : Text
  pub webhook_port : ℤ
  pub mongo_db_uri : Text
  pub smtp_host : Text
  pub smtp_port : ℤ
  pub smtp_user : Text
  pub smtp_pass : Text
  pub sudo_pass : Text
  pub public_ip : Text

pub record CreateEnv : Type 0 where
  pub disk : Disk
  pub user_random : Option (List ℕ)  -- the bytes for the suffix of the user's name
  pub user_number : Text  -- the decimal digits of `rand.Intn`, when there are none
  pub is_ip : Text → Bool  -- `net.ParseIP` returns an address
  pub prepares : Text → Text → Bool  -- the steps of `SetupProjectFolder` behind its test of the name
  pub registers : Bool

-- `isValidUsername`
abbrev pub name_char : ℕ → Bool
name_char c = (leb 97 c && leb c 122) || ((leb 48 c && leb c 57) || (c == 45 || c == 95))

unfoldable pub all_name_chars : Text → Bool
all_name_chars [] = true
all_name_chars (c ∷ s) = let rest = all_name_chars s in name_char c && rest

unfoldable pub is_valid_username : Text → Bool
unfolding all_name_chars
is_valid_username s = not (is_empty s) && all_name_chars s

-- `SetupProjectFolder` returns nil.
unfoldable pub setup_project_folder : CreateEnv → Config → Bool
unfolding is_valid_username
setup_project_folder env cfg =
    is_valid_username cfg.service_user && env.prepares cfg.service_user cfg.service_dir

abbrev pub or_else : Text → Text → Text
or_else value default = if is_set value then value else default

abbrev pub suffix_or : Option Text → Text → Text
suffix_or none number = number
suffix_or (some hex) number = hex

-- The name of a service user that the request leaves open.
unfoldable pub default_user : CreateEnv → Text → Text
unfolding slugify random_hex
default_user env service_name =
    codes "cicd_usr_"
    ++ (slugify env.disk.to_lower service_name
        ++ dash ∷ suffix_or (random_hex 6 env.user_random) env.user_number)

unfoldable pub with_defaults : CreateEnv → Config → CreateRequest → CreateRequest
unfolding default_user
with_defaults env cfg r = record r {
  service_user = or_else r.service_user (default_user env r.service_name);
  branch = or_else r.branch (codes "main");
  base_dir = or_else r.base_dir cfg.service_dir;
  public_ip = or_else r.public_ip cfg.public_ip;
}

-- The configuration of the new project, a copy of the gateway's with the fields of the request.
abbrev pub project_config : Config → CreateRequest → Text → Config
project_config cfg r service_dir = record cfg {
  repo_url = r.repo_url;
  branch = r.branch;
  service_name = r.service_name;
  service_user = r.service_user;
  service_dir = service_dir;
  admin_email = or_else r.admin_email cfg.admin_email;
  git_username = or_else r.git_username cfg.git_username;
  git_password = or_else r.git_password cfg.git_password;
  public_ip = or_else r.public_ip cfg.public_ip;
  sudo_pass = or_else r.sudo_pass cfg.sudo_pass;
  webhook = if is_positive r.webhook_port then r.webhook_port else cfg.webhook;
  webhook_secret = or_else r.webhook_secret cfg.webhook_secret;
}

abbrev pub good_ip : CreateEnv → Text → Bool
good_ip env ip = env.is_ip ip || (same ip (codes "localhost") || same ip (codes "127.0.0.1"))

-- What is done for a project that passed every test.
unfoldable pub register_and_deploy : Bool → Config → Dashboard → Dashboard
unfolding register_project
register_and_deploy registers cfg d = enqueue_config cfg (record d {
  projects = (register_project registers cfg d.projects).0;
  fleet = if is_set cfg.mongo_db_uri then cfg ∷ d.fleet else d.fleet;
})

unfoldable pub on_resolved :
    CreateEnv → Config → CreateRequest → Resolved → Dashboard → Dashboard × Answer
unfolding setup_project_folder register_and_deploy print
on_resolved env cfg r (err e) d = (d, path_failed)
on_resolved env cfg r (ok p) d =
    let new : Config = project_config cfg r (print p.final_path) in
    if not (good_ip env r.public_ip)
    then (d, invalid_ip)
    else if not (setup_project_folder env new)
    then (d, folder_failed)
    else (register_and_deploy env.registers new d, created)

abbrev pub path_request : CreateRequest → Projects → PathConfig
unfolding get_all_deployment_paths
path_request r t = record {
  base_dir = r.base_dir;
  project_name = r.service_name;
  existing_deployments = get_all_deployment_paths t;
}

-- `POST /projects`
unfoldable pub create_project :
    CreateEnv → Config → Option CreateRequest → Dashboard → Dashboard × Answer
unfolding with_defaults on_resolved resolve_deployment_path path_request check_port_conflict
create_project env cfg none d = (d, bad_request)
create_project env cfg (some req) d =
    let r : CreateRequest = with_defaults env cfg req in
    if is_empty req.repo_url || is_empty req.service_name
    then (d, bad_request)
    else if is_positive r.webhook_port && check_port_conflict r.webhook_port 0 d.projects
    then (d, port_conflict)
    else on_resolved env cfg r (resolve_deployment_path env.disk (path_request r d.projects)) d
