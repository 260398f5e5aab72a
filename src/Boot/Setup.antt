-- ===== src/Boot/Setup.antt =====
-- The start of the program up to the server (gosrc/main.go: main): the first setup, which saves the
-- settings, places a project and installs the service, and the start under systemd.
pub mod Survival
use cicd.Prelude.{
  Bool, true, false, not, ◌&&◌, Option, none, some, List, [], ◌∷◌, Text, is_empty, is_set,
  if◌then◌else◌,
}
use cicd.Config.{Config}
use cicd.Config.Args.{ArgsEnv, Parsed, missing_flags, bad_email, parsed}
use cicd.Config.Flags.{Given, explicit_flags, parse}
use cicd.Settings.{Settings, save_global_settings, load_global_settings}
use cicd.Projects.{Projects, register_project, get_all_deployment_paths}
use cicd.Paths.{print}
use cicd.Paths.Resolve.{PathConfig, Resolved, ok, err, resolve_deployment_path}
use cicd.Dashboard.Create.{CreateEnv, setup_project_folder}
use cicd.Boot.{SystemdEnv, is_running_under_systemd}

-- What the system answers: whether the settings are saved, an executable is found, the paths of the
-- deployments are read, the service file is written and systemctl succeeds each time.
pub record SetupEnv : Type 0 where
  pub args : ArgsEnv
  pub systemd : SystemdEnv
  pub create : CreateEnv
  pub saves : Bool
  pub executable : Bool
  pub reads_paths : Bool
  pub writes_service : Bool
  pub systemctl : Bool

-- The tables, and what `RegisterToMongo` was called with.
pub record Host : Type 0 where
  pub settings : Option Settings
  pub projects : Projects
  pub fleet : List Config

pub data Started : Type 0 where
  refused_flags refused_email : Started
  no_executable path_refused folder_refused no_service_file panicked : Started
  installed : Config → Started
  serving : Config → Started

-- `CreateServicefile` and the calls of systemctl.
abbrev pub install_service : SetupEnv → Config → Host → Host × Started
install_service env cfg h =
    if not env.writes_service
    then (h, no_service_file)
    else if env.systemctl
    then (h, installed cfg)
    else (h, panicked)

abbrev pub register_on : SetupEnv → Config → Host → Host
unfolding register_project
register_on env cfg h = record h {
  projects = (register_project env.create.registers cfg h.projects).0;
  fleet = if is_set cfg.mongo_db_uri then cfg ∷ h.fleet else h.fleet;
}

unfoldable pub on_placed : SetupEnv → Config → Host → Resolved → Host × Started
unfolding register_on setup_project_folder print
on_placed env cfg h (err e) = (h, path_refused)
on_placed env cfg h (ok p) =
    let placed : Config = record cfg { service_dir = print p.final_path } in
    if not (setup_project_folder env.create placed)
    then (h, folder_refused)
    else install_service env placed (register_on env placed h)

abbrev pub setup_path : SetupEnv → Config → Host → PathConfig
unfolding get_all_deployment_paths
setup_path env cfg h = record {
  base_dir = cfg.service_dir;
  project_name = cfg.service_name;
  existing_deployments = if env.reads_paths then get_all_deployment_paths h.projects else [];
}

-- The first setup, behind the saving of the settings.
unfoldable pub set_up : SetupEnv → Config → Host → Host × Started
unfolding on_placed resolve_deployment_path setup_path
set_up env cfg h =
    if not env.executable
    then (h, no_executable)
    else if is_empty cfg.repo_url
    then install_service env cfg h
    else on_placed env cfg h (resolve_deployment_path env.create.disk (setup_path env cfg h))

unfoldable pub configured : SetupEnv → Config → Host → Host × Started
unfolding set_up save_global_settings
configured env cfg h =
    if is_running_under_systemd env.systemd cfg
    then (h, serving cfg)
    else set_up env cfg (record h { settings = save_global_settings env.saves cfg h.settings })

abbrev pub on_flags : SetupEnv → Given → Host → Parsed → Host × Started
unfolding configured load_global_settings
on_flags env given h (missing_flags fs) = (h, refused_flags)
on_flags env given h bad_email = (h, refused_email)
on_flags env given h (parsed cfg) =
    configured env (load_global_settings (explicit_flags given) h.settings cfg) h

-- `main`, up to the API server.
unfoldable pub start_program : SetupEnv → Given → Host → Host × Started
unfolding on_flags parse
start_program env given h = on_flags env given h (parse env.args given)
