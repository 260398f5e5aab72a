-- ===== src/Process/Tests.antt =====
-- Runs of the process engine, and the theorems at concrete inputs.
use cicd.Prelude.{◌≤◌, ◌≡◌, refl, true, false, none, some, pos, [], ◌∷◌, codes, text_discrete}
use cicd.Config.{Config}
use cicd.Process.{
  backoff_delay, ManagedProcess, delegating, kill_group, Engine, Os, is_current_process,
  start_app_process, stop_app_process, launch,
}
use cicd.Process.Backoff.{backoff_delay_lem}
use cicd.Process.Crash.{
  CanStart, IsServing, start-IsServing, crash_times, IsRestarted, crashes_restart,
}
use cicd.Process.Watchers.{by_pid, watch, IsAbandoned, watchdogs_abandon}

abbrev shop : Config
shop = record {
  setup = [];
  repo_url = codes "https://example.org/shop";
  branch = codes "main";
  admin_email = [];
  mongo_db_uri = [];
  git_username = [];
  git_password = [];
  smtp_host = [];
  smtp_port = pos 587;
  smtp_user = [];
  smtp_pass = [];
  user = [];
  sudo_pass = [];
  service_name = codes "shop";
  service_dir = codes "/srv/shop";
  service_user = codes "shop";
  service_reset = [];
  webhook = pos 9641;
  webhook_secret = [];
  public_ip = [];
  notify_url = [];
  deploy_timeout = pos 1800;
  skip_install_hash = false;
}

-- The script starts as process 70, and every other process is dead.
abbrev os : Os
os = record {
  codebase_exists = λ dir. true;
  run_script_exists = λ dir. true;
  health_script_exists = λ dir. false;
  user_exists = λ name. true;
  starts = true;
  new_pid = 70;
  is_process_alive = λ pid. false;
  children_in_group = λ pid. [];
  health_passes = false;
  now = 1000;
}

abbrev nothing : Engine
nothing = record {
  registry = λ dir. none;
  heap = λ address. none;
  next_address = 1;
  pid_files = λ dir. none;
  signals = [];
  statuses = λ dir. none;
}

abbrev old : ManagedProcess
old = record {
  cmd = 50;
  config = shop;
  start_time = 900;
  mode = delegating;
  ext_pid = 60;
  process_group = 0;
  restart_count = 10;
}

abbrev serving : Engine
serving = launch os shop nothing

abbrev can_start : CanStart os shop
can_start = record { codebase = refl; run_script = refl; known_user = refl; can_start = refl }

restart_kills_group :
    (start_app_process os shop (start_app_process os shop nothing).0).0.signals ≡ kill_group 70 ∷ []
unfolding start_app_process stop_app_process text_discrete
restart_kills_group = refl

-- Address 5 is not the registered one, which is 1.
old_is_stale : is_current_process shop 5 serving ≡ false
unfolding is_current_process text_discrete
old_is_stale = refl

shop-IsServing : IsServing shop (start_app_process os shop nothing).0
shop-IsServing = start-IsServing os shop nothing can_start

crashes_restart_example :
    IsRestarted os shop 26
      (start_app_process os shop nothing).0
      (crash_times os shop 26 (start_app_process os shop nothing).0)
crashes_restart_example =
    crashes_restart os shop 25 (start_app_process os shop nothing).0 can_start shop-IsServing

abbrev watched : Engine
watched = record nothing { registry = λ dir. some 5 }

watched_is_current : is_current_process shop 5 watched ≡ true
unfolding is_current_process
watched_is_current = refl

watchdogs_abandon_example :
    IsAbandoned shop watched (watch by_pid os 5 old watched).0
    × ((watch by_pid os 5 old watched).1 ≡ false)
watchdogs_abandon_example = watchdogs_abandon by_pid os 5 old watched watched_is_current refl

backoff_delay_lem_example :
    (2 ≤ backoff_delay 3) × (backoff_delay 3 ≤ backoff_delay 4) × (backoff_delay 3 ≤ 120)
backoff_delay_lem_example = backoff_delay_lem 3
