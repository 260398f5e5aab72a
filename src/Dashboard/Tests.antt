-- ===== src/Dashboard/Tests.antt =====
-- Runs of the dashboard's routes, and the theorems at concrete inputs.
use cicd.Prelude.{
  ◌≡◌, refl, true, false, none, some, pos, [], ◌∷◌, Text, codes, same, text_discrete, find, count,
  arith, if◌then◌else◌,
}
use cicd.Config.{Config}
use cicd.Settings.{default_settings}
use cicd.Projects.{new_project, get_project_by_id}
use cicd.Projects.Keys.{IsKeyed}
use cicd.Queue.Store.{no_queues}
use cicd.Paths.{FilePath, print}
use cicd.Paths.Resolve.{missing, directory, Disk}
use cicd.Dashboard.{Dashboard, created, panicked, updated, rollback_project, put_project}
use cicd.Dashboard.Create.{
  CreateRequest, CreateEnv, is_valid_username, default_user, create_project,
}
use cicd.Dashboard.Form.{SettingsRequest}
use cicd.Dashboard.Sent.{nothing, put_nothing}

abbrev lower : Text → Text
lower s = s

abbrev root_dir : FilePath
root_dir = record { rooted = true; parts = [] }

abbrev disk : Disk
disk = record {
  cwd = root_dir;
  eval_symlinks = λ p. none;
  stat = λ p. if same (print p) (codes "/srv") then directory else missing;
  random = some (1 ∷ 2 ∷ 3 ∷ []);
  to_lower = lower;
}

abbrev env : CreateEnv
env = record {
  disk = disk;
  user_random = some (10 ∷ 11 ∷ 12 ∷ []);
  user_number = codes "1234";
  is_ip = λ ip. false;
  prepares = λ user dir. true;
  registers = true;
}

abbrev gateway : Config
gateway = record {
  setup = [];
  repo_url = [];
  branch = [];
  admin_email = codes "ops";
  mongo_db_uri = [];
  git_username = [];
  git_password = [];
  smtp_host = [];
  smtp_port = pos 587;
  smtp_user = [];
  smtp_pass = [];
  user = [];
  sudo_pass = [];
  service_name = codes "gateway";
  service_dir = codes "/srv";
  service_user = codes "root";
  service_reset = [];
  webhook = pos 9641;
  webhook_secret = codes "s";
  public_ip = codes "localhost";
  notify_url = [];
  deploy_timeout = pos 1800;
  skip_install_hash = false;
}

abbrev request : CreateRequest
request = record {
  repo_url = codes "r";
  branch = [];
  service_name = codes "site";
  service_user = [];
  base_dir = [];
  admin_email = [];
  git_username = [];
  git_password = [];
  webhook_secret = [];
  webhook_port = pos 80;
  mongo_db_uri = [];
  smtp_host = [];
  smtp_port = pos 0;
  smtp_user = [];
  smtp_pass = [];
  sudo_pass = [];
  public_ip = [];
}

abbrev start : Dashboard
start = record {
  projects = record { rows = []; next_id = 1 };
  settings = some default_settings;
  queues = no_queues;
  stops = [];
  rollbacks = [];
  reinstalls = [];
  fleet = [];
}

start-IsKeyed : IsKeyed start.projects
unfolding count
start-IsKeyed = record {
  one_each = λ url branch name. omega arith;
  one_id = λ id. omega arith;
  below_next = tt;
}

create_site : (create_project env gateway (some request) start).1 ≡ created
unfolding create_project default_user is_valid_username print find text_discrete
create_site = refl

abbrev site : Config
site = record gateway {
  repo_url = codes "r";
  branch = codes "main";
  service_name = codes "site";
  admin_email = [];
  webhook_secret = [];
}

abbrev one : Dashboard
one = record start {
  projects = record { rows = new_project 1 site ∷ []; next_id = 2 };
  settings = some (record default_settings { admin_email = codes "ops" });
}

one-IsKeyed : IsKeyed one.projects
unfolding count
one-IsKeyed = record {
  one_each = λ url branch name. ground arith;
  one_id = λ id. ground arith;
  below_next = (omega arith, tt);
}

-- The rollback of a commit of seven characters is started, and the answer fails.
short_hash : (rollback_project 1 (some (codes "abcdef1")) one).1 ≡ panicked
unfolding rollback_project get_project_by_id find text_discrete
short_hash = refl

put_nothing_example :
    (get_project_by_id 1 (put_project true 1 (some nothing) one).0.projects
      ≡ some (record (new_project 1 site) { admin_email = codes "ops" }))
    × ((put_project true 1 (some nothing) one).1 ≡ updated)
put_nothing_example =
    put_nothing 1 (new_project 1 site) (record default_settings { admin_email = codes "ops" }) one
      one-IsKeyed (unfold get_project_by_id find in refl) refl refl

abbrev form : SettingsRequest
form = record {
  mongo_db_uri = [];
  admin_email = codes "new";
  webhook_port = pos 80;
  webhook_secret = [];
  smtp_host = [];
  smtp_port = pos 25;
  smtp_user = [];
  smtp_pass = [];
  public_ip = [];
  notify_url = [];
  deploy_timeout = pos 60;
}
