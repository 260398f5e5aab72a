-- ===== src/Pipeline/Install/Tests.antt =====
-- Runs of the install phase, and the theorems at concrete inputs.
use cicd.Prelude.{◌≡◌, refl, true, false, some, none, pos, negsuc, [], ◌∷◌, codes}
use cicd.Config.{Config}
use cicd.Pipeline.Install.{Machine, InstallEnv, passed, get_deploy_timeout}

abbrev site : Config
site = record {
  setup = [];
  repo_url = codes "https://example.org/site";
  branch = codes "main";
  admin_email = [];
  mongo_db_uri = [];
  git_username = [];
  git_password = [];
  smtp_host = [];
  smtp_port = pos 587;
  smtp_user = [];
  smtp_pass = [];
  user = [];
  sudo_pass = [];
  service_name = codes "site";
  service_dir = codes "/srv/site";
  service_user = codes "www";
  service_reset = [];
  webhook = pos 9641;
  webhook_secret = [];
  public_ip = [];
  notify_url = [];
  deploy_timeout = pos 1800;
  skip_install_hash = false;
}

abbrev fresh : Machine
fresh = record {
  install_hash = [];
  grants = codes "ops" ∷ [];
  helpers = [];
  runs = [];
  starts = [];
}

abbrev env : InstallEnv
env = record {
  log_opens = true;
  timeout_file = none;
  script = true;
  current_hash = codes "ab12";
  grants = true;
  writes = true;
  patches = true;
  result = passed;
  saves = true;
  starts = true;
}

-- Nine billion seconds and a little more no longer fit: the limit has passed at once.
too_long : get_deploy_timeout (some (pos 9223372037)) (pos 1800) ≡ negsuc 9223372036709551615
unfolding get_deploy_timeout
too_long = refl
