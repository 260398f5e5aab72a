-- ===== src/Projects/Tests.antt =====
-- Runs of the table of projects, and the theorems at concrete inputs.
use cicd.Prelude.{◌≡◌, refl, true, false, pos, [], ◌∷◌, ◌++◌, Text, codes, text_discrete, find}
use cicd.Config.{Config}
use cicd.Projects.{Projects, new_project, register_project, update_project}

abbrev site : Text → Text → Config
site name branch = record {
  setup = [];
  repo_url = codes "https://example.org/site";
  branch = branch;
  admin_email = [];
  mongo_db_uri = [];
  git_username = [];
  git_password = [];
  smtp_host = [];
  smtp_port = pos 587;
  smtp_user = [];
  smtp_pass = [];
  user = [];
  sudo_pass = [];
  service_name = name;
  service_dir = codes "/srv/" ++ name;
  service_user = codes "www";
  service_reset = [];
  webhook = pos 9641;
  webhook_secret = [];
  public_ip = [];
  notify_url = [];
  deploy_timeout = pos 1800;
  skip_install_hash = false;
}

abbrev empty : Projects
empty = record { rows = []; next_id = 1 }

abbrev prod : Config
prod = site (codes "prod") (codes "main")

abbrev stage : Config
stage = site (codes "stage") (codes "dev")

abbrev two : Projects
two = record { rows = new_project 1 prod ∷ new_project 2 stage ∷ []; next_id = 3 }

-- Registering the same key again updates the row and adds none.
register_twice :
    (register_project true
      (record stage { webhook = pos 80 })
      (register_project true stage (register_project true prod empty).0).0).0
    ≡ record two {
      rows = new_project 1 prod ∷ (record (new_project 2 stage) { webhook = pos 80 }) ∷ [];
    }
unfolding register_project find text_discrete
register_twice = refl

-- The second project cannot take the key of the first.
update_conflict : (update_project true 2 prod two).1 ≡ false
unfolding update_project find text_discrete
update_conflict = refl
