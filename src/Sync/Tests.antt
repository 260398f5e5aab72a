-- ===== src/Sync/Tests.antt =====
-- A run of the synchronisation, and the theorems at concrete inputs.
use cicd.Prelude.{
  ◌≡◌, refl, Bool, true, false, not, none, some, pos, List, [], ◌∷◌, ◌++◌, Text, codes, same,
  text_discrete,
}
use cicd.Config.{Config}
use cicd.Sync.{Command, SyncEnv, reset_to, check_disk_space, sync_repo}
use cicd.Sync.Outcome.{IsReset, sync_repo-IsReset, sync_repo_unchecked}

abbrev site : Config
site = record {
  setup = [];
  repo_url = codes "https://x/r";
  branch = [];
  admin_email = [];
  mongo_db_uri = [];
  git_username = [];
  git_password = [];
  smtp_host = [];
  smtp_port = pos 0;
  smtp_user = [];
  smtp_pass = [];
  user = [];
  sudo_pass = [];
  service_name = codes "site";
  service_dir = codes "/s";
  service_user = codes "www";
  service_reset = [];
  webhook = pos 80;
  webhook_secret = [];
  public_ip = [];
  notify_url = [];
  deploy_timeout = pos 0;
  skip_install_hash = false;
}

-- Git takes every call but a checkout or reset of the commit `bad`.
abbrev last_arg : List Text → Text
last_arg [] = []
last_arg (a ∷ []) = a
last_arg (a ∷ b ∷ []) = b
last_arg (a ∷ b ∷ c ∷ args) = c

abbrev env : Bool → SyncEnv
env there = record {
  flags = λ name. false;
  settings = none;
  free_space = none;
  join = λ a b. a ++ 47 ∷ b;
  query_escape = λ s. s;
  has_git = there;
  git = λ before c. not (same (last_arg c.args) (codes "bad"));
}

abbrev last_call : List Command → List Text
last_call [] = []
last_call (c ∷ ran) = c.args

-- The unknown commit is replaced by the tip of the branch.
falls_back :
    last_call (sync_repo (env true) site (codes "bad")).0.ran ≡ reset_to (codes "origin/main")
unfolding sync_repo text_discrete
falls_back = refl

full_disk : check_disk_space (some (record { blocks = 100000; block_size = 4096 })) ≡ false
full_disk = refl

sync_repo_unchecked_example :
    (sync_repo (env false) site (codes "bad")).1 ≡ (sync_repo (env false) site []).1
sync_repo_unchecked_example = sync_repo_unchecked (env false) site (codes "bad") refl

sync_repo-IsReset_example :
    ((sync_repo (env true) site (codes "bad")).0.cfg ≡ site)
    × IsReset (env true) site (codes "bad") (sync_repo (env true) site (codes "bad"))
sync_repo-IsReset_example = sync_repo-IsReset (env true) site (codes "bad")
