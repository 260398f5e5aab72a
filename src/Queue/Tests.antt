-- ===== src/Queue/Tests.antt =====
-- Runs of the queue, and the theorems at concrete inputs.
use cicd.Prelude.{◌≡◌, refl, true, false, none, pos, [], ◌∷◌, Text, codes}
use cicd.Config.{Config}
use cicd.Queue.{PendingDeploy, deploying, Lane, new_lane, enqueue, recover_panic}
use cicd.Queue.Steps.{calls, here, next}
use cicd.Queue.Exclusion.{IsSound, Reach-IsSound}
use cicd.Queue.Mailbox.{empty_mailbox, Moves, view, calls_of, Reach-Moves}
use cicd.Queue.Panic.{panic_blocks}

abbrev site : Config
site = record {
  setup = [];
  repo_url = codes "https://example.org/site";
  branch = codes "main";
  admin_email = [];
  mongo_db_uri = [];
  git_username = [];
  git_password = [];
  smtp_host = [];
  smtp_port = pos 587;
  smtp_user = [];
  smtp_pass = [];
  user = [];
  sudo_pass = [];
  service_name = codes "site";
  service_dir = codes "/srv/site";
  service_user = codes "site";
  service_reset = [];
  webhook = pos 9641;
  webhook_secret = [];
  public_ip = [];
  notify_url = [];
  deploy_timeout = pos 1800;
  skip_install_hash = false;
}

abbrev commit : Text → PendingDeploy
commit hash = record { commit_hash = hash; commit_msg = []; config = site }

abbrev one_running : Lane
one_running = record {
  queue = record { is_running = true; pending = none };
  workers = deploying (commit (codes "c1")) ∷ [];
  deployed = commit (codes "c1") ∷ [];
}

first_call : enqueue (commit (codes "c1")) new_lane ≡ (one_running, true)
unfolding enqueue
first_call = refl

Reach-IsSound_example : IsSound (enqueue (commit (codes "c1")) new_lane).0
Reach-IsSound_example = Reach-IsSound (next here (calls (commit (codes "c1"))))

panic_blocks_example :
    ((recover_panic [] [] one_running).deployed ≡ one_running.deployed)
    × ((enqueue (commit (codes "c2")) (recover_panic [] [] one_running)).1 ≡ false)
panic_blocks_example =
    panic_blocks one_running (recover_panic [] [] one_running) (commit (codes "c1"))
      (commit (codes "c2")) refl refl here

Reach-Moves_example :
    Moves empty_mailbox
      (commit (codes "c2") ∷ commit (codes "c1") ∷ [])
      (view (enqueue (commit (codes "c2")) (enqueue (commit (codes "c1")) new_lane).0).0)
unfolding calls_of
Reach-Moves_example =
    Reach-Moves (next (next here (calls (commit (codes "c1")))) (calls (commit (codes "c2"))))
