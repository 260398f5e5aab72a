-- ===== src/Pipeline/Tests.antt =====
-- Runs of a deployment, and the theorems at concrete inputs.
use cicd.Prelude.{
  sym, ◌∙◌, ◌≡◌, refl, true, false, some, pos, [], ◌∷◌, arith, Text, codes, text_discrete, find,
  count,
}
use cicd.Config.{Config}
use cicd.Process.{background, running, failed}
use cicd.History.{
  current, webhook, rollback, get_previous_current_commit, add_commit_to_history,
  set_current_commit, mark_commit_rolled_back, current_rows, mark_latest,
}
use cicd.History.Single.{IsWellFormed}
use cicd.History.Target.{all_done}
use cicd.Projects.{
  new_project, set_deploy_status_by_dir, update_commit_hash_local, update_last_commit_info,
  get_project_id_by_dir, get_deploy_status_by_dir,
}
use cicd.Pipeline.{
  World, RollbackEnv, DeployEnv, HealthEnv, deploy, rollback_to_commit, finished, returned,
  panicked, daemon_ended, health_check,
}
use cicd.Pipeline.Chain.{deploy-finished}
use cicd.Pipeline.Settles.{is_settled, deploy_settles}
use cicd.Pipeline.Records.{deploy-IsWellFormed}
use cicd.Pipeline.Success.{deploy_current}
use cicd.Pipeline.Restore.{has, rollback_current}
use cicd.Pipeline.Fallback.{deploy_restores}

abbrev site : Config
site = record {
  setup = [];
  repo_url = codes "https://example.org/site";
  branch = codes "main";
  admin_email = [];
  mongo_db_uri = [];
  git_username = [];
  git_password = [];
  smtp_host = [];
  smtp_port = pos 587;
  smtp_user = [];
  smtp_pass = [];
  user = [];
  sudo_pass = [];
  service_name = codes "site";
  service_dir = codes "/srv/site";
  service_user = codes "www";
  service_reset = [];
  webhook = pos 9641;
  webhook_secret = [];
  public_ip = [];
  notify_url = [];
  deploy_timeout = pos 1800;
  skip_install_hash = false;
}

abbrev good_hash : Text
good_hash = codes "1111111111"

abbrev next_hash : Text
next_hash = codes "2222222222"

-- One project, whose commit `good_hash` is current.
abbrev start : World
start = record {
  projects = record { rows = new_project 1 site ∷ []; next_id = 2 };
  history = record {
    entries =
        record {
          id = 1;
          project_id = 1;
          commit_hash = good_hash;
          commit_msg = codes "good";
          status = current;
          triggered_by = webhook;
          started_at = some 10;
          finished_at = some 20;
        }
        ∷ [];
    next_id = 2;
  };
}

abbrev rolls : RollbackEnv
rolls = record { log_opens = true; deploys = true; marks = true; sets = all_done; now = 40 }

abbrev builds : DeployEnv
builds = record {
  syncs = true;
  head = some next_hash;
  records = true;
  deploys = true;
  now = 30;
  on_failure = rolls;
}

abbrev fails : DeployEnv
fails = record builds { deploys = false }

abbrev alive : HealthEnv
alive = record { mode = background; alive = true; sets = all_done; now = 50; on_failure = rolls }

abbrev dead : HealthEnv
dead = record alive { alive = false }

start-IsWellFormed : IsWellFormed start.history
unfolding count
start-IsWellFormed = record { ordered = (omega arith, tt); one_current = λ q. ground arith }

registered : get_project_id_by_dir site.service_dir start.projects ≡ some 1
unfolding get_project_id_by_dir find text_discrete
registered = refl

was_current : get_previous_current_commit 1 start.history ≡ some good_hash
unfolding get_previous_current_commit find
was_current = refl

-- A build that fails ends with the commit that was current before; a passing one with its own.
fall_back :
    get_previous_current_commit 1 (deploy fails alive alive site next_hash [] start).world.history
    ≡ some good_hash
unfolding deploy get_previous_current_commit find text_discrete add_commit_to_history
    set_current_commit mark_commit_rolled_back get_project_id_by_dir set_deploy_status_by_dir
    current_rows mark_latest update_commit_hash_local
fall_back = refl

move_on :
    get_previous_current_commit 1 (deploy builds alive alive site next_hash [] start).world.history
    ≡ some next_hash
unfolding deploy get_previous_current_commit find text_discrete add_commit_to_history
    set_current_commit get_project_id_by_dir set_deploy_status_by_dir current_rows mark_latest
    update_commit_hash_local update_last_commit_info
move_on = refl

-- If both the deployed commit and the one before fail their health checks, the status is failed.
both_dead :
    get_deploy_status_by_dir site.service_dir
      (deploy builds dead dead site next_hash [] start).world.projects
    ≡ some failed
unfolding deploy get_previous_current_commit find text_discrete add_commit_to_history
    set_current_commit mark_commit_rolled_back get_project_id_by_dir set_deploy_status_by_dir
    current_rows mark_latest update_commit_hash_local update_last_commit_info
    get_deploy_status_by_dir
both_dead = refl

-- A rollback to a hash of fewer than 8 characters panics, before any statement if the log opens.
short_hash :
    rollback_to_commit rolls site (codes "abc") start
    ≡ record { world = start; next = finished; flow = panicked }
unfolding rollback_to_commit
short_hash = refl

deploy-finished_example : (deploy builds dead dead site next_hash [] start).next ≡ finished
deploy-finished_example = deploy-finished builds dead dead site next_hash [] start

-- No check panics there.
still_returned : (deploy fails dead dead site next_hash [] start).flow ≡ returned
unfolding deploy get_previous_current_commit find text_discrete add_commit_to_history
    set_current_commit mark_commit_rolled_back get_project_id_by_dir set_deploy_status_by_dir
    current_rows mark_latest update_commit_hash_local update_last_commit_info
still_returned = refl

still_running : ¬ ((deploy fails dead dead site next_hash [] start).flow ≡ daemon_ended)
still_running e = let same_flow : returned ≡ daemon_ended = sym still_returned ∙ e in cc

deploy_settles_example :
    is_settled (
      get_deploy_status_by_dir site.service_dir
        (deploy fails dead dead site next_hash [] start).world.projects)
    ≡ true
deploy_settles_example =
    deploy_settles fails dead dead site next_hash [] start 1 registered still_running

deploy-IsWellFormed_example :
    IsWellFormed (deploy fails dead dead site next_hash [] start).world.history
deploy-IsWellFormed_example =
    deploy-IsWellFormed fails dead dead site next_hash [] start start-IsWellFormed

deploy_current_example :
    (get_previous_current_commit 1 (deploy builds alive alive site next_hash [] start).world.history
      ≡ some next_hash)
    × (get_deploy_status_by_dir site.service_dir
          (deploy builds alive alive site next_hash [] start).world.projects
        ≡ some running)
deploy_current_example =
    deploy_current builds alive alive site next_hash [] start 1 registered start-IsWellFormed refl
      refl refl refl refl refl

has_good : has 1 good_hash start.history ≡ true
unfolding find text_discrete
has_good = refl

rollback_current_example :
    (get_previous_current_commit 1 (rollback_to_commit rolls site good_hash start).world.history
      ≡ some good_hash)
    × ((rollback_to_commit rolls site good_hash start).next ≡ health_check good_hash rollback 1)
rollback_current_example =
    rollback_current rolls site good_hash start 1 registered start-IsWellFormed has_good refl refl
      refl

deploy_restores_example :
    (get_previous_current_commit 1 (deploy fails alive alive site next_hash [] start).world.history
      ≡ some good_hash)
    × (get_deploy_status_by_dir site.service_dir
          (deploy fails alive alive site next_hash [] start).world.projects
        ≡ some running)
unfolding text_discrete
deploy_restores_example =
    deploy_restores fails alive alive site next_hash [] good_hash start 1 registered
      start-IsWellFormed was_current refl refl refl refl refl refl refl refl refl refl
