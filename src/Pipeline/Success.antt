-- ===== src/Pipeline/Success.antt =====
-- A deployment whose steps all succeed.
use cicd.Prelude.{
  ℕ, ◌≡◌, refl, ap, ◌∙◌, true, false, Option, none, some, arith, Text, same_self, find,
}
use cicd.Config.{Config}
use cicd.Process.{DeployStatus, deploying}
use cicd.History.{
  CommitEntry, intermediate, Trigger, History, of_commit, add_commit_to_history, set_current_commit,
  get_previous_current_commit,
}
use cicd.History.Single.{IsWellFormed, add_commit-IsWellFormed}
use cicd.History.Target.{all_done, get_previous-set_current}
use cicd.Projects.{
  Project, id_of, status_of, get_project_id_by_dir, get_deploy_status_by_dir,
  update_commit_hash_local, update_last_commit_info,
}
use cicd.Pipeline.Rows.{
  row, changed, with_status, with_hash, with_commit, row-set_status, row-hash, row-commit,
  row-made_current, row-recorded,
}
use cicd.Pipeline.{
  World, returned, finished, health_check, DeployEnv, HealthEnv, set_status, with_project,
  made_current, post_deploy_health_check, is_install_only, healthy_status, known_hash, trigger_of,
  recorded, full_deploy_pipeline, in_goroutine, follow, deploy,
}

-- The world after a pipeline whose build succeeds.
abbrev built : DeployEnv → Text → Text → Text → World → World
built env dir hash msg w =
    let id : Option ℕ = get_project_id_by_dir dir w.projects in
    let full : Text = known_hash hash env.head in
    let w₂ : World =
      with_project id (recorded env full msg (trigger_of hash)) (set_status dir deploying w) in
    record w₂ {
      projects =
          (update_last_commit_info true dir full msg
            (update_commit_hash_local true dir full w₂.projects).0).0;
    }

pipeline-built :
    (env : DeployEnv) (cfg : Config) (hash msg : Text) (w : World)
    → env.syncs ≡ true
    → env.deploys ≡ true
    → full_deploy_pipeline env cfg hash msg w ≡ record {
      world = built env cfg.service_dir hash msg w;
      next = health_check (known_hash hash env.head) (trigger_of hash) 0;
      flow = returned;
    }
unfolding full_deploy_pipeline
pipeline-built env cfg hash msg w s d = ground arith

abbrev pub confirmed : HealthEnv → Text → Text → World → World
confirmed env dir hash w =
    set_status dir (healthy_status env.mode)
      (with_project (get_project_id_by_dir dir w.projects) (made_current env hash) w)

pub health-confirmed :
    (env : HealthEnv) (cfg : Config) (hash : Text) (depth : ℕ) (w : World)
    → is_install_only env.mode ≡ false
    → env.alive ≡ true
    → post_deploy_health_check env cfg hash depth w
      ≡ record { world = confirmed env cfg.service_dir hash w; next = finished; flow = returned }
unfolding post_deploy_health_check
health-confirmed env cfg hash depth w m a = ground arith

deploy-confirmed :
    (env : DeployEnv) (first second : HealthEnv) (cfg : Config) (hash msg : Text) (w : World)
    → env.syncs ≡ true
    → env.deploys ≡ true
    → is_install_only first.mode ≡ false
    → first.alive ≡ true
    → (deploy env first second cfg hash msg w).world
      ≡ confirmed first cfg.service_dir
          (known_hash hash env.head)
          (built env cfg.service_dir hash msg w)
unfolding deploy follow
deploy-confirmed env first second cfg hash msg w s d m a =
    let e = pipeline-built env cfg hash msg w s d in
    let e₁ =
      health-confirmed first cfg (known_hash hash env.head) 0 (built env cfg.service_dir hash msg w)
        m a in
    ap (λ o. (follow second cfg (follow first cfg o)).world) e
    ∙ ap (λ o. (follow second cfg (in_goroutine o)).world) e₁

pub id_of-changed :
    (f : Project → Project) (o : Option Project) (id : ℕ)
    → ((p : Project) → (f p).id ≡ p.id)
    → id_of o ≡ some id
    → id_of (changed f o) ≡ some id
id_of-changed f none id keeps h = cc
id_of-changed f (some p) id keeps h = ap some (keeps p) ∙ h

pub status_of-changed :
    (s : DeployStatus) (o : Option Project) (id : ℕ)
    → id_of o ≡ some id
    → status_of (changed (with_status s) o) ≡ some s
status_of-changed s none id h = cc
status_of-changed s (some p) id h = refl

module _ (env : DeployEnv) (dir hash msg : Text) (w : World) (id : ℕ)
    (registered : get_project_id_by_dir dir w.projects ≡ some id) where
  built-id : get_project_id_by_dir dir (built env dir hash msg w).projects ≡ some id
  unfolding get_project_id_by_dir
  built-id =
      let full : Text = known_hash hash env.head in
      let w₁ : World = set_status dir deploying w in
      let w₂ : World =
        with_project (id_of (row dir w)) (recorded env full msg (trigger_of hash)) w₁ in
      ap id_of (row-commit dir full msg (update_commit_hash_local true dir full w₂.projects).0)
      ∙ id_of-changed (with_commit full msg)
          (row dir
            (record w₂ { projects = (update_commit_hash_local true dir full w₂.projects).0 }))
          id (λ p. refl)
          (ap id_of (row-hash dir full w₂)
            ∙ id_of-changed (with_hash full) (row dir w₂) id (λ p. refl)
                (ap id_of (
                    row-recorded env dir full msg (trigger_of hash) (id_of (row dir w)) w₁
                    ∙ row-set_status dir deploying w)
                  ∙ id_of-changed (with_status deploying) (row dir w) id (λ p. refl) registered))

  built-history :
      (built env dir hash msg w).history
      ≡ (add_commit_to_history env.records env.now id
          (known_hash hash env.head)
          msg
          (trigger_of hash)
          w.history).0
  built-history =
      ap
        (λ o.
          (with_project o (recorded env (known_hash hash env.head) msg (trigger_of hash))
            (set_status dir deploying w)).history)
        registered

abbrev added : ℕ → ℕ → Text → Text → Trigger → History → CommitEntry
added now id hash msg by h = record {
  id = h.next_id;
  project_id = id;
  commit_hash = hash;
  commit_msg = msg;
  status = intermediate;
  triggered_by = by;
  started_at = some now;
  finished_at = none;
}

-- `SetCurrentCommit` makes a commit that was just added the project's current one.
get_previous-add :
    (now later id : ℕ) (hash msg : Text) (by : Trigger) (h : History)
    → IsWellFormed h
    → get_previous_current_commit id
        (set_current_commit all_done later id hash
          (add_commit_to_history true now id hash msg by h).0).0
      ≡ some hash
unfolding add_commit_to_history find
get_previous-add now later id hash msg by h w =
    get_previous-set_current later id hash (add_commit_to_history true now id hash msg by h).0
      (added now id hash msg by h) (add_commit-IsWellFormed true now id hash msg by h w) found
  where
    found :
        find (of_commit id hash) (add_commit_to_history true now id hash msg by h).0.entries
        ≡ some (added now id hash msg by h)
    found = ground (arith, same_self hash)

-- If the synchronisation and the build succeed, SQLite refuses no statement, and the service is alive
-- at the check and not install-only, then the deployment leaves the deployed commit as the one that
-- a later rollback goes back to, and the status running, or externally managed for a delegating one.
pub deploy_current :
    (env : DeployEnv) (first second : HealthEnv) (cfg : Config) (hash msg : Text) (w : World)
    (id : ℕ)
    → get_project_id_by_dir cfg.service_dir w.projects ≡ some id
    → IsWellFormed w.history
    → env.syncs ≡ true
    → env.deploys ≡ true
    → env.records ≡ true
    → is_install_only first.mode ≡ false
    → first.alive ≡ true
    → first.sets ≡ all_done
    → (get_previous_current_commit id (deploy env first second cfg hash msg w).world.history
        ≡ some (known_hash hash env.head))
      × (get_deploy_status_by_dir cfg.service_dir
            (deploy env first second cfg hash msg w).world.projects
          ≡ some (healthy_status first.mode))
unfolding get_deploy_status_by_dir get_project_id_by_dir
deploy_current env first second cfg hash msg w id registered h s d r m a sets = (current, status)
  where
    full : Text
    full = known_hash hash env.head

    b : World
    b = built env cfg.service_dir hash msg w

    e : (deploy env first second cfg hash msg w).world ≡ confirmed first cfg.service_dir full b
    e = deploy-confirmed env first second cfg hash msg w s d m a

    bid : get_project_id_by_dir cfg.service_dir b.projects ≡ some id
    bid = built-id env cfg.service_dir hash msg w id registered

    current :
        get_previous_current_commit id (deploy env first second cfg hash msg w).world.history
        ≡ some full
    current =
        ap (λ v. get_previous_current_commit id v.history) e
        ∙ ap
            (λ o.
              get_previous_current_commit id (with_project o (made_current first full) b).history)
            bid
        ∙ ap
            (λ v.
              get_previous_current_commit id (set_current_commit v first.now id full b.history).0)
            sets
        ∙ ap
            (λ v.
              get_previous_current_commit id (set_current_commit all_done first.now id full v).0)
            (built-history env cfg.service_dir hash msg w id registered)
        ∙ ap
            (λ v.
              get_previous_current_commit id
                (set_current_commit all_done first.now id full
                  (add_commit_to_history v env.now id full msg (trigger_of hash) w.history).0).0)
            r
        ∙ get_previous-add env.now first.now id full msg (trigger_of hash) w.history h

    status :
        status_of (row cfg.service_dir (deploy env first second cfg hash msg w).world)
        ≡ some (healthy_status first.mode)
    status =
        ap (λ v. status_of (row cfg.service_dir v)) e
        ∙ ap status_of (
            row-set_status cfg.service_dir (healthy_status first.mode) (
              with_project (get_project_id_by_dir cfg.service_dir b.projects)
                (made_current first full) b)
            ∙ ap (changed (with_status (healthy_status first.mode))) (
                row-made_current first cfg.service_dir full
                  (get_project_id_by_dir cfg.service_dir b.projects) b))
        ∙ status_of-changed (healthy_status first.mode) (row cfg.service_dir b) id bid
