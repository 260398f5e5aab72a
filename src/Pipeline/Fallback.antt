-- ===== src/Pipeline/Fallback.antt =====
-- A build that fails: the deployment goes back to the commit that was current before.
use cicd.Prelude.{
  ℕ, ◌≡◌, refl, ap, ◌∙◌, true, false, Option, none, some, arith, Text, same, is_set, find,
}
use cicd.Config.{Config}
use cicd.Process.{deploying, failed}
use cicd.History.{of_commit, set_current_commit, get_previous_current_commit}
use cicd.History.Single.{IsWellFormed}
use cicd.History.Target.{all_done}
use cicd.Projects.{id_of, status_of, get_project_id_by_dir, get_deploy_status_by_dir}
use cicd.Pipeline.Rows.{row, changed, with_status, row-set_status, row-made_current, row-recorded}
use cicd.Pipeline.Records.{recorded-IsWellFormed, rolled-IsWellFormed}
use cicd.Pipeline.Success.{id_of-changed, status_of-changed, confirmed, health-confirmed}
use cicd.Pipeline.{
  World, RollbackEnv, DeployEnv, HealthEnv, set_status, with_project, too_short, target, previous,
  roll_back, made_current, known_hash, trigger_of, recorded, full_deploy_pipeline, in_goroutine,
  follow, deploy, is_install_only, healthy_status,
}
use cicd.Pipeline.Restore.{
  has, has-previous, previous-add, set_current-has, rolled_world, rollback-passes, rolled-id,
  rolled-previous,
}

-- The world when a build has failed, before the rollback.
abbrev unbuilt : DeployEnv → Text → Text → Text → World → World
unbuilt env dir hash msg w = set_status dir failed (
    with_project (get_project_id_by_dir dir w.projects)
      (recorded env (known_hash hash env.head) msg (trigger_of hash)) (set_status dir deploying w))

pipeline-unbuilt :
    (env : DeployEnv) (cfg : Config) (hash msg : Text) (w : World)
    → env.syncs ≡ true
    → env.deploys ≡ false
    → full_deploy_pipeline env cfg hash msg w
      ≡ roll_back env.on_failure cfg
          (target (known_hash hash env.head) (
            previous
              (get_project_id_by_dir cfg.service_dir w.projects)
              (unbuilt env cfg.service_dir hash msg w).history))
          (unbuilt env cfg.service_dir hash msg w)
unfolding full_deploy_pipeline
pipeline-unbuilt env cfg hash msg w s d = ground arith

unbuilt-id :
    (env : DeployEnv) (dir hash msg : Text) (w : World) (id : ℕ)
    → get_project_id_by_dir dir w.projects ≡ some id
    → get_project_id_by_dir dir (unbuilt env dir hash msg w).projects ≡ some id
unfolding get_project_id_by_dir
unbuilt-id env dir hash msg w id registered =
    let full : Text = known_hash hash env.head in
    let w₁ : World = set_status dir deploying w in
    let w₂ : World =
      with_project (id_of (row dir w)) (recorded env full msg (trigger_of hash)) w₁ in
    ap id_of (row-set_status dir failed w₂)
    ∙ id_of-changed (with_status failed) (row dir w₂) id (λ p. refl)
        (ap id_of (
            row-recorded env dir full msg (trigger_of hash) (id_of (row dir w)) w₁
            ∙ row-set_status dir deploying w)
          ∙ id_of-changed (with_status deploying) (row dir w) id (λ p. refl) registered)

unbuilt-previous :
    (env : DeployEnv) (dir hash msg : Text) (w : World) (id : ℕ)
    → get_project_id_by_dir dir w.projects ≡ some id
    → get_previous_current_commit id (unbuilt env dir hash msg w).history
      ≡ get_previous_current_commit id w.history
unbuilt-previous env dir hash msg w id registered =
    ap
      (λ o.
        get_previous_current_commit id
          (with_project o (recorded env (known_hash hash env.head) msg (trigger_of hash))
            (set_status dir deploying w)).history)
      registered
    ∙ previous-add env.records env.now id (known_hash hash env.head) msg (trigger_of hash) w.history

unbuilt-IsWellFormed :
    (env : DeployEnv) (dir hash msg : Text) (w : World)
    → IsWellFormed w.history
    → IsWellFormed (unbuilt env dir hash msg w).history
unbuilt-IsWellFormed env dir hash msg w h =
    recorded-IsWellFormed env (known_hash hash env.head) msg (trigger_of hash)
      (get_project_id_by_dir dir w.projects) (set_status dir deploying w) h

target-other :
    (full prev : Text) (o : Option Text)
    → o ≡ some prev
    → is_set prev ≡ true
    → same prev full ≡ false
    → target full o ≡ some prev
target-other full prev none e s n = cc
target-other full prev (some p) e s n = ground arith

-- The history after a rollback whose health check passes.
confirmed-previous :
    (env : RollbackEnv) (first : HealthEnv) (dir prev : Text) (w : World) (id : ℕ)
    → get_project_id_by_dir dir w.projects ≡ some id
    → IsWellFormed w.history
    → has id prev w.history ≡ true
    → env.sets ≡ all_done
    → first.sets ≡ all_done
    → get_previous_current_commit id
        (confirmed first dir prev (rolled_world env dir prev w)).history
      ≡ some prev
confirmed-previous env first dir prev w id registered h t sets again =
    let v : World = rolled_world env dir prev w in
    let kept : IsWellFormed v.history =
      rolled-IsWellFormed env prev (get_project_id_by_dir dir w.projects)
        (set_status dir deploying w) h in
    ap (λ o. get_previous_current_commit id (with_project o (made_current first prev) v).history)
      (rolled-id env dir prev w id registered)
    ∙ ap (λ s. get_previous_current_commit id (set_current_commit s first.now id prev v.history).0)
        again
    ∙ set_current-has first.now id prev v.history (find (of_commit id prev) v.history.entries) kept
        refl
        (has-previous id prev v.history (rolled-previous env dir prev w id registered h t sets))

-- If the synchronisation succeeds and the build fails, the project has a current commit of 8
-- characters at least that is not the one deployed, that commit builds, the service is then alive at
-- the check and not install-only, and SQLite refuses no statement that sets the current commit, then
-- the deployment leaves that commit as the current one, and the status as a deployment of it does.
pub deploy_restores :
    (env : DeployEnv) (first second : HealthEnv) (cfg : Config) (hash msg prev : Text) (w : World)
    (id : ℕ)
    → get_project_id_by_dir cfg.service_dir w.projects ≡ some id
    → IsWellFormed w.history
    → get_previous_current_commit id w.history ≡ some prev
    → is_set prev ≡ true
    → same prev (known_hash hash env.head) ≡ false
    → too_short prev ≡ false
    → env.syncs ≡ true
    → env.deploys ≡ false
    → env.on_failure.deploys ≡ true
    → env.on_failure.sets ≡ all_done
    → is_install_only first.mode ≡ false
    → first.alive ≡ true
    → first.sets ≡ all_done
    → (get_previous_current_commit id (deploy env first second cfg hash msg w).world.history
        ≡ some prev)
      × (get_deploy_status_by_dir cfg.service_dir
            (deploy env first second cfg hash msg w).world.projects
          ≡ some (healthy_status first.mode))
unfolding deploy follow get_deploy_status_by_dir get_project_id_by_dir
deploy_restores env first second cfg hash msg prev w id registered h cur set ne long s d d₁ sets m a
      again =
    (
      ap (λ v. get_previous_current_commit id v.history) reached
          ∙ confirmed-previous env.on_failure first cfg.service_dir prev u id uid kept
              (has-previous id prev u.history ucur) sets again,
      ap (λ v. status_of (row cfg.service_dir v)) reached
          ∙ ap status_of (
              row-set_status cfg.service_dir (healthy_status first.mode) (
                with_project (get_project_id_by_dir cfg.service_dir v.projects)
                  (made_current first prev) v)
              ∙ ap (changed (with_status (healthy_status first.mode))) (
                  row-made_current first cfg.service_dir prev
                    (get_project_id_by_dir cfg.service_dir v.projects) v))
          ∙ status_of-changed (healthy_status first.mode) (row cfg.service_dir v) id
              (rolled-id env.on_failure cfg.service_dir prev u id uid),
    )
  where
    u : World
    u = unbuilt env cfg.service_dir hash msg w

    v : World
    v = rolled_world env.on_failure cfg.service_dir prev u

    uid : get_project_id_by_dir cfg.service_dir u.projects ≡ some id
    uid = unbuilt-id env cfg.service_dir hash msg w id registered

    kept : IsWellFormed u.history
    kept = unbuilt-IsWellFormed env cfg.service_dir hash msg w h

    ucur : get_previous_current_commit id u.history ≡ some prev
    ucur = unbuilt-previous env cfg.service_dir hash msg w id registered ∙ cur

    aim :
        target
          (known_hash hash env.head)
          (previous (get_project_id_by_dir cfg.service_dir w.projects) u.history)
        ≡ some prev
    aim =
        target-other (known_hash hash env.head) prev
          (previous (get_project_id_by_dir cfg.service_dir w.projects) u.history)
          (ap (λ o. previous o u.history) registered ∙ ucur) set ne

    reached :
        (deploy env first second cfg hash msg w).world ≡ confirmed first cfg.service_dir prev v
    reached =
        ap (λ o. (follow second cfg (follow first cfg o)).world)
          (pipeline-unbuilt env cfg hash msg w s d
            ∙ ap (λ o. roll_back env.on_failure cfg o u) aim
            ∙ rollback-passes env.on_failure cfg prev u d₁ long)
        ∙ ap (λ o. (follow second cfg (in_goroutine o)).world)
            (health-confirmed first cfg prev 1 v m a)
