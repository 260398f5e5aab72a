-- ===== src/Pipeline/Settles.antt =====
-- The status that a deployment leaves on the row of its project.
use cicd.Prelude.{
  ◌⊎◌, inl, inr, sym, ℕ, ◌≡◌, refl, Bool, true, false, Option, none, some, arith, Text,
}
use mathlib.Core.Path.{subst}
use cicd.Config.{Config}
use cicd.Process.{
  RunMode, blocking, background, delegating, install_only, DeployStatus, idle, deploying, running,
  failed, installed, externally_managed,
}
use cicd.Projects.{
  Project, get_project_id_by_dir, get_deploy_status_by_dir, id_of, status_of,
  update_commit_hash_local,
}
use cicd.Pipeline.Chain.{deploy-finished}
use cicd.Pipeline.{
  with_project, made_current, healthy_status, known_hash, trigger_of, recorded, rolled_and_current,
  World, Flow, Next, finished, health_check, Outcome, RollbackEnv, DeployEnv, HealthEnv,
  rollback_to_commit, roll_back, target, previous, post_deploy_health_check, full_deploy_pipeline,
  returned, panicked, daemon_ended, in_goroutine, follow, deploy, set_status,
}
use cicd.Pipeline.Rows.{
  row, with_status, row-set_status, row-hash, row-commit, row-rolled, row-made_current,
  row-recorded,
}

abbrev settled : DeployStatus → Bool
settled running = true
settled failed = true
settled installed = true
settled externally_managed = true
settled idle = false
settled deploying = false

-- When nothing is left to do, the status is one of the four final ones.
abbrev settles : Next → Option DeployStatus → Bool
settles next none = false
settles finished (some s) = settled s
settles (health_check hash trigger d) (some s) = true

row-rollback :
    (env : RollbackEnv) (cfg : Config) (hash : Text) (w : World) (p : Project)
    → row cfg.service_dir w ≡ some p
    → settled p.deploy_status ≡ true
    → settles
        (rollback_to_commit env cfg hash w).next
        (status_of (row cfg.service_dir (rollback_to_commit env cfg hash w).world))
      ≡ true
unfolding rollback_to_commit
row-rollback env cfg hash w p f s =
    let dir : Text = cfg.service_dir in
    let id : Option ℕ = get_project_id_by_dir dir w.projects in
    let w₁ : World = set_status dir deploying w in
    let w₂ : World = with_project id (rolled_and_current env hash) w₁ in
    ground (
      arith,
      row-set_status dir deploying w,
      row-set_status dir failed w₁,
      row-rolled env dir hash id w₁,
      row-hash dir hash w₂,
    )

row-roll_back :
    (env : RollbackEnv) (cfg : Config) (o : Option Text) (w : World) (p : Project)
    → row cfg.service_dir w ≡ some p
    → settled p.deploy_status ≡ true
    → settles
        (roll_back env cfg o w).next
        (status_of (row cfg.service_dir (roll_back env cfg o w).world))
      ≡ true
row-roll_back env cfg none w p f s = ground arith
row-roll_back env cfg (some hash) w p f s = row-rollback env cfg hash w p f s

healthy-settled : (mode : RunMode) → settled (healthy_status mode) ≡ true
healthy-settled blocking = refl
healthy-settled background = refl
healthy-settled delegating = refl
healthy-settled install_only = refl

row-health :
    (env : HealthEnv) (cfg : Config) (hash : Text) (depth : ℕ) (w : World) (p : Project)
    → row cfg.service_dir w ≡ some p
    → settles
        (post_deploy_health_check env cfg hash depth w).next
        (status_of (row cfg.service_dir (post_deploy_health_check env cfg hash depth w).world))
      ≡ true
unfolding post_deploy_health_check
row-health env cfg hash depth w p f =
    let dir : Text = cfg.service_dir in
    let id : Option ℕ = get_project_id_by_dir dir w.projects in
    let w₁ : World = set_status dir failed w in
    let w₂ : World = with_project id (made_current env hash) w in
    let prev : Option Text = target hash (previous id w₁.history) in
    ground (
      arith,
      row-set_status dir installed w,
      row-set_status dir failed w,
      row-made_current env dir hash id w,
      row-set_status dir (healthy_status env.mode) w₂,
      healthy-settled env.mode,
      row-roll_back env.on_failure cfg prev w₁ (with_status failed p),
    )

row-pipeline :
    (env : DeployEnv) (cfg : Config) (hash msg : Text) (w : World) (p : Project)
    → row cfg.service_dir w ≡ some p
    → settles
        (full_deploy_pipeline env cfg hash msg w).next
        (status_of (row cfg.service_dir (full_deploy_pipeline env cfg hash msg w).world))
      ≡ true
unfolding full_deploy_pipeline
row-pipeline env cfg hash msg w p f =
    let dir : Text = cfg.service_dir in
    let id : Option ℕ = get_project_id_by_dir dir w.projects in
    let w₁ : World = set_status dir deploying w in
    let h : Text = known_hash hash env.head in
    let w₂ : World = with_project id (recorded env h msg (trigger_of hash)) w₁ in
    let w₃ : World = set_status dir failed w₂ in
    let prev : Option Text = target h (previous id w₃.history) in
    ground (
      arith,
      row-set_status dir deploying w,
      row-set_status dir failed w₁,
      row-recorded env dir h msg (trigger_of hash) id w₁,
      row-set_status dir failed w₂,
      row-hash dir h w₂,
      row-commit dir h msg (update_commit_hash_local true dir h w₂.projects).0,
      row-roll_back env.on_failure cfg prev w₃ (with_status failed (with_status deploying p)),
    )

-- The status is settled unless a health check follows, or the daemon has ended.
abbrev Settles : Next → Flow → Option DeployStatus → Type 0
Settles next flow s = (settles next s ≡ true) ⊎ ((next ≡ finished) × (flow ≡ daemon_ended))

goroutine-Settles :
    (w : World) (next : Next) (flow : Flow) (s : Option DeployStatus)
    → settles next s ≡ true
    → let after = in_goroutine (record { world = w; next = next; flow = flow }) in
      (after.world ≡ w) × Settles after.next after.flow s
goroutine-Settles w next returned s h = (refl, inl h)
goroutine-Settles w next panicked s h = (refl, inr (refl, refl))
goroutine-Settles w next daemon_ended s h = (refl, inl h)

follow-Settles :
    (env : HealthEnv) (cfg : Config) (w : World) (flow : Flow) (next : Next) (o : Option Project)
    → row cfg.service_dir w ≡ o
    → Settles next flow (status_of o)
    → let after = follow env cfg (record { world = w; next = next; flow = flow }) in
      Settles after.next after.flow (status_of (row cfg.service_dir after.world))
unfolding follow
follow-Settles env cfg w flow finished o f s =
    subst (λ r. Settles finished flow (status_of r)) (sym f) s
follow-Settles env cfg w flow (health_check hash trigger d) o f (inr (e, ended)) = cc
follow-Settles env cfg w flow (health_check hash trigger d) none f (inl s) = cc
follow-Settles env cfg w flow (health_check hash trigger d) (some p) f (inl s) =
    let c : Outcome = post_deploy_health_check env cfg hash d w in
    let (kept, result) =
      goroutine-Settles c.world c.next c.flow (status_of (row cfg.service_dir c.world))
        (row-health env cfg hash d w p f) in
    subst
      (λ (v : World).
        Settles (in_goroutine c).next (in_goroutine c).flow (status_of (row cfg.service_dir v)))
      (sym kept) result

-- The status of a registered project is one of the final ones.
abbrev pub is_settled : Option DeployStatus → Bool
is_settled none = false
is_settled (some s) = settled s

finished-is_settled :
    (next : Next) (flow : Flow) (s : Option DeployStatus)
    → next ≡ finished
    → ¬ (flow ≡ daemon_ended)
    → Settles next flow s
    → is_settled s ≡ true
finished-is_settled next flow s e n (inr (f, ended)) = absurd (n ended)
finished-is_settled finished flow none e n (inl h) = h
finished-is_settled finished flow (some s) e n (inl h) = h
finished-is_settled (health_check hash trigger d) flow s e n (inl h) = cc

module _ (env : DeployEnv) (first second : HealthEnv) (cfg : Config) (hash msg : Text)
    (w : World) where
  settled-row :
      (o : Option Project) (id : ℕ)
      → row cfg.service_dir w ≡ o
      → id_of o ≡ some id
      → ¬ ((deploy env first second cfg hash msg w).flow ≡ daemon_ended)
      → is_settled (status_of (row cfg.service_dir (deploy env first second cfg hash msg w).world))
        ≡ true
  unfolding deploy
  settled-row none id f e n = cc
  settled-row (some p) id f e n =
      let o : Outcome = full_deploy_pipeline env cfg hash msg w in
      let o₁ : Outcome = follow first cfg o in
      let o₂ : Outcome = follow second cfg o₁ in
      finished-is_settled o₂.next o₂.flow (status_of (row cfg.service_dir o₂.world))
        (deploy-finished env first second cfg hash msg w) n
        (follow-Settles second cfg o₁.world o₁.flow o₁.next (row cfg.service_dir o₁.world) refl (
          follow-Settles first cfg o.world o.flow o.next (row cfg.service_dir o.world) refl
            (inl (row-pipeline env cfg hash msg w p f))))

-- Once a deployment of a registered project and everything that it started have run, and no panic of a
-- health check has ended the daemon, the project has the status running, failed, installed or externally
-- managed: never deploying. That holds whatever Git, the scripts and the health checks answer.
pub deploy_settles :
    (env : DeployEnv) (first second : HealthEnv) (cfg : Config) (hash msg : Text) (w : World)
    (id : ℕ)
    → get_project_id_by_dir cfg.service_dir w.projects ≡ some id
    → ¬ ((deploy env first second cfg hash msg w).flow ≡ daemon_ended)
    → is_settled (
        get_deploy_status_by_dir cfg.service_dir
          (deploy env first second cfg hash msg w).world.projects)
      ≡ true
unfolding get_project_id_by_dir get_deploy_status_by_dir
deploy_settles env first second cfg hash msg w id f n =
    settled-row env first second cfg hash msg w (row cfg.service_dir w) id refl f n
