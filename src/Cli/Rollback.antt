-- ===== src/Cli/Rollback.antt =====
-- What the rollback command leaves.
use cicd.Prelude.{
  ℕ, ◌≡◌, ap, ◌∙◌, Bool, true, false, ◌&&◌, Option, some, [], ◌∷◌, arith, Text, if◌then◌else◌,
}
use cicd.Config.{Config}
use cicd.Settings.{Settings}
use cicd.Process.{RunMode, deploying, installed}
use cicd.Projects.{Project, status_of, get_project_id_by_dir}
use cicd.Projects.ToConfig.{config, to_config}
use cicd.Pipeline.{
  World, RollbackEnv, with_project, rolled_and_current, set_status, too_short, is_install_only,
  rollback_to_commit,
}
use cicd.Pipeline.Rows.{row, row-set_status, row-rolled, row-hash}
use cicd.Cli.{Ended, done, crashed, failed, at_exit, resolve_project, handle_rollback}

-- A rollback that reaches its end has the project's row in `deploying`.
rollback-deploying :
    (env : RollbackEnv) (cfg : Config) (hash : Text) (w : World) (q : Project)
    → row cfg.service_dir w ≡ some q
    → too_short hash ≡ false
    → env.deploys ≡ true
    → status_of (row cfg.service_dir (rollback_to_commit env cfg hash w).world) ≡ some deploying
unfolding rollback_to_commit
rollback-deploying env cfg hash w q f h d =
    let dir : Text = cfg.service_dir in
    let id : Option ℕ = get_project_id_by_dir dir w.projects in
    let w₁ : World = set_status dir deploying w in
    let w₂ : World = with_project id (rolled_and_current env hash) w₁ in
    ground (
      arith,
      row-set_status dir deploying w,
      row-set_status dir deploying w₁,
      row-rolled env dir hash id w₁,
      row-hash dir hash w₂,
    )

-- A goroutine that has not written leaves the status, and one that has makes it `installed`.
exit-status :
    (in_time : Bool) (mode : RunMode) (cfg : Config) (w : World)
    → (status_of (row cfg.service_dir w) ≡ some deploying)
    → status_of (row cfg.service_dir (at_exit in_time mode cfg w))
      ≡ some (if is_install_only mode && in_time then installed else deploying)
exit-status in_time mode cfg w h = ground (arith, row-set_status cfg.service_dir installed w, h)

reported :
    (short deploys : Bool) (x y z : World)
    → short ≡ false
    → deploys ≡ true
    → ◌≡◌ {A = World × Ended}
        (if short then (y, crashed) else if deploys then (x, done) else (z, failed))
        (x, done)
reported short deploys x y z h d = ground arith

rolled_back :
    (as_id : Text → Option ℕ) (in_time : Bool) (mode : RunMode) (env : RollbackEnv)
    (settings : Option Settings) (arg hash : Text) (w : World) (p : Project) (cfg : Config)
    → resolve_project as_id arg w.projects ≡ some p
    → to_config settings p ≡ config cfg
    → too_short hash ≡ false
    → env.deploys ≡ true
    → handle_rollback as_id in_time mode env settings (arg ∷ hash ∷ []) w
      ≡ (at_exit in_time mode cfg (rollback_to_commit env cfg hash w).world, done)
unfolding handle_rollback
rolled_back as_id in_time mode env settings arg hash w p cfg r e h d =
    rw (handle_rollback, r, e)
      (reported (too_short hash) env.deploys
        (at_exit in_time mode cfg (rollback_to_commit env cfg hash w).world) w
        (rollback_to_commit env cfg hash w).world h d)

-- The rollback command that reports success for a registered directory leaves its project in
-- `deploying`, since the health check that would settle the status ends with the process; only for an
-- install-only project whose health check is scheduled before the exit is it `installed`.
pub handle_rollback-deploying :
    (as_id : Text → Option ℕ) (in_time : Bool) (mode : RunMode) (env : RollbackEnv)
    (settings : Option Settings) (arg hash : Text) (w : World) (p q : Project) (cfg : Config)
    → resolve_project as_id arg w.projects ≡ some p
    → to_config settings p ≡ config cfg
    → row cfg.service_dir w ≡ some q
    → too_short hash ≡ false
    → env.deploys ≡ true
    → let result : World × Ended =
        handle_rollback as_id in_time mode env settings (arg ∷ hash ∷ []) w in
      (result.1 ≡ done)
      × (status_of (row cfg.service_dir result.0)
          ≡ some (if is_install_only mode && in_time then installed else deploying))
handle_rollback-deploying as_id in_time mode env settings arg hash w p q cfg r e f h d =
    let same_end = rolled_back as_id in_time mode env settings arg hash w p cfg r e h d in
    (
      ap (λ (x : World × Ended). x.1) same_end,
      ap (λ (x : World × Ended). status_of (row cfg.service_dir x.0)) same_end
          ∙ exit-status in_time mode cfg (rollback_to_commit env cfg hash w).world
              (rollback-deploying env cfg hash w q f h d),
    )
