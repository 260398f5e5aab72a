-- ===== src/Process/Monitor.antt =====
-- `monitorProcess` and the three watchdog loops. A watchdog is one round of its loop, after the
-- sleep; the result says whether the loop goes on.
use cicd.Prelude.{
  ℕ, ◌-◌, Bool, true, false, not, ◌&&◌, some, [], ◌∷◌, Text, ltb, ◌==◌, if◌then◌else◌,
}
use cicd.Process.{
  ManagedProcess, background, delegating, DeployStatus, failed, Engine, Os, put_key, put_address,
  registry_store, registry_delete, remove_pid_file, write_pid_file, is_current_process,
  read_pid_file, stable_run_duration, restart_with_backoff,
}

-- The goroutine that `monitorProcess` leaves behind.
pub data Watchdog : Type 0 where
  no_watchdog watches_pid watches_group watches_health : Watchdog

-- The process at `p` gets the contents `proc` and is stored in the registry.
abbrev register : ℕ → ManagedProcess → Engine → Engine
register p proc e =
    registry_store proc.config.service_dir p (record e { heap = put_address e.heap p proc })

abbrev has_pid_file : Os → ManagedProcess → ℕ → Engine → Bool
has_pid_file os proc pid e = ltb 0 pid && (not (pid == proc.cmd) && os.is_process_alive pid)

-- The end of `monitorProcess`: a health script is watched; without one nothing is. Neither branch asks
-- whether the process is still the registered one.
unfoldable pub detached : Os → ℕ → ManagedProcess → Engine → Engine × Watchdog
detached os p proc e =
    let dir : Text = proc.config.service_dir in
    if os.health_script_exists dir
    then (register p (record proc { mode = delegating; ext_pid = 0 }) e, watches_health)
    else (registry_delete dir (remove_pid_file dir e), no_watchdog)

-- Behind an exit with code 0: tier 3, tier 2, the health script, or no monitoring.
unfoldable pub settle : Os → ℕ → ManagedProcess → Engine → Engine × Watchdog
unfolding is_current_process detached
settle os p proc e =
    let dir : Text = proc.config.service_dir in
    let pid : ℕ = read_pid_file dir e in
    let is_current : Bool = is_current_process proc.config p e in
    if has_pid_file os proc pid e && is_current
    then (register p (record proc { mode = delegating; ext_pid = pid }) e, watches_pid)
    else elim (os.children_in_group proc.cmd) [
      | [] ↦ detached os p proc e
      | child ∷ rest ↦
          if ltb 0 proc.cmd && is_current
          then (
            register p (record proc { mode = background; process_group = proc.cmd })
                (write_pid_file dir child e),
            watches_group,
          )
          else detached os p proc e
    ]

-- `monitorProcess`, from the exit of the bash process; `clean` is exit code 0.
unfoldable pub monitor_process :
    Os → (ℕ → Engine → Engine) → Bool → ℕ → ManagedProcess → Engine → Engine × Watchdog
unfolding settle is_current_process
monitor_process os wait clean p proc e =
    if clean
    then settle os p proc (wait 1 e)
    else if is_current_process proc.config p e
    then (restart_with_backoff os wait p proc e, no_watchdog)
    else (e, no_watchdog)

-- `if time.Since(p.StartTime) > stableRunDuration && p.RestartCount > 0`
unfoldable pub reset_if_stable : Os → ManagedProcess → ManagedProcess
reset_if_stable os proc =
    if ltb stable_run_duration (os.now - proc.start_time) && ltb 0 proc.restart_count
    then record proc { restart_count = 0 }
    else proc

abbrev pub update : ℕ → ManagedProcess → Engine → Engine
update p proc e = record e { heap = put_address e.heap p proc }

-- One round of `watchSinglePID`
unfoldable pub watch_single_pid :
    Os → (ℕ → Engine → Engine) → ℕ → ManagedProcess → Engine → Engine × Bool
unfolding reset_if_stable
watch_single_pid os wait p proc e =
    if not (is_current_process proc.config p e)
    then (e, false)
    else let proc' : ManagedProcess = reset_if_stable os proc in
      let e' : Engine = update p proc' e in
      if not (os.is_process_alive proc.ext_pid)
      then (
        restart_with_backoff os wait p proc' (registry_delete proc.config.service_dir e'),
        false,
      )
      else (e', true)

abbrev pub set_status : Text → DeployStatus → Engine → Engine
set_status dir status e = record e { statuses = put_key e.statuses dir (some status) }

-- One round of `watchHealthScript`
unfoldable pub watch_health_script :
    Os → (ℕ → Engine → Engine) → ℕ → ManagedProcess → Engine → Engine × Bool
unfolding reset_if_stable
watch_health_script os wait p proc e =
    if not (is_current_process proc.config p e)
    then (e, false)
    else let dir : Text = proc.config.service_dir in
      let proc' : ManagedProcess = reset_if_stable os proc in
      let e' : Engine = update p proc' e in
      if not os.health_passes
      then (
        restart_with_backoff os wait p proc' (set_status dir failed (registry_delete dir e')),
        false,
      )
      else (e', true)

-- One round of `watchProcessGroup`
unfoldable pub watch_process_group :
    Os → (ℕ → Engine → Engine) → ℕ → ManagedProcess → Engine → Engine × Bool
unfolding reset_if_stable
watch_process_group os wait p proc e =
    if not (is_current_process proc.config p e)
    then (e, false)
    else let proc' : ManagedProcess = reset_if_stable os proc in
      let e' : Engine = update p proc' e in
      elim (os.children_in_group proc.process_group) [
        | [] ↦ (
          restart_with_backoff os wait p proc' (registry_delete proc.config.service_dir e'),
          false,
        )
        | child ∷ rest ↦ (e', true)
      ]
