-- ===== src/Process/Superseded.antt =====
-- Goroutines of a process that a newer deployment has replaced.
use cicd.Prelude.{
  ℕ, ◌≡◌, false, none, some, arith, Text, same_self, Bool-cases, inl, inr, if◌then◌else◌,
}
use cicd.Process.{ManagedProcess, Engine, Os, is_current_process}
use cicd.Process.Monitor.{
  no_watchdog, detached, settle, monitor_process, watch_single_pid, watch_health_script,
  watch_process_group,
}

module _ (os : Os) (wait : ℕ → Engine → Engine) (p : ℕ) (proc : ManagedProcess) (e : Engine)
    (stale : is_current_process proc.config p e ≡ false) where
  -- When another process is registered, or none, a crash of the old one and every watchdog of it
  -- change nothing and end.
  stale_watchers :
      (monitor_process os wait false p proc e ≡ (e, no_watchdog))
      × (watch_single_pid os wait p proc e ≡ (e, false))
      × (watch_process_group os wait p proc e ≡ (e, false))
      × (watch_health_script os wait p proc e ≡ (e, false))
  unfolding monitor_process watch_single_pid watch_process_group watch_health_script
  stale_watchers = (rw stale, rw stale, rw stale, rw stale)

settle-stale :
    (os : Os) (p : ℕ) (proc : ManagedProcess) (e : Engine)
    → is_current_process proc.config p e ≡ false
    → settle os p proc e ≡ detached os p proc e
unfolding settle
settle-stale os p proc e stale = ground arith

detached-registry :
    (os : Os) (p : ℕ) (proc : ManagedProcess) (e : Engine)
    → let dir : Text = proc.config.service_dir in
      (detached os p proc e).0.registry dir ≡ (if os.health_script_exists dir then some p else none)
unfolding detached
detached-registry os p proc e =
    elim (Bool-cases (os.health_script_exists proc.config.service_dir)) [
      | inl h ↦ rw (h, detached, same_self proc.config.service_dir)
      | inr h ↦ rw (h, detached, same_self proc.config.service_dir)
    ]

-- A replaced process that exits with code 0 still writes the registry: with a health script it
-- registers itself again in place of the newer process, and without one the entry is deleted.
stale_exit_unregisters :
    (os : Os) (p : ℕ) (proc : ManagedProcess) (e : Engine)
    → is_current_process proc.config p e ≡ false
    → let dir : Text = proc.config.service_dir in
      (settle os p proc e).0.registry dir ≡ (if os.health_script_exists dir then some p else none)
stale_exit_unregisters os p proc e stale =
    rw (settle-stale os p proc e stale) (detached-registry os p proc e)
