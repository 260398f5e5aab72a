-- ===== src/Process/Watchers.antt =====
-- The watchdogs of tiers 2 to 4 when what they watch has died, with nothing else going on.
use cicd.Prelude.{ℕ, ◌≡◌, refl, Bool, true, false, none, [], arith, Text, same_self}
use cicd.Config.{Config}
use cicd.Process.{
  registry_delete, failed, DeployStatus, ManagedProcess, Engine, Os, is_current_process,
  restart_with_backoff,
}
use cicd.Process.Monitor.{
  update, set_status, reset_if_stable, watch_single_pid, watch_process_group, watch_health_script,
}
use cicd.Process.Crash.{quiet}

-- Nothing is registered for the directory, no process was made, and nothing was signalled.
pub record IsAbandoned (cfg : Config) (before after : Engine) : Type 0 where
  pub unregistered : after.registry cfg.service_dir ≡ none
  pub none_made : after.next_address ≡ before.next_address
  pub none_signalled : after.signals ≡ before.signals

restart-IsAbandoned :
    (os : Os) (p : ℕ) (proc : ManagedProcess) (cfg : Config) (before e : Engine)
    → proc.config ≡ cfg
    → IsAbandoned cfg before e
    → IsAbandoned cfg before (restart_with_backoff os quiet p proc e)
unfolding restart_with_backoff
restart-IsAbandoned os p proc cfg before e q h = ground (arith, h.unregistered)

config-reset : (os : Os) (proc : ManagedProcess) → (reset_if_stable os proc).config ≡ proc.config
unfolding reset_if_stable
config-reset os proc = ground arith

deleted-IsAbandoned :
    (cfg : Config) (p : ℕ) (proc : ManagedProcess) (e : Engine)
    → IsAbandoned cfg e (registry_delete cfg.service_dir (update p proc e))
deleted-IsAbandoned cfg p proc e = record {
  unregistered = rw (same_self cfg.service_dir);
  none_made = refl;
  none_signalled = refl;
}

set_status-IsAbandoned :
    {cfg : Config} {before e : Engine} (dir : Text) (status : DeployStatus)
    → IsAbandoned cfg before e
    → IsAbandoned cfg before (set_status dir status e)
set_status-IsAbandoned dir status h = record {
  unregistered = h.unregistered;
  none_made = h.none_made;
  none_signalled = h.none_signalled;
}

abandoned :
    (os : Os) (p : ℕ) (proc : ManagedProcess) (e f : Engine)
    → IsAbandoned proc.config e f
    → IsAbandoned proc.config e (restart_with_backoff os quiet p (reset_if_stable os proc) f)
abandoned os p proc e f a =
    restart-IsAbandoned os p (reset_if_stable os proc) proc.config e f (config-reset os proc) a

-- The watchdogs of tier 3, tier 2 and the health script.
pub data Tier : Type 0 where
  by_pid by_group by_health : Tier

-- One round of a watchdog, while no other goroutine acts.
abbrev pub watch : Tier → Os → ℕ → ManagedProcess → Engine → Engine × Bool
watch by_pid os p proc e = watch_single_pid os quiet p proc e
watch by_group os p proc e = watch_process_group os quiet p proc e
watch by_health os p proc e = watch_health_script os quiet p proc e

-- What each watchdog alone takes for the death of its process.
abbrev pub FindsDead : Tier → Os → ManagedProcess → Type 0
FindsDead by_pid os proc = os.is_process_alive proc.ext_pid ≡ false
FindsDead by_group os proc = os.children_in_group proc.process_group ≡ []
FindsDead by_health os proc = os.health_passes ≡ false

-- Each watchdog of the registered process alone, when it finds its PID dead, its process group empty or
-- its health script failing, leaves the directory unregistered and ends, and the service is not started
-- again: the process is deleted from the registry before the restart, which then takes it for replaced.
-- No other goroutine acts during a sleep.
pub watchdogs_abandon :
    (tier : Tier) (os : Os) (p : ℕ) (proc : ManagedProcess) (e : Engine)
    → is_current_process proc.config p e ≡ true
    → FindsDead tier os proc
    → IsAbandoned proc.config e (watch tier os p proc e).0 × ((watch tier os p proc e).1 ≡ false)
unfolding watch_single_pid watch_process_group watch_health_script
watchdogs_abandon by_pid os p proc e h d =
    simp (h, d) (abandoned os p proc e _ (deleted-IsAbandoned proc.config p _ e), refl)
watchdogs_abandon by_group os p proc e h d =
    simp (h, d) (abandoned os p proc e _ (deleted-IsAbandoned proc.config p _ e), refl)
watchdogs_abandon by_health os p proc e h d =
    simp (h, d)
      (
        abandoned os p proc e _ (
            set_status-IsAbandoned proc.config.service_dir failed
              (deleted-IsAbandoned proc.config p _ e)),
        refl,
      )
