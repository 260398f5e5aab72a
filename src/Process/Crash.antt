-- ===== src/Process/Crash.antt =====
-- A crash of the registered process, with nothing else going on.
use cicd.Prelude.{
  ℕ, zero, suc, ◌+◌, ◌≡◌, refl, true, false, Option, none, some, List, [], ◌∷◌, arith, Text,
  same_self,
}
use cicd.Config.{Config}
use cicd.Process.{
  put_address, counted, launch, fresh_process, ManagedProcess, Engine, Os, is_current_process,
  stop_app_process, stop_signals, stray_signals, signal, Signal, read_pid_file, registry_delete,
  start_app_process, restart_with_backoff,
}
use cicd.Process.Monitor.{monitor_process}

-- No other goroutine acts during a sleep.
abbrev pub quiet : ℕ → Engine → Engine
quiet seconds e = e

-- The deployment is complete and its script can be started.
pub record CanStart (os : Os) (cfg : Config) : Type 0 where
  pub codebase : os.codebase_exists cfg.service_dir ≡ true
  pub run_script : os.run_script_exists cfg.service_dir ≡ true
  pub known_user : os.user_exists cfg.service_user ≡ true
  pub can_start : os.starts ≡ true

-- A new process of `cfg`, with no restarts behind it, is registered.
pub record IsServing (cfg : Config) (e : Engine) : Type 0 where
  pub address : ℕ
  pub process : ManagedProcess
  pub registered : e.registry cfg.service_dir ≡ some address
  pub contents : e.heap address ≡ some process
  pub config_kept : process.config ≡ cfg
  pub no_restarts : process.restart_count ≡ 0

pub start_lem :
    (os : Os) (cfg : Config) (e : Engine)
    → CanStart os cfg
    → start_app_process os cfg e ≡ (launch os cfg (stop_app_process os cfg.service_dir e), none)
unfolding start_app_process
start_lem os cfg e c = rw (c.codebase, c.run_script, c.known_user, c.can_start)

launch-IsServing : (os : Os) (cfg : Config) (e : Engine) → IsServing cfg (launch os cfg e)
launch-IsServing os cfg e = record {
  address = e.next_address;
  process = fresh_process os cfg;
  registered = rw (same_self cfg.service_dir);
  contents = ground arith;
  config_kept = refl;
  no_restarts = refl;
}

pub start-IsServing :
    (os : Os) (cfg : Config) (e : Engine)
    → CanStart os cfg
    → IsServing cfg (start_app_process os cfg e).0
start-IsServing os cfg e c =
    rw (start_lem os cfg e c) (launch-IsServing os cfg (stop_app_process os cfg.service_dir e))

registered_is_current :
    (cfg : Config) (p : ℕ) (e : Engine)
    → e.registry cfg.service_dir ≡ some p
    → is_current_process cfg p e ≡ true
unfolding is_current_process
registered_is_current cfg p e h = ground arith

-- The registered process exits with an error: what its `monitorProcess` then does.
unfoldable pub crash : Os → Config → Engine → Engine
crash os cfg e = elim (e.registry cfg.service_dir) [
  | none ↦ e
  | some p ↦ elim (e.heap p) [ none ↦ e | some proc ↦ (monitor_process os quiet false p proc e).0 ]
]

crash-eq-start :
    (os : Os) (cfg : Config) (e : Engine) (s : IsServing cfg e)
    → crash os cfg e
      ≡ (start_app_process os cfg
          (record e { heap = put_address e.heap s.address (counted s.process) })).0
unfolding crash monitor_process restart_with_backoff
crash-eq-start os cfg e s = ground (
  arith,
  registered_is_current cfg s.address e s.registered,
  registered_is_current cfg s.address
      (record e { heap = put_address e.heap s.address (counted s.process) }) s.registered,
)

unfoldable pub crash_times : Os → Config → ℕ → Engine → Engine
crash_times os cfg zero e = e
crash_times os cfg (suc n) e = crash_times os cfg n (crash os cfg e)

crashes-IsServing :
    (os : Os) (cfg : Config) (n : ℕ) (e : Engine)
    → CanStart os cfg
    → IsServing cfg e
    → IsServing cfg (crash_times os cfg n e)
unfolding crash_times
crashes-IsServing os cfg zero e c s = s
crashes-IsServing os cfg (suc n) e c s =
    crashes-IsServing os cfg n (crash os cfg e) c
      (rw (crash-eq-start os cfg e s) (start-IsServing os cfg _ c))

signal-next_address : (ss : List Signal) (e : Engine) → (signal ss e).next_address ≡ e.next_address
signal-next_address [] e = refl
signal-next_address (s ∷ ss) e = signal-next_address ss e

abbrev stop_process : Text → Engine → Option ManagedProcess → Engine
stop_process dir e o = elim o [
  | some proc ↦ signal (stop_signals proc.mode proc) (registry_delete dir e)
  | none ↦ registry_delete dir e
]

abbrev stop_registered : Os → Text → Engine → Option ℕ → Engine
stop_registered os dir e o = elim o [
  | some p ↦ stop_process dir e (e.heap p)
  | none ↦ signal (stray_signals os (read_pid_file dir e)) e
]

stop_process-next_address :
    (dir : Text) (e : Engine) (o : Option ManagedProcess)
    → (stop_process dir e o).next_address ≡ e.next_address
stop_process-next_address dir e none = refl
stop_process-next_address dir e (some proc) =
    signal-next_address (stop_signals proc.mode proc) (registry_delete dir e)

stop_registered-next_address :
    (os : Os) (dir : Text) (e : Engine) (o : Option ℕ)
    → (stop_registered os dir e o).next_address ≡ e.next_address
stop_registered-next_address os dir e none =
    signal-next_address (stray_signals os (read_pid_file dir e)) e
stop_registered-next_address os dir e (some p) = stop_process-next_address dir e (e.heap p)

stop-next_address :
    (os : Os) (dir : Text) (e : Engine) → (stop_app_process os dir e).next_address ≡ e.next_address
unfolding stop_app_process
stop-next_address os dir e = stop_registered-next_address os dir e (e.registry dir)

-- `n` processes were made one after the other, and the last of them, at the newest address, is
-- registered for the directory as it was made.
pub record IsRestarted (os : Os) (cfg : Config) (n : ℕ) (before after : Engine) : Type 0 where
  pub made : after.next_address ≡ n + before.next_address
  pub registered :
      (p : ℕ) × (suc p ≡ after.next_address)
      × (after.registry cfg.service_dir ≡ some p)
      × (after.heap p ≡ some (fresh_process os cfg))

launch-IsRestarted :
    (os : Os) (cfg : Config) (before e : Engine)
    → e.next_address ≡ before.next_address
    → IsRestarted os cfg 1 before (launch os cfg e)
launch-IsRestarted os cfg before e h = record {
  made = ground (arith, h);
  registered = (e.next_address, refl, rw (same_self cfg.service_dir), ground arith);
}

crash-IsRestarted :
    (os : Os) (cfg : Config) (e : Engine)
    → CanStart os cfg
    → IsServing cfg e
    → IsRestarted os cfg 1 e (crash os cfg e)
crash-IsRestarted os cfg e c s =
    let e' : Engine = record e { heap = put_address e.heap s.address (counted s.process) } in
    rw (crash-eq-start os cfg e s, start_lem os cfg e' c)
      (launch-IsRestarted os cfg e (stop_app_process os cfg.service_dir e')
        (stop-next_address os cfg.service_dir e'))

-- However often a registered service crashes, each crash starts it again: after any positive number of
-- crashes that many processes were made, and the newest is registered, with no restarts counted, so
-- the limit of ten is never met. The codebase, `run.sh` and the user exist, the start succeeds each
-- time, and no other goroutine acts during a sleep.
pub crashes_restart :
    (os : Os) (cfg : Config) (n : ℕ) (e : Engine)
    → CanStart os cfg
    → IsServing cfg e
    → IsRestarted os cfg (suc n) e (crash_times os cfg (suc n) e)
unfolding crash_times
crashes_restart os cfg zero e c s = crash-IsRestarted os cfg e c s
crashes_restart os cfg (suc n) e c s =
    let first = crash-IsRestarted os cfg e c s in
    let later = crashes_restart os cfg n (crash os cfg e) c (crashes-IsServing os cfg 1 e c s) in
    record { made = ground (arith, first.made, later.made); registered = later.registered }
