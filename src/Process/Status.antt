-- ===== src/Process/Status.antt =====
-- What the dashboard and the command line are told of a service.
use cicd.Prelude.{
  ℕ, ◌-◌, ◌∙◌, ◌+◌, ◌*◌, ◌/◌, ◌%◌, ◌<◌, ◌≡◌, Bool, true, false, not, Option, none, some, [], ◌∷◌,
  arith, Text, same_self, ltb, leb, ◌==◌, if◌then◌else◌,
}
use cicd.Config.{Config}
use cicd.Process.{
  RunMode, blocking, background, delegating, install_only, ManagedProcess, DeployStatus, running,
  externally_managed, Engine, Os, start_app_process, stop_app_process, launch, fresh_process,
  read_pid_file,
}
use cicd.Process.Crash.{CanStart, start_lem}

-- `formatUptime`, of whole seconds: the numbers that its formats print.
pub data Uptime : Type 0 where
  seconds : ℕ → Uptime
  minutes : ℕ → ℕ → Uptime
  hours : ℕ → ℕ → Uptime
  days : ℕ → ℕ → ℕ → Uptime

unfoldable pub format_uptime : ℕ → Uptime
format_uptime d =
    if ltb d 60
    then seconds d
    else if ltb d 3600
    then minutes (d / 60) (d % 60)
    else let h : ℕ = d / 3600 in
      let m : ℕ = (d / 60) % 60 in if leb 24 h then days (h / 24) (h % 24) m else hours h m

-- The seconds that an uptime stands for.
abbrev pub in_seconds : Uptime → ℕ
in_seconds (seconds s) = s
in_seconds (minutes m s) = 60 * m + s
in_seconds (hours h m) = 3600 * h + 60 * m
in_seconds (days d h m) = 86400 * d + 3600 * h + 60 * m

abbrev pub InRange : Uptime → Type 0
InRange (seconds s) = s < 60
InRange (minutes m s) = (m < 60) × (s < 60)
InRange (hours h m) = (h < 24) × (m < 60)
InRange (days d h m) = (h < 24) × (m < 60)

-- An uptime below an hour is printed exactly and a longer one is rounded down to the minute; every
-- part but the first is within its unit.
format_uptime_lem :
    (d : ℕ)
    → InRange (format_uptime d)
      × (in_seconds (format_uptime d) ≡ (if ltb d 3600 then d else d - d % 60))
unfolding format_uptime
format_uptime_lem d = (ground arith, ground arith)

-- What is printed where there is no uptime.
pub data Report : Type 0 where
  up : Uptime → Report
  managed_externally not_running stale_pid up_on_disk : Report

pub record ProcessStatus : Type 0 where
  pub is_running : Bool
  pub pid : ℕ
  pub uptime : Report
  pub restarts : ℕ

abbrev pub stopped : ProcessStatus
stopped = record { is_running = false; pid = 0; uptime = not_running; restarts = 0 }

abbrev says_running : Option DeployStatus → Bool
says_running (some running) = true
says_running (some externally_managed) = true
says_running _ = false

-- The fallback to the database
abbrev from_database : Text → Engine → ProcessStatus
from_database dir e =
    if says_running (e.statuses dir)
    then record { is_running = true; pid = 0; uptime = managed_externally; restarts = 0 }
    else stopped

abbrev running_as : Os → ManagedProcess → ℕ → ProcessStatus
running_as os proc pid = record {
  is_running = true;
  pid = pid;
  uptime = up (format_uptime (os.now - proc.start_time));
  restarts = proc.restart_count;
}

abbrev of_process : Os → Text → Engine → RunMode → ManagedProcess → ProcessStatus
of_process os dir e delegating proc = running_as os proc proc.ext_pid
of_process os dir e background proc = elim (os.children_in_group proc.process_group) [
  | [] ↦ from_database dir e
  | child ∷ rest ↦ running_as os proc child
]
of_process os dir e blocking proc = running_as os proc proc.cmd
of_process os dir e install_only proc = running_as os proc proc.cmd

-- `GetProcessStatus`
unfoldable pub get_process_status : Os → Text → Engine → ProcessStatus
get_process_status os dir e = elim (e.registry dir) [
  | none ↦ from_database dir e
  | some p ↦ elim (e.heap p) [
    | none ↦ from_database dir e
    | some proc ↦ of_process os dir e proc.mode proc
  ]
]

-- `GetProcessStatusFromDisk`
unfoldable pub get_process_status_from_disk : Os → Text → Engine → ProcessStatus
get_process_status_from_disk os dir e =
    let pid : ℕ = read_pid_file dir e in
    if pid == 0
    then stopped
    else if not (os.is_process_alive pid)
    then record { is_running = false; pid = 0; uptime = stale_pid; restarts = 0 }
    else record { is_running = true; pid = pid; uptime = up_on_disk; restarts = 0 }

-- `GetRunMode`
unfoldable pub get_run_mode : Text → Engine → RunMode
get_run_mode dir e = elim (e.registry dir) [
  | none ↦ install_only
  | some p ↦ elim (e.heap p) [ none ↦ install_only | some proc ↦ proc.mode ]
]

status_registered :
    (os : Os) (dir : Text) (p : ℕ) (proc : ManagedProcess) (e : Engine)
    → e.registry dir ≡ some p
    → e.heap p ≡ some proc
    → (get_process_status os dir e ≡ of_process os dir e proc.mode proc)
      × (get_run_mode dir e ≡ proc.mode)
unfolding get_process_status get_run_mode
status_registered os dir p proc e r c = (
  rw (get_process_status, r) (rw (get_process_status, c)),
  rw (get_run_mode, r) (rw (get_run_mode, c)),
)

uptime_now : (n : ℕ) → format_uptime (n - n) ≡ seconds 0
unfolding format_uptime
uptime_now n = ground arith

launch_status :
    (os : Os) (cfg : Config) (e : Engine)
    → let dir : Text = cfg.service_dir in
      (get_process_status os dir (launch os cfg e)
        ≡ record { is_running = true; pid = os.new_pid; uptime = up (seconds 0); restarts = 0 })
      × (get_run_mode dir (launch os cfg e) ≡ blocking)
      × (read_pid_file dir (launch os cfg e) ≡ os.new_pid)
launch_status os cfg e =
    let dir : Text = cfg.service_dir in
    let (status, mode) =
      status_registered os dir e.next_address (fresh_process os cfg) (launch os cfg e)
        (rw (same_self dir)) (ground arith) in
    (status ∙ rw (uptime_now os.now), mode, rw (read_pid_file, same_self dir))

-- A service that was just started is reported as running with the new PID, by the daemon and, if
-- that process is alive, from the PID file; and it counts as blocking until its script exits.
status-start :
    (os : Os) (cfg : Config) (e : Engine)
    → CanStart os cfg
    → let dir : Text = cfg.service_dir in
      let e' : Engine = (start_app_process os cfg e).0 in
      (get_process_status os dir e'
        ≡ record { is_running = true; pid = os.new_pid; uptime = up (seconds 0); restarts = 0 })
      × (get_run_mode dir e' ≡ blocking)
      × (read_pid_file dir e' ≡ os.new_pid)
status-start os cfg e c =
    rw (start_lem os cfg e c) (launch_status os cfg (stop_app_process os cfg.service_dir e))
