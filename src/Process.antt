-- ===== src/Process.antt =====
-- The process engine (gosrc/actions/pm.go). A `*ManagedProcess` is an address into `heap`; the
-- registry maps a service directory to such an address, so that pointer equality is equality of
-- addresses. `signals` lists what was sent to processes, newest first. What the operating system
-- answers at one moment is a record `Os`; what other goroutines do while one sleeps is a function
-- `wait` of the seconds slept.
pub mod Monitor
pub mod Backoff
pub mod Superseded
pub mod Crash
pub mod Group
pub mod Watchers
pub mod Status
mod Tests
use cicd.Prelude.{
  ℕ, zero, suc, ◌+◌, ◌-◌, Bool, true, false, not, ◌&&◌, Option, none, some, List, [], ◌∷◌, Text,
  same, ltb, leb, ◌==◌, if◌then◌else◌,
}
use cicd.Config.{Config}

pub data RunMode : Type 0 where
  blocking background delegating install_only : RunMode

pub record ManagedProcess : Type 0 where
  pub cmd : ℕ  -- PID of the bash process
  pub config : Config
  pub start_time : ℕ
  pub mode : RunMode
  pub ext_pid : ℕ  -- 0 if there is none
  pub process_group : ℕ
  pub restart_count : ℕ

-- The values that the program writes to the column `deploy_status`.
pub data DeployStatus : Type 0 where
  idle deploying running failed installed externally_managed : DeployStatus

pub data Signal : Type 0 where
  interrupt kill kill_group : ℕ → Signal

pub record Engine : Type 0 where
  pub registry : Text → Option ℕ
  pub heap : ℕ → Option ManagedProcess
  pub next_address : ℕ
  pub pid_files : Text → Option ℕ
  pub signals : List Signal
  pub statuses : Text → Option DeployStatus  -- `deploy_status`, by directory

pub record Os : Type 0 where
  pub codebase_exists : Text → Bool
  pub run_script_exists : Text → Bool
  pub health_script_exists : Text → Bool
  pub user_exists : Text → Bool
  pub starts : Bool  -- `cmd.Start` succeeds
  pub new_pid : ℕ
  pub is_process_alive : ℕ → Bool
  pub children_in_group : ℕ → List ℕ
  pub health_passes : Bool  -- `RunHealthCheckWithEnv` returns nil
  pub now : ℕ  -- seconds

abbrev pub put_key : {A : Type 0} → (Text → Option A) → Text → Option A → Text → Option A
put_key f k v j = if same j k then v else f j

abbrev pub put_address :
    (ℕ → Option ManagedProcess) → ℕ → ManagedProcess → ℕ → Option ManagedProcess
put_address f k v j = if j == k then some v else f j

-- `registry.Store` and `registry.Delete`
abbrev pub registry_store : Text → ℕ → Engine → Engine
registry_store dir p e = record e { registry = put_key e.registry dir (some p) }

abbrev pub registry_delete : Text → Engine → Engine
registry_delete dir e = record e { registry = put_key e.registry dir none }

abbrev pub remove_pid_file : Text → Engine → Engine
remove_pid_file dir e = record e { pid_files = put_key e.pid_files dir none }

abbrev pub write_pid_file : Text → ℕ → Engine → Engine
write_pid_file dir pid e = record e { pid_files = put_key e.pid_files dir (some pid) }

abbrev pub signal : List Signal → Engine → Engine
signal [] e = e
signal (s ∷ ss) e = record (signal ss e) { signals = s ∷ (signal ss e).signals }

-- `isCurrentProcess`
unfoldable pub is_current_process : Config → ℕ → Engine → Bool
is_current_process cfg p e = elim (e.registry cfg.service_dir) [ none ↦ false | some q ↦ q == p ]

-- `readPIDFile`: 0 where there is no file
abbrev pub read_pid_file : Text → Engine → ℕ
read_pid_file dir e = elim (e.pid_files dir) [ none ↦ 0 | some pid ↦ pid ]

-- The signals that `StopAppProcess` sends to a registered process, newest first.
unfoldable pub stop_signals : RunMode → ManagedProcess → List Signal
stop_signals delegating p =
    if ltb 0 p.ext_pid then kill p.ext_pid ∷ interrupt p.ext_pid ∷ [] else []
stop_signals background p = kill_group p.cmd ∷ []
stop_signals blocking p = kill_group p.cmd ∷ []
stop_signals install_only p = kill_group p.cmd ∷ []

-- What is sent when the directory is not registered, from the PID file.
abbrev pub stray_signals : Os → ℕ → List Signal
stray_signals os pid =
    if ltb 0 pid && os.is_process_alive pid then kill pid ∷ interrupt pid ∷ [] else []

-- `StopAppProcess`
unfoldable pub stop_app_process : Os → Text → Engine → Engine
unfolding stop_signals
stop_app_process os dir e = remove_pid_file dir (elim (e.registry dir) [
  | some p ↦ elim (e.heap p) [
    | some proc ↦ signal (stop_signals proc.mode proc) (registry_delete dir e)
    | none ↦ registry_delete dir e
  ]
  | none ↦ signal (stray_signals os (read_pid_file dir e)) e
])

pub data StartError : Type 0 where
  codebase_not_found user_lookup_failed start_failed : StartError

abbrev pub fresh_process : Os → Config → ManagedProcess
fresh_process os cfg = record {
  cmd = os.new_pid;
  config = cfg;
  start_time = os.now;
  mode = blocking;
  ext_pid = 0;
  process_group = 0;
  restart_count = 0;
}

-- `registry.Store` of a new `ManagedProcess`, and the PID file.
abbrev pub launch : Os → Config → Engine → Engine
launch os cfg e = write_pid_file cfg.service_dir os.new_pid (
    registry_store cfg.service_dir e.next_address (record e {
      heap = put_address e.heap e.next_address (fresh_process os cfg);
      next_address = suc e.next_address;
    }))

-- `StartAppProcess`. Its wait for the old process to release its port only sleeps.
unfoldable pub start_app_process : Os → Config → Engine → Engine × Option StartError
unfolding stop_app_process
start_app_process os cfg e =
    if not (os.codebase_exists cfg.service_dir)
    then (e, some codebase_not_found)
    else if not (os.run_script_exists cfg.service_dir)
    then (registry_delete cfg.service_dir e, none)
    else if not (os.user_exists cfg.service_user)
    then (stop_app_process os cfg.service_dir e, some user_lookup_failed)
    else if not os.starts
    then (stop_app_process os cfg.service_dir e, some start_failed)
    else (launch os cfg (stop_app_process os cfg.service_dir e), none)

-- `backoffSchedule`, in seconds, at `idx`, with the last entry beyond its end.
unfoldable pub backoff_delay : ℕ → ℕ
backoff_delay zero = 2
backoff_delay (suc zero) = 5
backoff_delay (suc (suc zero)) = 15
backoff_delay (suc (suc (suc zero))) = 30
backoff_delay (suc (suc (suc (suc zero)))) = 60
backoff_delay (suc (suc (suc (suc (suc n))))) = 120

abbrev pub max_restarts : ℕ
max_restarts = 10

abbrev pub stable_run_duration : ℕ
stable_run_duration = 300

-- `p.RestartCount++`
abbrev pub counted : ManagedProcess → ManagedProcess
counted proc = record proc { restart_count = suc proc.restart_count }

-- `restartWithBackoff`, for the process at address `p` with the contents `proc`.
unfoldable pub restart_with_backoff :
    Os → (ℕ → Engine → Engine) → ℕ → ManagedProcess → Engine → Engine
unfolding is_current_process start_app_process backoff_delay
restart_with_backoff os wait p proc e =
    let e₁ : Engine = record e { heap = put_address e.heap p (counted proc) } in
    if ltb max_restarts (suc proc.restart_count)
    then e₁
    else let e₂ : Engine = wait (backoff_delay proc.restart_count) e₁ in
      if is_current_process proc.config p e₂ then (start_app_process os proc.config e₂).0 else e₂
