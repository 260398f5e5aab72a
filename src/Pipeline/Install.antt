-- ===== src/Pipeline/Install.antt =====
-- The install phase and the start of the service (gosrc/actions/executor.go: RunDeployment,
-- getDeployTimeout, GrantSudoPrivileges, RemoveSudoPrivileges). What the files, the script and the
-- process engine answer is an argument. A `defer` runs when `RunDeployment` returns, as in Go.
mod Duration
mod Phases
mod Tests
use cicd.Prelude.{
  ℕ, ◌+◌, ◌-◌, ◌*◌, ◌%◌, Bool, true, false, not, ◌&&◌, ◌||◌, Option, none, some, List, [], ◌∷◌, ℤ,
  pos, negsuc, is_positive, Text, same, is_set, ltb, ◌==◌, if◌then◌else◌,
}
use cicd.Config.{Config}

-- The files that a deployment writes into `.cicdlog` for the time of its run.
pub data Helper : Type 0 where
  askpass askpass_nopass install_patched : Helper

pub data InstallResult : Type 0 where
  passed failed timed_out : InstallResult

-- One run of install.sh: whether the patched copy was run, `SUDO_ASKPASS`, and the time limit.
pub record Run : Type 0 where
  pub patched : Bool
  pub sudo_askpass : Option Helper
  pub limit : ℤ

pub record Machine : Type 0 where
  pub install_hash : Text  -- `.cicdlog/install.hash`, empty if it cannot be read
  pub grants : List Text  -- the users with a file in /etc/sudoers.d
  pub helpers : List Helper
  pub runs : List Run
  pub starts : List Bool  -- for each start of the service, whether its user could use sudo

pub record InstallEnv : Type 0 where
  pub log_opens : Bool
  pub timeout_file : Option ℤ  -- `.cicd/timeout`, if it is there and a number
  pub script : Bool  -- install.sh is there
  pub current_hash : Text  -- its hash
  pub grants : Bool  -- `GrantSudoPrivileges` returns nil
  pub writes : Bool  -- the askpass helper is written
  pub patches : Bool  -- `patchShellScript` returns the patched copy
  pub result : InstallResult
  pub saves : Bool  -- install.hash is written
  pub starts : Bool  -- `StartAppProcess` returns nil

-- A count in an `int64`.
abbrev pub int64 : ℕ → ℤ
int64 n =
    let r : ℕ = n % 18446744073709551616 in
    if ltb r 9223372036854775808 then pos r else negsuc (18446744073709551615 - r)

-- `time.Duration(secs) * time.Second`, for a positive number of seconds
abbrev pub seconds : ℕ → ℤ
seconds secs = int64 (secs * 1000000000)

abbrev pub global_timeout : ℤ → ℕ
global_timeout (pos n) = if n == 0 then 1800 else n
global_timeout (negsuc n) = 1800

-- `getDeployTimeout`
unfoldable pub get_deploy_timeout : Option ℤ → ℤ → ℤ
get_deploy_timeout none global_secs = seconds (global_timeout global_secs)
get_deploy_timeout (some (pos n)) global_secs =
    if n == 0 then seconds (global_timeout global_secs) else seconds n
get_deploy_timeout (some (negsuc n)) global_secs = seconds (global_timeout global_secs)

unfoldable pub granted : Text → List Text → Bool
granted user [] = false
granted user (u ∷ us) = if same u user then true else granted user us

-- `RemoveSudoPrivileges`
unfoldable pub remove_sudo_privileges : Text → List Text → List Text
remove_sudo_privileges user [] = []
remove_sudo_privileges user (u ∷ us) =
    let rest = remove_sudo_privileges user us in if same u user then rest else u ∷ rest

-- `GrantSudoPrivileges`, when it writes its file.
abbrev pub grant_sudo_privileges : Text → List Text → List Text
grant_sudo_privileges user us = user ∷ us

-- The helper that is written, by whether the project has a password for sudo.
abbrev pub askpass_for : Bool → Config → Option Helper
askpass_for false cfg = none
askpass_for true cfg = some (if is_set cfg.sudo_pass then askpass else askpass_nopass)

abbrev pub with_helper : Option Helper → List Helper → List Helper
with_helper none hs = hs
with_helper (some h) hs = h ∷ hs

-- The machine while install.sh runs.
unfoldable pub prepared : InstallEnv → Config → Machine → Machine
unfolding get_deploy_timeout
prepared env cfg m = record m {
  grants = if env.grants then grant_sudo_privileges cfg.service_user m.grants else m.grants;
  helpers =
      if env.patches
      then install_patched ∷ with_helper (askpass_for env.writes cfg) m.helpers
      else with_helper (askpass_for env.writes cfg) m.helpers;
  runs =
      record {
        patched = env.patches;
        sudo_askpass = askpass_for env.writes cfg;
        limit = get_deploy_timeout env.timeout_file cfg.deploy_timeout;
      }
      ∷ m.runs;
}

abbrev same_helper : Helper → Helper → Bool
same_helper askpass askpass = true
same_helper askpass_nopass askpass_nopass = true
same_helper install_patched install_patched = true
same_helper _ _ = false

-- `os.Remove` of a helper
unfoldable pub remove_helper : Helper → List Helper → List Helper
remove_helper h [] = []
remove_helper h (x ∷ xs) =
    let rest = remove_helper h xs in if same_helper x h then rest else x ∷ rest

abbrev pub without_helper : Option Helper → List Helper → List Helper
without_helper none hs = hs
without_helper (some h) hs = remove_helper h hs

-- The deferred calls, last first: the patched copy, the helper and the grant are removed.
unfoldable pub deferred : InstallEnv → Config → Machine → Machine
unfolding remove_sudo_privileges remove_helper
deferred env cfg m =
    let hs : List Helper =
      if env.patches then remove_helper install_patched m.helpers else m.helpers in
    record m {
      helpers = without_helper (askpass_for env.writes cfg) hs;
      grants = if env.grants then remove_sudo_privileges cfg.service_user m.grants else m.grants;
    }

abbrev pub is_passed : InstallResult → Bool
is_passed passed = true
is_passed failed = false
is_passed timed_out = false

-- `StartAppProcess`, when it starts the service.
unfoldable pub start : InstallEnv → Config → Machine → Machine × Bool
unfolding granted
start env cfg m =
    if env.starts
    then (record m { starts = granted cfg.service_user m.grants ∷ m.starts }, true)
    else (m, false)

-- install.sh has to be run: it is there, and it is new or the deployment is a rollback.
abbrev pub needs_install : InstallEnv → Config → Machine → Bool
needs_install env cfg m =
    env.script && not (same m.install_hash env.current_hash && not cfg.skip_install_hash)

-- `RunDeployment`: the machine after it, and whether it returned nil.
unfoldable pub run_deployment : InstallEnv → Config → Machine → Machine × Bool
unfolding prepared deferred start
run_deployment env cfg m =
    let m₁ : Machine = prepared env cfg m in
    let m₂ : Machine = if env.saves then record m₁ { install_hash = env.current_hash } else m₁ in
    if not env.log_opens
    then (m, false)
    else if not (needs_install env cfg m)
    then start env cfg m
    else if not (is_passed env.result)
    then (deferred env cfg m₁, false)
    else (deferred env cfg (start env cfg m₂).0, (start env cfg m₂).1)
