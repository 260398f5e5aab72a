-- ===== src/Pipeline/Install/Phases.antt =====
-- What `RunDeployment` leaves behind, and when it runs install.sh.
use cicd.Prelude.{
  ◌≡◌, sym, ◌∙◌, Bool, true, false, not, ◌&&◌, ◌||◌, Option, List, length, ◌+◌, ◌∷◌, arith, Text,
  same_self, if◌then◌else◌,
}
use cicd.Config.{Config}
use cicd.Pipeline.Install.{
  Helper, install_patched, with_helper, without_helper, is_passed, passed, Machine, InstallEnv,
  granted, remove_helper, prepared, deferred, start, needs_install, run_deployment,
}

-- Removing what was written leaves no helper.
abbrev written : Bool → Option Helper → List Helper → List Helper
written patches o hs = if patches then install_patched ∷ with_helper o hs else with_helper o hs

abbrev cleared : Bool → Option Helper → List Helper → List Helper
cleared patches o hs = without_helper o (if patches then remove_helper install_patched hs else hs)

-- The machine when install.sh has passed and the service was started, before the deferred calls.
abbrev served : InstallEnv → Config → Machine → Machine
served env cfg m =
    let m₁ : Machine = prepared env cfg m in
    (start env cfg (if env.saves then record m₁ { install_hash = env.current_hash } else m₁)).0

-- `RunDeployment` returns nil exactly when its log opens, install.sh passes or need not be run, and
-- the service starts; install.sh is run, once, exactly when the log opens and it is new or skipping
-- is off; and the service is started exactly when nil is returned.
run_deployment_lem :
    (env : InstallEnv) (cfg : Config) (m : Machine)
    → ((run_deployment env cfg m).1 ≡ (
        env.log_opens && ((not (needs_install env cfg m) || is_passed env.result) && env.starts)))
      × (length (run_deployment env cfg m).0.runs
          ≡ length m.runs + (if env.log_opens && needs_install env cfg m then 1 else 0))
      × (length (run_deployment env cfg m).0.starts
          ≡ length m.starts + (if (run_deployment env cfg m).1 then 1 else 0))
unfolding run_deployment prepared deferred start
run_deployment_lem env cfg m = (ground arith, ground arith, ground arith)

installed-hash :
    (env : InstallEnv) (cfg : Config) (m : Machine)
    → env.log_opens ≡ true
    → needs_install env cfg m ≡ true
    → env.result ≡ passed
    → env.saves ≡ true
    → (run_deployment env cfg m).0.install_hash ≡ env.current_hash
unfolding run_deployment prepared deferred start
installed-hash env cfg m o n p s = ground arith

no_need :
    (env : InstallEnv) (cfg : Config) (m : Machine)
    → m.install_hash ≡ env.current_hash
    → cfg.skip_install_hash ≡ false
    → needs_install env cfg m ≡ false
no_need env cfg m e s = ground (arith, same_self env.current_hash)

-- When install.sh has passed once and its hash was saved, a later deployment that is no rollback and
-- finds the same script does not run it.
run_deployment_once :
    (env later : InstallEnv) (cfg : Config) (m : Machine)
    → env.log_opens ≡ true
    → needs_install env cfg m ≡ true
    → env.result ≡ passed
    → env.saves ≡ true
    → later.current_hash ≡ env.current_hash
    → cfg.skip_install_hash ≡ false
    → (run_deployment later cfg (run_deployment env cfg m).0).0.runs
      ≡ (run_deployment env cfg m).0.runs
unfolding run_deployment start
run_deployment_once env later cfg m o n p s e k =
    let skipped =
      no_need later cfg (run_deployment env cfg m).0 (installed-hash env cfg m o n p s ∙ sym e) k in
    ground arith

granted-head : (user : Text) (us : List Text) → granted user (user ∷ us) ≡ true
unfolding granted
granted-head user us = ground (arith, same_self user)

-- The grant of sudo for install.sh is still in force when the service is started after it.
start-granted :
    (env : InstallEnv) (cfg : Config) (m : Machine)
    → env.log_opens ≡ true
    → needs_install env cfg m ≡ true
    → env.result ≡ passed
    → env.starts ≡ true
    → env.grants ≡ true
    → (run_deployment env cfg m).0.starts ≡ true ∷ m.starts
unfolding run_deployment prepared deferred start
start-granted env cfg m o n p s g = let now = granted-head cfg.service_user m.grants in ground arith
