-- ===== src/Terminal/Privileges.antt =====
-- The user that a terminal runs as.
use cicd.Prelude.{ℕ, ◌≡◌, Bool, ◌&&◌, Option, none, some, arith, Text, is_set, ◌==◌, if◌then◌else◌}
use cicd.Terminal.{Account, TerminalEnv, Shell, credential_of, new_session, runs_as}

abbrev pub uid_or : ℕ → Option Account → ℕ
uid_or uid none = uid
uid_or uid (some u) = u.uid

-- The user of a shell with the account's credentials, for a daemon that is root.
credential-uid :
    (env : TerminalEnv) (shell : Shell) (o : Option Account)
    → env.euid ≡ 0
    → shell.credential ≡ credential_of o
    → runs_as env shell ≡ uid_or 0 o
credential-uid env shell none e c = ground arith
credential-uid env shell (some u) e c = ground arith

-- A terminal runs as the project's user if the daemon is root and finds that user. Otherwise it runs
-- as the daemon: a project whose user is missing gets a shell of root.
new_session-runs_as :
    (env : TerminalEnv) (interceptors : Text × Bool) (dir username : Text)
    → runs_as env (new_session env interceptors dir username)
      ≡ (if env.euid == 0 && is_set username then uid_or 0 (env.lookup username) else env.euid)
unfolding new_session
new_session-runs_as env interceptors dir username = ground arith
