-- ===== src/Terminal.antt =====
-- The terminal of the dashboard (gosrc/terminal/session_linux.go and session.go; gosrc/api/server.go:
-- handleTerminalSession). What the system answers is an argument; the bytes of the PTY are I/O.
pub mod Privileges
pub mod Shims
mod Tests
use cicd.Prelude.{
  ℕ, suc, Bool, true, false, not, ◌&&◌, Option, none, some, List, [], ◌∷◌, ◌++◌, Text, codes, same,
  is_empty, is_set, ltb, ◌==◌, if◌then◌else◌,
}

-- What `user.Lookup` returns; on Linux the ids are decimal numbers.
pub record Account : Type 0 where
  pub uid : ℕ
  pub gid : ℕ
  pub home_dir : Text

pub record TerminalEnv : Type 0 where
  pub has_bash : Bool
  pub home : Text  -- HOME and PATH of the daemon
  pub path : Text
  pub euid : ℕ
  pub lookup : Text → Option Account

-- `interceptorDirOnce` and `cachedInterceptorDir`, and how often the shims were written.
pub record Interceptors : Type 0 where
  pub tried : Bool
  pub cached_dir : Text
  pub writes : ℕ

-- `GetInterceptorDir`, for the directory of temporary files, and whether the directory is made and the
-- shims are written. The flag is false when an error is returned.
unfoldable pub get_interceptor_dir :
    Text → Bool → Bool → Interceptors → Interceptors × (Text × Bool)
get_interceptor_dir dir makes writes s =
    if s.tried
    then (s, (s.cached_dir, true))
    else if not makes
    then (record s { tried = true }, (s.cached_dir, false))
    else if not writes
    then (record s { tried = true; writes = suc s.writes }, (s.cached_dir, false))
    else (record { tried = true; cached_dir = dir; writes = suc s.writes }, (dir, true))

-- The command that the PTY is started with; without credentials it runs as the daemon's user.
pub record Shell : Type 0 where
  pub program : Text
  pub dir : Option Text
  pub credential : Option (ℕ × ℕ)
  pub env : List Text

-- The account to take on: only root looks one up.
abbrev pub account_of : TerminalEnv → Text → Option Account
account_of env username = if env.euid == 0 && is_set username then env.lookup username else none

abbrev pub credential_of : Option Account → Option (ℕ × ℕ)
credential_of none = none
credential_of (some u) = if u.uid == 0 then none else some (u.uid, u.gid)

abbrev pub or_tmp : Text → Text
or_tmp home = if is_empty home then codes "/tmp" else home

abbrev pub home_of : Text → Option Account → Text
home_of home none = home
home_of home (some u) = if is_set u.home_dir then u.home_dir else home

abbrev pub path_of : Text → Text × Bool → Text
path_of path (dir, ok) = if ok && is_set dir then dir ++ 58 ∷ path else path

-- `NewSession`, up to the start of the PTY, for the answer of `GetInterceptorDir`.
unfoldable pub new_session : TerminalEnv → Text × Bool → Text → Text → Shell
new_session env interceptors dir username = record {
  program = if env.has_bash then codes "/bin/bash" else codes "/bin/sh";
  dir = if is_set dir then some dir else none;
  credential = credential_of (account_of env username);
  env =
      codes "TERM=xterm-256color"
      ∷ codes "COLORTERM=truecolor"
      ∷ codes "LANG=en_US.UTF-8"
      ∷ (codes "HOME=" ++ home_of (or_tmp env.home) (account_of env username))
      ∷ (codes "USER=" ++ username)
      ∷ (codes "PATH=" ++ path_of env.path interceptors)
      ∷ codes "CICD_TERMINAL=1"
      ∷ codes "SHLVL=1"
      ∷ [];
}

-- The user that the shell runs as.
abbrev pub runs_as : TerminalEnv → Shell → ℕ
runs_as env shell = elim shell.credential [ none ↦ env.euid | some (uid, gid) ↦ uid ]

-- A message of the WebSocket; `resize` is what `json.Unmarshal` finds in a text that is a control message.
pub record Control : Type 0 where
  pub type_name : Text
  pub cols : ℕ
  pub rows : ℕ

pub data Message : Type 0 where
  text_message binary_message : Text → Message

pub data Input : Type 0 where
  resize : ℕ → ℕ → Input
  write : Text → Input

abbrev pub is_resize : Option Control → Bool
is_resize none = false
is_resize (some c) = same c.type_name (codes "resize") && (ltb 0 c.cols && ltb 0 c.rows)

abbrev pub resized : Option Control → List Input
resized none = []
resized (some c) = resize c.cols c.rows ∷ []

abbrev pub typed : Text → List Input
typed [] = []
typed (c ∷ s) = write (c ∷ s) ∷ []

-- One round of the loop that reads the WebSocket.
unfoldable pub on_message : (Text → Option Control) → Message → List Input
on_message unmarshal (binary_message s) = typed s
on_message unmarshal (text_message s) =
    if is_resize (unmarshal s) then resized (unmarshal s) else typed s

-- The loop, until the connection ends.
unfoldable pub read_messages : (Text → Option Control) → List Message → List Input
unfolding on_message
read_messages unmarshal [] = []
read_messages unmarshal (m ∷ ms) = on_message unmarshal m ++ read_messages unmarshal ms

-- The signals of `Close`, in their order: the shell's group is asked to end, and killed a second later;
-- without a group the shell is killed.
pub data Closing : Type 0 where
  terminate_group kill_group kill_shell : ℕ → Closing

abbrev pub close_session : ℕ → Option ℕ → List Closing
close_session pid none = kill_shell pid ∷ []
close_session pid (some pgid) = terminate_group pgid ∷ kill_group pgid ∷ []

-- The session of a project: the shell, if it starts, with what is done to it.
pub data Handled : Type 0 where
  not_started : Handled
  ran : Shell → List Input → Handled

-- `handleTerminalSession`, for the messages until the connection ends.
unfoldable pub handle_terminal_session :
    TerminalEnv
    → Text × Bool
    → (Text → Option Control)
    → Bool
    → Text
    → Text
    → List Message
    → Handled
unfolding new_session read_messages
handle_terminal_session env interceptors unmarshal starts service_dir service_user messages =
    if starts
    then ran (new_session env interceptors service_dir service_user)
        (read_messages unmarshal messages)
    else not_started
