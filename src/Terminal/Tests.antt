-- ===== src/Terminal/Tests.antt =====
-- Terminals of concrete projects.
use cicd.Prelude.{
  ◌≡◌, refl, true, Option, none, some, [], ◌∷◌, Text, codes, same, if◌then◌else◌, text_discrete,
}
use cicd.Terminal.{
  Account, TerminalEnv, Control, text_message, binary_message, resize, write, on_message,
  read_messages,
}
use cicd.Terminal.Privileges.{uid_or}

abbrev known : Text → Option Account
known name =
    if same name (codes "www")
    then some (record { uid = 33; gid = 33; home_dir = codes "/var/www" })
    else none

abbrev root_env : TerminalEnv
root_env = record {
  has_bash = true;
  home = codes "/root";
  path = codes "/bin";
  euid = 0;
  lookup = known;
}

missing_user : uid_or 0 (known (codes "shop")) ≡ 0
unfolding text_discrete
missing_user = refl

abbrev unmarshal : Text → Option Control
unmarshal s =
    if same s (codes "{}")
    then some (record { type_name = codes "resize"; cols = 80; rows = 24 })
    else none

keys :
    read_messages unmarshal
      (binary_message (codes "ls") ∷ text_message (codes "{}") ∷ text_message (codes "x") ∷ [])
    ≡ write (codes "ls") ∷ resize 80 24 ∷ write (codes "x") ∷ []
unfolding read_messages on_message text_discrete
keys = refl
