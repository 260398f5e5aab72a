-- ===== src/Script/Tests.antt =====
-- Runs of the script patcher, and the theorems at concrete inputs.
use cicd.Prelude.{◌≡◌, refl, true, some, ◌∷◌, ◌++◌, Text, codes, text_discrete}
use cicd.Script.{normalize_line, original, patch_shell_script}

-- The five examples of the comment on `normalizeSudoAFlags`.
adds : normalize_line (codes "sudo apt update") ≡ codes "sudo -A apt update"
unfolding normalize_line text_discrete
adds = refl

keeps : normalize_line (codes "sudo -A apt update") ≡ codes "sudo -A apt update"
unfolding normalize_line text_discrete
keeps = refl

moves : normalize_line (codes "  sudo apt -A install -y") ≡ codes "  sudo -A apt install -y"
unfolding normalize_line text_discrete
moves = refl

moves_last : normalize_line (codes "sudo apt update -A") ≡ codes "sudo -A apt update"
unfolding normalize_line text_discrete
moves_last = refl

comment : normalize_line (codes "# sudo something") ≡ codes "# sudo something"
unfolding normalize_line text_discrete
comment = refl

-- A script that needs no repair is run as it is.
run_as_is :
    patch_shell_script
      (codes "/srv/site/codebase/.cicd/install.sh")
      (some (codes "set -e" ++ 10 ∷ codes "make"))
      true
    ≡ original
unfolding patch_shell_script text_discrete
run_as_is = refl

abbrev script : Text
script = codes "make" ++ 10 ∷ codes "sudo apt update"
