-- ===== src/Script.antt =====
-- The script patcher (gosrc/actions/patchInstallScript.go). A text is a list of characters.
pub mod Trim
pub mod Sudo
pub mod Flags
pub mod Lines
mod Tests
use cicd.Prelude.{
  ℕ, Bool, true, false, not, ◌&&◌, ◌||◌, Option, none, some, List, [], ◌∷◌, ◌++◌, map, Text, codes,
  same, is_empty, leb, ◌==◌, if◌then◌else◌,
}

-- `unicode.IsSpace`
abbrev pub is_space : ℕ → Bool
is_space c =
    (leb 9 c && leb c 13)
    || (c == 32
        || (c == 133
            || (c == 160
                || (c == 5760
                    || ((leb 8192 c && leb c 8202)
                        || (c == 8232
                            || (c == 8233 || (c == 8239 || (c == 8287 || c == 12288)))))))))

-- A character of the cutset `" \t"`
abbrev pub is_blank : ℕ → Bool
is_blank c = c == 32 || c == 9

-- `strings.TrimLeft`, by a test on characters
unfoldable pub trim_left : (ℕ → Bool) → Text → Text
trim_left cut [] = []
trim_left cut (c ∷ s) = if cut c then trim_left cut s else c ∷ s

-- The prefix that `trim_left` drops.
unfoldable pub cut_left : (ℕ → Bool) → Text → Text
cut_left cut [] = []
cut_left cut (c ∷ s) = if cut c then c ∷ cut_left cut s else []

unfoldable pub trim_right : Text → Text
trim_right [] = []
trim_right (c ∷ s) = let rest = trim_right s in if is_space c && is_empty rest then [] else c ∷ rest

-- `strings.TrimSpace`
unfoldable pub trim_space : Text → Text
unfolding trim_left trim_right
trim_space s = trim_right (trim_left is_space s)

-- `strings.HasPrefix s p`
unfoldable pub has_prefix : Text → Text → Bool
has_prefix s [] = true
has_prefix [] (d ∷ p) = false
has_prefix (c ∷ s) (d ∷ p) = c == d && has_prefix s p

-- `strings.Contains s p`
unfoldable pub contains : Text → Text → Bool
unfolding has_prefix
contains [] p = has_prefix [] p
contains (c ∷ s) p = has_prefix (c ∷ s) p || contains s p

unfoldable pub drop_matching : Text → Text → Text
drop_matching s [] = s
drop_matching [] (d ∷ p) = []
drop_matching (c ∷ s) (d ∷ p) = drop_matching s p

-- `strings.TrimPrefix s p`
abbrev pub trim_prefix : Text → Text → Text
trim_prefix s p = if has_prefix s p then drop_matching s p else s

abbrev pub push : ℕ → List Text → List Text
push c [] = (c ∷ []) ∷ []
push c (w ∷ ws) = (c ∷ w) ∷ ws

-- `strings.Fields`: a character joins the word behind it unless a space is there.
unfoldable pub fields : Text → List Text
fields [] = []
fields (c ∷ []) = if is_space c then [] else (c ∷ []) ∷ []
fields (c ∷ d ∷ s) =
    let rest = fields (d ∷ s) in
    if is_space c then rest else if is_space d then (c ∷ []) ∷ rest else push c rest

-- `strings.Split s "\n"`
unfoldable pub split_lines : Text → List Text
split_lines [] = [] ∷ []
split_lines (c ∷ s) = let rest = split_lines s in if c == 10 then [] ∷ rest else push c rest

-- `strings.Join`, by a separator of one character
unfoldable pub join : ℕ → List Text → Text
join sep [] = []
join sep (w ∷ []) = w
join sep (w ∷ v ∷ ws) = w ++ sep ∷ join sep (v ∷ ws)

abbrev pub sudo : Text
sudo = codes "sudo"

abbrev pub flag_a : Text
flag_a = codes "-A"

-- `isSudoCommandLine`
unfoldable pub is_sudo_command_line : Text → Bool
unfolding trim_space has_prefix
is_sudo_command_line line =
    let trimmed : Text = trim_space line in
    not (has_prefix trimmed (codes "#"))
    && (same trimmed sudo || has_prefix trimmed (codes "sudo "))

abbrev pub after_sudo : Text → Text
after_sudo line = trim_left is_blank (trim_prefix (trim_space line) sudo)

-- `sudoHasAImmediately`
unfoldable pub sudo_has_a_immediately : Text → Bool
unfolding trim_space trim_left has_prefix drop_matching
sudo_has_a_immediately line =
    same (after_sudo line) flag_a || has_prefix (after_sudo line) (codes "-A ")

unfoldable pub without_flag : List Text → List Text
without_flag [] = []
without_flag (t ∷ ts) = let rest = without_flag ts in if same t flag_a then rest else t ∷ rest

abbrev pub rebuilt : List Text → Text
rebuilt [] = codes "sudo -A"
rebuilt (t ∷ ts) = codes "sudo -A " ++ join 32 (t ∷ ts)

-- `moveSudoAToFront`
unfoldable pub move_sudo_a_to_front : Text → Text
unfolding trim_space trim_left cut_left has_prefix drop_matching fields without_flag join
move_sudo_a_to_front line =
    cut_left is_blank line ++ rebuilt (without_flag (fields (after_sudo line)))

-- The body of the loop of `normalizeSudoAFlags`.
unfoldable pub normalize_line : Text → Text
unfolding is_sudo_command_line sudo_has_a_immediately move_sudo_a_to_front
normalize_line line =
    if is_sudo_command_line line && not (sudo_has_a_immediately line)
    then move_sudo_a_to_front line
    else line

unfoldable pub any_changed : List Text → Bool
unfolding normalize_line
any_changed [] = false
any_changed (l ∷ ls) = let rest = any_changed ls in not (same (normalize_line l) l) || rest

-- `normalizeSudoAFlags`
unfoldable pub normalize_sudo_a_flags : Text → Text × Bool
unfolding split_lines join normalize_line any_changed
normalize_sudo_a_flags content =
    (join 10 (map normalize_line (split_lines content)), any_changed (split_lines content))

-- The first line with its newline, as `strings.SplitAfter content "\n"` gives it, and the rest.
unfoldable pub first_line : Text → Text × Text
first_line [] = ([], [])
first_line (c ∷ s) =
    let rest = first_line s in if c == 10 then (c ∷ [], s) else (c ∷ rest.0, rest.1)

abbrev pub injected_tail : Text
injected_tail =
    (codes "): ensure non-zero exit on failure ---" ++ 10 ∷ [])
    ++ (codes "set -e       # exit immediately on any command failure" ++ 10 ∷ [])
    ++ (codes "# -----------------------------------------------------------" ++ 10 ∷ [])

abbrev pub injected : Text → Text
injected script_name = (10 ∷ codes "# --- injected by CICD (") ++ (script_name ++ injected_tail)

-- The lines before `insertAt`, the text, and the other lines; `insertAt` is 1 or 0.
unfoldable pub insert_at : Bool → Text → Text → Text
unfolding first_line
insert_at true text content = (first_line content).0 ++ (text ++ (first_line content).1)
insert_at false text content = text ++ content

abbrev pub has_set_e : Text → Bool
has_set_e content =
    contains content (codes "set -e")
    || (contains content (codes "set -eo") || contains content (codes "set -xe"))

-- `injectSafetyFlags`
unfoldable pub inject_safety_flags : Text → Text → Text × Bool
unfolding contains has_prefix first_line insert_at
inject_safety_flags content script_name = if has_set_e content then (content, false) else (
  insert_at (has_prefix (first_line content).0 (codes "#!")) (injected script_name) content,
  true,
)

-- What `patchShellScript` returns: the path of the original or of the copy, and the copy's content.
pub data Patched : Type 0 where
  original : Patched
  copy : Text → Patched

-- `patchShellScript`, by the content that is read and whether the copy is written.
unfoldable pub patch_shell_script : Text → Option Text → Bool → Patched
unfolding inject_safety_flags normalize_sudo_a_flags contains
patch_shell_script src_path none writes = original
patch_shell_script src_path (some bytes) writes =
    let install : Bool = contains src_path (codes "install.sh") in
    let safe : Text × Bool =
      if install then inject_safety_flags bytes (codes "install.sh") else (bytes, false) in
    let fixed : Text × Bool = normalize_sudo_a_flags safe.0 in
    if (safe.1 || fixed.1) && writes then copy fixed.0 else original
