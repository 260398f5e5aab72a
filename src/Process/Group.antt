-- ===== src/Process/Group.antt =====
-- The members of a process group (gosrc/actions/executor_linux.go: getChildrenInGroup). How `strconv`
-- reads a number, none below 1, and how `fmt` prints one are arguments.
pub mod Stat
pub mod Members
mod Tests
use cicd.Prelude.{
  ℕ, Bool, true, false, not, ◌&&◌, Option, none, some, List, [], ◌∷◌, ◌++◌, Text, same, ◌==◌,
  if◌then◌else◌,
}
use cicd.Script.{fields}

-- An entry of /proc, with what reading its `stat` file gives.
pub record ProcEntry : Type 0 where
  pub is_dir : Bool
  pub name : Text
  pub stat : Option Text

-- What stands behind the last `)` of a text.
unfoldable pub after_last_paren : Text → Option Text
after_last_paren [] = none
after_last_paren (c ∷ s) = elim (after_last_paren s) [
  | some rest ↦ some rest
  | none ↦ if c == 41 then some s else none
]

-- The third field, if there are as many.
abbrev pub third : List Text → Option Text
third [] = none
third (a ∷ []) = none
third (a ∷ b ∷ []) = none
third (a ∷ b ∷ c ∷ rest) = some c

-- The process group in the text of a `stat` file.
abbrev pub group_behind : Text → Option Text
group_behind [] = none
group_behind (c ∷ []) = none
group_behind (c ∷ d ∷ s) = third (fields (d ∷ s))

unfoldable pub group_of_stat : Text → Option Text
unfolding after_last_paren fields
group_of_stat stat = elim (after_last_paren stat) [ none ↦ none | some rest ↦ group_behind rest ]

abbrev pub is_group : Text → Option Text → Bool
is_group target none = false
is_group target (some group) = same group target

abbrev pub in_group : Text → Option Text → Bool
in_group target none = false
in_group target (some stat) = is_group target (group_of_stat stat)

abbrev pub child_of : (ℕ → Text) → ℕ → ProcEntry → Option ℕ → List ℕ
child_of decimal pgid e none = []
child_of decimal pgid e (some pid) =
    if not (pid == pgid) && in_group (decimal pgid) e.stat then pid ∷ [] else []

-- The loop over the entries.
unfoldable pub children_among : (Text → Option ℕ) → (ℕ → Text) → ℕ → List ProcEntry → List ℕ
children_among atoi decimal pgid [] = []
children_among atoi decimal pgid (e ∷ es) =
    (if e.is_dir then child_of decimal pgid e (atoi e.name) else [])
    ++ children_among atoi decimal pgid es

-- `getChildrenInGroup`, for what `os.ReadDir` returns.
unfoldable pub get_children_in_group :
    (Text → Option ℕ) → (ℕ → Text) → ℕ → Option (List ProcEntry) → List ℕ
unfolding children_among
get_children_in_group atoi decimal pgid none = []
get_children_in_group atoi decimal pgid (some es) =
    if pgid == 0 then [] else children_among atoi decimal pgid es
