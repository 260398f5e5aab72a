-- ===== src/Cli.antt =====
-- The commands that change state (gosrc/cli/handler.go). A command is a process of its own that ends
-- when its handler returns, and what a handler has started in the background ends with it.
pub mod Rollback
mod Tests
use cicd.Prelude.{
  ℕ, Bool, true, false, not, ◌&&◌, ◌||◌, Option, none, some, List, [], ◌∷◌, Text, codes, same,
  is_empty, is_set, if◌then◌else◌,
}
use cicd.Config.{Config}
use cicd.Settings.{Settings, load_global_settings}
use cicd.Settings.Token.{Times, generate_setup_token}
use cicd.Projects.{Project, Projects, get_project_by_id, get_project_by_name, set_project_pinned}
use cicd.Projects.ToConfig.{Outcome, config, lacks, to_config}
use cicd.Process.{RunMode, installed}
use cicd.Pipeline.{World, RollbackEnv, too_short, set_status, is_install_only, rollback_to_commit}

pub data Ended : Type 0 where
  done usage not_found config_error failed crashed kept : Ended

abbrev or_by_name : Text → Projects → Option Project → Option Project
or_by_name arg t none = get_project_by_name arg t
or_by_name arg t (some p) = some p

abbrev by_id : Option ℕ → Projects → Option Project
by_id none t = none
by_id (some id) t = get_project_by_id id t

-- `resolveProject`; `as_id` is the number that SQLite compares with the column of ids, if the text is one.
unfoldable pub resolve_project : (Text → Option ℕ) → Text → Projects → Option Project
unfolding get_project_by_id get_project_by_name
resolve_project as_id arg t = or_by_name arg t (by_id (as_id arg) t)

-- What the health check's goroutine has done when the process ends: it sleeps for 15 seconds first,
-- but for an install-only project it writes the status at once, if it is scheduled `in_time`.
abbrev pub at_exit : Bool → RunMode → Config → World → World
at_exit in_time mode cfg w =
    if is_install_only mode && in_time then set_status cfg.service_dir installed w else w

-- `cicd rollback <name|id> <hash>`, for the arguments behind the command; `mode` is `GetRunMode`.
unfoldable pub handle_rollback :
    (Text → Option ℕ)
    → Bool
    → RunMode
    → RollbackEnv
    → Option Settings
    → List Text
    → World
    → World × Ended
unfolding resolve_project to_config rollback_to_commit
handle_rollback as_id in_time mode env row [] w = (w, usage)
handle_rollback as_id in_time mode env row (arg ∷ []) w = (w, usage)
handle_rollback as_id in_time mode env row (arg ∷ hash ∷ args) w =
    elim (resolve_project as_id arg w.projects) [
      | none ↦ (w, not_found)
      | some p ↦ elim (to_config row p) [
        | lacks fs ↦ (w, config_error)
        | config cfg ↦
            if too_short hash
            then (w, crashed)
            else let o = rollback_to_commit env cfg hash w in
              if env.deploys then (at_exit in_time mode cfg o.world, done) else (o.world, failed)
      ]
    ]

-- `cicd pin <name|id>` and `cicd unpin <name|id>`; further arguments are not looked at.
unfoldable pub handle_pin :
    (Text → Option ℕ) → Bool → Bool → List Text → Projects → Projects × Ended
unfolding resolve_project
handle_pin as_id written pinned [] t = (t, usage)
handle_pin as_id written pinned (arg ∷ args) t = elim (resolve_project as_id arg t) [
  | none ↦ (t, not_found)
  | some p ↦ ((set_project_pinned written p.id pinned t).0, if written then done else failed)
]

-- `cicd reinstall <name|id>`: the directory whose install.hash is removed.
unfoldable pub handle_reinstall : (Text → Option ℕ) → List Text → Projects → Option Text × Ended
unfolding resolve_project
handle_reinstall as_id [] t = (none, usage)
handle_reinstall as_id (arg ∷ args) t = elim (resolve_project as_id arg t) [
  | none ↦ (none, not_found)
  | some p ↦ (some p.service_dir, done)
]

abbrev forced : List Text → Bool
forced [] = false
forced (arg ∷ args) = same arg (codes "--force") || same arg (codes "-f")

abbrev shown : Option Text → Ended
shown none = failed
shown (some token) = done

-- `cicd token [--force]`; a command line has no explicit flags.
unfoldable pub handle_token :
    Times → Bool → Bool → ℕ → Text → List Text → Config → Option Settings → Option Settings × Ended
unfolding generate_setup_token load_global_settings
handle_token times updates inserts now token args cfg row =
    let loaded : Config = load_global_settings (λ name. false) row cfg in
    if is_set loaded.admin_email && not (forced args)
    then (row, kept)
    else let (row', o) = generate_setup_token times updates inserts now token row in (row', shown o)
