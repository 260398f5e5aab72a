-- ===== src/Projects/Keys/Update.antt =====
-- `UpdateProject` and the constraints of the table.
use cicd.Prelude.{
  ℕ, ◌≤◌, ◌≡◌, refl, Bool, true, false, not, ◌&&◌, Option, none, some, List, [], ◌∷◌, arith, Text,
  find, count, Bool-cases, inl, inr, if◌then◌else◌,
}
use cicd.Config.{Config}
use cicd.Projects.{
  Project, Projects, overwrite, new_project, has_key, with_id, update_where, taken, is_some,
  update_project,
}
use cicd.Projects.Keys.{IsKeyed, key-new, count-update, Below-update}

-- The key of an overwritten row is the configuration's, so it does not depend on the row.
module _ (cfg : Config) (id : ℕ) (url branch name : Text) where
  updated-hit :
      (sample : Project) (ps : List Project)
      → has_key url branch name (overwrite cfg sample) ≡ true
      → find (taken id cfg) ps ≡ none
      → count (has_key url branch name) (update_where (with_id id) (overwrite cfg) ps)
        ≡ count (with_id id) ps
  unfolding count update_where find
  updated-hit sample [] h f = refl
  updated-hit sample (p ∷ ps) h f =
      ground (arith, updated-hit sample ps h, key-new cfg 0 url branch name p h)

  updated-miss :
      (sample : Project) (ps : List Project)
      → has_key url branch name (overwrite cfg sample) ≡ false
      → count (has_key url branch name) (update_where (with_id id) (overwrite cfg) ps)
        ≤ count (has_key url branch name) ps
  unfolding count update_where
  updated-miss sample [] h = omega arith
  updated-miss sample (p ∷ ps) h = ground (arith, updated-miss sample ps h)

update_where-none :
    (test : Project → Bool) (f : Project → Project) (ps : List Project)
    → find test ps ≡ none
    → update_where test f ps ≡ ps
unfolding update_where find
update_where-none test f [] h = refl
update_where-none test f (p ∷ ps) h = ground (arith, update_where-none test f ps)

overwritten-IsKeyed :
    (id : ℕ) (cfg : Config) (t : Projects)
    → find (taken id cfg) t.rows ≡ none
    → IsKeyed t
    → IsKeyed (record t { rows = update_where (with_id id) (overwrite cfg) t.rows })
overwritten-IsKeyed id cfg t f w = record {
  one_each = λ url branch name. one url branch name;
  one_id = λ i.
      rw (count-update (with_id i) (with_id id) (overwrite cfg) t.rows (λ p e. refl)) (w.one_id i);
  below_next = Below-update t.next_id (with_id id) (overwrite cfg) t.rows (λ p. refl) w.below_next;
}
  where
    one :
        (url branch name : Text)
        → count (has_key url branch name) (update_where (with_id id) (overwrite cfg) t.rows) ≤ 1
    one url branch name = elim (Bool-cases (has_key url branch name (new_project 0 cfg))) [
      | inl h ↦
          omega
            (arith, updated-hit cfg id url branch name (new_project 0 cfg) t.rows h f, w.one_id id)
      | inr h ↦ omega (
        arith,
        updated-miss cfg id url branch name (new_project 0 cfg) t.rows h,
        w.one_each url branch name,
      )
    ]

-- Updating a project by its id keeps the keys and the ids unique: an update that would give two rows
-- one key is refused.
pub update_project-IsKeyed :
    (done : Bool) (id : ℕ) (cfg : Config) (t : Projects)
    → IsKeyed t
    → IsKeyed (update_project done id cfg t).0
unfolding update_project
update_project-IsKeyed false id cfg t w = w
update_project-IsKeyed true id cfg t w =
    cases (find (with_id id) t.rows) (find (taken id cfg) t.rows) refl refl
  where
    written : Projects
    written = record t { rows = update_where (with_id id) (overwrite cfg) t.rows }

    after : Option Project → Option Project → Projects × Bool
    after a b = if not (is_some a && is_some b) then (written, true) else (t, false)

    cases :
        (a b : Option Project)
        → find (with_id id) t.rows ≡ a
        → find (taken id cfg) t.rows ≡ b
        → IsKeyed (after a b).0
    cases none b e f = rw (update_where-none (with_id id) (overwrite cfg) t.rows e) w
    cases (some p) none e f = overwritten-IsKeyed id cfg t f w
    cases (some p) (some q) e f = w
