-- ===== src/Projects/Keys.antt =====
-- The constraints of the table: no two rows share a repository, branch and service name, and no two
-- share an id. Its child is about `UpdateProject`.
pub mod Update
use cicd.Prelude.{
  ℕ, suc, ◌+◌, ◌≤◌, ◌<◌, ◌≡◌, ◌∙◌, refl, ap, Bool, true, false, not, ◌&&◌, Option, none, some, List,
  [], ◌∷◌, ◌++◌, arith, Text, ◌==◌, find, count, All, Bool-cases, inl, inr, if◌then◌else◌, ◌⊎◌,
}
use cicd.Config.{Config}
use cicd.Process.{DeployStatus}
use cicd.Projects.{
  Project, Projects, overwrite, new_project, has_key, conflicts, with_id, update_where, taken,
  is_some, register_project, update_project, delete_where, delete_project, set_project_pinned,
  set_deploy_status, set_deploy_status_by_dir, update_commit_hash_local, update_last_commit_info,
}

abbrev pub Below : ℕ → Project → Type 0
Below n p = p.id < n

pub record IsKeyed (t : Projects) : Type 0 where
  pub one_each : (url branch name : Text) → count (has_key url branch name) t.rows ≤ 1
  pub one_id : (id : ℕ) → count (with_id id) t.rows ≤ 1
  pub below_next : All (Below t.next_id) t.rows

pub count-update :
    (k test : Project → Bool) (f : Project → Project) (ps : List Project)
    → ((p : Project) → test p ≡ true → k (f p) ≡ k p)
    → count k (update_where test f ps) ≡ count k ps
unfolding count update_where
count-update k test f [] h = refl
count-update k test f (p ∷ ps) h = ground (arith, h p, count-update k test f ps h)

pub Below-update :
    (n : ℕ) (test : Project → Bool) (f : Project → Project) (ps : List Project)
    → ((p : Project) → (f p).id ≡ p.id)
    → All (Below n) ps
    → All (Below n) (update_where test f ps)
unfolding update_where
Below-update n test f [] h b = tt
Below-update n test f (p ∷ ps) h (q, b) = elim (Bool-cases (test p)) [
  | inl t ↦ rw t (rw (h p) q, Below-update n test f ps h b)
  | inr t ↦ rw t (q, Below-update n test f ps h b)
]

-- An update of rows that keeps their ids and keys keeps the constraints.
update-IsKeyed :
    (test : Project → Bool) (f : Project → Project) (t : Projects)
    → ((p : Project) → (f p).id ≡ p.id)
    → ((url branch name : Text) (p : Project)
        → test p ≡ true
        → has_key url branch name (f p) ≡ has_key url branch name p)
    → IsKeyed t
    → IsKeyed (record t { rows = update_where test f t.rows })
update-IsKeyed test f t same_id same_key w = record {
  one_each = λ url branch name.
      rw (count-update (has_key url branch name) test f t.rows (same_key url branch name))
        (w.one_each url branch name);
  one_id = λ id.
      rw (count-update (with_id id) test f t.rows (λ p e. ap (λ (n : ℕ). n == id) (same_id p)))
        (w.one_id id);
  below_next = Below-update t.next_id test f t.rows same_id w.below_next;
}

overwrite-key :
    (cfg : Config) (url branch name : Text) (p : Project)
    → conflicts cfg p ≡ true
    → has_key url branch name (overwrite cfg p) ≡ has_key url branch name p
overwrite-key cfg url branch name p h = ground arith

count-append :
    (k : Project → Bool) (ps qs : List Project) → count k (ps ++ qs) ≡ count k ps + count k qs
unfolding count
count-append k [] qs = omega arith
count-append k (p ∷ ps) qs = omega (arith, count-append k ps qs)

count-none : (k : Project → Bool) (ps : List Project) → find k ps ≡ none → count k ps ≡ 0
unfolding count find
count-none k [] h = refl
count-none k (p ∷ ps) h = ground (arith, count-none k ps)

count-above : (n : ℕ) (ps : List Project) → All (Below n) ps → count (with_id n) ps ≡ 0
unfolding count
count-above n [] b = refl
count-above n (p ∷ ps) (q, b) = ground (arith, count-above n ps b)

Below-append :
    (n : ℕ) (ps : List Project) (p : Project)
    → All (Below n) ps
    → p.id ≡ n
    → All (Below (suc n)) (ps ++ p ∷ [])
Below-append n [] p b e = (omega arith, tt)
Below-append n (q ∷ ps) p (h, b) e = (omega arith, Below-append n ps p b e)

pub key-new :
    (cfg : Config) (id : ℕ) (url branch name : Text) (p : Project)
    → has_key url branch name (new_project id cfg) ≡ true
    → has_key url branch name p ≡ conflicts cfg p
key-new cfg id url branch name p h = ground arith

count-ext :
    (k l : Project → Bool) (ps : List Project)
    → ((p : Project) → k p ≡ l p)
    → count k ps ≡ count l ps
unfolding count
count-ext k l [] h = refl
count-ext k l (p ∷ ps) h = ground (arith, h p, count-ext k l ps h)

-- One more row that passes the test, where none did, or that does not, where at most one did.
count-insert :
    (k : Project → Bool) (ps : List Project) (p : Project)
    → (k p ≡ true → count k ps ≡ 0)
    → count k ps ≤ 1
    → count k (ps ++ p ∷ []) ≤ 1
count-insert k ps p h c = omega (arith, count-append k ps (p ∷ []), single (Bool-cases (k p)))
  where
    single : (k p ≡ true) ⊎ (k p ≡ false) → count k ps + count k (p ∷ []) ≤ 1
    single (inl t) = unfold count in ground (arith, h t)
    single (inr f) = unfold count in ground arith

insert-IsKeyed :
    (cfg : Config) (t : Projects)
    → find (conflicts cfg) t.rows ≡ none
    → IsKeyed t
    → IsKeyed (record { rows = t.rows ++ new_project t.next_id cfg ∷ []; next_id = suc t.next_id })
insert-IsKeyed cfg t h w = record {
  one_each = λ url branch name.
      count-insert (has_key url branch name) t.rows (new_project t.next_id cfg)
        (λ e.
          count-ext (has_key url branch name) (conflicts cfg) t.rows
            (λ p. key-new cfg t.next_id url branch name p e)
          ∙ count-none (conflicts cfg) t.rows h)
        (w.one_each url branch name);
  one_id = λ id.
      count-insert (with_id id) t.rows (new_project t.next_id cfg)
        (λ e. ground (arith, count-above t.next_id t.rows w.below_next)) (w.one_id id);
  below_next = Below-append t.next_id t.rows (new_project t.next_id cfg) w.below_next refl;
}

-- Registering a project, new or known, keeps the keys and the ids of the table unique.
pub register_project-IsKeyed :
    (done : Bool) (cfg : Config) (t : Projects)
    → IsKeyed t
    → IsKeyed (register_project done cfg t).0
register_project-IsKeyed false cfg t w = unfold register_project in w
register_project-IsKeyed true cfg t w =
    unfold register_project in cases (find (conflicts cfg) t.rows) refl
  where
    added : Projects
    added = record { rows = t.rows ++ new_project t.next_id cfg ∷ []; next_id = suc t.next_id }

    replaced : Projects
    replaced = record t { rows = update_where (conflicts cfg) (overwrite cfg) t.rows }

    after : Option Project → Projects × Bool
    after o = elim o [ some p ↦ (replaced, true) | none ↦ (added, true) ]

    cases : (o : Option Project) → find (conflicts cfg) t.rows ≡ o → IsKeyed (after o).0
    cases none e = insert-IsKeyed cfg t e w
    cases (some p) e =
        update-IsKeyed (conflicts cfg) (overwrite cfg) t (λ q. refl)
          (λ url branch name q h. overwrite-key cfg url branch name q h) w

delete-count-le :
    (k test : Project → Bool) (ps : List Project) → count k (delete_where test ps) ≤ count k ps
unfolding count delete_where
delete-count-le k test [] = omega arith
delete-count-le k test (p ∷ ps) = ground (arith, delete-count-le k test ps)

delete-Below :
    (n : ℕ) (test : Project → Bool) (ps : List Project)
    → All (Below n) ps
    → All (Below n) (delete_where test ps)
unfolding delete_where
delete-Below n test [] b = tt
delete-Below n test (p ∷ ps) (q, b) = elim (Bool-cases (test p)) [
  | inl t ↦ rw t (delete-Below n test ps b)
  | inr t ↦ rw t (q, delete-Below n test ps b)
]

count-deleted : (k : Project → Bool) (ps : List Project) → count k (delete_where k ps) ≡ 0
unfolding count delete_where
count-deleted k [] = refl
count-deleted k (p ∷ ps) = ground (arith, count-deleted k ps)

-- Deleting a project keeps the keys and the ids unique, and the id is gone.
pub delete_project-IsKeyed :
    (id : ℕ) (t : Projects)
    → IsKeyed t
    → IsKeyed (delete_project true id t).0
      × (count (with_id id) (delete_project true id t).0.rows ≡ 0)
unfolding delete_project
delete_project-IsKeyed id t w = (
  record {
    one_each = λ url branch name. omega (
      arith,
      delete-count-le (has_key url branch name) (with_id id) t.rows,
      w.one_each url branch name,
    );
    one_id = λ i. omega (arith, delete-count-le (with_id i) (with_id id) t.rows, w.one_id i);
    below_next = delete-Below t.next_id (with_id id) t.rows w.below_next;
  },
  count-deleted (with_id id) t.rows,
)

-- Every write of a status, a pin or a commit keeps the keys and the ids unique.
pub column_writes-IsKeyed :
    (done pinned : Bool) (id : ℕ) (dir hash msg : Text) (status : DeployStatus) (t : Projects)
    → IsKeyed t
    → IsKeyed (set_project_pinned done id pinned t).0
      × IsKeyed (set_deploy_status done id status t).0
      × IsKeyed (set_deploy_status_by_dir done dir status t).0
      × IsKeyed (update_commit_hash_local done dir hash t).0
      × IsKeyed (update_last_commit_info done dir hash msg t).0
unfolding set_project_pinned set_deploy_status set_deploy_status_by_dir update_commit_hash_local
    update_last_commit_info
column_writes-IsKeyed false pinned id dir hash msg status t w = (w, w, w, w, w)
column_writes-IsKeyed true pinned id dir hash msg status t w = (
  update-IsKeyed _ _ t (λ p. refl) (λ url branch name p e. refl) w,
  update-IsKeyed _ _ t (λ p. refl) (λ url branch name p e. refl) w,
  update-IsKeyed _ _ t (λ p. refl) (λ url branch name p e. refl) w,
  update-IsKeyed _ _ t (λ p. refl) (λ url branch name p e. refl) w,
  update-IsKeyed _ _ t (λ p. refl) (λ url branch name p e. refl) w,
)
