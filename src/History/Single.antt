-- ===== src/History/Single.antt =====
-- Every operation keeps the table in order, with at most one current commit for each project.
use cicd.Prelude.{
  ℕ, ◌+◌, ◌≤◌, ◌≡◌, refl, ap, sym, ◌∙◌, Bool, true, false, ◌&&◌, Option, none, some, List, [], ◌∷◌,
  map, Text, ◌==◌, find, count, arith, if◌then◌else◌, Bool-cases, inl, inr,
}
use cicd.History.{
  CommitEntry, Trigger, History, add_commit_to_history, of_commit, awaits, current_of, reset,
  rolled, mark_latest, Answers, current_rows, set_current_commit, mark_commit_rolled_back,
}
use cicd.History.Order.{Descends, Descends-map, mark_first, mark_latest-eq-mark_first}

pub record IsWellFormed (h : History) : Type 0 where
  pub ordered : Descends h.next_id h.entries
  pub one_current : (q : ℕ) → count (current_of q) h.entries ≤ 1

pub count-reset_self : (q : ℕ) (es : List CommitEntry) → count (current_of q) (map (reset q) es) ≡ 0
unfolding count
count-reset_self q [] = refl
count-reset_self q (e ∷ es) = ground (arith, count-reset_self q es)

count-reset-le :
    (pid q : ℕ) (es : List CommitEntry)
    → count (current_of q) (map (reset pid) es) ≤ count (current_of q) es
unfolding count
count-reset-le pid q [] = omega arith
count-reset-le pid q (e ∷ es) = ground (arith, count-reset-le pid q es)

count-rolled-le :
    (pid : ℕ) (hash : Text) (q : ℕ) (es : List CommitEntry)
    → count (current_of q) (map (rolled pid hash) es) ≤ count (current_of q) es
unfolding count
count-rolled-le pid hash q [] = omega arith
count-rolled-le pid hash q (e ∷ es) = ground (arith, count-rolled-le pid hash q es)

-- Making a row of project `pid` current adds at most one current row, and none to other projects.
count-mark_first :
    (p : CommitEntry → Bool) (now pid q : ℕ) (es : List CommitEntry)
    → ((e : CommitEntry) → p e ≡ true → e.project_id ≡ pid)
    → count (current_of q) (mark_first p now es)
      ≤ count (current_of q) es + (if q == pid then 1 else 0)
unfolding count
count-mark_first p now pid q [] h = omega arith
count-mark_first p now pid q (e ∷ es) h = ground (arith, count-mark_first p now pid q es h, h e)

pub awaits-project :
    (pid : ℕ) (hash : Text) (e : CommitEntry) → awaits pid hash e ≡ true → e.project_id ≡ pid
awaits-project pid hash e t = ground arith

pub of_commit-project :
    (pid : ℕ) (hash : Text) (e : CommitEntry) → of_commit pid hash e ≡ true → e.project_id ≡ pid
of_commit-project pid hash e t = ground arith

pub reset-id : (pid : ℕ) (e : CommitEntry) → (reset pid e).id ≡ e.id
reset-id pid e = ground arith

-- What the transaction writes: the rows with the project's current one reset, and then the first of
-- them that passes a test made current, or none.
pub data Written (now pid n : ℕ) (es rows : List CommitEntry) : Type 0 where
  marked :
      (p : CommitEntry → Bool)
      → ((e : CommitEntry) → p e ≡ true → e.project_id ≡ pid)
      → rows ≡ mark_first p now (map (reset pid) es)
      → Written now pid n es rows
  only_reset : rows ≡ map (reset pid) es → Written now pid n es rows

pub current_rows-Written :
    (fallback : Bool) (now pid n : ℕ) (hash : Text) (es : List CommitEntry)
    → Descends n es
    → Written now pid n es (current_rows fallback now pid hash es)
unfolding current_rows
current_rows-Written fallback now pid n hash es h =
    cases (find (awaits pid hash) (map (reset pid) es)) refl
  where
    d : Descends n (map (reset pid) es)
    d = Descends-map (reset pid) (reset-id pid) n es h

    cases :
        (o : Option CommitEntry)
        → find (awaits pid hash) (map (reset pid) es) ≡ o
        → Written now pid n es (elim o [
          | some e ↦ mark_latest now (some e) (map (reset pid) es)
          | none ↦
              if fallback
              then mark_latest now
                  (find (of_commit pid hash) (map (reset pid) es))
                  (map (reset pid) es)
              else map (reset pid) es
        ])
    cases none f = no_row fallback
      where
        no_row :
            (b : Bool)
            → Written now pid n es (
                if b
                then mark_latest now
                    (find (of_commit pid hash) (map (reset pid) es))
                    (map (reset pid) es)
                else map (reset pid) es)
        no_row true =
            marked (of_commit pid hash) (of_commit-project pid hash)
              (mark_latest-eq-mark_first (of_commit pid hash) now n (map (reset pid) es) d)
        no_row false = only_reset refl
    cases (some e) f = marked (awaits pid hash) (awaits-project pid hash) (
        ap (λ o. mark_latest now o (map (reset pid) es)) (sym f)
        ∙ mark_latest-eq-mark_first (awaits pid hash) now n (map (reset pid) es) d)

mark_first-Descends :
    (p : CommitEntry → Bool) (now n : ℕ) (es : List CommitEntry)
    → Descends n es
    → Descends n (mark_first p now es)
mark_first-Descends p now n [] h = tt
mark_first-Descends p now n (e ∷ es) (q, h) = elim (Bool-cases (p e)) [
  | inl t ↦ rw t (q, h)
  | inr t ↦ rw t (q, mark_first-Descends p now e.id es h)
]

module _ {now pid n : ℕ} (es rows : List CommitEntry) where
  Written-Descends : Written now pid n es rows → Descends n es → Descends n rows
  Written-Descends (marked p h e) d = rw e (
      mark_first-Descends p now n (map (reset pid) es)
        (Descends-map (reset pid) (reset-id pid) n es d))
  Written-Descends (only_reset e) d = rw e (Descends-map (reset pid) (reset-id pid) n es d)

  Written-count :
      (q : ℕ)
      → Written now pid n es rows
      → count (current_of q) es ≤ 1
      → count (current_of q) rows ≤ 1
  Written-count q (marked p h e) c = ground (
    arith,
    count-mark_first p now pid q (map (reset pid) es) h,
    count-reset-le pid q es,
    count-reset_self q es,
  )
  Written-count q (only_reset e) c = ground (arith, count-reset-le pid q es)

-- Adding a commit keeps the table in order with at most one current commit for each project.
pub add_commit-IsWellFormed :
    (done : Bool) (now pid : ℕ) (hash msg : Text) (by : Trigger) (h : History)
    → IsWellFormed h
    → IsWellFormed (add_commit_to_history done now pid hash msg by h).0
unfolding add_commit_to_history
add_commit-IsWellFormed true now pid hash msg by h w = record {
  ordered = (omega arith, w.ordered);
  one_current = λ q. unfold count in ground (arith, w.one_current q);
}
add_commit-IsWellFormed false now pid hash msg by h w = w

-- `SetCurrentCommit`, whatever SQLite answers to its statements, keeps the table in order with at
-- most one current commit for each project.
pub set_current_commit-IsWellFormed :
    (a : Answers) (now pid : ℕ) (hash : Text) (h : History)
    → IsWellFormed h
    → IsWellFormed (set_current_commit a now pid hash h).0
unfolding set_current_commit
set_current_commit-IsWellFormed a now pid hash h w =
    cases (a.begin && (a.reset_current && (a.set_current && a.commit)))
  where
    rows : List CommitEntry
    rows = current_rows a.fallback now pid hash h.entries

    written : Written now pid h.next_id h.entries rows
    written = current_rows-Written a.fallback now pid h.next_id hash h.entries w.ordered

    cases :
        (b : Bool)
        → IsWellFormed
            (if◌then◌else◌ {A = History × Bool} b (record h { entries = rows }, true) (h, false)).0
    cases true = record {
      ordered = Written-Descends h.entries rows written w.ordered;
      one_current = λ q. Written-count h.entries rows q written (w.one_current q);
    }
    cases false = w

-- Marking a commit as rolled back keeps the table in order with at most one current commit each.
pub mark_rolled_back-IsWellFormed :
    (done : Bool) (pid : ℕ) (hash : Text) (h : History)
    → IsWellFormed h
    → IsWellFormed (mark_commit_rolled_back done pid hash h).0
unfolding mark_commit_rolled_back
mark_rolled_back-IsWellFormed true pid hash h w = record {
  ordered = Descends-map (rolled pid hash) (λ e. ground arith) h.next_id h.entries w.ordered;
  one_current = λ q. omega (arith, count-rolled-le pid hash q h.entries, w.one_current q);
}
mark_rolled_back-IsWellFormed false pid hash h w = w
