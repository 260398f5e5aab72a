-- ===== src/History/Target.antt =====
-- What `SetCurrentCommit` is for: the commit asked for becomes the project's current one, and the
-- rows of other projects stay as they were.
use cicd.Prelude.{
  ◌⊎◌, inl, inr, ℕ, ◌≡◌, ◌≢◌, refl, ap, sym, ◌∙◌, Bool, true, false, ◌&&◌, Option, none, some, List,
  [], ◌∷◌, map, Text, find, count, arith, if◌then◌else◌,
}
use cicd.History.{
  hash_of, CommitEntry, History, of_commit, awaits, current_of, reset, made_current, mark_latest,
  rows_of, Answers, current_rows, set_current_commit, get_previous_current_commit,
}
use cicd.History.Order.{Descends, Descends-map, mark_first, mark_latest-eq-mark_first}
use cicd.History.Single.{
  IsWellFormed, of_commit-project, count-reset_self, reset-id, Written, marked, only_reset,
  current_rows-Written,
}

find_sound :
    (p : CommitEntry → Bool) (es : List CommitEntry) (e : CommitEntry)
    → find p es ≡ some e
    → p e ≡ true
unfolding find
find_sound p [] e f = cc
find_sound p (x ∷ es) e f = ground (arith, find_sound p es e)

find-reset :
    (pid : ℕ) (hash : Text) (es : List CommitEntry) (e : CommitEntry)
    → find (of_commit pid hash) es ≡ some e
    → find (of_commit pid hash) (map (reset pid) es) ≡ some (reset pid e)
unfolding find
find-reset pid hash [] e f = cc
find-reset pid hash (x ∷ es) e f = ground (arith, find-reset pid hash es e)

find-mark_first :
    (p : CommitEntry → Bool) (now pid : ℕ) (es : List CommitEntry) (e : CommitEntry)
    → count (current_of pid) es ≡ 0
    → find p es ≡ some e
    → e.project_id ≡ pid
    → find (current_of pid) (mark_first p now es) ≡ some (made_current now e)
unfolding find count
find-mark_first p now pid [] e c f q = cc
find-mark_first p now pid (x ∷ es) e c f q = ground (arith, find-mark_first p now pid es e)

abbrev pub all_done : Answers
all_done = record {
  begin = true;
  reset_current = true;
  set_current = true;
  fallback = true;
  commit = true;
}

-- The row that an update by key makes current is the one that the project then has.
current_hash :
    (p : CommitEntry → Bool) (now pid : ℕ) (hash : Text) (n : ℕ) (es : List CommitEntry)
    (e : CommitEntry)
    → Descends n es
    → count (current_of pid) es ≡ 0
    → find p es ≡ some e
    → of_commit pid hash e ≡ true
    → find (current_of pid) (mark_latest now (some e) es) ≡ some (made_current now e)
current_hash p now pid hash n es e d c f t =
    ap (find (current_of pid))
      (ap (λ o. mark_latest now o es) (sym f) ∙ mark_latest-eq-mark_first p now n es d)
    ∙ find-mark_first p now pid es e c f (of_commit-project pid hash e t)

of_awaits :
    (pid : ℕ) (hash : Text) (e : CommitEntry)
    → awaits pid hash e ≡ true
    → of_commit pid hash e ≡ true
of_awaits pid hash e t = ground arith

of_commit-hash :
    (pid : ℕ) (hash : Text) (e : CommitEntry) → of_commit pid hash e ≡ true → e.commit_hash ≡ hash
of_commit-hash pid hash e t = ground arith

-- If the project has a row for the hash, `SetCurrentCommit` without a refused statement makes that
-- hash the one that `GetPreviousCurrentCommit` returns.
pub get_previous-set_current :
    (now pid : ℕ) (hash : Text) (h : History) (e : CommitEntry)
    → IsWellFormed h
    → find (of_commit pid hash) h.entries ≡ some e
    → get_previous_current_commit pid (set_current_commit all_done now pid hash h).0 ≡ some hash
unfolding set_current_commit get_previous_current_commit
get_previous-set_current now pid hash h e w f =
    cases (find (awaits pid hash) (map (reset pid) h.entries)) refl
  where
    es' : List CommitEntry
    es' = map (reset pid) h.entries

    d : Descends h.next_id es'
    d = Descends-map (reset pid) (reset-id pid) h.next_id h.entries w.ordered

    cases :
        (o : Option CommitEntry)
        → find (awaits pid hash) es' ≡ o
        → hash_of (
            find (current_of pid) (elim o [
              | some x ↦ mark_latest now (some x) es'
              | none ↦ mark_latest now (find (of_commit pid hash) es') es'
            ]))
          ≡ some hash
    cases (some x) g =
        let t : of_commit pid hash x ≡ true = of_awaits pid hash x (find_sound _ es' x g) in
        ap hash_of (
          current_hash (awaits pid hash) now pid hash h.next_id es' x d
            (count-reset_self pid h.entries) g t)
        ∙ ap some (of_commit-hash pid hash x t)
    cases none g =
        let k = find-reset pid hash h.entries e f in
        let t : of_commit pid hash (reset pid e) ≡ true = find_sound _ es' (reset pid e) k in
        ap (λ o. hash_of (find (current_of pid) (mark_latest now o es'))) k
        ∙ ap hash_of (
            current_hash (of_commit pid hash) now pid hash h.next_id es' (reset pid e) d
              (count-reset_self pid h.entries) k t)
        ∙ ap some (of_commit-hash pid hash (reset pid e) t)

rows_of-reset :
    (pid q : ℕ) (es : List CommitEntry) → q ≢ pid → rows_of q (map (reset pid) es) ≡ rows_of q es
unfolding rows_of
rows_of-reset pid q [] h = refl
rows_of-reset pid q (e ∷ es) h = ground (arith, rows_of-reset pid q es h)

rows_of-mark_first :
    (p : CommitEntry → Bool) (now pid q : ℕ) (es : List CommitEntry)
    → ((e : CommitEntry) → p e ≡ true → e.project_id ≡ pid)
    → q ≢ pid
    → rows_of q (mark_first p now es) ≡ rows_of q es
unfolding rows_of
rows_of-mark_first p now pid q [] hp h = refl
rows_of-mark_first p now pid q (e ∷ es) hp h =
    ground (arith, rows_of-mark_first p now pid q es hp h, hp e)

-- `SetCurrentCommit` changes no row of another project, whatever SQLite answers, and if it
-- reports an error it has changed nothing at all.
set_current_commit_frame :
    (a : Answers) (now pid q : ℕ) (hash : Text) (h : History)
    → IsWellFormed h
    → q ≢ pid
    → (rows_of q (set_current_commit a now pid hash h).0.entries ≡ rows_of q h.entries)
      × (((set_current_commit a now pid hash h).1 ≡ true)
          ⊎ ((set_current_commit a now pid hash h).0 ≡ h))
unfolding set_current_commit
set_current_commit_frame a now pid q hash h w ne =
    cases (a.begin && (a.reset_current && (a.set_current && a.commit)))
  where
    rows : List CommitEntry
    rows = current_rows a.fallback now pid hash h.entries

    same_rows : Written now pid h.next_id h.entries rows → rows_of q rows ≡ rows_of q h.entries
    same_rows (marked p hp e) =
        ap (rows_of q) e
        ∙ rows_of-mark_first p now pid q (map (reset pid) h.entries) hp ne
        ∙ rows_of-reset pid q h.entries ne
    same_rows (only_reset e) = ap (rows_of q) e ∙ rows_of-reset pid q h.entries ne

    after : Bool → History × Bool
    after b = if b then (record h { entries = rows }, true) else (h, false)

    cases :
        (b : Bool)
        → (rows_of q (after b).0.entries ≡ rows_of q h.entries)
          × (((after b).1 ≡ true) ⊎ ((after b).0 ≡ h))
    cases true = (
      same_rows (current_rows-Written a.fallback now pid h.next_id hash h.entries w.ordered),
      inl refl,
    )
    cases false = (refl, inr refl)
