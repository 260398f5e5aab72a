-- ===== src/Fleet/Spacing.antt =====
-- How often the events of one commit deploy.
use cicd.Prelude.{
  ℕ, ◌+◌, ◌≤◌, ◌<◌, ◌≡◌, refl, Bool, true, false, Option, none, some, List, [], ◌∷◌, arith, Text,
  same, same_self, is_empty, ltb, length, All, inl, inr, Bool-cases, if◌then◌else◌,
}
use mathlib.Core.Path.{subst}
use cicd.Config.{Config}
use cicd.Settings.{Settings}
use cicd.Projects.{Projects}
use cicd.Fleet.{
  projects_of_repo, Document, Watch, load, is_recent, deploy_all, dedup_key, on_commit, on_event,
  Round, watch_loop,
}

-- The newest entry of the key is there, and not older than `t`.
pub record IsTaken (key : Text) (t : ℕ) (w : Watch) : Type 0 where
  pub at : ℕ
  pub entry : load key w.recent ≡ some at
  pub not_before : t ≤ at

-- The state behind an event, if the daemon still runs.
abbrev Then : (Watch → Type 0) → Option Watch → Type 0
Then P none = Unit
Then P (some w) = P w

either_branch :
    (P : Watch → Type 0) (b : Bool) (x y : Option Watch)
    → Then P x
    → Then P y
    → Then P (if b then x else y)
either_branch P true x y h k = h
either_branch P false x y h k = k

module _ (key : Text) (t : ℕ) where
  stored-IsTaken :
      (k : Text) (now : ℕ) (calls : List Config) (w : Watch)
      → t ≤ now
      → IsTaken key t w
      → IsTaken key t (record { recent = (k, now) ∷ w.recent; calls = calls })
  unfolding load
  stored-IsTaken k now calls w l h = entry_of (same k key) refl
    where
      entry_of :
          (b : Bool)
          → same k key ≡ b
          → IsTaken key t (record { recent = (k, now) ∷ w.recent; calls = calls })
      entry_of true e = record { at = now; entry = ground (arith, e); not_before = l }
      entry_of false e = record {
        at = h.at;
        entry = ground (arith, e, h.entry);
        not_before = h.not_before;
      }

  on_commit-IsTaken :
      (digest : Text → Text) (now : ℕ) (row : Option Settings) (ps : Projects) (url hash : Text)
      (w : Watch)
      → t ≤ now
      → IsTaken key t w
      → Then (IsTaken key t) (on_commit digest now row ps url hash w)
  unfolding on_commit
  on_commit-IsTaken digest now row ps url hash w l h =
      either_branch (IsTaken key t) (is_empty hash) _ _
        (record { at = h.at; entry = h.entry; not_before = h.not_before })
        (either_branch (IsTaken key t) (is_recent now (load (dedup_key digest url hash) w.recent)) _
          _ (either_branch (IsTaken key t) (ltb (length hash) 8) none (some w) tt h)
          (stored-IsTaken (dedup_key digest url hash) now _ w l h))

  on_event-IsTaken :
      (digest : Text → Text) (now : ℕ) (row : Option Settings) (ps : Projects)
      (event : Option Document) (w : Watch)
      → t ≤ now
      → IsTaken key t w
      → Then (IsTaken key t) (on_event digest now row ps event w)
  unfolding on_event
  on_event-IsTaken digest now row ps none w l h = h
  on_event-IsTaken digest now row ps (some doc) w l h = by_url doc.repo_url
    where
      by_url :
          (o : Option Text)
          → Then (IsTaken key t) (elim o [
            | none ↦ some w
            | some url ↦
                if is_empty url then some w else on_commit digest now row ps url doc.commit_hash w
          ])
      by_url none = h
      by_url (some url) =
          either_branch (IsTaken key t) (is_empty url) _ _ h
            (on_commit-IsTaken digest now row ps url doc.commit_hash w l h)

  watch_loop-IsTaken :
      (digest : Text → Text) (rs : List Round) (w : Watch)
      → All (λ (r : Round). t ≤ r.now) rs
      → IsTaken key t w
      → Then (IsTaken key t) (watch_loop digest rs w)
  unfolding watch_loop
  watch_loop-IsTaken digest [] w l h = h
  watch_loop-IsTaken digest (r ∷ rs) w (l, ls) h =
      onward (on_event digest r.now r.settings r.projects r.event w)
        (λ v k. watch_loop-IsTaken digest rs v ls k)
        (on_event-IsTaken digest r.now r.settings r.projects r.event w l h)
    where
      onward :
          (o : Option Watch)
          → ((v : Watch) → IsTaken key t v → Then (IsTaken key t) (watch_loop digest rs v))
          → Then (IsTaken key t) o
          → Then (IsTaken key t) (elim o [ none ↦ none | some v ↦ watch_loop digest rs v ])
      onward none f a = tt
      onward (some v) f a = f v a

-- The calls of two results differ, if both are there.
same_calls : {v w : Watch} → some w ≡ some v → v.calls ≡ w.calls
same_calls {v} {w} e = cc

first-IsTaken :
    (digest : Text → Text) (now : ℕ) (row : Option Settings) (ps : Projects) (url hash : Text)
    (w v : Watch)
    → is_empty hash ≡ false
    → on_commit digest now row ps url hash w ≡ some v
    → ¬ (v.calls ≡ w.calls)
    → IsTaken (dedup_key digest url hash) now v
unfolding on_commit
first-IsTaken digest now row ps url hash w v n e d =
    taken (is_empty hash) (is_recent now (load key w.recent)) (ltb (length hash) 8) n e
  where
    key : Text
    key = dedup_key digest url hash

    calls : List Config
    calls = deploy_all row (projects_of_repo url ps.rows) w.calls

    stored :
        some (record { recent = (key, now) ∷ w.recent; calls = calls }) ≡ some v → IsTaken key now v
    stored q = record {
      at = now;
      entry = ground (arith, q, same_self key);
      not_before = omega arith;
    }

    taken :
        (empty recent short : Bool)
        → empty ≡ false
        → (if empty
            then some (record w { calls = calls })
            else if recent
            then (if short then none else some w)
            else some (record { recent = (key, now) ∷ w.recent; calls = calls }))
          ≡ some v
        → IsTaken key now v
    taken true recent short n q = ground (arith, n)
    taken false true true n q = ground (arith, q)
    taken false true false n q = absurd (d (same_calls q))
    taken false false short n q = stored q

second-skipped :
    (digest : Text → Text) (now later : ℕ) (row : Option Settings) (ps : Projects) (url hash : Text)
    (u : Watch)
    → is_empty hash ≡ false
    → IsTaken (dedup_key digest url hash) now u
    → later < now + 60
    → on_commit digest later row ps url hash u ≡ (if ltb (length hash) 8 then none else some u)
unfolding on_commit
second-skipped digest now later row ps url hash u n h soon =
    let recent : is_recent later (load (dedup_key digest url hash) u.recent) ≡ true =
      ground (arith, h.entry, h.not_before, soon) in
    rw (n, recent) refl

-- If an event of a commit made the callback deploy, then, whatever events arrive after it while the
-- daemon runs, an event of the same commit less than 60 seconds after it is skipped and changes nothing,
-- or ends the daemon if the hash has fewer than 8 characters. The hash is not empty, and the events
-- between are not earlier than the first.
pub watch_loop-spaced :
    (digest : Text → Text) (now later : ℕ) (row row' : Option Settings) (ps ps' : Projects)
    (url hash : Text) (rs : List Round) (w v u : Watch)
    → is_empty hash ≡ false
    → on_event digest now row ps (some (record { repo_url = some url; commit_hash = hash })) w
      ≡ some v
    → ¬ (v.calls ≡ w.calls)
    → watch_loop digest rs v ≡ some u
    → All (λ (r : Round). now ≤ r.now) rs
    → later < now + 60
    → on_event digest later row' ps' (some (record { repo_url = some url; commit_hash = hash })) u
      ≡ (if ltb (length hash) 8 then none else some u)
unfolding on_event
watch_loop-spaced digest now later row row' ps ps' url hash rs w v u n e d run l soon =
    elim (Bool-cases (is_empty url)) [
      | inl no_url ↦ absurd (d (same_calls (unskipped _ (is_empty url) no_url e)))
      | inr some_url ↦
          let first =
            first-IsTaken digest now row ps url hash w v n (taken_up _ (is_empty url) some_url e)
              d in
          let still : IsTaken (dedup_key digest url hash) now u =
            subst (Then (IsTaken (dedup_key digest url hash) now)) run
              (watch_loop-IsTaken (dedup_key digest url hash) now digest rs v l first) in
          rw some_url (second-skipped digest now later row' ps' url hash u n still soon)
    ]
  where
    unskipped :
        (x : Option Watch) (b : Bool)
        → b ≡ true
        → (if b then some w else x) ≡ some v
        → some w ≡ some v
    unskipped x b t q = ground (arith, t, q)

    taken_up :
        (x : Option Watch) (b : Bool) → b ≡ false → (if b then some w else x) ≡ some v → x ≡ some v
    taken_up x b t q = ground (arith, t, q)
