-- ===== src/History/Order.antt =====
-- The rows are in the order of their keys, so the row with a given key is the first that was found.
use cicd.Prelude.{
  sym, ℕ, ◌≤◌, ◌<◌, ◌≡◌, refl, Bool, Option, none, some, List, [], ◌∷◌, map, find, arith,
  if◌then◌else◌, Bool-cases, inl, inr,
}
use cicd.History.{CommitEntry, mark, made_current, mark_latest}

-- Keys fall along the list, and the first is below `n`.
abbrev pub Descends : ℕ → List CommitEntry → Type 0
Descends n [] = Unit
Descends n (e ∷ es) = (e.id < n) × Descends e.id es

pub Descends-map :
    (f : CommitEntry → CommitEntry)
    → ((e : CommitEntry) → (f e).id ≡ e.id)
    → (n : ℕ) (es : List CommitEntry) → Descends n es
    → Descends n (map f es)
Descends-map f same_id n [] h = tt
Descends-map f same_id n (e ∷ es) (p, h) = rw (same_id e) (p, Descends-map f same_id e.id es h)

-- The specification of `mark_latest`: the first row that passes the test is made current.
abbrev pub mark_first : (CommitEntry → Bool) → ℕ → List CommitEntry → List CommitEntry
mark_first p now [] = []
mark_first p now (e ∷ es) = if p e then made_current now e ∷ es else e ∷ mark_first p now es

module _ (p : CommitEntry → Bool) (now : ℕ) where
  find-Descends :
      (n : ℕ) (es : List CommitEntry) (e : CommitEntry)
      → Descends n es
      → find p es ≡ some e
      → e.id < n
  unfolding find
  find-Descends n [] e h f = cc
  find-Descends n (x ∷ es) e (q, h) f = ground (arith, find-Descends x.id es e h)

  map-mark-above :
      (id n : ℕ) (es : List CommitEntry) → Descends n es → n ≤ id → map (mark id now) es ≡ es
  map-mark-above id n [] h le = refl
  map-mark-above id n (x ∷ es) (q, h) le = ground (arith, map-mark-above id x.id es h (omega arith))

  map-mark-find :
      (n : ℕ) (es : List CommitEntry) (e : CommitEntry)
      → Descends n es
      → find p es ≡ some e
      → map (mark e.id now) es ≡ mark_first p now es
  unfolding find
  map-mark-find n [] e h f = cc
  map-mark-find n (x ∷ es) e (q, h) f = elim (Bool-cases (p x)) [
    | inl t ↦ ground (arith, map-mark-above e.id x.id es h)
    | inr t ↦ ground (arith, map-mark-find x.id es e h, find-Descends x.id es e h)
  ]

  mark_first-none : (es : List CommitEntry) → find p es ≡ none → mark_first p now es ≡ es
  unfolding find
  mark_first-none [] f = refl
  mark_first-none (x ∷ es) f = ground (arith, mark_first-none es)

  -- On rows in order, updating by the key of the newest match is updating the first match.
  pub mark_latest-eq-mark_first :
      (n : ℕ) (es : List CommitEntry)
      → Descends n es
      → mark_latest now (find p es) es ≡ mark_first p now es
  unfolding mark_latest
  mark_latest-eq-mark_first n es h = cases (find p es) refl
    where
      cases : (o : Option CommitEntry) → find p es ≡ o → mark_latest now o es ≡ mark_first p now es
      cases none f = sym (mark_first-none es f)
      cases (some e) f = map-mark-find n es e h f
