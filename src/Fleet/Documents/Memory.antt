-- ===== src/Fleet/Documents/Memory.antt =====
-- A collection in memory: a list of documents, without errors.
use cicd.Prelude.{◌≡◌, refl, ap, inl, Bool, true, false, some, List, [], ◌∷◌, arith, if◌then◌else◌}
use cicd.Fleet.Documents.{ProjectDoc, Collection}
use cicd.Fleet.Documents.Kept.{
  has, Updated, changed, inserted, Deleted, removed, none_found, IsCollection,
}

unfoldable pub upserted :
    (ProjectDoc → Bool) → (ProjectDoc → ProjectDoc) → ProjectDoc → List ProjectDoc → List ProjectDoc
upserted f g seed [] = g seed ∷ []
upserted f g seed (d ∷ ds) = if f d then g d ∷ ds else d ∷ upserted f g seed ds

unfoldable pub without_first : (ProjectDoc → Bool) → List ProjectDoc → List ProjectDoc
without_first f [] = []
without_first f (d ∷ ds) = if f d then ds else d ∷ without_first f ds

module _ (f : ProjectDoc → Bool) (g : ProjectDoc → ProjectDoc) (seed : ProjectDoc) where
  cons-Updated :
      {ds es : List ProjectDoc} (d : ProjectDoc)
      → Updated f g seed ds es
      → Updated f g seed (d ∷ ds) (d ∷ es)
  cons-Updated d (changed before after e q t) =
      changed (d ∷ before) after e (ap (λ (l : List ProjectDoc). d ∷ l) q) t
  cons-Updated d inserted = inserted

  upserted-Updated : (ds : List ProjectDoc) → Updated f g seed ds (upserted f g seed ds)
  unfolding upserted
  upserted-Updated [] = inserted
  upserted-Updated (d ∷ ds) = choose (f d) refl (upserted-Updated ds)
    where
      choose :
          (b : Bool)
          → f d ≡ b
          → Updated f g seed ds (upserted f g seed ds)
          → Updated f g seed (d ∷ ds) (if b then g d ∷ ds else d ∷ upserted f g seed ds)
      choose true t u = changed [] ds d refl t
      choose false t u = cons-Updated d u

module _ (f : ProjectDoc → Bool) where
  cons-Deleted :
      {ds es : List ProjectDoc} (d : ProjectDoc)
      → f d ≡ false
      → Deleted f ds es
      → Deleted f (d ∷ ds) (d ∷ es)
  unfolding has
  cons-Deleted d n (removed before after e q t) =
      removed (d ∷ before) after e (ap (λ (l : List ProjectDoc). d ∷ l) q) t
  cons-Deleted d n (none_found h) = none_found (ground (arith, n, h))

  without_first-Deleted : (ds : List ProjectDoc) → Deleted f ds (without_first f ds)
  unfolding without_first has
  without_first-Deleted [] = none_found refl
  without_first-Deleted (d ∷ ds) = choose (f d) refl (without_first-Deleted ds)
    where
      choose :
          (b : Bool)
          → f d ≡ b
          → Deleted f ds (without_first f ds)
          → Deleted f (d ∷ ds) (if b then ds else d ∷ without_first f ds)
      choose true t u = removed [] ds d refl t
      choose false t u = cons-Deleted d t u

abbrev pub in_memory : Collection (List ProjectDoc)
in_memory = record {
  update_one = λ f g seed ds. (upserted f g seed ds, true);
  delete_one = λ f ds. (without_first f ds, true);
  distinct_ips = λ ds. some [];
}

abbrev pub all_docs : List ProjectDoc → List ProjectDoc
all_docs ds = ds

pub in_memory-IsCollection : IsCollection in_memory all_docs
in_memory-IsCollection = record {
  updates = λ f g seed s. inl (upserted-Updated f g seed s);
  deletes = λ f s. inl (without_first-Deleted f s);
}
