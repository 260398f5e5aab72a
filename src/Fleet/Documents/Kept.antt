-- ===== src/Fleet/Documents/Kept.antt =====
-- What the driver's calls do to the fleet's documents, and what the nodes keep.
use cicd.Prelude.{◌≡◌, ◌⊎◌, Bool, true, false, none, ◌||◌, List, [], ◌∷◌, ◌++◌, arith, All}
use cicd.Config.{Config}
use cicd.Fleet.Documents.{ProjectDoc, Collection, named_key}

-- Some document passes.
unfoldable pub has : (ProjectDoc → Bool) → List ProjectDoc → Bool
has p [] = false
has p (d ∷ ds) = p d || has p ds

-- `UpdateOne` with upsert: some document that passes is changed, or the changed seed is inserted. It may
-- be inserted though a document passes, since calls of several nodes at a time may each insert one.
pub data Updated (f : ProjectDoc → Bool) (g : ProjectDoc → ProjectDoc) (seed : ProjectDoc)
    (ds : List ProjectDoc) : List ProjectDoc → Type 0 where
  changed :
      (before after : List ProjectDoc) (d : ProjectDoc)
      → ds ≡ before ++ d ∷ after
      → f d ≡ true
      → Updated f g seed ds (before ++ g d ∷ after)
  inserted : Updated f g seed ds (ds ++ g seed ∷ [])

-- `DeleteOne`: some document that passes is removed, or none passes.
pub data Deleted (f : ProjectDoc → Bool) (ds : List ProjectDoc) : List ProjectDoc → Type 0 where
  removed :
      (before after : List ProjectDoc) (d : ProjectDoc)
      → ds ≡ before ++ d ∷ after
      → f d ≡ true
      → Deleted f ds (before ++ after)
  none_found : has f ds ≡ false → Deleted f ds ds

-- What the program relies on: a call without an error did what it is for, one with an error did it or
-- did nothing.
pub record IsCollection {S : Type 0} (mongo : Collection S) (docs : S → List ProjectDoc)
    : Type 0 where
  pub updates :
      (f : ProjectDoc → Bool) (g : ProjectDoc → ProjectDoc) (seed : ProjectDoc) (s : S)
      → Updated f g seed (docs s) (docs (mongo.update_one f g seed s).0)
        ⊎ ((docs (mongo.update_one f g seed s).0 ≡ docs s)
            × ((mongo.update_one f g seed s).1 ≡ false))
  pub deletes :
      (f : ProjectDoc → Bool) (s : S)
      → Deleted f (docs s) (docs (mongo.delete_one f s).0)
        ⊎ ((docs (mongo.delete_one f s).0 ≡ docs s) × ((mongo.delete_one f s).1 ≡ false))

-- A document without the field `serviceName`.
abbrev pub IsBare : ProjectDoc → Type 0
IsBare d = d.camel_service_name ≡ none

module _ (P : ProjectDoc → Type 0) where
  pub All-changed :
      (before after : List ProjectDoc) (d e : ProjectDoc)
      → (P d → P e)
      → All P (before ++ d ∷ after)
      → All P (before ++ e ∷ after)
  All-changed [] after d e f (h, hs) = (f h, hs)
  All-changed (b ∷ before) after d e f (h, hs) = (h, All-changed before after d e f hs)

  pub All-inserted : (ds : List ProjectDoc) (e : ProjectDoc) → P e → All P ds → All P (ds ++ e ∷ [])
  All-inserted [] e h hs = (h, tt)
  All-inserted (d ∷ ds) e h (k, ks) = (k, All-inserted ds e h ks)

  pub All-middle :
      (before after : List ProjectDoc) (d : ProjectDoc) → All P (before ++ d ∷ after) → P d
  All-middle [] after d (h, hs) = h
  All-middle (b ∷ before) after d (h, hs) = All-middle before after d hs

module _ (p : ProjectDoc → Bool) where
  pub has-middle :
      (before after : List ProjectDoc) (d : ProjectDoc)
      → p d ≡ true
      → has p (before ++ d ∷ after) ≡ true
  unfolding has
  has-middle [] after d h = ground (arith, h)
  has-middle (b ∷ before) after d h = ground (arith, has-middle before after d h)

  pub has-changed :
      (before after : List ProjectDoc) (d e : ProjectDoc)
      → (p d ≡ true → p e ≡ true)
      → has p (before ++ d ∷ after) ≡ true
      → has p (before ++ e ∷ after) ≡ true
  unfolding has
  has-changed [] after d e f h = ground (arith, f, h)
  has-changed (b ∷ before) after d e f h = ground (arith, h, has-changed before after d e f)

  pub has-inserted :
      (ds : List ProjectDoc) (e : ProjectDoc) → has p ds ≡ true → has p (ds ++ e ∷ []) ≡ true
  unfolding has
  has-inserted [] e h = ground (arith, h)
  has-inserted (d ∷ ds) e h = ground (arith, h, has-inserted ds e)

-- The filter of the deletion finds no bare document.
pub named_key-bare : (cfg : Config) (d : ProjectDoc) → IsBare d → named_key cfg d ≡ false
named_key-bare cfg d h = ground (arith, h)
