-- ===== src/Fleet/Documents/Calls.antt =====
-- The fleet's documents over any calls of the nodes.
use cicd.Prelude.{
  arith, ℕ, ◌≡◌, refl, sym, ◌∙◌, inl, inr, Bool, true, false, List, [], ◌∷◌, ◌++◌, Text, is_empty,
  All, if◌then◌else◌,
}
use mathlib.Core.Path.{subst}
use cicd.Config.{Config}
use cicd.Fleet.{Clients, Dialled, get_mongo_client}
use cicd.Fleet.Documents.{
  ProjectDoc, Collection, is_keyed_by, bare_doc, registered_doc, committed, named_key, with_client,
  connected_call, register_to_mongo, update_commit_hash, delete_project_from_mongo,
}
use cicd.Fleet.Documents.Kept.{
  Updated, changed, inserted, Deleted, removed, none_found, IsCollection, IsBare, All-changed,
  All-inserted, All-middle, named_key-bare,
}

-- A call of a node, with the clients that the node has.
pub data Call : Type 0 where
  registering : Clients → Config → ℕ → Call
  deleting : Clients → Config → Call
  committing : Clients → Config → Text → ℕ → Call

module _ {S : Type 0} (mongo : Collection S) (dials : Text → Dialled) (docs : S → List ProjectDoc)
    (sound : IsCollection mongo docs) where
  unfoldable pub perform : Call → S → S
  unfolding register_to_mongo update_commit_hash delete_project_from_mongo
  perform (registering c cfg now) s = (register_to_mongo mongo dials cfg now (c, s)).0.1
  perform (deleting c cfg) s = (delete_project_from_mongo mongo dials cfg (c, s)).0.1
  perform (committing c cfg hash now) s = (update_commit_hash mongo dials cfg hash now (c, s)).0.1

  unfoldable pub perform_all : List Call → S → S
  unfolding perform
  perform_all [] s = s
  perform_all (call ∷ calls) s = perform_all calls (perform call s)

  module _ (P : List ProjectDoc → Type 0) where
    pub call-keeps :
        (uri : Text) (f : S → S × Bool) (c : Clients) (s : S)
        → (P (docs s) → P (docs (f s).0))
        → P (docs s)
        → P (docs (connected_call mongo dials uri f (c, s)).0.1)
    call-keeps uri f c s step h = keep (is_empty uri) (get_mongo_client dials uri c)
      where
        keep :
            (b : Bool) (r : Clients × Bool)
            → P (docs (if b then ((c, s), true) else with_client mongo dials uri f r s).0.1)
        keep true r = h
        keep false (c', false) = h
        keep false (c', true) = step h

    updated-keeps :
        (f : ProjectDoc → Bool) (g : ProjectDoc → ProjectDoc) (seed : ProjectDoc)
        {ds es : List ProjectDoc}
        → Updated f g seed ds es
        → ((before after : List ProjectDoc) (d : ProjectDoc)
            → f d ≡ true
            → P (before ++ d ∷ after)
            → P (before ++ g d ∷ after))
        → (P ds → P (ds ++ g seed ∷ []))
        → P ds
        → P es
    updated-keeps f g seed (changed before after d e t) step new h =
        step before after d t (subst P e h)
    updated-keeps f g seed inserted step new h = new h

    pub update-keeps :
        (f : ProjectDoc → Bool) (g : ProjectDoc → ProjectDoc) (seed : ProjectDoc) (s : S)
        → ((before after : List ProjectDoc) (d : ProjectDoc)
            → f d ≡ true
            → P (before ++ d ∷ after)
            → P (before ++ g d ∷ after))
        → (P (docs s) → P (docs s ++ g seed ∷ []))
        → P (docs s)
        → P (docs (mongo.update_one f g seed s).0)
    update-keeps f g seed s step new h = elim (sound.updates f g seed s) [
      | inl u ↦ updated-keeps f g seed u step new h
      | inr (e, failed) ↦ subst P (sym e) h
    ]

  removed-none_bare :
      (cfg : Config) {ds es : List ProjectDoc}
      → Deleted (named_key cfg) ds es
      → All IsBare ds
      → es ≡ ds
  removed-none_bare cfg (removed before after d e t) k =
      let found = All-middle IsBare before after d (subst (All IsBare) e k) in
      absurd (ground (arith, named_key-bare cfg d found, t))
  removed-none_bare cfg (none_found h) k = refl

  delete-none :
      (cfg : Config) (s : S)
      → All IsBare (docs s)
      → docs (mongo.delete_one (named_key cfg) s).0 ≡ docs s
  delete-none cfg s k = elim (sound.deletes (named_key cfg) s) [
    | inl r ↦ removed-none_bare cfg r k
    | inr (e, failed) ↦ e
  ]

  pub deletes_none :
      (cfg : Config) (c : Clients) (s : S)
      → All IsBare (docs s)
      → docs (delete_project_from_mongo mongo dials cfg (c, s)).0.1 ≡ docs s
  unfolding delete_project_from_mongo
  deletes_none cfg c s k =
      call-keeps (λ (ds : List ProjectDoc). ds ≡ docs s) cfg.mongo_db_uri
        (mongo.delete_one (named_key cfg)) c s (λ e. delete-none cfg s k) refl

  -- A change that leaves the field `serviceName` keeps bare documents bare.
  written-IsBare :
      (uri repo branch : Text) (g : ProjectDoc → ProjectDoc) (c : Clients) (s : S)
      → ((d : ProjectDoc) → (g d).camel_service_name ≡ d.camel_service_name)
      → All IsBare (docs s)
      → All IsBare (
          docs
            (connected_call mongo dials uri
              (mongo.update_one (is_keyed_by repo branch) g (bare_doc repo branch))
              (c, s)).0.1)
  written-IsBare uri repo branch g c s keeps h =
      call-keeps (All IsBare) uri _ c s
        (update-keeps (All IsBare) (is_keyed_by repo branch) g (bare_doc repo branch) s
          (λ before after d t. All-changed IsBare before after d (g d) (λ b. keeps d ∙ b))
          (All-inserted IsBare (docs s) (g (bare_doc repo branch)) (keeps (bare_doc repo branch))))
        h

  pub perform-IsBare :
      (call : Call) (s : S) → All IsBare (docs s) → All IsBare (docs (perform call s))
  unfolding perform register_to_mongo update_commit_hash
  perform-IsBare (registering c cfg now) s h =
      written-IsBare cfg.mongo_db_uri cfg.repo_url cfg.branch (registered_doc cfg now) c s
        (λ d. refl) h
  perform-IsBare (deleting c cfg) s h = subst (All IsBare) (sym (deletes_none cfg c s h)) h
  perform-IsBare (committing c cfg hash now) s h =
      written-IsBare cfg.mongo_db_uri cfg.repo_url cfg.branch (committed hash now) c s (λ d. refl) h

  perform_all-IsBare :
      (calls : List Call) (s : S) → All IsBare (docs s) → All IsBare (docs (perform_all calls s))
  unfolding perform_all
  perform_all-IsBare [] s h = h
  perform_all-IsBare (call ∷ calls) s h =
      perform_all-IsBare calls (perform call s) (perform-IsBare call s h)

  -- Whatever registrations, commits and deletions the nodes make in any order, from a collection without
  -- documents on, the next deletion of any project deletes none. A call of the driver without an error
  -- did what it is for, one with an error did it or nothing, and an update may insert a document though
  -- one matches.
  pub perform_all-deletes_none :
      (calls : List Call) (s : S) (cfg : Config) (c : Clients)
      → docs s ≡ []
      → docs (delete_project_from_mongo mongo dials cfg (c, perform_all calls s)).0.1
        ≡ docs (perform_all calls s)
  perform_all-deletes_none calls s cfg c e =
      deletes_none cfg c (perform_all calls s)
        (perform_all-IsBare calls s (subst (All IsBare) (sym e) tt))
