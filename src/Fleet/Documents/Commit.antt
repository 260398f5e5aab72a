-- ===== src/Fleet/Documents/Commit.antt =====
-- A pushed commit in the fleet's documents.
use cicd.Prelude.{
  ℕ, ◌≡◌, refl, sym, inl, inr, Bool, true, false, ◌&&◌, Option, none, some, List, [], ◌∷◌, arith,
  Text, same, same_self, is_empty, All, if◌then◌else◌,
}
use mathlib.Core.Path.{subst}
use cicd.Config.{Config}
use cicd.Fleet.{Clients, Dialled, get_mongo_client}
use cicd.Fleet.Documents.{
  ProjectDoc, Collection, is_keyed_by, bare_doc, registered_doc, committed, with_client,
  connected_call, register_to_mongo, update_commit_hash, delete_project_from_mongo,
}
use cicd.Fleet.Documents.Kept.{
  has, Updated, changed, inserted, IsCollection, IsBare, has-middle, has-changed, has-inserted,
}
use cicd.Fleet.Documents.Calls.{
  Call, registering, deleting, committing, perform, perform_all, perform-IsBare, deletes_none,
  call-keeps, update-keeps,
}

abbrev is_hash : Text → Option Text → Bool
is_hash hash none = false
is_hash hash (some h) = same h hash

-- A document of the repository and branch with the commit.
abbrev pub carries : Text → Text → Text → ProjectDoc → Bool
carries repo branch hash d = is_keyed_by repo branch d && is_hash hash d.commit_hash

committed-carries :
    (repo branch hash : Text) (now : ℕ) (d : ProjectDoc)
    → is_keyed_by repo branch d ≡ true
    → carries repo branch hash (committed hash now d) ≡ true
committed-carries repo branch hash now d h = ground (arith, h, same_self hash)

bare-keyed : (repo branch : Text) → is_keyed_by repo branch (bare_doc repo branch) ≡ true
bare-keyed repo branch = ground (arith, same_self repo, same_self branch)

-- A commit of another repository or branch does not change a document that carries this one.
other-carries :
    (repo branch hash r b other : Text) (now : ℕ) (d : ProjectDoc)
    → is_keyed_by repo branch (bare_doc r b) ≡ false
    → is_keyed_by r b d ≡ true
    → carries repo branch hash d ≡ true
    → carries repo branch hash (committed other now d) ≡ true
other-carries repo branch hash r b other now d o k h = ground (arith, o, k, h)

module _ {S : Type 0} (mongo : Collection S) (dials : Text → Dialled) (docs : S → List ProjectDoc)
    (sound : IsCollection mongo docs) (repo branch : Text) where
  -- A call that is no commit of this repository and branch.
  abbrev pub IsOther : Call → Type 0
  IsOther (registering c cfg now) = Unit
  IsOther (deleting c cfg) = Unit
  IsOther (committing c cfg hash now) =
      is_keyed_by repo branch (bare_doc cfg.repo_url cfg.branch) ≡ false

  -- The commit stands in some document.
  abbrev pub Stands : Text → List ProjectDoc → Type 0
  Stands hash ds = has (carries repo branch hash) ds ≡ true

  perform-Stands :
      (call : Call) (hash : Text) (s : S)
      → IsOther call
      → All IsBare (docs s)
      → Stands hash (docs s)
      → Stands hash (docs (perform mongo dials docs sound call s))
  unfolding perform register_to_mongo update_commit_hash delete_project_from_mongo
  perform-Stands (registering c cfg now) hash s o k h =
      call-keeps mongo dials docs sound (Stands hash) cfg.mongo_db_uri _ c s
        (update-keeps mongo dials docs sound (Stands hash) (is_keyed_by cfg.repo_url cfg.branch)
          (registered_doc cfg now) (bare_doc cfg.repo_url cfg.branch) s
          (λ before after d t.
            has-changed (carries repo branch hash) before after d (registered_doc cfg now d)
              (λ e. e))
          (has-inserted (carries repo branch hash) (docs s)
            (registered_doc cfg now (bare_doc cfg.repo_url cfg.branch))))
        h
  perform-Stands (deleting c cfg) hash s o k h =
      subst (Stands hash) (sym (deletes_none mongo dials docs sound cfg c s k)) h
  perform-Stands (committing c cfg other now) hash s o k h =
      call-keeps mongo dials docs sound (Stands hash) cfg.mongo_db_uri _ c s
        (update-keeps mongo dials docs sound (Stands hash) (is_keyed_by cfg.repo_url cfg.branch)
          (committed other now) (bare_doc cfg.repo_url cfg.branch) s
          (λ before after d t.
            has-changed (carries repo branch hash) before after d (committed other now d)
              (other-carries repo branch hash cfg.repo_url cfg.branch other now d o t))
          (has-inserted (carries repo branch hash) (docs s)
            (committed other now (bare_doc cfg.repo_url cfg.branch))))
        h

  perform_all-Stands :
      (calls : List Call) (hash : Text) (s : S)
      → All IsOther calls
      → All IsBare (docs s)
      → Stands hash (docs s)
      → Stands hash (docs (perform_all mongo dials docs sound calls s))
  unfolding perform_all
  perform_all-Stands [] hash s o k h = h
  perform_all-Stands (call ∷ calls) hash s (o, os) k h =
      perform_all-Stands calls hash (perform mongo dials docs sound call s) os
        (perform-IsBare mongo dials docs sound call s k) (perform-Stands call hash s o k h)

  call-true :
      (uri : Text) (f : S → S × Bool) (c : Clients) (s : S)
      → is_empty uri ≡ false
      → (connected_call mongo dials uri f (c, s)).1 ≡ true
      → ((connected_call mongo dials uri f (c, s)).0.1 ≡ (f s).0) × ((f s).1 ≡ true)
  call-true uri f c s u h = made (is_empty uri) (get_mongo_client dials uri c) u h
    where
      made :
          (b : Bool) (r : Clients × Bool)
          → b ≡ false
          → (if b then ((c, s), true) else with_client mongo dials uri f r s).1 ≡ true
          → ((if b then ((c, s), true) else with_client mongo dials uri f r s).0.1 ≡ (f s).0)
            × ((f s).1 ≡ true)
      made true r u h = ground (arith, u)
      made false (c', false) u h = ground (arith, h)
      made false (c', true) u h = (refl, h)

module _ {S : Type 0} (mongo : Collection S) (dials : Text → Dialled) (docs : S → List ProjectDoc)
    (sound : IsCollection mongo docs) where
  updated-Stands :
      (repo branch hash : Text) (now : ℕ) {ds es : List ProjectDoc}
      → Updated (is_keyed_by repo branch) (committed hash now) (bare_doc repo branch) ds es
      → Stands mongo dials docs sound repo branch hash es
  updated-Stands repo branch hash now (changed before after d e t) =
      has-middle (carries repo branch hash) before after (committed hash now d)
        (committed-carries repo branch hash now d t)
  updated-Stands repo branch hash now {ds} inserted =
      has-middle (carries repo branch hash) ds [] (committed hash now (bare_doc repo branch))
        (committed-carries repo branch hash now (bare_doc repo branch) (bare-keyed repo branch))

  written-Stands :
      (cfg : Config) (hash : Text) (now : ℕ) (s : S)
      → (mongo.update_one
          (is_keyed_by cfg.repo_url cfg.branch)
          (committed hash now)
          (bare_doc cfg.repo_url cfg.branch)
          s).1
        ≡ true
      → Stands mongo dials docs sound cfg.repo_url cfg.branch hash (
          docs
            (mongo.update_one
              (is_keyed_by cfg.repo_url cfg.branch)
              (committed hash now)
              (bare_doc cfg.repo_url cfg.branch)
              s).0)
  written-Stands cfg hash now s ok =
      elim (sound.updates (is_keyed_by cfg.repo_url cfg.branch) (committed hash now)
        (bare_doc cfg.repo_url cfg.branch) s) [
          | inl u ↦ updated-Stands cfg.repo_url cfg.branch hash now u
          | inr (e, failed) ↦ ground (arith, ok, failed)
        ]

  -- After `UpdateCommitHash` returned no error, its commit stands in a document of its repository and
  -- branch, and no registration or deletion and no commit of another repository or branch, by any node,
  -- takes it away.
  pub commit-Stands :
      (cfg : Config) (hash : Text) (now : ℕ) (c : Clients) (s : S) (calls : List Call)
      → is_empty cfg.mongo_db_uri ≡ false
      → All IsBare (docs s)
      → All (IsOther mongo dials docs sound cfg.repo_url cfg.branch) calls
      → (update_commit_hash mongo dials cfg hash now (c, s)).1 ≡ true
      → Stands mongo dials docs sound cfg.repo_url cfg.branch hash (
          docs (
            perform_all mongo dials docs sound calls
              (update_commit_hash mongo dials cfg hash now (c, s)).0.1))
  unfolding perform update_commit_hash
  commit-Stands cfg hash now c s calls u k os ok =
      let made =
        call-true mongo dials docs sound cfg.repo_url cfg.branch cfg.mongo_db_uri
          (mongo.update_one (is_keyed_by cfg.repo_url cfg.branch) (committed hash now)
            (bare_doc cfg.repo_url cfg.branch))
          c s u ok in
      perform_all-Stands mongo dials docs sound cfg.repo_url cfg.branch calls hash
        (perform mongo dials docs sound (committing c cfg hash now) s) os
        (perform-IsBare mongo dials docs sound (committing c cfg hash now) s k)
        (subst (λ (t : S). Stands mongo dials docs sound cfg.repo_url cfg.branch hash (docs t))
          (sym made.0) (written-Stands cfg hash now s made.1))
