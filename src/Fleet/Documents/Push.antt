-- ===== src/Fleet/Documents/Push.antt =====
-- From a commit that one node writes to the deployments of another.
use cicd.Prelude.{
  ℕ, ◌≡◌, refl, ap, ◌∙◌, Bool, true, false, Option, none, some, List, [], ◌∷◌, arith, Text, same,
  is_empty, All, if◌then◌else◌,
}
use cicd.Config.{Config}
use cicd.Settings.{Settings}
use cicd.Projects.{Project, Projects}
use cicd.Projects.ToConfig.{config, to_config}
use cicd.Fleet.{Clients, Dialled, Document, Watch, load, is_recent, dedup_key, on_event}
use cicd.Fleet.Stream.{Holds, first, later, Called, on_event-Called}
use cicd.Fleet.Documents.{ProjectDoc, Collection, member, get_local_repo_urls, update_commit_hash}
use cicd.Fleet.Documents.Kept.{has, IsCollection, IsBare}
use cicd.Fleet.Documents.Calls.{Call, perform_all}
use cicd.Fleet.Documents.Commit.{carries, IsOther, commit-Stands}

abbrev or_empty : Option Text → Text
or_empty none = []
or_empty (some t) = t

-- `fullDocument` of an event of the first document that passes.
unfoldable pub event_of : (ProjectDoc → Bool) → List ProjectDoc → Option Document
event_of p [] = none
event_of p (d ∷ ds) =
    if p d
    then some (record { repo_url = some d.repo_url; commit_hash = or_empty d.commit_hash })
    else event_of p ds

-- The filter of the stream, by the repositories of the node; without any it watches all.
abbrev pub passes : List Text → Text → Bool
passes [] url = true
passes (u ∷ urls) url = member url (u ∷ urls)

event_of-hash :
    (repo branch hash : Text) (ds : List ProjectDoc)
    → has (carries repo branch hash) ds ≡ true
    → event_of (carries repo branch hash) ds
      ≡ some (record { repo_url = some repo; commit_hash = hash })
unfolding has event_of
event_of-hash repo branch hash [] h = ground (arith, h)
event_of-hash repo branch hash (d ∷ ds) h = ground (arith, h, event_of-hash repo branch hash ds)

local-member :
    (p : Project) (url : Text) (ps : List Project)
    → Holds p ps
    → is_empty url ≡ false
    → same p.repo_url url ≡ true
    → member url (get_local_repo_urls ps) ≡ true
unfolding get_local_repo_urls member
local-member p url _ (first {ps = ps}) n e = ground (arith, n, e)
local-member p url _ (later {q = q} {ps = ps} h) n e = ground (arith, local-member p url ps h n e)

passes-member : (urls : List Text) (url : Text) → member url urls ≡ true → passes urls url ≡ true
passes-member [] url h = refl
passes-member (u ∷ urls) url h = h

-- After `UpdateCommitHash` returned no error on one node, and whatever else the nodes registered and
-- deleted and committed for other repositories or branches, a document of this repository and branch
-- with the commit is there. Its event passes the filter by repository of each node that had a project of
-- the repository when its stream started, and a node that did not take up this commit in the last 60
-- seconds deploys each project of the repository that it then has and that has a configuration, whichever
-- branch it watches and whether it is pinned or not. MongoDB is configured, the repository has an
-- address, and before no document had the field `serviceName`; a call of the driver without an error did
-- what it is for, one with an error did it or nothing, and an update may insert a document though one
-- matches.
pub update_commit_hash-Called :
    {S : Type 0} (mongo : Collection S) (dials : Text → Dialled) (docs : S → List ProjectDoc)
    (sound : IsCollection mongo docs) (cfg : Config) (hash : Text) (written : ℕ) (c : Clients)
    (s : S) (calls : List Call) (digest : Text → Text) (now : ℕ) (row : Option Settings)
    (started t : Projects) (w : Watch) (p₀ p : Project) (deployed : Config)
    → is_empty cfg.mongo_db_uri ≡ false
    → All IsBare (docs s)
    → All (IsOther mongo dials docs sound cfg.repo_url cfg.branch) calls
    → (update_commit_hash mongo dials cfg hash written (c, s)).1 ≡ true
    → is_empty cfg.repo_url ≡ false
    → Holds p₀ started.rows
    → same p₀.repo_url cfg.repo_url ≡ true
    → Holds p t.rows
    → same p.repo_url cfg.repo_url ≡ true
    → to_config row p ≡ config deployed
    → is_recent now (load (dedup_key digest cfg.repo_url hash) w.recent) ≡ false
    → let later_docs : List ProjectDoc = docs (
        perform_all mongo dials docs sound calls
          (update_commit_hash mongo dials cfg hash written (c, s)).0.1) in
      let event : Option Document = event_of (carries cfg.repo_url cfg.branch hash) later_docs in
      (event ≡ some (record { repo_url = some cfg.repo_url; commit_hash = hash }))
      × (passes (get_local_repo_urls started.rows) cfg.repo_url ≡ true)
      × ((after : Watch) × ((on_event digest now row t event w ≡ some after)
            × Called deployed after.calls))
update_commit_hash-Called mongo dials docs sound cfg hash written c s calls digest now row started t
      w p₀ p deployed u k os ok n h₀ e₀ h e f r =
    let stands = commit-Stands mongo dials docs sound cfg hash written c s calls u k os ok in
    let (after, (taken, called)) =
      on_event-Called digest now row t cfg.repo_url hash w p deployed h n e f r in
    let seen = event_of-hash cfg.repo_url cfg.branch hash _ stands in
    (
      seen,
      passes-member (get_local_repo_urls started.rows) cfg.repo_url
          (local-member p₀ cfg.repo_url started.rows h₀ n e₀),
      (after, (ap (λ (o : Option Document). on_event digest now row t o w) seen ∙ taken, called)),
    )
