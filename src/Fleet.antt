-- ===== src/Fleet.antt =====
-- The node's part in the fleet (gosrc/database/mongo.go): the shared client, the loop over the change
-- stream and its restarts. What MongoDB answers is an argument; times are in seconds.
pub mod Stream
pub mod Spacing
pub mod Backoff
pub mod Client
pub mod Documents
mod Tests
use cicd.Prelude.{
  ℕ, ◌-◌, ◌*◌, Bool, true, false, not, ◌&&◌, Option, none, some, List, [], ◌∷◌, ◌++◌, Text, codes,
  same, is_empty, is_set, ltb, length, if◌then◌else◌,
}
use cicd.Config.{Config}
use cicd.Settings.{Settings}
use cicd.Projects.{Project, Projects}
use cicd.Projects.ToConfig.{Outcome, config, lacks, to_config}

-- `sharedMongoClient`, by the address it is connected to, and `lastMongoURI`; `closed` are the clients
-- that were disconnected, newest first.
pub record Clients : Type 0 where
  pub shared : Option Text
  pub last_uri : Text
  pub closed : List Text

pub data Dialled : Type 0 where
  refused unreachable connected : Dialled

-- The connection to `uri` behind the two tests: `mongo.Connect` fails, the ping fails, or both pass.
abbrev pub dial : Dialled → Text → Clients → Clients × Bool
dial refused uri c = (c, false)
dial unreachable uri c = (record c { closed = uri ∷ c.closed }, false)
dial connected uri c = (record c { shared = some uri; last_uri = uri }, true)

-- `getMongoClient`; a client is returned if the flag is true.
unfoldable pub get_mongo_client : (Text → Dialled) → Text → Clients → Clients × Bool
get_mongo_client dials uri c = elim c.shared [
  | none ↦ dial (dials uri) uri c
  | some old ↦
      if same c.last_uri uri
      then (c, true)
      else dial (dials uri) uri (record c { shared = none; closed = old ∷ c.closed })
]

-- `GetProjectsByRepoURL`
unfoldable pub projects_of_repo : Text → List Project → List Project
projects_of_repo url [] = []
projects_of_repo url (p ∷ ps) =
    let rest = projects_of_repo url ps in if same p.repo_url url then p ∷ rest else rest

-- `fullDocument` of an event, as far as it is looked at; an absent `commit_hash` is empty.
pub record Document : Type 0 where
  pub repo_url : Option Text
  pub commit_hash : Text

-- `recentDeploys`, newest first, and the configurations that the callback got, newest first.
pub record Watch : Type 0 where
  pub recent : List (Text × ℕ)
  pub calls : List Config

-- `recentDeploys.Load`: the newest entry of the key.
unfoldable pub load : Text → List (Text × ℕ) → Option ℕ
load key [] = none
load key ((k, t) ∷ rest) = let older = load key rest in if same k key then some t else older

abbrev pub is_recent : ℕ → Option ℕ → Bool
is_recent now none = false
is_recent now (some t) = ltb (now - t) 60

abbrev called : Outcome → List Config → List Config
called (lacks fs) calls = calls
called (config cfg) calls = cfg ∷ calls

-- The loop over the projects of a repository.
unfoldable pub deploy_all : Option Settings → List Project → List Config → List Config
unfolding to_config
deploy_all row [] calls = calls
deploy_all row (p ∷ ps) calls = deploy_all row ps (called (to_config row p) calls)

-- `repoURL + ":" + commitHash` behind `dedupHash`
abbrev pub dedup_key : (Text → Text) → Text → Text → Text
dedup_key digest url hash = digest (url ++ 58 ∷ hash)

-- An event of a repository. The result is none when the goroutine panics, and the daemon with it: the
-- message on a duplicate slices the first 8 characters of the hash.
unfoldable pub on_commit :
    (Text → Text) → ℕ → Option Settings → Projects → Text → Text → Watch → Option Watch
unfolding load projects_of_repo deploy_all
on_commit digest now row t url hash w =
    let key : Text = dedup_key digest url hash in
    let calls : List Config = deploy_all row (projects_of_repo url t.rows) w.calls in
    if is_empty hash
    then some (record w { calls = calls })
    else if is_recent now (load key w.recent)
    then (if ltb (length hash) 8 then none else some w)
    else some (record { recent = (key, now) ∷ w.recent; calls = calls })

-- One round of the loop of `startWatchLoop`, for an event that may not be decoded or lack the document.
unfoldable pub on_event :
    (Text → Text) → ℕ → Option Settings → Projects → Option Document → Watch → Option Watch
unfolding on_commit
on_event digest now row t none w = some w
on_event digest now row t (some doc) w = elim doc.repo_url [
  | none ↦ some w
  | some url ↦ if is_empty url then some w else on_commit digest now row t url doc.commit_hash w
]

-- What a round finds: the time, the tables and the event.
pub record Round : Type 0 where
  pub now : ℕ
  pub settings : Option Settings
  pub projects : Projects
  pub event : Option Document

-- The rounds of a stream, until it ends or the daemon does.
unfoldable pub watch_loop : (Text → Text) → List Round → Watch → Option Watch
unfolding on_event
watch_loop digest [] w = some w
watch_loop digest (r ∷ rs) w = elim (on_event digest r.now r.settings r.projects r.event w) [
  | none ↦ none
  | some w' ↦ watch_loop digest rs w'
]

-- The backoff of `WatchChanges` after a stream that failed, or ended.
abbrev pub next_backoff : Bool → ℕ → ℕ
next_backoff failed backoff =
    if failed then (if ltb 60 (2 * backoff) then 60 else 2 * backoff) else 2

-- The times that `WatchChanges` sleeps, for the results of its streams.
unfoldable pub sleeps : List Bool → ℕ → List ℕ
sleeps [] backoff = []
sleeps (failed ∷ rest) backoff =
    let later = sleeps rest (next_backoff failed backoff) in
    if failed then backoff ∷ later else later
