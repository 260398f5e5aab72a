-- ===== src/Fleet/Documents.antt =====
-- The fleet's documents (gosrc/database/mongo.go: RegisterToMongo, UpdateCommitHash,
-- DeleteProjectFromMongo, GetUniqueServerIPs, getLocalRepoURLs). The collection is an interface of the
-- driver's calls; times are seconds, and other fields of a document than the program's are left out.
pub mod Kept
pub mod Calls
pub mod Commit
pub mod Push
pub mod Memory
use cicd.Prelude.{
  ℕ, Bool, true, false, not, ◌&&◌, ◌||◌, Option, none, some, List, [], ◌∷◌, ◌++◌, Text, codes, same,
  is_empty, is_set, if◌then◌else◌,
}
use cicd.Config.{Config}
use cicd.Projects.{Project, Projects}
use cicd.Fleet.{Clients, Dialled, get_mongo_client}

-- A document of `projects`. The program writes `service_name`, and looks for `serviceName` once.
pub record ProjectDoc : Type 0 where
  pub repo_url : Text
  pub branch : Text
  pub service_name : Option Text
  pub camel_service_name : Option Text
  pub admin_email : Option Text
  pub service_dir : Option Text
  pub setup_type : Option Text
  pub status : Option Text
  pub public_ips : List Text
  pub commit_hash : Option Text
  pub commit_hashes : List Text
  pub updated_at : ℕ

-- The calls of the driver: `UpdateOne` with upsert, by the filter, the change and the document that the
-- filter gives if none matches; `DeleteOne`; and `Distinct` of `public_ips`. The flag is whether no error
-- is returned.
pub record Collection (S : Type 0) : Type 0 where
  pub update_one : (ProjectDoc → Bool) → (ProjectDoc → ProjectDoc) → ProjectDoc → S → S × Bool
  pub delete_one : (ProjectDoc → Bool) → S → S × Bool
  pub distinct_ips : S → Option (List (Option Text))

-- `$addToSet`
unfoldable pub member : Text → List Text → Bool
member x [] = false
member x (y ∷ ys) = same x y || member x ys

abbrev pub add_to_set : Text → List Text → List Text
add_to_set x xs = if member x xs then xs else xs ++ x ∷ []

-- The filter by the two fields of the key.
abbrev pub is_keyed_by : Text → Text → ProjectDoc → Bool
is_keyed_by repo branch d = same d.repo_url repo && same d.branch branch

abbrev pub bare_doc : Text → Text → ProjectDoc
bare_doc repo branch = record {
  repo_url = repo;
  branch = branch;
  service_name = none;
  camel_service_name = none;
  admin_email = none;
  service_dir = none;
  setup_type = none;
  status = none;
  public_ips = [];
  commit_hash = none;
  commit_hashes = [];
  updated_at = 0;
}

abbrev pub registered_doc : Config → ℕ → ProjectDoc → ProjectDoc
registered_doc cfg now d = record d {
  service_name = some cfg.service_name;
  admin_email = some cfg.admin_email;
  service_dir = some cfg.service_dir;
  setup_type = some cfg.setup;
  updated_at = now;
  status = some (codes "online");
  public_ips = add_to_set cfg.public_ip d.public_ips;
}

abbrev pub committed : Text → ℕ → ProjectDoc → ProjectDoc
committed hash now d = record d {
  commit_hash = some hash;
  updated_at = now;
  commit_hashes = add_to_set hash d.commit_hashes;
}

abbrev is_named : Option Text → Text → Bool
is_named none name = false
is_named (some n) name = same n name

-- The filter of `DeleteProjectFromMongo`.
abbrev pub named_key : Config → ProjectDoc → Bool
named_key cfg d =
    is_keyed_by cfg.repo_url cfg.branch d && is_named d.camel_service_name cfg.service_name

-- The list of strings among the values.
unfoldable pub strings : List (Option Text) → List Text
strings [] = []
strings (none ∷ vs) = strings vs
strings (some v ∷ vs) = v ∷ strings vs

-- `getLocalRepoURLs`: each address once; the order of the rows stands for SQLite's.
unfoldable pub get_local_repo_urls : List Project → List Text
unfolding member
get_local_repo_urls [] = []
get_local_repo_urls (p ∷ ps) =
    let rest = get_local_repo_urls ps in
    if is_empty p.repo_url then rest else if member p.repo_url rest then rest else p.repo_url ∷ rest

module _ {S : Type 0} (mongo : Collection S) (dials : Text → Dialled) where
  -- A call with the shared client; the flag is whether no error is returned.
  abbrev with_client : Text → (S → S × Bool) → Clients × Bool → S → (Clients × S) × Bool
  with_client uri f (c, false) s = ((c, s), false)
  with_client uri f (c, true) s = let (s', ok) = f s in ((c, s'), ok)

  abbrev connected_call : Text → (S → S × Bool) → Clients × S → (Clients × S) × Bool
  connected_call uri f (c, s) =
      if is_empty uri then ((c, s), true) else with_client uri f (get_mongo_client dials uri c) s

  -- `RegisterToMongo`
  unfoldable pub register_to_mongo : Config → ℕ → Clients × S → (Clients × S) × Bool
  unfolding get_mongo_client
  register_to_mongo cfg now = connected_call cfg.mongo_db_uri (
      mongo.update_one (is_keyed_by cfg.repo_url cfg.branch) (registered_doc cfg now)
        (bare_doc cfg.repo_url cfg.branch))

  -- `UpdateCommitHash`
  unfoldable pub update_commit_hash : Config → Text → ℕ → Clients × S → (Clients × S) × Bool
  unfolding get_mongo_client
  update_commit_hash cfg hash now = connected_call cfg.mongo_db_uri (
      mongo.update_one (is_keyed_by cfg.repo_url cfg.branch) (committed hash now)
        (bare_doc cfg.repo_url cfg.branch))

  -- `DeleteProjectFromMongo`
  unfoldable pub delete_project_from_mongo : Config → Clients × S → (Clients × S) × Bool
  unfolding get_mongo_client
  delete_project_from_mongo cfg = connected_call cfg.mongo_db_uri (mongo.delete_one (named_key cfg))

  abbrev ips_of : Option (List (Option Text)) → Option (List Text)
  ips_of none = none
  ips_of (some vs) = some (strings vs)

  -- `GetUniqueServerIPs`; `none` is an error.
  unfoldable pub get_unique_server_ips : Config → Clients × S → Clients × Option (List Text)
  unfolding get_mongo_client strings
  get_unique_server_ips cfg (c, s) =
      if is_empty cfg.mongo_db_uri
      then (c, some [])
      else let (c', ok) = get_mongo_client dials cfg.mongo_db_uri c in
        (c', if ok then ips_of (mongo.distinct_ips s) else none)
