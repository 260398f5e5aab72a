-- ===== src/Fleet/Tests.antt =====
-- Runs of the fleet's functions, and the theorems at concrete inputs.
use cicd.Prelude.{
  List, arith, ℕ, ◌≡◌, refl, true, none, some, Option, pos, [], ◌∷◌, Text, codes, text_discrete,
  ltb, length, if◌then◌else◌,
}
use cicd.Config.{Config}
use cicd.Fleet.Documents.{
  get_local_repo_urls, ProjectDoc, update_commit_hash, delete_project_from_mongo,
}
use cicd.Fleet.Documents.Push.{event_of, passes, update_commit_hash-Called}
use cicd.Fleet.Documents.Memory.{in_memory, all_docs, in_memory-IsCollection}
use cicd.Fleet.Documents.Commit.{carries}
use cicd.Fleet.Spacing.{watch_loop-spaced}
use cicd.Fleet.Documents.Calls.{
  Call, registering, deleting, committing, perform_all, perform_all-deletes_none,
}
use cicd.Projects.{Project, Projects}
use cicd.Projects.ToConfig.{bare_config, missing, to_config}
use cicd.Process.{idle}
use cicd.Fleet.{
  Clients, get_mongo_client, Dialled, connected, Document, Watch, load, projects_of_repo,
  deploy_all, on_commit, on_event, Round, watch_loop, sleeps,
}
use cicd.Fleet.Backoff.{failures}
use cicd.Fleet.Stream.{Called, first}

abbrev digest : Text → Text
digest s = s

abbrev site : Project
site = record {
  id = 1;
  service_name = codes "site";
  service_user = codes "www";
  repo_url = codes "r";
  branch = codes "dev";
  public_ip = [];
  webhook = pos 80;
  admin_email = [];
  service_dir = codes "/srv/site";
  user = [];
  last_commit_hash = [];
  last_commit_msg = [];
  github_token = [];
  github_username = [];
  sudo_pass = [];
  webhook_secret = [];
  mongo_db_uri = [];
  is_pinned = true;
  deploy_status = idle;
}

abbrev one : Projects
one = record { rows = site ∷ []; next_id = 2 }

abbrev none_left : Projects
none_left = record { rows = []; next_id = 2 }

abbrev nothing : Watch
nothing = record { recent = []; calls = [] }

abbrev push : Option Document
push = some (record { repo_url = some (codes "r"); commit_hash = codes "abc" })

abbrev round : ℕ → Round
round now = record { now = now; settings = none; projects = one; event = push }

abbrev first_taken : Watch
first_taken = record { recent = (codes "r:abc", 5) ∷ []; calls = bare_config site ∷ [] }

-- Behind the first event, one of another commit.
abbrev between : List Round
between =
    record {
      now = 30;
      settings = none;
      projects = one;
      event = some (record { repo_url = some (codes "r"); commit_hash = codes "def" });
    }
    ∷ []

abbrev both_taken : Watch
both_taken = record {
  recent = (codes "r:def", 30) ∷ (codes "r:abc", 5) ∷ [];
  calls = bare_config site ∷ bare_config site ∷ [];
}

-- The number of calls tells the states apart.
more_calls : ¬ (first_taken.calls ≡ nothing.calls)
more_calls e = cc

watch_loop-spaced_example :
    on_event digest 64 none none_left push both_taken
    ≡ (if ltb (length (codes "abc")) 8 then none else some both_taken)
unfolding watch_loop on_event on_commit load projects_of_repo deploy_all to_config missing
    text_discrete
watch_loop-spaced_example =
    watch_loop-spaced digest 5 64 none none one none_left (codes "r") (codes "abc") between nothing
      first_taken both_taken refl refl more_calls refl (omega arith, tt) (omega arith)

-- The second event of a commit with a short hash ends the daemon.
duplicate_short : watch_loop digest (round 5 ∷ round 6 ∷ []) nothing ≡ none
unfolding watch_loop on_event on_commit load projects_of_repo deploy_all to_config missing
    text_discrete
duplicate_short = refl

seven_failures : sleeps (failures 7 []) 2 ≡ 2 ∷ 4 ∷ 8 ∷ 16 ∷ 32 ∷ 60 ∷ 60 ∷ []
unfolding sleeps failures
seven_failures = refl

abbrev dials : Text → Dialled
dials uri = connected

abbrev reachable : Text → Dialled
reachable uri = connected

abbrev unconnected : Clients
unconnected = record { shared = none; last_uri = []; closed = [] }

abbrev fleet_config : Config
fleet_config = record (bare_config site) { mongo_db_uri = codes "mongodb://fleet" }

abbrev node_calls : List Call
node_calls =
    registering unconnected fleet_config 10
    ∷ committing unconnected fleet_config (codes "c1") 20
    ∷ deleting unconnected fleet_config
    ∷ []

perform_all-deletes_none_example :
    (delete_project_from_mongo in_memory reachable fleet_config (
      unconnected,
      perform_all in_memory reachable all_docs in_memory-IsCollection node_calls [],
    )).0.1
    ≡ perform_all in_memory reachable all_docs in_memory-IsCollection node_calls []
perform_all-deletes_none_example =
    perform_all-deletes_none in_memory reachable all_docs in_memory-IsCollection node_calls []
      fleet_config unconnected refl

commit_lands :
    (update_commit_hash in_memory reachable fleet_config (codes "c2") 30 (unconnected, [])).1 ≡ true
unfolding update_commit_hash get_mongo_client
commit_lands = refl

abbrev other_calls : List Call
other_calls = registering unconnected fleet_config 40 ∷ deleting unconnected fleet_config ∷ []

abbrev documents_later : List ProjectDoc
documents_later =
    perform_all in_memory reachable all_docs in_memory-IsCollection other_calls
      (update_commit_hash in_memory reachable fleet_config (codes "c2") 30 (unconnected, [])).0.1

abbrev commit_event : Option Document
commit_event =
    event_of (carries fleet_config.repo_url fleet_config.branch (codes "c2")) documents_later

update_commit_hash-Called_example :
    (commit_event
      ≡ some (record { repo_url = some fleet_config.repo_url; commit_hash = codes "c2" }))
    × (passes (get_local_repo_urls one.rows) fleet_config.repo_url ≡ true)
    × ((after : Watch) × ((on_event digest 5 none one commit_event nothing ≡ some after)
          × Called (bare_config site) after.calls))
update_commit_hash-Called_example =
    update_commit_hash-Called in_memory reachable all_docs in_memory-IsCollection fleet_config
      (codes "c2") 30 unconnected [] other_calls digest 5 none one one nothing site site
      (bare_config site) refl tt (tt, (tt, tt)) commit_lands refl first
      (unfold text_discrete in refl) first (unfold text_discrete in refl)
      (unfold to_config missing in refl) (unfold load in refl)
