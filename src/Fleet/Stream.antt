-- ===== src/Fleet/Stream.antt =====
-- Which events of the change stream deploy.
use cicd.Prelude.{
  ℕ, ◌≡◌, refl, sym, Bool, true, false, Option, some, List, [], ◌∷◌, Text, same, is_empty,
  if◌then◌else◌,
}
use mathlib.Core.Path.{subst}
use cicd.Config.{Config}
use cicd.Settings.{Settings}
use cicd.Projects.{Project, Projects}
use cicd.Projects.ToConfig.{Outcome, config, lacks, to_config}
use cicd.Fleet.{
  projects_of_repo, Watch, load, is_recent, called, deploy_all, dedup_key, on_commit, on_event,
}

-- A configuration is among those that the callback got.
pub data Called (cfg : Config) : List Config → Type 0 where
  latest : {cs : List Config} → Called cfg (cfg ∷ cs)
  before : {c : Config} {cs : List Config} → Called cfg cs → Called cfg (c ∷ cs)

pub data Holds (p : Project) : List Project → Type 0 where
  first : {ps : List Project} → Holds p (p ∷ ps)
  later : {q : Project} {ps : List Project} → Holds p ps → Holds p (q ∷ ps)

deploy_all-Called :
    (row : Option Settings) (ps : List Project) (cfg : Config) (calls : List Config)
    → Called cfg calls
    → Called cfg (deploy_all row ps calls)
unfolding deploy_all
deploy_all-Called row [] cfg calls c = c
deploy_all-Called row (p ∷ ps) cfg calls c =
    deploy_all-Called row ps cfg (called (to_config row p) calls) (kept (to_config row p))
  where
    kept : (o : Outcome) → Called cfg (called o calls)
    kept (lacks fs) = c
    kept (config d) = before c

deploy_all-Holds :
    (row : Option Settings) (p : Project) (ps : List Project) (cfg : Config) (calls : List Config)
    → Holds p ps
    → to_config row p ≡ config cfg
    → Called cfg (deploy_all row ps calls)
unfolding deploy_all
deploy_all-Holds row p _ cfg calls (first {ps = ps}) e =
    deploy_all-Called row ps cfg (called (to_config row p) calls)
      (subst (λ o. Called cfg (called o calls)) (sym e) latest)
deploy_all-Holds row p _ cfg calls (later {q = q} {ps = ps} h) e =
    deploy_all-Holds row p ps cfg (called (to_config row q) calls) h e

kept :
    {p : Project} {ps : List Project} (q : Project) (b : Bool)
    → Holds p ps
    → Holds p (if b then q ∷ ps else ps)
kept q true h = later h
kept q false h = h

of_repo-Holds :
    (url : Text) (p : Project) (ps : List Project)
    → Holds p ps
    → same p.repo_url url ≡ true
    → Holds p (projects_of_repo url ps)
unfolding projects_of_repo
of_repo-Holds url p _ (first {ps = ps}) e =
    subst (λ b. Holds p (if b then p ∷ projects_of_repo url ps else projects_of_repo url ps))
      (sym e) first
of_repo-Holds url p _ (later {q = q} {ps = ps} h) e =
    kept q (same q.repo_url url) (of_repo-Holds url p ps h e)

abbrev Deploys : Config → Option Watch → Type 0
Deploys cfg o = (after : Watch) × ((o ≡ some after) × Called cfg after.calls)

choose :
    (cfg : Config) (b : Bool) (x y : Option Watch)
    → Deploys cfg x
    → Deploys cfg y
    → Deploys cfg (if b then x else y)
choose cfg true x y h k = h
choose cfg false x y h k = k

-- An event of a commit that was not taken up in the last 60 seconds deploys every project of its
-- repository that has a configuration, whichever branch it watches and whether it is pinned or not.
pub on_event-Called :
    (digest : Text → Text) (now : ℕ) (row : Option Settings) (t : Projects) (url hash : Text)
    (w : Watch) (p : Project) (cfg : Config)
    → Holds p t.rows
    → is_empty url ≡ false
    → same p.repo_url url ≡ true
    → to_config row p ≡ config cfg
    → is_recent now (load (dedup_key digest url hash) w.recent) ≡ false
    → (after : Watch) × ((on_event digest now row t
            (some (record { repo_url = some url; commit_hash = hash }))
            w
          ≡ some after)
        × Called cfg after.calls)
unfolding on_event on_commit
on_event-Called digest now row t url hash w p cfg h n same_repo e f =
    let c : Called cfg (deploy_all row (projects_of_repo url t.rows) w.calls) =
      deploy_all-Holds row p (projects_of_repo url t.rows) cfg w.calls
        (of_repo-Holds url p t.rows h same_repo) e in
    rw (n, f)
      (choose cfg (is_empty hash) _ _
        (record w { calls = deploy_all row (projects_of_repo url t.rows) w.calls }, (refl, c))
        (
          record {
            recent = (dedup_key digest url hash, now) ∷ w.recent;
            calls = deploy_all row (projects_of_repo url t.rows) w.calls;
          },
          (refl, c),
        ))
