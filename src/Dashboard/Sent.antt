-- ===== src/Dashboard/Sent.antt =====
-- What an update of a project writes, `PUT /projects/:id`.
use cicd.Prelude.{
  ℕ, ◌≡◌, ◌≤◌, refl, ap, ◌∙◌, Bool, true, ◌&&◌, Option, none, some, List, [], ◌∷◌, arith, is_set,
  same_self, find, count,
}
use cicd.Config.{Config}
use cicd.Settings.{Settings, fill, load_global_into}
use cicd.Projects.{
  Project, Projects, conflicts, with_id, update_where, overwrite, taken, get_project_by_id,
  update_project,
}
use cicd.Projects.Keys.{IsKeyed}
use cicd.Projects.ToConfig.{config, bare_config, to_config, to_config_total}
use cicd.Dashboard.{Dashboard, UpdateRequest, updated, enqueue_config, change_project, put_project}

-- A request that sends no field
abbrev pub nothing : UpdateRequest
nothing = record {
  repo_url = none;
  branch = none;
  service_name = none;
  service_user = none;
  admin_email = none;
  git_username = none;
  git_password = none;
  webhook_port = none;
  public_ip = none;
  sudo_pass = none;
  webhook_secret = none;
  mongo_db_uri = none;
}

abbrev pub is_complete : Project → Bool
is_complete p =
    is_set p.service_dir && (is_set p.repo_url && (is_set p.service_name && is_set p.service_user))

find-update :
    (id : ℕ) (f : Project → Project) (ps : List Project) (p : Project)
    → ((q : Project) → (f q).id ≡ q.id)
    → find (with_id id) ps ≡ some p
    → find (with_id id) (update_where (with_id id) f ps) ≡ some (f p)
unfolding find update_where
find-update id f [] p h e = cc
find-update id f (q ∷ ps) p h e = ground (arith, h q, find-update id f ps p h)

count-found :
    (k : Project → Bool) (id : ℕ) (ps : List Project) (p : Project)
    → find (with_id id) ps ≡ some p
    → k p ≡ true
    → 1 ≤ count k ps
unfolding find count
count-found k id [] p e h = cc
count-found k id (q ∷ ps) p e h = ground (arith, count-found k id ps p)

find-count :
    (k : Project → Bool) (id : ℕ) (cfg : Config) (ps : List Project)
    → ((q : Project) → taken id cfg q ≡ true → k q ≡ true)
    → count k ps ≤ 0
    → find (taken id cfg) ps ≡ none
unfolding find count
find-count k id cfg [] h c = refl
find-count k id cfg (q ∷ ps) h c = ground (arith, h q, find-count k id cfg ps h)

-- If at most one row has the key of a configuration and the row with an id has it, no other row has.
own_key-free :
    (id : ℕ) (cfg : Config) (ps : List Project) (p : Project)
    → find (with_id id) ps ≡ some p
    → conflicts cfg p ≡ true
    → count (conflicts cfg) ps ≤ 1
    → find (taken id cfg) ps ≡ none
unfolding find count
own_key-free id cfg [] p e h c = refl
own_key-free id cfg (q ∷ ps) p e h c = ground (
  arith,
  own_key-free id cfg ps p,
  count-found (conflicts cfg) id ps p,
  find-count (conflicts cfg) id cfg ps (λ r k. ground arith),
)

-- `UpdateProject` with a configuration that keeps the row's key.
update_project-own_key :
    (id : ℕ) (cfg : Config) (t : Projects) (p : Project)
    → IsKeyed t
    → get_project_by_id id t ≡ some p
    → conflicts cfg p ≡ true
    → update_project true id cfg t
      ≡ (record t { rows = update_where (with_id id) (overwrite cfg) t.rows }, true)
unfolding get_project_by_id update_project
update_project-own_key id cfg t p w e h =
    let free : find (taken id cfg) t.rows ≡ none =
      own_key-free id cfg t.rows p e h (w.one_each cfg.repo_url cfg.branch cfg.service_name) in
    rw e (rw free refl)

-- The configuration of a complete row has the row's key.
to_config_complete :
    (row : Option Settings) (p : Project)
    → is_complete p ≡ true
    → to_config row p ≡ config (load_global_into row (bare_config p))
to_config_complete row p h = to_config_total row p ∙ rw h refl

load-key :
    (row : Option Settings) (p : Project)
    → conflicts (load_global_into row (bare_config p)) p ≡ conflicts (bare_config p) p
unfolding load_global_into
load-key none p = refl
load-key (some s) p = refl

-- The row `p` with the settings of the gateway where it has nothing.
abbrev pub filled : Settings → Project → Project
filled s p = record p {
  admin_email = fill p.admin_email s.admin_email;
  public_ip = fill p.public_ip s.public_ip;
  mongo_db_uri = fill p.mongo_db_uri s.mongo_db_uri;
  webhook_secret = fill p.webhook_secret s.webhook_secret;
}

-- A row with no settings to merge comes back as it is.
overwrite-load :
    (s : Settings) (p : Project)
    → overwrite (load_global_into (some s) (bare_config p)) p ≡ filled s p
unfolding load_global_into
overwrite-load s p = refl

own_key : (p : Project) → conflicts (bare_config p) p ≡ true
own_key p = ground (arith, same_self p.repo_url, same_self p.branch, same_self p.service_name)

module _ (id : ℕ) (p : Project) (s : Settings) (d : Dashboard) (w : IsKeyed d.projects)
    (e : get_project_by_id id d.projects ≡ some p) where
  written :
      (cfg : Config) (after : Projects)
      → update_project true id cfg d.projects ≡ (after, true)
      → change_project true id nothing p cfg d
        ≡ (enqueue_config cfg (record d { projects = after }), updated)
  unfolding change_project
  written cfg after h = rw h refl

  stored :
      (cfg : Config)
      → get_project_by_id id
          (record d.projects { rows = update_where (with_id id) (overwrite cfg) d.projects.rows })
        ≡ some (overwrite cfg p)
  unfolding get_project_by_id
  stored cfg = find-update id (overwrite cfg) d.projects.rows p (λ q. refl) e

-- In a keyed table, with settings of the gateway and a database that takes the write, an update of a
-- complete project that sends nothing still changes its row: the mail address, public address, MongoDB
-- address and webhook secret that it left open become the gateway's. The rest of the row stays.
pub put_nothing :
    (id : ℕ) (p : Project) (s : Settings) (d : Dashboard)
    → IsKeyed d.projects
    → get_project_by_id id d.projects ≡ some p
    → d.settings ≡ some s
    → is_complete p ≡ true
    → (get_project_by_id id (put_project true id (some nothing) d).0.projects ≡ some (filled s p))
      × ((put_project true id (some nothing) d).1 ≡ updated)
unfolding put_project
put_nothing id p s d w e row h =
    let cfg : Config = load_global_into (some s) (bare_config p) in
    let known : to_config d.settings p ≡ config cfg =
      to_config_complete d.settings p h
      ∙ ap (λ o. config (load_global_into o (bare_config p))) row in
    let key : conflicts cfg p ≡ true = load-key (some s) p ∙ own_key p in
    let done = written id p s d w e cfg _ (update_project-own_key id cfg d.projects p w e key) in
    rw (put_project, e, known, done) (stored id p s d w e cfg ∙ ap some (overwrite-load s p), refl)
