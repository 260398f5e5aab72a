-- ===== src/Projects/Lookup.antt =====
-- What a query returns after a write, by service directory.
use cicd.Prelude.{ℕ, ◌≡◌, ◌≢◌, refl, true, some, List, [], ◌∷◌, arith, Text, find}
use cicd.Process.{DeployStatus}
use cicd.Projects.{
  Project, Projects, in_dir, update_where, set_deploy_status_by_dir, get_deploy_status_by_dir,
  get_project_id_by_dir, status_of, id_of,
}

abbrev with_status : DeployStatus → Project → Project
with_status status p = record p { deploy_status = status }

module _ (dir : Text) (status : DeployStatus) where
  status-written :
      (ps : List Project) (id : ℕ)
      → id_of (find (in_dir dir) ps) ≡ some id
      → status_of (find (in_dir dir) (update_where (in_dir dir) (with_status status) ps))
        ≡ some status
  unfolding find update_where
  status-written [] id h = cc
  status-written (p ∷ ps) id h = ground (arith, status-written ps id)

  status-other :
      (other : Text) (ps : List Project)
      → other ≢ dir
      → status_of (find (in_dir other) (update_where (in_dir dir) (with_status status) ps))
        ≡ status_of (find (in_dir other) ps)
  unfolding find update_where
  status-other other [] h = refl
  status-other other (p ∷ ps) h = ground (arith, status-other other ps h)

-- If a project is registered for the directory, the status that was written by directory is the one
-- that is read back; for any other directory the status read is as before.
get_status-set_status :
    (dir other : Text) (status : DeployStatus) (t : Projects) (id : ℕ)
    → get_project_id_by_dir dir t ≡ some id
    → other ≢ dir
    → (get_deploy_status_by_dir dir (set_deploy_status_by_dir true dir status t).0 ≡ some status)
      × (get_deploy_status_by_dir other (set_deploy_status_by_dir true dir status t).0
          ≡ get_deploy_status_by_dir other t)
unfolding get_project_id_by_dir get_deploy_status_by_dir set_deploy_status_by_dir
get_status-set_status dir other status t id h ne =
    (status-written dir status t.rows id h, status-other dir status other t.rows ne)
