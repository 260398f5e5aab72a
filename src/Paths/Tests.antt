-- ===== src/Paths/Tests.antt =====
-- Runs of the path functions, and the theorems at concrete inputs.
use cicd.Prelude.{
  ◌≡◌, refl, true, false, none, some, Option, [], ◌∷◌, Text, codes, same, text_discrete,
  if◌then◌else◌,
}
use cicd.Paths.{FilePath, clean, print, absolute, is_subpath, slugify}
use cicd.Paths.Clean.{no_slash, IsAbsolute}
use cicd.Paths.Subpath.{is_inside, is_subpath-is_inside}
use cicd.Paths.Resolve.{
  missing, directory, Disk, PathConfig, err, path_inside_deploy, protected_path,
  resolve_deployment_path,
}
use cicd.Paths.Resolve.Placed.{AnswersAbsolute, IsDecided, resolve-IsDecided}
use cicd.Paths.Project.{traversal, resolve_and_validate_project_path}
use cicd.Paths.Project.Inside.{LiesInside, accepted-LiesInside}

-- A conversion that changes nothing, as for names in lower case.
abbrev lower : Text → Text
lower s = s

cleans : print (clean (codes "/var//www/./../lib/")) ≡ codes "/var/lib"
unfolding clean print text_discrete
cleans = refl

cleans_relative : print (clean (codes "a/../../b")) ≡ codes "../b"
unfolding clean print text_discrete
cleans_relative = refl

slug : slugify lower (codes " my app!! v2 ") ≡ codes "my-app-v2"
unfolding slugify
slug = refl

empty_slug : slugify lower (codes "---") ≡ codes "app"
unfolding slugify
empty_slug = refl

inside_deployment : is_subpath (clean (codes "/srv/site/x")) (clean (codes "/srv/site")) ≡ true
unfolding is_subpath clean text_discrete
inside_deployment = refl

dotted_deployment : is_subpath (clean (codes "/srv/site/..x")) (clean (codes "/srv/site")) ≡ false
unfolding is_subpath clean text_discrete
dotted_deployment = refl

abbrev root_dir : FilePath
root_dir = record { rooted = true; parts = [] }

root-IsAbsolute : IsAbsolute root_dir
root-IsAbsolute = record { rooted = refl; elements = tt }

-- Every path is its own real path, and /srv is the one directory.
abbrev disk : Disk
disk = record {
  cwd = root_dir;
  eval_symlinks = λ p. none;
  stat = λ p. if same (print p) (codes "/srv") then directory else missing;
  random = some (1 ∷ 2 ∷ 3 ∷ 255 ∷ []);
  to_lower = lower;
}

abbrev request : PathConfig
request = record {
  base_dir = codes "/srv";
  project_name = codes "Site";
  existing_deployments = codes "/srv/a" ∷ [];
}

answers : AnswersAbsolute disk
answers = record { cwd = root-IsAbsolute; links = λ p q e. cc }

nested_base :
    resolve_deployment_path disk (record request { existing_deployments = codes "/srv/" ∷ [] })
    ≡ err path_inside_deploy
unfolding resolve_deployment_path print text_discrete
nested_base = refl

protected_base :
    resolve_deployment_path disk (record request { base_dir = codes "/var/../etc" })
    ≡ err protected_path
unfolding resolve_deployment_path print text_discrete
protected_base = refl

abbrev srv : FilePath
srv = record { rooted = true; parts = codes "srv" ∷ [] }

srv-IsAbsolute : IsAbsolute srv
unfolding text_discrete no_slash
srv-IsAbsolute = record { rooted = refl; elements = (refl, tt) }

is_subpath-is_inside_example : is_subpath srv root_dir ≡ is_inside root_dir.parts srv.parts
is_subpath-is_inside_example = is_subpath-is_inside srv root_dir srv-IsAbsolute root-IsAbsolute

resolve-IsDecided_example : IsDecided disk request (resolve_deployment_path disk request)
resolve-IsDecided_example = resolve-IsDecided disk request answers

abbrev no_links : FilePath → Option FilePath
no_links p = none

escape :
    resolve_and_validate_project_path root_dir no_links (codes "/srv") (codes "a/../../etc/passwd")
    ≡ traversal
unfolding resolve_and_validate_project_path text_discrete
escape = refl

abbrev env_file : FilePath
env_file = record { rooted = true; parts = codes "srv" ∷ codes ".env" ∷ [] }

accepted-LiesInside_example : LiesInside no_links (absolute root_dir (codes "/srv")) env_file
unfolding resolve_and_validate_project_path text_discrete
accepted-LiesInside_example =
    accepted-LiesInside root_dir no_links (codes "/srv") (codes "/.env") env_file root-IsAbsolute
      (λ p q e. cc) refl

-- A link /srv/out that leads to /etc.
abbrev link_out : FilePath → Option FilePath
link_out p =
    if same (print p) (codes "/srv/out")
    then some (record { rooted = true; parts = codes "etc" ∷ [] })
    else none
