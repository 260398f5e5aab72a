-- ===== src/Editor/Tests.antt =====
-- The editor at concrete files.
use cicd.Prelude.{
  ◌≡◌, refl, Bool, true, false, Option, none, some, List, [], ◌∷◌, Text, codes, same, pos, find,
  length, same_self, All, if◌then◌else◌, text_discrete,
}
use cicd.Paths.{FilePath, clean, print, absolute, without_common}
use cicd.Script.{trim_space}
use cicd.Paths.Clean.{no_slash, root}
use cicd.Paths.Project.{accepted, follows, resolve_and_validate_project_path}
use cicd.Process.{idle}
use cicd.Projects.{Project, Projects, get_project_by_id}
use cicd.Editor.{
  DirEntry, FileStat, missing, file, FileSystem, saved, get_file, save_file, items_of, resolve,
  rel_path, rel_of,
}
use cicd.Editor.Saved.{KeepsFiles, shown, save_file-get_file}
use cicd.Editor.Shown.{no_odd, IsPlain, ItemLeadsBack, items_of-LeadsBack}

abbrev site : Project
site = record {
  id = 1;
  service_name = codes "site";
  service_user = codes "www";
  repo_url = codes "r";
  branch = codes "dev";
  public_ip = [];
  webhook = pos 80;
  admin_email = [];
  service_dir = codes "/srv/site";
  user = [];
  last_commit_hash = [];
  last_commit_msg = [];
  github_token = [];
  github_username = [];
  sudo_pass = [];
  webhook_secret = [];
  mongo_db_uri = [];
  is_pinned = true;
  deploy_status = idle;
}

abbrev one : Projects
one = record { rows = site ∷ []; next_id = 2 }

-- A disk with one file, by the text of its path.
abbrev Slot : Type 0
Slot = Option (Text × Text)

abbrev size_at : Text → Slot → FileStat
size_at name none = missing
size_at name (some (key, content)) = if same key name then file (length content) else missing

abbrev content_at : Text → Slot → Option Text
content_at name none = none
content_at name (some (key, content)) = if same key name then some content else none

abbrev one_file : FileSystem Slot
unfolding print
one_file = record {
  cwd = root [];
  eval_symlinks = λ s p. none;
  stat = λ s p. size_at (print p) s;
  read_file = λ s p. content_at (print p) s;
  read_dir = λ s p. none;
  mkdir_all = λ p s. (s, true);
  write_file = λ p content s. (some (print p, content), true);
  lookup = λ s name. some (1000, 1000);
  chown = λ p owner s. s;
}

one_file-KeepsFiles : KeepsFiles one_file
unfolding one_file
one_file-KeepsFiles = record {
  written_stat = λ p content s h. rw (same_self (print p)) refl;
  written_content = λ p content s h. rw (same_self (print p)) refl;
  chown_stat = λ p owner s. refl;
  chown_content = λ p owner s. refl;
}

abbrev all_valid : Text → Bool
all_valid s = true

-- The project's path climbs out and comes back.
abbrev asked : Text
asked = codes "/conf\\../app.conf"

saves :
    (save_file one_file one 1 (some (asked, codes "port=1")) none).1 ≡ saved (codes "app.conf") 6
unfolding find save_file get_project_by_id one_file resolve_and_validate_project_path rel_path
    rel_of clean without_common text_discrete trim_space
saves = refl

save_file-get_file_example :
    (target : FilePath) × (resolve one_file none site asked ≡ accepted target)
    × (get_file one_file all_valid one 1 asked
          (save_file one_file one 1 (some (asked, codes "port=1")) none).0
        ≡ shown one_file all_valid one_file-KeepsFiles site (codes "port=1") (
            follows (absolute (root []) (codes "/srv/site")) target (
              one_file.eval_symlinks
                (save_file one_file one 1 (some (asked, codes "port=1")) none).0
                target)))
unfolding find get_project_by_id one_file
save_file-get_file_example =
    save_file-get_file one_file all_valid one_file-KeepsFiles one 1 site asked (codes "port=1")
      (codes "app.conf") 6 none refl refl saves

abbrev entries : List DirEntry
entries =
    record { name = codes "app.conf"; is_dir = false; info = some (6, 0) }
    ∷ record { name = codes "lib"; is_dir = true; info = some (4096, 0) }
    ∷ []

conf-IsPlain : All IsPlain (codes "conf" ∷ [])
unfolding no_slash no_odd text_discrete
conf-IsPlain = ((refl, refl), tt)

entries-IsPlain : All (λ (e : DirEntry). IsPlain e.name) entries
unfolding no_slash no_odd text_discrete
entries-IsPlain = ((refl, refl), ((refl, refl), tt))

site_clean : clean (codes "/srv/site") ≡ root (codes "srv" ∷ codes "site" ∷ [])
unfolding clean text_discrete
site_clean = refl

items_of-LeadsBack_example :
    All
      (ItemLeadsBack
        (root [])
        (λ p. none)
        (codes "/srv/site")
        (codes "srv")
        (codes "site" ∷ [])
        site_clean
        (codes "conf" ∷ []))
      (items_of (codes "/srv/site") (root (codes "srv" ∷ codes "site" ∷ codes "conf" ∷ [])) entries)
items_of-LeadsBack_example =
    items_of-LeadsBack (root []) (λ p. none) (codes "/srv/site") (codes "srv") (codes "site" ∷ [])
      site_clean (codes "conf" ∷ []) entries conf-IsPlain entries-IsPlain
