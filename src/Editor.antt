-- ===== src/Editor.antt =====
-- The dashboard's file editor (gosrc/api/server.go: the routes /projects/:id/files and
-- /projects/:id/file). The file system is an interface of the calls that the routes make; contents are
-- bytes, and a request that cannot be read is `none`.
pub mod Saved
pub mod Shown
mod Tests
use cicd.Prelude.{
  ℕ, Bool, true, false, not, ◌&&◌, ◌||◌, Option, none, some, List, [], ◌∷◌, ◌++◌, map, Text, codes,
  same, is_empty, is_set, ltb, length, if◌then◌else◌,
}
use cicd.Script.{trim_space}
use cicd.Projects.{Project, Projects, get_project_by_id}
use cicd.Paths.{FilePath, clean, join_path, same_bool, without_common, print, parent_dir}
use cicd.Paths.Project.{
  ProjectPath, accepted, null_byte, traversal, symlink_outside, resolve_and_validate_project_path,
}

-- What `os.Stat` returns, with the size of a file.
pub data FileStat : Type 0 where
  missing unreadable directory : FileStat
  file : ℕ → FileStat

-- An entry of `os.ReadDir`, with what its `Info` returns: the size and the time.
pub record DirEntry : Type 0 where
  pub name : Text
  pub is_dir : Bool
  pub info : Option (ℕ × ℕ)

-- The calls of the operating system, over its state.
pub record FileSystem (S : Type 0) : Type 0 where
  pub cwd : FilePath
  pub eval_symlinks : S → FilePath → Option FilePath
  pub stat : S → FilePath → FileStat
  pub read_file : S → FilePath → Option Text
  pub read_dir : S → FilePath → Option (List DirEntry)
  pub mkdir_all : FilePath → S → S × Bool
  pub write_file : FilePath → Text → S → S × Bool
  pub lookup : S → Text → Option (ℕ × ℕ)
  pub chown : FilePath → ℕ × ℕ → S → S

abbrev pub max_edit_bytes : ℕ
max_edit_bytes = 5242880

-- `filepath.Rel` of clean paths, behind their common elements.
abbrev pub ups : List Text → List Text
ups [] = []
ups (b ∷ bs) = codes ".." ∷ ups bs

unfoldable pub rel_of : List Text × List Text → Text
unfolding print
rel_of ([], []) = codes "."
rel_of ([], t ∷ ts) = print (record { rooted = false; parts = t ∷ ts })
rel_of (b ∷ bs, ts) =
    if same b (codes "..")
    then []
    else print (record { rooted = false; parts = ups (b ∷ bs) ++ ts })

-- `filepath.Rel`, which gives the empty text with an error.
unfoldable pub rel_path : Text → FilePath → Text
unfolding clean without_common rel_of
rel_path base_dir target =
    if same_bool (clean base_dir).rooted target.rooted
    then rel_of (without_common (clean base_dir).parts target.parts)
    else []

pub record FileItem : Type 0 where
  pub name : Text
  pub path : Text
  pub is_dir : Bool
  pub size : ℕ
  pub mod_time : ℕ

-- The answers; the time of an opened file and the line that is logged are left out.
pub data FileAnswer : Type 0 where
  no_project invalid_body missing_path too_large : FileAnswer
  forbidden : ProjectPath → FileAnswer
  stat_failed is_directory read_failed binary : FileAnswer
  absent : Text → FilePath → FileAnswer
  opened : Text → FilePath → Text → FileAnswer
  mkdir_failed write_failed : FileAnswer
  saved : Text → ℕ → FileAnswer
  listed : Text → Text → List FileItem → List (Text × Bool) → FileAnswer

abbrev pub item_of : Text → FilePath → DirEntry → Option (ℕ × ℕ) → List FileItem
item_of base_dir dir e none = []
item_of base_dir dir e (some (size, time)) =
    record {
      name = e.name;
      path = rel_path base_dir (join_path dir e.name);
      is_dir = e.is_dir;
      size = size;
      mod_time = time;
    }
    ∷ []

-- The loop over the entries of a directory.
unfoldable pub items_of : Text → FilePath → List DirEntry → List FileItem
unfolding rel_path join_path
items_of base_dir dir [] = []
items_of base_dir dir (e ∷ es) = item_of base_dir dir e e.info ++ items_of base_dir dir es

abbrev pub quick_names : List Text
quick_names =
    codes ".env"
    ∷ codes ".env.local"
    ∷ codes ".env.production"
    ∷ codes ".env.example"
    ∷ codes "package.json"
    ∷ codes "go.mod"
    ∷ codes "requirements.txt"
    ∷ codes "install.sh"
    ∷ codes "run.sh"
    ∷ []

abbrev pub stat_ok : FileStat → Bool
stat_ok missing = false
stat_ok unreadable = false
stat_ok directory = true
stat_ok (file n) = true

abbrev pub not_here : Text → Text
not_here rel = if same rel (codes ".") then [] else rel

module _ {S : Type 0} (fs : FileSystem S) where
  abbrev resolve : S → Project → Text → ProjectPath
  resolve s p requested =
      resolve_and_validate_project_path fs.cwd (fs.eval_symlinks s) p.service_dir requested

  abbrev list_in : S → Project → FilePath → Option (List DirEntry) → FileAnswer
  list_in s p target none = read_failed
  list_in s p target (some es) =
      listed (not_here (rel_path p.service_dir target)) p.service_dir
        (items_of p.service_dir target es)
        (map (λ q. (q, stat_ok (fs.stat s (join_path (clean p.service_dir) q)))) quick_names)

  -- `GET /projects/:id/files`
  abbrev list_at : S → Project → ProjectPath → FileAnswer
  list_at s p (accepted target) = list_in s p target (fs.read_dir s target)
  list_at s p null_byte = forbidden null_byte
  list_at s p traversal = forbidden traversal
  list_at s p symlink_outside = forbidden symlink_outside

  unfoldable pub list_files : Projects → ℕ → Text → S → FileAnswer
  list_files projects id sub_path s = elim (get_project_by_id id projects) [
    | none ↦ no_project
    | some p ↦ list_at s p (resolve s p sub_path)
  ]

  abbrev read_back : (Text → Bool) → Project → FilePath → Option Text → FileAnswer
  read_back valid p target none = read_failed
  read_back valid p target (some content) =
      if not (valid content) then binary else opened (rel_path p.service_dir target) target content

  abbrev open_at : (Text → Bool) → S → Project → FilePath → FileStat → FileAnswer
  open_at valid s p target missing = absent (rel_path p.service_dir target) target
  open_at valid s p target unreadable = stat_failed
  open_at valid s p target directory = is_directory
  open_at valid s p target (file size) =
      if ltb max_edit_bytes size
      then too_large
      else read_back valid p target (fs.read_file s target)

  abbrev open_path : (Text → Bool) → S → Project → ProjectPath → FileAnswer
  open_path valid s p (accepted target) = open_at valid s p target (fs.stat s target)
  open_path valid s p null_byte = forbidden null_byte
  open_path valid s p traversal = forbidden traversal
  open_path valid s p symlink_outside = forbidden symlink_outside

  abbrev open_request : (Text → Bool) → S → Project → Text → FileAnswer
  open_request valid s p requested =
      if is_empty requested then missing_path else open_path valid s p (resolve s p requested)

  -- `GET /projects/:id/file`, for `utf8.Valid`.
  unfoldable pub get_file : (Text → Bool) → Projects → ℕ → Text → S → FileAnswer
  get_file valid projects id requested s = elim (get_project_by_id id projects) [
    | none ↦ no_project
    | some p ↦ open_request valid s p requested
  ]

  abbrev give_to : FilePath → Option (ℕ × ℕ) → S → S
  give_to target none s = s
  give_to target (some owner) s = fs.chown target owner s

  -- Behind `os.WriteFile`: the owner is set.
  abbrev owned : Project → FilePath → S → S
  owned p target s =
      if is_set p.service_user then give_to target (fs.lookup s p.service_user) s else s

  abbrev write_to : Project → FilePath → Text → S × Bool → S × FileAnswer
  write_to p target content (s, false) = (s, write_failed)
  write_to p target content (s, true) =
      (owned p target s, saved (rel_path p.service_dir target) (length content))

  abbrev save_below : Project → FilePath → Text → S × Bool → S × FileAnswer
  save_below p target content (s, false) = (s, mkdir_failed)
  save_below p target content (s, true) = write_to p target content (fs.write_file target content s)

  abbrev save_at : S → Project → Text → ProjectPath → S × FileAnswer
  save_at s p content (accepted target) =
      save_below p target content (fs.mkdir_all (parent_dir target) s)
  save_at s p content null_byte = (s, forbidden null_byte)
  save_at s p content traversal = (s, forbidden traversal)
  save_at s p content symlink_outside = (s, forbidden symlink_outside)

  abbrev save_text : S → Project → Text × Text → S × FileAnswer
  save_text s p (path, content) =
      if is_empty (trim_space path)
      then (s, missing_path)
      else if ltb max_edit_bytes (length content)
      then (s, too_large)
      else save_at s p content (resolve s p path)

  abbrev save_request : S → Project → Option (Text × Text) → S × FileAnswer
  save_request s p none = (s, invalid_body)
  save_request s p (some (path, content)) = save_text s p (path, content)

  -- `POST /projects/:id/file`, for the path and the content of the request.
  unfoldable pub save_file : Projects → ℕ → Option (Text × Text) → S → S × FileAnswer
  save_file projects id request s = elim (get_project_by_id id projects) [
    | none ↦ (s, no_project)
    | some p ↦ save_request s p request
  ]
