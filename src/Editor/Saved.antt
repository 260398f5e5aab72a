-- ===== src/Editor/Saved.antt =====
-- Reading back what the editor saved.
use cicd.Prelude.{
  ℕ, ◌≡◌, refl, sym, ap, ◌∙◌, Bool, true, false, not, Option, none, some, [], ◌∷◌, arith, Text,
  is_empty, is_set, ltb, length, if◌then◌else◌, inl, inr,
}
use mathlib.Core.Path.{subst}
use cicd.Script.{trim_space, trim_left, trim_right}
use cicd.Projects.{Project, Projects, get_project_by_id}
use cicd.Paths.{FilePath, absolute, parent_dir}
use cicd.Paths.Project.{ProjectPath, accepted, null_byte, traversal, symlink_outside, follows}
use cicd.Paths.Project.Links.{accepted-follows, follows-cases}
use cicd.Editor.{
  file, FileSystem, FileAnswer, opened, saved, forbidden, binary, missing_path, too_large, rel_path,
  max_edit_bytes, get_file, save_file, save_below, write_to, give_to, save_at, save_text,
  save_request, open_at, read_back, save_text, resolve, open_path,
}

-- What the routes rely on: a written file is there with its content, and a change of owner keeps it.
pub record KeepsFiles {S : Type 0} (fs : FileSystem S) : Type 0 where
  pub written_stat :
      (p : FilePath) (content : Text) (s : S)
      → (fs.write_file p content s).1 ≡ true
      → fs.stat (fs.write_file p content s).0 p ≡ file (length content)
  pub written_content :
      (p : FilePath) (content : Text) (s : S)
      → (fs.write_file p content s).1 ≡ true
      → fs.read_file (fs.write_file p content s).0 p ≡ some content
  pub chown_stat :
      (p : FilePath) (owner : ℕ × ℕ) (s : S) → fs.stat (fs.chown p owner s) p ≡ fs.stat s p
  pub chown_content :
      (p : FilePath) (owner : ℕ × ℕ) (s : S)
      → fs.read_file (fs.chown p owner s) p ≡ fs.read_file s p

trimmed-empty : (path : Text) → is_empty (trim_space path) ≡ false → is_empty path ≡ false
unfolding trim_space trim_left trim_right
trimmed-empty [] h = h
trimmed-empty (c ∷ path) h = refl

module _ {S : Type 0} (fs : FileSystem S) (valid : Text → Bool) (keeps : KeepsFiles fs) where
  -- What the editor shows of a file with this content.
  abbrev pub shown : Project → Text → ProjectPath → FileAnswer
  shown p content (accepted target) = opened (rel_path p.service_dir target) target content
  shown p content null_byte = forbidden null_byte
  shown p content traversal = forbidden traversal
  shown p content symlink_outside = forbidden symlink_outside

  -- The file is at its place with the content.
  abbrev Holds : FilePath → Text → S → Type 0
  Holds target content s =
      (fs.stat s target ≡ file (length content)) × (fs.read_file s target ≡ some content)

  give_to-Holds :
      (target : FilePath) (content : Text) (owner : Option (ℕ × ℕ)) (s : S)
      → Holds target content s
      → Holds target content (give_to fs target owner s)
  give_to-Holds target content none s h = h
  give_to-Holds target content (some owner) s (h, k) =
      (keeps.chown_stat target owner s ∙ h, keeps.chown_content target owner s ∙ k)

  owned-Holds :
      (p : Project) (target : FilePath) (content : Text) (s : S) (b : Bool)
      → Holds target content s
      → Holds target content (if b then give_to fs target (fs.lookup s p.service_user) s else s)
  owned-Holds p target content s true h =
      give_to-Holds target content (fs.lookup s p.service_user) s h
  owned-Holds p target content s false h = h

  write_to-Holds :
      (p : Project) (target : FilePath) (content : Text) (rel : Text) (n : ℕ) (r : S × Bool)
      → (r.1 ≡ true → Holds target content r.0)
      → (write_to fs p target content r).1 ≡ saved rel n
      → Holds target content (write_to fs p target content r).0
  write_to-Holds p target content rel n (s, true) k h =
      owned-Holds p target content s (is_set p.service_user) (k refl)
  write_to-Holds p target content rel n (s, false) k h = ground (arith, h)

  save_below-Holds :
      (p : Project) (target : FilePath) (content : Text) (rel : Text) (n : ℕ) (r : S × Bool)
      → (save_below fs p target content r).1 ≡ saved rel n
      → Holds target content (save_below fs p target content r).0
  save_below-Holds p target content rel n (s, true) h =
      write_to-Holds p target content rel n (fs.write_file target content s)
        (λ w. (keeps.written_stat target content s w, keeps.written_content target content s w)) h
  save_below-Holds p target content rel n (s, false) h = ground (arith, h)

  -- The path was accepted, and the file is there.
  abbrev Stored : Project → Text → Text → ProjectPath → S → S → Type 0
  Stored p path content r s after =
      (target : FilePath) × (r ≡ accepted target) × Holds target content after

  save_at-Stored :
      (p : Project) (path content rel : Text) (n : ℕ) (s : S) (r : ProjectPath)
      → (save_at fs s p content r).1 ≡ saved rel n
      → Stored p path content r s (save_at fs s p content r).0
  save_at-Stored p path content rel n s (accepted target) h =
      (target, refl, save_below-Holds p target content rel n (fs.mkdir_all (parent_dir target) s) h)
  save_at-Stored p path content rel n s null_byte h = ground (arith, h)
  save_at-Stored p path content rel n s traversal h = ground (arith, h)
  save_at-Stored p path content rel n s symlink_outside h = ground (arith, h)

  guards-passed :
      (empty large : Bool) (s : S) (r : S × FileAnswer) (rel : Text) (n : ℕ)
      → (if empty then (s, missing_path) else if large then (s, too_large) else r).1 ≡ saved rel n
      → (empty ≡ false)
        × (large ≡ false)
        × ((if empty then (s, missing_path) else if large then (s, too_large) else r) ≡ r)
  guards-passed true large s r rel n h = ground (arith, h)
  guards-passed false true s r rel n h = ground (arith, h)
  guards-passed false false s r rel n h = (refl, refl, refl)

  save_text-Stored :
      (p : Project) (path content rel : Text) (n : ℕ) (s : S)
      → (save_text fs s p (path, content)).1 ≡ saved rel n
      → (is_empty path ≡ false)
        × (ltb max_edit_bytes (length content) ≡ false)
        × Stored p path content (resolve fs s p path) s (save_text fs s p (path, content)).0
  save_text-Stored p path content rel n s h =
      let passed =
        guards-passed (is_empty (trim_space path)) (ltb max_edit_bytes (length content)) s
          (save_at fs s p content (resolve fs s p path)) rel n h in
      (
        trimmed-empty path passed.0,
        passed.1,
        subst (λ (r : S × FileAnswer). Stored p path content (resolve fs s p path) s r.0)
            (sym passed.2)
            (save_at-Stored p path content rel n s (resolve fs s p path)
              (ap (λ (r : S × FileAnswer). r.1) (sym passed.2) ∙ h)),
      )

  -- What is shown of a path that holds a small valid text.
  open_at-opened :
      (p : Project) (target : FilePath) (content : Text) (s : S)
      → valid content ≡ true
      → ltb max_edit_bytes (length content) ≡ false
      → Holds target content s
      → open_at fs valid s p target (fs.stat s target)
        ≡ opened (rel_path p.service_dir target) target content
  open_at-opened p target content s v small (h, k) =
      ap (open_at fs valid s p target) h
      ∙ ap
          (λ (b : Bool).
            if b then too_large else read_back fs valid p target (fs.read_file s target))
          small
      ∙ ap (read_back fs valid p target) k
      ∙ ap
          (λ (b : Bool).
            if not b then binary else opened (rel_path p.service_dir target) target content)
          v

  open_path-shown :
      (p : Project) (base target : FilePath) (o : Option FilePath) (content : Text) (s : S)
      → valid content ≡ true
      → ltb max_edit_bytes (length content) ≡ false
      → Holds target content s
      → open_path fs valid s p (follows base target o) ≡ shown p content (follows base target o)
  open_path-shown p base target o content s v small h = elim (follows-cases base target o) [
    | inl e ↦ rw e (open_at-opened p target content s v small h)
    | inr e ↦ rw e refl
  ]

  get_file-request :
      (projects : Projects) (id : ℕ) (p : Project) (requested : Text) (s : S)
      → get_project_by_id id projects ≡ some p
      → is_empty requested ≡ false
      → get_file fs valid projects id requested s
        ≡ open_path fs valid s p (resolve fs s p requested)
  unfolding get_file
  get_file-request projects id p requested s e h = rw (e, get_file) (rw h refl)

  save_file-request :
      (projects : Projects) (id : ℕ) (p : Project) (request : Option (Text × Text)) (s : S)
      → get_project_by_id id projects ≡ some p
      → save_file fs projects id request s ≡ save_request fs s p request
  unfolding save_file
  save_file-request projects id p request s e = rw (e, save_file) refl

  -- If the editor answers that it saved a content, which is valid UTF-8, then its path was accepted as
  -- some target, and opening the path shows the content at that target; or the path is refused, if its
  -- real path as it is then lies outside of the project. A written file is there with its content, and
  -- a change of owner keeps both.
  pub save_file-get_file :
      (projects : Projects) (id : ℕ) (p : Project) (path content rel : Text) (n : ℕ) (s : S)
      → valid content ≡ true
      → get_project_by_id id projects ≡ some p
      → (save_file fs projects id (some (path, content)) s).1 ≡ saved rel n
      → (target : FilePath) × (resolve fs s p path ≡ accepted target)
        × (get_file fs valid projects id path (save_file fs projects id (some (path, content)) s).0
            ≡ shown p content (
                follows
                  (absolute fs.cwd p.service_dir)
                  target
                  (fs.eval_symlinks (save_file fs projects id (some (path, content)) s).0 target)))
  save_file-get_file projects id p path content rel n s v e h =
      let same_result = save_file-request projects id p (some (path, content)) s e in
      let (named, small, (target, found, holds)) =
        save_text-Stored p path content rel n s
          (ap (λ (r : S × FileAnswer). r.1) (sym same_result) ∙ h) in
      let after : S = (save_text fs s p (path, content)).0 in
      (
        target,
        found,
        subst
            (λ (r : S × FileAnswer).
              get_file fs valid projects id path r.0
              ≡ shown p content
                  (follows (absolute fs.cwd p.service_dir) target (fs.eval_symlinks r.0 target)))
            (sym same_result)
            (get_file-request projects id p path after e named
              ∙ ap (open_path fs valid after p) (
                  accepted-follows fs.cwd (fs.eval_symlinks s) (fs.eval_symlinks after)
                    p.service_dir path target found)
              ∙ open_path-shown p (absolute fs.cwd p.service_dir) target
                  (fs.eval_symlinks after target) content after v small holds),
      )
