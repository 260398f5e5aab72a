-- ===== src/Process/Group/Members.antt =====
-- The members of a group against a table of processes.
use cicd.Prelude.{
  ℕ, ◌≡◌, ◌∙◌, ◌<◌, ap, refl, Bool, true, not, ◌&&◌, Option, none, some, false, List, [], ◌∷◌, ◌++◌,
  arith, Text, same, ◌==◌, if◌then◌else◌,
}
use cicd.Process.Group.{
  ProcEntry, is_group, in_group, child_of, children_among, get_children_in_group,
}
use cicd.Process.Group.Stat.{IsWord, no_paren, stat_line, group_of_stat-line}

-- A process of the system.
pub record Proc : Type 0 where
  pub pid : ℕ
  pub comm : Text
  pub state : Text
  pub ppid : ℕ
  pub pgrp : ℕ
  pub rest : Text

-- How the kernel shows it in /proc, for how a number is printed.
abbrev pub entry_of : (ℕ → Text) → Proc → ProcEntry
entry_of decimal p = record {
  is_dir = true;
  name = decimal p.pid;
  stat = some (stat_line (decimal p.pid) p.comm p.state (decimal p.ppid) (decimal p.pgrp) p.rest);
}

abbrev pub IsShown : Proc → Type 0
IsShown p = (0 < p.pid) × IsWord p.state × (no_paren p.rest ≡ true)

-- What /proc lists, against the processes: the entry of each process, in order, and between them files,
-- directories whose name is no PID, and processes that are gone when their `stat` is read.
pub data Lists (atoi : Text → Option ℕ) (decimal : ℕ → Text)
    : List ProcEntry → List Proc → Type 0 where
  no_entry : Lists atoi decimal [] []
  process :
      {p : Proc} {es : List ProcEntry} {ps : List Proc}
      → IsShown p
      → Lists atoi decimal es ps
      → Lists atoi decimal (entry_of decimal p ∷ es) (p ∷ ps)
  file :
      {e : ProcEntry} {es : List ProcEntry} {ps : List Proc}
      → e.is_dir ≡ false
      → Lists atoi decimal es ps
      → Lists atoi decimal (e ∷ es) ps
  other_name :
      {e : ProcEntry} {es : List ProcEntry} {ps : List Proc}
      → atoi e.name ≡ none
      → Lists atoi decimal es ps
      → Lists atoi decimal (e ∷ es) ps
  gone :
      {e : ProcEntry} {es : List ProcEntry} {ps : List Proc}
      → e.stat ≡ none
      → Lists atoi decimal es ps
      → Lists atoi decimal (e ∷ es) ps

-- The processes of a group without its leader.
unfoldable pub members : ℕ → List Proc → List ℕ
members pgid [] = []
members pgid (p ∷ ps) =
    (if not (p.pid == pgid) && p.pgrp == pgid then p.pid ∷ [] else []) ++ members pgid ps

module _ (atoi : Text → Option ℕ) (decimal : ℕ → Text)
    (reads : (n : ℕ) → 0 < n → atoi (decimal n) ≡ some n) (word : (n : ℕ) → IsWord (decimal n))
    (distinct : (m n : ℕ) → same (decimal m) (decimal n) ≡ (m == n)) where
  in_group-entry :
      (pgid : ℕ) (p : Proc)
      → IsShown p
      → in_group (decimal pgid) (entry_of decimal p).stat ≡ (p.pgrp == pgid)
  in_group-entry pgid p (_, s, r) =
      ap (is_group (decimal pgid)) (
        group_of_stat-line (decimal p.pid) p.comm p.state (decimal p.ppid) (decimal p.pgrp) p.rest s
          (word p.ppid) (word p.pgrp) r)
      ∙ distinct p.pgrp pgid

  child_of-entry :
      (pgid : ℕ) (p : Proc)
      → IsShown p
      → child_of decimal pgid (entry_of decimal p) (atoi (decimal p.pid))
        ≡ (if not (p.pid == pgid) && p.pgrp == pgid then p.pid ∷ [] else [])
  child_of-entry pgid p h =
      ap (child_of decimal pgid (entry_of decimal p)) (reads p.pid h.0)
      ∙ ap (λ (b : Bool). if not (p.pid == pgid) && b then p.pid ∷ [] else [])
          (in_group-entry pgid p h)

  abbrev counted : Bool → ℕ → ProcEntry → Option ℕ → List ℕ
  counted is_dir pgid e o = if is_dir then child_of decimal pgid e o else []

  counted-gone :
      (is_dir : Bool) (pgid : ℕ) (e : ProcEntry) (o : Option ℕ)
      → e.stat ≡ none
      → counted is_dir pgid e o ≡ []
  counted-gone is_dir pgid e none h = ground arith
  counted-gone is_dir pgid e (some pid) h = ground arith

  counted-other :
      (is_dir : Bool) (pgid : ℕ) (e : ProcEntry) (o : Option ℕ)
      → o ≡ none
      → counted is_dir pgid e o ≡ []
  counted-other is_dir pgid e none h = ground arith
  counted-other is_dir pgid e (some pid) h = ground arith

  skipped :
      (pgid : ℕ) (e : ProcEntry) (es : List ProcEntry) (l : List ℕ)
      → counted e.is_dir pgid e (atoi e.name) ≡ []
      → children_among atoi decimal pgid es ≡ l
      → children_among atoi decimal pgid (e ∷ es) ≡ l
  unfolding children_among
  skipped pgid e es l h k = ap (λ (m : List ℕ). m ++ children_among atoi decimal pgid es) h ∙ k

  children_among-Lists :
      (pgid : ℕ) {es : List ProcEntry} {ps : List Proc}
      → Lists atoi decimal es ps
      → children_among atoi decimal pgid es ≡ members pgid ps
  unfolding children_among members
  children_among-Lists pgid no_entry = refl
  children_among-Lists pgid (process {p} {es} {ps} h hs) =
      ap (λ (l : List ℕ). l ++ children_among atoi decimal pgid es) (child_of-entry pgid p h)
      ∙ ap (λ (l : List ℕ). (if not (p.pid == pgid) && p.pgrp == pgid then p.pid ∷ [] else []) ++ l)
          (children_among-Lists pgid hs)
  children_among-Lists pgid (file {e} {es} {ps} h hs) =
      skipped pgid e es (members pgid ps) (ground arith) (children_among-Lists pgid hs)
  children_among-Lists pgid (other_name {e} {es} {ps} h hs) =
      skipped pgid e es (members pgid ps) (counted-other e.is_dir pgid e (atoi e.name) h)
        (children_among-Lists pgid hs)
  children_among-Lists pgid (gone {e} {es} {ps} h hs) =
      skipped pgid e es (members pgid ps) (counted-gone e.is_dir pgid e (atoi e.name) h)
        (children_among-Lists pgid hs)

  -- The result is exactly the processes of the group without its leader, in the order of /proc, for a
  -- group above 0; files, directories whose name is no PID, and processes that are gone when their
  -- `stat` is read contribute nothing. A number is printed as a word, different numbers differently, and
  -- a positive one is read back; each process has a positive PID, its state is a word, and no `)` follows
  -- its group.
  pub get_children_in_group-members :
      (pgid : ℕ) {es : List ProcEntry} {ps : List Proc}
      → 0 < pgid
      → Lists atoi decimal es ps
      → get_children_in_group atoi decimal pgid (some es) ≡ members pgid ps
  unfolding get_children_in_group
  get_children_in_group-members pgid h hs = ground (arith, children_among-Lists pgid hs)
