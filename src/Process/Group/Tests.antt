-- ===== src/Process/Group/Tests.antt =====
-- Reading /proc at concrete processes.
use cicd.Prelude.{
  ℕ, zero, suc, ◌<◌, ◌≡◌, refl, true, Option, some, none, List, false, [], ◌∷◌, arith, Text, codes,
  same, ◌==◌, length, Bool-cases, inl, inr, same_self, same_ne, ap,
}
use cicd.Process.Group.{ProcEntry, get_children_in_group, group_of_stat, after_last_paren}
use cicd.Script.{fields, push}
use cicd.Process.Group.Stat.{IsWord, plain, no_paren}
use cicd.Process.Group.Members.{
  Proc, entry_of, Lists, no_entry, process, file, other_name, gone, members,
  get_children_in_group-members,
}

-- Numbers as strokes.
unfoldable strokes : ℕ → Text
strokes zero = 49 ∷ []
strokes (suc n) = 49 ∷ strokes n

abbrev of_strokes : Text → Option ℕ
of_strokes [] = none
of_strokes (c ∷ s) = some (length s)

length-strokes : (n : ℕ) → length (strokes n) ≡ suc n
unfolding strokes
length-strokes zero = refl
length-strokes (suc n) = ground (arith, length-strokes n)

strokes-read : (n : ℕ) → 0 < n → of_strokes (strokes n) ≡ some n
unfolding strokes
strokes-read zero h = refl
strokes-read (suc n) h = rw (length-strokes n) refl

strokes-plain : (n : ℕ) → plain (strokes n) ≡ true
unfolding strokes plain
strokes-plain zero = refl
strokes-plain (suc n) = strokes-plain n

strokes-IsWord : (n : ℕ) → IsWord (strokes n)
unfolding strokes
strokes-IsWord zero = (refl, strokes-plain 0)
strokes-IsWord (suc n) = (refl, strokes-plain (suc n))

strokes-distinct : (m n : ℕ) → same (strokes m) (strokes n) ≡ (m == n)
strokes-distinct m n = elim (Bool-cases (m == n)) [
  | inl e ↦
      let same_number : m ≡ n = ground (arith, e) in
      rw (same_number, same_self (strokes n)) (ground arith)
  | inr e ↦
      rw
        (
          e,
          same_ne (strokes m) (strokes n)
              (λ p. ground (arith, ap length p, length-strokes m, length-strokes n, e)),
        )
        refl
]

abbrev leader : Proc
leader = record {
  pid = 3;
  comm = codes "bash";
  state = codes "S";
  ppid = 1;
  pgrp = 3;
  rest = codes "3 0";
}

abbrev worker : Proc
worker = record {
  pid = 4;
  comm = codes "a) b";
  state = codes "S";
  ppid = 3;
  pgrp = 3;
  rest = codes "3 0";
}

abbrev other : Proc
other = record {
  pid = 5;
  comm = codes "cron";
  state = codes "S";
  ppid = 1;
  pgrp = 5;
  rest = codes "5 0";
}

-- A file, a directory that is no process, and a process that has just ended.
abbrev version : ProcEntry
version = record { is_dir = false; name = strokes 7; stat = some [] }

abbrev empty_name : ProcEntry
empty_name = record { is_dir = true; name = []; stat = some (codes "9 (x) S 3 3 3 0") }

abbrev ended : ProcEntry
ended = record { is_dir = true; name = strokes 9; stat = none }

abbrev listing : List ProcEntry
listing =
    version
    ∷ entry_of strokes leader
    ∷ empty_name
    ∷ entry_of strokes worker
    ∷ ended
    ∷ entry_of strokes other
    ∷ []

listing-Lists : Lists of_strokes strokes listing (leader ∷ worker ∷ other ∷ [])
unfolding plain no_paren
listing-Lists = file refl (
    process {p = leader} (omega arith, (refl, refl), refl)
      (other_name refl (
        process {p = worker} (omega arith, (refl, refl), refl)
          (gone refl (process {p = other} (omega arith, (refl, refl), refl) no_entry)))))

get_children_in_group-members_example :
    get_children_in_group of_strokes strokes 3 (some listing)
    ≡ members 3 (leader ∷ worker ∷ other ∷ [])
get_children_in_group-members_example =
    get_children_in_group-members of_strokes strokes strokes-read strokes-IsWord strokes-distinct 3
      (omega arith) listing-Lists

-- Only the worker is left.
worker_left : members 3 (leader ∷ worker ∷ other ∷ []) ≡ 4 ∷ []
unfolding members
worker_left = refl

-- The command `a) b` does not hide the group.
worker_group : group_of_stat (codes "4 (a) b) S 3 7 7 0") ≡ some (codes "7")
unfolding group_of_stat after_last_paren fields push
worker_group = refl
