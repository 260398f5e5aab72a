-- ===== src/Paths.antt =====
-- Deployment paths (gosrc/deploypath/path.go). A path is whether it is rooted, and its elements as
-- `filepath.Clean` leaves them; on Linux `ToSlash` changes nothing. What the file system and the
-- source of random bytes answer is an argument, and so is `strings.ToLower`, which goes by Unicode.
pub mod Slug
pub mod Clean
pub mod Subpath
pub mod Resolve
pub mod Project
mod Tests
use cicd.Prelude.{
  ℕ, suc, ◌+◌, ◌/◌, ◌%◌, Bool, true, false, not, ◌&&◌, ◌||◌, Option, none, some, List, [], ◌∷◌,
  ◌++◌, Text, codes, same, is_empty, leb, ltb, ◌==◌, length, take, if◌then◌else◌,
}
use cicd.Script.{trim_left, trim_space, has_prefix, push}

pub record FilePath : Type 0 where
  pub rooted : Bool
  pub parts : List Text

abbrev pub slash : ℕ
slash = 47

abbrev pub dash : ℕ
dash = 45

-- The elements between the slashes of a text.
unfoldable pub split_path : Text → List Text
split_path [] = [] ∷ []
split_path (c ∷ s) = let rest = split_path s in if c == slash then [] ∷ rest else push c rest

unfoldable pub drop_last : List Text → List Text
drop_last [] = []
drop_last (p ∷ []) = []
drop_last (p ∷ q ∷ ps) = p ∷ drop_last (q ∷ ps)

unfoldable pub last_is_up : List Text → Bool
last_is_up [] = false
last_is_up (p ∷ []) = same p (codes "..")
last_is_up (p ∷ q ∷ ps) = last_is_up (q ∷ ps)

-- One round of `filepath.Clean`, behind the elements that were kept.
unfoldable pub resolve_part : Bool → List Text → Text → List Text
unfolding drop_last last_is_up
resolve_part rooted kept part =
    if is_empty part || same part (codes ".")
    then kept
    else if not (same part (codes ".."))
    then kept ++ part ∷ []
    else if rooted
    then drop_last kept
    else elim kept [
      | [] ↦ part ∷ []
      | p ∷ ps ↦ if last_is_up (p ∷ ps) then (p ∷ ps) ++ part ∷ [] else drop_last (p ∷ ps)
    ]

unfoldable pub clean_from : Bool → List Text → List Text → List Text
unfolding resolve_part
clean_from rooted kept [] = kept
clean_from rooted kept (part ∷ parts) = clean_from rooted (resolve_part rooted kept part) parts

abbrev pub starts_with_slash : Text → Bool
starts_with_slash [] = false
starts_with_slash (c ∷ s) = c == slash

-- `filepath.Clean`
unfoldable pub clean : Text → FilePath
unfolding clean_from split_path
clean s =
    let rooted : Bool = starts_with_slash s in
    record { rooted = rooted; parts = clean_from rooted [] (split_path s) }

-- `filepath.Join`, for a path and a text behind it.
unfoldable pub join_path : FilePath → Text → FilePath
unfolding clean_from split_path
join_path p s = record p { parts = clean_from p.rooted p.parts (split_path s) }

-- `filepath.Abs`, for the working directory.
unfoldable pub absolute : FilePath → Text → FilePath
unfolding clean join_path
absolute cwd s = if starts_with_slash s then clean s else join_path cwd s

unfoldable pub same_parts : List Text → List Text → Bool
same_parts [] [] = true
same_parts [] (q ∷ qs) = false
same_parts (p ∷ ps) [] = false
same_parts (p ∷ ps) (q ∷ qs) = same p q && same_parts ps qs

abbrev pub same_bool : Bool → Bool → Bool
same_bool true b = b
same_bool false b = not b

-- `path == parent`, for clean paths
unfoldable pub same_path : FilePath → FilePath → Bool
unfolding same_parts
same_path p q = same_bool p.rooted q.rooted && same_parts p.parts q.parts

-- What `filepath.Rel` leaves of both lists when their common elements are dropped.
unfoldable pub without_common : List Text → List Text → List Text × List Text
without_common [] ts = ([], ts)
without_common (b ∷ bs) [] = (b ∷ bs, [])
without_common (b ∷ bs) (t ∷ ts) =
    let rest = without_common bs ts in if same b t then rest else (b ∷ bs, t ∷ ts)

-- The first element of the result of `filepath.Rel`: one `..` for each element left of the base, then
-- what is left of the target; `.` for equal paths. A base that is left with `..` is an error.
unfoldable pub rel_head : List Text × List Text → Option Text
rel_head ([], []) = some (codes ".")
rel_head ([], t ∷ ts) = some t
rel_head (b ∷ bs, ts) = if same b (codes "..") then none else some (codes "..")

-- `filepath.Rel` of clean paths, as far as `IsSubpath` looks at it.
unfoldable pub relative : FilePath → FilePath → Option Text
unfolding without_common rel_head
relative base target =
    if same_bool base.rooted target.rooted
    then rel_head (without_common base.parts target.parts)
    else none

abbrev pub goes_up : Option Text → Bool
goes_up none = true
goes_up (some rel) = has_prefix rel (codes "..")

-- `IsSubpath`, of clean paths.
unfoldable pub is_subpath : FilePath → FilePath → Bool
unfolding same_path relative has_prefix
is_subpath path parent =
    if same_path path parent then true else not (goes_up (relative parent path))

-- The loop of `Slugify`.
abbrev pub is_alnum : ℕ → Bool
is_alnum c = (leb 97 c && leb c 122) || (leb 48 c && leb c 57)

unfoldable pub slug_loop : Bool → Text → Text
slug_loop last_dash [] = []
slug_loop last_dash (c ∷ s) =
    let plain = c ∷ slug_loop false s in
    let dashed = dash ∷ slug_loop true s in
    let skipped = slug_loop true s in
    if is_alnum c then plain else if last_dash then skipped else dashed

abbrev pub is_dash : ℕ → Bool
is_dash c = c == dash

-- `strings.TrimRight s "-"`
unfoldable pub trim_dashes : Text → Text
trim_dashes [] = []
trim_dashes (c ∷ s) =
    let rest = trim_dashes s in if is_dash c && is_empty rest then [] else c ∷ rest

abbrev pub or_app : Text → Text
or_app [] = codes "app"
or_app (c ∷ s) = c ∷ s

-- `Slugify`
unfoldable pub slugify : (Text → Text) → Text → Text
unfolding trim_space trim_left slug_loop trim_dashes
slugify to_lower v =
    or_app (trim_dashes (trim_left is_dash (slug_loop false (trim_space (to_lower v)))))

-- A hex digit of `hex.EncodeToString`
abbrev hex_digit : ℕ → ℕ
hex_digit n = if ltb n 10 then 48 + n else 87 + n

unfoldable pub encode_to_string : List ℕ → Text
encode_to_string [] = []
encode_to_string (b ∷ bs) = hex_digit ((b / 16) % 16) ∷ hex_digit (b % 16) ∷ encode_to_string bs

-- `RandomHex`, for the bytes that `rand.Read` wrote, or its error.
unfoldable pub random_hex : ℕ → Option (List ℕ) → Option Text
unfolding encode_to_string
random_hex len none = none
random_hex len (some bytes) = some (take len (encode_to_string bytes))

-- The text of a clean path.
unfoldable pub flat : List Text → Text
flat [] = []
flat (p ∷ ps) = slash ∷ (p ++ flat ps)

abbrev or_here : Text → Text
or_here [] = codes "."
or_here (c ∷ s) = s

unfoldable pub print : FilePath → Text
unfolding flat
print p =
    if p.rooted
    then (if is_empty (flat p.parts) then slash ∷ [] else flat p.parts)
    else or_here (flat p.parts)

-- `filepath.Dir`
abbrev pub parent_dir : FilePath → FilePath
unfolding drop_last
parent_dir p = record p { parts = drop_last p.parts }
