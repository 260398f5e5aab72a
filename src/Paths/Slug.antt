-- ===== src/Paths/Slug.antt =====
-- The slug of a project's name, and its random suffix.
use cicd.Prelude.{
  ℕ, zero, suc, ◌+◌, ◌*◌, ◌/◌, ◌≤◌, ◌≡◌, refl, ap, ◌∙◌, Bool, true, false, not, ◌&&◌, ◌||◌, some,
  List, [], ◌∷◌, arith, Text, is_empty, length, take, if◌then◌else◌,
}
use cicd.Script.{trim_left, trim_right, trim_space, is_space}
use cicd.Paths.{
  is_alnum, is_dash, slug_loop, trim_dashes, or_app, slugify, encode_to_string, random_hex,
}

-- Letters and digits with single dashes between them; `after_dash` forbids a dash in front.
unfoldable pub slug_from : Bool → Text → Bool
slug_from after_dash [] = not after_dash
slug_from after_dash (c ∷ s) =
    let plain = slug_from false s in
    let dashed = slug_from true s in
    if is_dash c then not after_dash && dashed else is_alnum c && plain

-- Not empty, no dash at an end, no two dashes side by side, and nothing but letters and digits else.
abbrev pub is_slug : Text → Bool
is_slug s = slug_from true s

-- The same with a dash allowed at the end.
unfoldable single : Bool → Text → Bool
single after_dash [] = true
single after_dash (c ∷ s) =
    let plain = single false s in
    let dashed = single true s in
    if is_dash c then not after_dash && dashed else is_alnum c && plain

alnum-dash : (c : ℕ) → is_alnum c ≡ true → is_dash c ≡ false
alnum-dash c h = ground arith

single-slug_loop : (d : Bool) (s : Text) → single d (slug_loop d s) ≡ true
unfolding single slug_loop
single-slug_loop d [] = refl
single-slug_loop true (c ∷ s) = ground (arith, single-slug_loop false s, single-slug_loop true s)
single-slug_loop false (c ∷ s) = ground (arith, single-slug_loop false s, single-slug_loop true s)

single-trim_left :
    (d : Bool) (s : Text) → single d s ≡ true → single true (trim_left is_dash s) ≡ true
unfolding single trim_left
single-trim_left d [] h = refl
single-trim_left d (c ∷ s) h = ground (arith, single-trim_left true s)

slug_from-trim_dashes :
    (d : Bool) (s : Text)
    → single d s ≡ true
    → (is_empty (trim_dashes s) || slug_from d (trim_dashes s)) ≡ true
unfolding single trim_dashes slug_from
slug_from-trim_dashes d [] h = refl
slug_from-trim_dashes d (c ∷ s) h =
    ground (arith, slug_from-trim_dashes true s, slug_from-trim_dashes false s, trim_dashes s)

chosen : (s : Text) → (is_empty s || slug_from true s) ≡ true → is_slug (or_app s) ≡ true
unfolding slug_from
chosen [] h = refl
chosen (c ∷ s) h = h

-- The slug of any name is not empty, has letters, digits and dashes only, no dash at an end and no two
-- dashes side by side, whatever the conversion to lower case does.
pub slugify-is_slug : (to_lower : Text → Text) (v : Text) → is_slug (slugify to_lower v) ≡ true
unfolding slugify
slugify-is_slug to_lower v =
    let s : Text = slug_loop false (trim_space (to_lower v)) in
    chosen (trim_dashes (trim_left is_dash s)) (
      slug_from-trim_dashes true (trim_left is_dash s)
        (single-trim_left false s (single-slug_loop false (trim_space (to_lower v)))))

slug_loop_self : (d : Bool) (s : Text) → slug_from d s ≡ true → slug_loop d s ≡ s
unfolding slug_from slug_loop
slug_loop_self d [] h = refl
slug_loop_self d (c ∷ s) h = ground (arith, slug_loop_self true s, slug_loop_self false s)

slug_loop-start : (s : Text) → is_slug s ≡ true → slug_loop false s ≡ s
unfolding slug_from slug_loop
slug_loop-start [] h = refl
slug_loop-start (c ∷ s) h = ground (arith, slug_loop_self true s, slug_loop_self false s)

trim_dashes_self : (d : Bool) (s : Text) → slug_from d s ≡ true → trim_dashes s ≡ s
unfolding slug_from trim_dashes
trim_dashes_self d [] h = refl
trim_dashes_self d (c ∷ []) h = ground arith
trim_dashes_self d (c ∷ e ∷ s) h =
    ground (arith, trim_dashes_self true (e ∷ s), trim_dashes_self false (e ∷ s))

trim_left_self : (s : Text) → is_slug s ≡ true → trim_left is_dash s ≡ s
unfolding slug_from trim_left
trim_left_self [] h = refl
trim_left_self (c ∷ s) h = ground arith

alnum-space : (c : ℕ) → (is_dash c || is_alnum c) ≡ true → is_space c ≡ false
alnum-space c h = ground arith

trim_right_self : (d : Bool) (s : Text) → slug_from d s ≡ true → trim_right s ≡ s
unfolding slug_from trim_right
trim_right_self d [] h = refl
trim_right_self d (c ∷ s) h =
    ground (arith, alnum-space c, trim_right_self true s, trim_right_self false s)

trim_left-space : (d : Bool) (s : Text) → slug_from d s ≡ true → trim_left is_space s ≡ s
unfolding slug_from trim_left
trim_left-space d [] h = refl
trim_left-space d (c ∷ s) h = ground (arith, alnum-space c)

trim_space_self : (s : Text) → is_slug s ≡ true → trim_space s ≡ s
unfolding trim_space
trim_space_self s h = ap trim_right (trim_left-space true s h) ∙ trim_right_self true s h

or_app_self : (s : Text) → is_slug s ≡ true → or_app s ≡ s
unfolding slug_from
or_app_self [] h = cc
or_app_self (c ∷ s) h = refl

-- A slug is its own slug, if the conversion to lower case leaves it alone.
slugify_self :
    (to_lower : Text → Text) (s : Text) → to_lower s ≡ s → is_slug s ≡ true → slugify to_lower s ≡ s
unfolding slugify
slugify_self to_lower s e h =
    ap (λ v. or_app (trim_dashes (trim_left is_dash (slug_loop false v))))
      (ap trim_space e ∙ trim_space_self s h)
    ∙ ap (λ v. or_app (trim_dashes (trim_left is_dash v))) (slug_loop-start s h)
    ∙ ap (λ v. or_app (trim_dashes v)) (trim_left_self s h)
    ∙ ap or_app (trim_dashes_self true s h)
    ∙ or_app_self s h

-- If the conversion to lower case leaves letters, digits and dashes alone, slugs are stable: a second
-- call of `Slugify` returns what the first one did.
slugify_idem :
    (to_lower : Text → Text) (v : Text)
    → ((s : Text) → is_slug s ≡ true → to_lower s ≡ s)
    → slugify to_lower (slugify to_lower v) ≡ slugify to_lower v
slugify_idem to_lower v fixes =
    slugify_self to_lower (slugify to_lower v)
      (fixes (slugify to_lower v) (slugify-is_slug to_lower v)) (slugify-is_slug to_lower v)

-- The number of hex digits.
length-encode : (bs : List ℕ) → length (encode_to_string bs) ≡ 2 * length bs
unfolding encode_to_string
length-encode [] = refl
length-encode (b ∷ bs) = omega (arith, length-encode bs)

length-take : (n : ℕ) (s : Text) → n ≤ length s → length (take n s) ≡ n
length-take zero s h = refl
length-take (suc n) [] h = absurd (omega arith)
length-take (suc n) (c ∷ s) h = omega (arith, length-take n s)

-- `RandomHex` returns as many characters as it is asked for, from half as many bytes and one more.
random_hex-length :
    (n : ℕ) (bytes : List ℕ)
    → length bytes ≡ n / 2 + 1
    → (s : Text) × (random_hex n (some bytes) ≡ some s) × (length s ≡ n)
unfolding random_hex
random_hex-length n bytes h = (
  take n (encode_to_string bytes),
  refl,
  length-take n (encode_to_string bytes) (omega (arith, length-encode bytes)),
)
