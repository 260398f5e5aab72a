-- ===== src/Log/Tail.antt =====
-- The tail of the system log (gosrc/api/server.go: /system/logs).
use mathlib.Core.Path.{subst}
use cicd.Prelude.{
  sym, zero, ℕ, suc, ◌+◌, ◌-◌, ◌≤◌, ◌<◌, ◌≡◌, refl, ap, ◌∙◌, ◌⊎◌, inl, inr, Bool, Option, none,
  some, [], ◌∷◌, ◌++◌, arith, append_assoc, Text, ltb, ◌==◌, length, drop, length-append,
  if◌then◌else◌, Bool-cases,
}

-- The loop that skips the partial first line, byte by byte.
unfoldable pub skip_line : Text → Text
skip_line [] = []
skip_line (c ∷ s) = if c == 10 then s else skip_line s

-- `GET /system/logs`, for the file's content if it can be opened; `tailBytes` is 100 KB.
unfoldable pub system_logs : ℕ → Option Text → Option Text
unfolding skip_line
system_logs tail_bytes none = none
system_logs tail_bytes (some content) = some (
    if ltb tail_bytes (length content)
    then skip_line (drop (length content - tail_bytes) content)
    else content)

-- An end of a log: whole lines, as many as fit.
pub record IsTail (n : ℕ) (content result : Text) : Type 0 where
  pub front : Text
  pub whole : content ≡ front ++ result
  pub short : length result ≤ n
  pub at_line : (front ≡ []) ⊎ ((result ≡ []) ⊎ ((p : Text) × (front ≡ p ++ 10 ∷ [])))
  pub longest :
      (p rest : Text) → content ≡ p ++ 10 ∷ rest → length rest < n → length rest ≤ length result

abbrev Cut : Text → Text → Type 0
Cut s rest =
    (front : Text) × (s ≡ front ++ rest) × ((rest ≡ []) ⊎ ((p : Text) × (front ≡ p ++ 10 ∷ [])))

longer-Cut : (c : ℕ) (s rest : Text) → Cut s rest → Cut (c ∷ s) rest
longer-Cut c s rest (front, e, inl none_left) =
    (c ∷ front, ap (λ (t : Text). c ∷ t) e, inl none_left)
longer-Cut c s rest (front, e, inr (p, f)) =
    (c ∷ front, ap (λ (t : Text). c ∷ t) e, inr (c ∷ p, ap (λ (t : Text). c ∷ t) f))

skip-front : (s : Text) → Cut s (skip_line s)
unfolding skip_line
skip-front [] = ([], refl, inl refl)
skip-front (c ∷ s) = elim (Bool-cases (c == 10)) [
  | inl e ↦
      let newline : c ≡ 10 = ground (arith, e) in
      subst (λ (b : Bool). Cut (c ∷ s) (if b then s else skip_line s)) (sym e)
        (c ∷ [], refl, inr ([], ap (λ (d : ℕ). d ∷ []) newline))
  | inr e ↦
      subst (λ (b : Bool). Cut (c ∷ s) (if b then s else skip_line s)) (sym e)
        (longer-Cut c s (skip_line s) (skip-front s))
]

skip-longest : (s p rest : Text) → s ≡ p ++ 10 ∷ rest → length rest ≤ length (skip_line s)
unfolding skip_line
skip-longest [] p rest h = omega (arith, ap length h, length-append p (10 ∷ rest))
skip-longest (c ∷ s) [] rest h = ground (arith, h)
skip-longest (c ∷ s) (d ∷ p) rest h =
    ground (arith, h, skip-longest s p rest, length-append p (10 ∷ rest))

-- Of two ends of a text the shorter one is an end of the longer one.
ends-nest :
    (cut tail p rest : Text)
    → cut ++ tail ≡ p ++ rest
    → length rest ≤ length tail
    → (q : Text) × (tail ≡ q ++ rest)
ends-nest [] tail p rest h l = (p, h)
ends-nest (c ∷ cut) tail [] rest h l =
    absurd (omega (arith, ap length h, length-append cut tail, l))
ends-nest (c ∷ cut) tail (d ∷ p) rest h l = ends-nest cut tail p rest (cc) l

cut-drop :
    (k : ℕ) (s : Text)
    → k ≤ length s
    → (cut : Text) × (s ≡ cut ++ drop k s) × (length (drop k s) + k ≡ length s)
cut-drop zero s h = ([], refl, omega arith)
cut-drop (suc k) [] h = absurd (omega (arith, h))
cut-drop (suc k) (c ∷ s) h =
    let (cut, e, l) = cut-drop k s (omega (arith, h)) in
    (c ∷ cut, ap (λ (t : Text). c ∷ t) e, omega (arith, l))

-- The end of a log behind a partial line.
skip_line-IsTail :
    (n : ℕ) (content cut tail : Text)
    → content ≡ cut ++ tail
    → length tail ≡ n
    → IsTail n content (skip_line tail)
skip_line-IsTail n content cut tail e l =
    let (front, f, line) = skip-front tail in
    record {
      front = cut ++ front;
      whole = e ∙ ap (λ (t : Text). cut ++ t) f ∙ sym (append_assoc cut front (skip_line tail));
      short = omega (arith, ap length f, length-append front (skip_line tail), l);
      at_line = inr (behind cut front (skip_line tail) line);
      longest = λ p rest h small.
          let (q, k) = ends-nest cut tail p (10 ∷ rest) (sym e ∙ h) (omega (arith, small, l)) in
          skip-longest tail q rest k;
    }
  where
    behind :
        (cut front rest : Text)
        → (rest ≡ []) ⊎ ((p : Text) × (front ≡ p ++ 10 ∷ []))
        → (rest ≡ []) ⊎ ((p : Text) × (cut ++ front ≡ p ++ 10 ∷ []))
    behind cut front rest (inl h) = inl h
    behind cut front rest (inr (p, h)) =
        inr (cut ++ p, ap (λ (t : Text). cut ++ t) h ∙ sym (append_assoc cut p (10 ∷ [])))

-- The route shows an end of the log of at most `tailBytes`, that begins with a line or is empty, and
-- that has every end of whole lines behind a newline that is shorter than `tailBytes`; a log that fits
-- is shown whole. An end of exactly `tailBytes` loses its first line though it is whole.
pub system_logs-IsTail :
    (n : ℕ) (content : Text)
    → (result : Text) × (system_logs n (some content) ≡ some result)
      × IsTail n content result
      × (length content ≤ n → result ≡ content)
unfolding system_logs
system_logs-IsTail n content = elim (Bool-cases (ltb n (length content))) [
  | inl e ↦
      let (cut, c, l) = cut-drop (length content - n) content (omega arith) in
      let tail : Text = drop (length content - n) content in
      (
        skip_line tail,
        ap (λ (b : Bool). some (if b then skip_line tail else content)) e,
        skip_line-IsTail n content cut tail c (ground (arith, l, e)),
        λ h. ground (arith, h, e),
      )
  | inr e ↦ (
    content,
    ap (λ (b : Bool). some (if b then skip_line (drop (length content - n) content) else content))
        e,
    record {
      front = [];
      whole = refl;
      short = ground (arith, e);
      at_line = inl refl;
      longest = λ p rest h small. omega (arith, ap length h, length-append p (10 ∷ rest));
    },
    λ h. refl,
  )
]
