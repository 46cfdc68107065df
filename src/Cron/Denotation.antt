-- ===== src/Cron/Denotation.antt =====
-- What a well-formed element of a cron field denotes, and that `part_matches` decides it.
use gocontrolpanel.Base.{
  ℕ, suc, ◌-◌, ◌%◌, ◌≤◌, ◌≡◌, refl, ◌↔◌, true, false, ◌&&◌, some, [], ◌∷◌, ◌++◌, arith, ok, ◌==◌,
  if◌then◌else◌,
}
use gocontrolpanel.Base.Int.{pos}
use gocontrolpanel.Go.Strings.{Text, codes, text_eq, is_empty, contains_byte}
use gocontrolpanel.Go.Strings.Laws.{cut_absent, cut_present}
use gocontrolpanel.Go.Strconv.{atoi}
use gocontrolpanel.Cron.{part_ends, in_range, part_matches}

-- The number that a single value stands for in a field that ends at `max`.
abbrev pub folded : ℕ → ℕ → ℕ
folded max n = if max == 6 && n == 7 then 0 else n

-- `base` denotes the numbers from `lo` to `hi`.
pub data Spans (min max : ℕ) (base : Text) (lo hi : ℕ) : Type 0 where
  whole : base ≡ codes "*" → lo ≡ min → hi ≡ max → Spans min max base lo hi
  range :
      (a b : Text)
      → base ≡ a ++ b'-' ∷ b
      → contains_byte b'-' a ≡ false
      → atoi a ≡ some (pos lo)
      → atoi b ≡ some (pos hi)
      → Spans min max base lo hi
  single :
      (n : ℕ)
      → contains_byte b'-' base ≡ false
      → atoi base ≡ some (pos n)
      → lo ≡ folded max n
      → hi ≡ folded max n
      → Spans min max base lo hi

-- `part` denotes every `step`-th number from `lo` to `hi`.
pub data Denotes (min max : ℕ) (part : Text) (lo hi step : ℕ) : Type 0 where
  plain :
      contains_byte b'/' part ≡ false
      → is_empty part ≡ false
      → step ≡ 1
      → Spans min max part lo hi
      → Denotes min max part lo hi step
  stepped :
      (base s : Text) (k : ℕ)
      → part ≡ base ++ b'/' ∷ s
      → contains_byte b'/' base ≡ false
      → atoi s ≡ some (pos (suc k))
      → step ≡ suc k
      → Spans min max base lo hi
      → Denotes min max part lo hi step

contains_byte_middle : (b : ℕ) (s t : Text) → contains_byte b (s ++ b ∷ t) ≡ true
unfolding contains_byte
contains_byte_middle b [] t = ground arith
contains_byte_middle b (c ∷ s) t = ground (arith, contains_byte_middle b s t)

is_empty_middle : (s t : Text) (b : ℕ) → is_empty (s ++ b ∷ t) ≡ false
is_empty_middle [] t b = refl
is_empty_middle (c ∷ s) t b = refl

star_has_no_dash : (s : Text) → contains_byte b'-' s ≡ true → text_eq s (codes "*") ≡ false
unfolding contains_byte text_eq
star_has_no_dash [] h = cc
star_has_no_dash (c ∷ []) h = ground arith
star_has_no_dash (c ∷ d ∷ s) h = ground arith

star_no_number : (s : Text) (n : ℕ) → atoi s ≡ some (pos n) → text_eq s (codes "*") ≡ false
unfolding atoi text_eq
star_no_number [] n h = cc
star_no_number (c ∷ []) n h = ground arith
star_no_number (c ∷ d ∷ s) n h = ground arith

part_ends-Spans :
    {min max : ℕ} {base : Text} {lo hi : ℕ}
    → Spans min max base lo hi
    → part_ends base min max ≡ ok (pos lo, pos hi)
unfolding part_ends text_eq
part_ends-Spans {max} (whole e l h) = rw (e, l, h) refl
part_ends-Spans {base} (range a b e dash p q) =
    let middle = contains_byte_middle b'-' a b in
    rw (e, star_has_no_dash (a ++ b'-' ∷ b) middle, middle, cut_present b'-' a b dash, p, q) refl
part_ends-Spans {max} {base} (single n dash p l h) =
    rw (star_no_number base n p, dash, p, l, h) (ground arith)

-- The test that the source runs last, at ends that are no negative numbers.
in_range_iff :
    (value min max step lo hi : ℕ)
    → (in_range value min max step (pos lo, pos hi) ≡ ok true)
      ↔ ((min ≤ lo) × (lo ≤ value) × (value ≤ hi) × (hi ≤ max) × ((value - lo) % step ≡ 0))
unfolding in_range
in_range_iff value min max step lo hi = ground arith

part_matches-Denotes :
    {min max : ℕ} {part : Text} {lo hi step : ℕ} (value : ℕ)
    → Denotes min max part lo hi step
    → part_matches part value min max ≡ in_range value min max step (pos lo, pos hi)
unfolding part_matches
part_matches-Denotes {part} value (plain slash full one spans) =
    rw (full, cut_absent b'/' part slash, part_ends-Spans spans, one) refl
part_matches-Denotes value (stepped base s k e slash p one spans) =
    rw
      (e, is_empty_middle base s b'/', cut_present b'/' base s slash, p, part_ends-Spans spans, one)
      refl

-- A part of a cron field that denotes a range with a step matches exactly the values of the range
-- that the step reaches from its start, where the range lies within the field's bounds.
pub part_matches_iff :
    {min max : ℕ} {part : Text} {lo hi step : ℕ} (value : ℕ)
    → Denotes min max part lo hi step
    → (part_matches part value min max ≡ ok true)
      ↔ ((min ≤ lo) × (lo ≤ value) × (value ≤ hi) × (hi ≤ max) × ((value - lo) % step ≡ 0))
part_matches_iff {min} {max} {lo} {hi} {step} value d =
    rw (part_matches-Denotes value d) (in_range_iff value min max step lo hi)
