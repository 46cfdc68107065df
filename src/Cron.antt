-- ===== src/Cron.antt =====
-- internal/worker/cron.go: cron expressions of five fields against an instant. The loop over the
-- five checks and the loop over a field's parts stop at the first failure or error, as the source.
pub mod Denotation
pub mod Lists
use gocontrolpanel.Base.{
  ℕ, suc, ◌-◌, ◌%◌, Bool, true, false, ◌&&◌, ◌||◌, Option, none, some, List, [], ◌∷◌, Result, ok,
  err, ◌==◌, if◌then◌else◌, length,
}
use gocontrolpanel.Base.Int.{ℤ, pos, pos_part, ltb_ℤ}
use gocontrolpanel.Go.Strings.{
  Text, codes, text_eq, is_empty, contains_byte, cut, split, trim_space, fields,
}
use gocontrolpanel.Go.Strconv.{atoi}

-- The instants: what `time.Time` answers for `Minute`, `Hour`, `Day`, `Month` and `Weekday`.
pub record Instant : Type 0 where
  pub minute : ℕ
  pub hour : ℕ
  pub day : ℕ
  pub month : ℕ
  pub weekday : ℕ

pub data CronError : Type 0 where
  field_count : ℕ → CronError
  empty_part : CronError
  bad_step : Text → CronError
  bad_range : Text → CronError
  bad_value : Text → CronError
  out_of_range : ℕ → ℕ → CronError

-- The loop of `fieldMatches` and that of `Matches` go on over a `false`, and over a `true`.
abbrev pub or_else : Result CronError Bool → Result CronError Bool → Result CronError Bool
or_else (err e) rest = err e
or_else (ok true) rest = ok true
or_else (ok false) rest = rest

abbrev pub and_then : Result CronError Bool → Result CronError Bool → Result CronError Bool
and_then (err e) rest = err e
and_then (ok false) rest = ok false
and_then (ok true) rest = rest

-- `step, err := strconv.Atoi(stepStr)`, with the default 1 where there is no step.
positive_step : Text → Option ℤ → Result CronError ℕ
positive_step text (some (pos (suc n))) = ok (suc n)
positive_step text _ = err (bad_step text)

unfoldable pub parse_step : Option Text → Result CronError ℕ
unfolding positive_step atoi
parse_step none = ok 1
parse_step (some text) = positive_step text (atoi text)

range_ends : Text → Option ℤ → Option ℤ → Result CronError (ℤ × ℤ)
range_ends part (some lo) (some hi) = ok (lo, hi)
range_ends part _ _ = err (bad_range part)

atoi_after : Option Text → Option ℤ
unfolding atoi
atoi_after none = atoi []
atoi_after (some text) = atoi text

-- Sunday is 0, and 7 as a single value.
sunday : ℕ → ℤ → ℤ
sunday max (pos n) = if max == 6 && n == 7 then pos 0 else pos n
sunday max n = n

single_ends : Text → ℕ → Option ℤ → Result CronError (ℤ × ℤ)
unfolding sunday
single_ends part max none = err (bad_value part)
single_ends part max (some n) = ok (sunday max n, sunday max n)

-- The switch: the whole range, a range, or a single value.
unfoldable pub part_ends : Text → ℕ → ℕ → Result CronError (ℤ × ℤ)
unfolding range_ends atoi_after single_ends
part_ends part min max =
    if text_eq part (codes "*")
    then ok (pos min, pos max)
    else if contains_byte b'-' part
    then (let (a, b) = cut b'-' part in range_ends part (atoi a) (atoi_after b))
    else single_ends part max (atoi part)

-- The checks after the switch. Past the first, `lo` is not negative.
unfoldable pub in_range : ℕ → ℕ → ℕ → ℕ → ℤ × ℤ → Result CronError Bool
in_range value min max step (lo, hi) =
    if ltb_ℤ lo (pos min) || ltb_ℤ (pos max) hi || ltb_ℤ hi lo
    then err (out_of_range min max)
    else if ltb_ℤ (pos value) lo || ltb_ℤ hi (pos value)
    then ok false
    else ok ((value - pos_part lo) % step == 0)

match_ends : ℕ → ℕ → ℕ → ℕ → Result CronError (ℤ × ℤ) → Result CronError Bool
unfolding in_range
match_ends value min max step (err e) = err e
match_ends value min max step (ok ends) = in_range value min max step ends

match_step : Text → ℕ → ℕ → ℕ → Result CronError ℕ → Result CronError Bool
unfolding match_ends part_ends
match_step base value min max (err e) = err e
match_step base value min max (ok step) = match_ends value min max step (part_ends base min max)

unfoldable pub part_matches : Text → ℕ → ℕ → ℕ → Result CronError Bool
unfolding match_step parse_step
part_matches part value min max =
    if is_empty part
    then err empty_part
    else (let (base, step) = cut b'/' part in match_step base value min max (parse_step step))

any_part : List Text → ℕ → ℕ → ℕ → Result CronError Bool
any_part [] value min max = ok false
any_part (part ∷ parts) value min max =
    or_else (part_matches (trim_space part) value min max) (any_part parts value min max)

unfoldable pub field_matches : Text → ℕ → ℕ → ℕ → Result CronError Bool
unfolding any_part
field_matches field value min max = any_part (split b',' field) value min max

-- The table `checks` of the source, and the loop over it.
pub record Check : Type 0 where
  pub field : Text
  pub value : ℕ
  pub min : ℕ
  pub max : ℕ

pub run_checks : List Check → Result CronError Bool
run_checks [] = ok true
run_checks (c ∷ cs) = and_then (field_matches c.field c.value c.min c.max) (run_checks cs)

pub checks : Text → Text → Text → Text → Text → Instant → List Check
checks f0 f1 f2 f3 f4 t =
    record { field = f0; value = t.minute; min = 0; max = 59 }
    ∷ record { field = f1; value = t.hour; min = 0; max = 23 }
    ∷ record { field = f2; value = t.day; min = 1; max = 31 }
    ∷ record { field = f3; value = t.month; min = 1; max = 12 }
    ∷ record { field = f4; value = t.weekday; min = 0; max = 6 }
    ∷ []

match_fields : List Text → Instant → Result CronError Bool
unfolding checks run_checks
match_fields (f0 ∷ f1 ∷ f2 ∷ f3 ∷ f4 ∷ []) t = run_checks (checks f0 f1 f2 f3 f4 t)
match_fields fs t = err (field_count (length fs))

unfoldable pub matches : Text → Instant → Result CronError Bool
unfolding match_fields
matches expr t = match_fields (fields expr) t
