-- ===== src/Cron/Lists.antt =====
-- The two loops of cron.go: over the elements of a field, and over the five fields.
use gocontrolpanel.Base.{
  ℕ, ◌≤◌, ◌≡◌, refl, ◌↔◌, true, false, List, [], ◌∷◌, arith, Result, ok, err, Result-cases, inl,
  inr,
}
use gocontrolpanel.Base.Int.{ℤ}
use gocontrolpanel.Go.Strings.{Text, split, trim_space, fields}
use gocontrolpanel.Cron.{
  Instant, CronError, Check, part_matches, part_ends, in_range, match_ends, match_step, any_part,
  field_matches, run_checks, checks, match_fields, matches,
}

-- Some element matches, and every one before it is well-formed and does not.
pub data Hits (value min max : ℕ) : List Text → Type 0 where
  here :
      {part : Text} {parts : List Text}
      → part_matches (trim_space part) value min max ≡ ok true
      → Hits value min max (part ∷ parts)
  later :
      {part : Text} {parts : List Text}
      → part_matches (trim_space part) value min max ≡ ok false
      → Hits value min max parts
      → Hits value min max (part ∷ parts)

any_part→Hits :
    (parts : List Text) (value min max : ℕ)
    → any_part parts value min max ≡ ok true
    → Hits value min max parts
unfolding any_part
any_part→Hits [] value min max h = cc
any_part→Hits (part ∷ parts) value min max h =
    elim (Result-cases (part_matches (trim_space part) value min max)) [
      | inl (true, e) ↦ here e
      | inl (false, e) ↦ later e (any_part→Hits parts value min max (rw e at h))
      | inr (x, e) ↦ cc
    ]

Hits→any_part :
    {value min max : ℕ} {parts : List Text}
    → Hits value min max parts
    → any_part parts value min max ≡ ok true
unfolding any_part
Hits→any_part (here e) = rw e
Hits→any_part (later e hits) = rw e (Hits→any_part hits)

-- A cron field matches a value exactly when some part of its list does and every part before it is
-- well-formed and does not.
pub field_matches_iff :
    (field : Text) (value min max : ℕ)
    → (field_matches field value min max ≡ ok true) ↔ Hits value min max (split b',' field)
unfolding field_matches
field_matches_iff field value min max =
    (any_part→Hits (split b',' field) value min max, λ hits. Hits→any_part hits)

in_range_bounds :
    (value min max step : ℕ) (ends : ℤ × ℤ)
    → in_range value min max step ends ≡ ok true
    → (min ≤ value) × (value ≤ max)
unfolding in_range
in_range_bounds value min max step (lo, hi) h = ground arith

match_ends_bounds :
    (value min max step : ℕ) (r : Result CronError (ℤ × ℤ))
    → match_ends value min max step r ≡ ok true
    → (min ≤ value) × (value ≤ max)
unfolding match_ends
match_ends_bounds value min max step (err e) h = cc
match_ends_bounds value min max step (ok ends) h = in_range_bounds value min max step ends h

match_step_bounds :
    (base : Text) (value min max : ℕ) (r : Result CronError ℕ)
    → match_step base value min max r ≡ ok true
    → (min ≤ value) × (value ≤ max)
unfolding match_step
match_step_bounds base value min max (err e) h = cc
match_step_bounds base value min max (ok step) h =
    match_ends_bounds value min max step (part_ends base min max) h

part_matches_bounds :
    (part : Text) (value min max : ℕ)
    → part_matches part value min max ≡ ok true
    → (min ≤ value) × (value ≤ max)
unfolding part_matches
part_matches_bounds [] value min max h = cc
part_matches_bounds (c ∷ s) value min max h = match_step_bounds _ value min max _ h

Hits_bounds :
    {value min max : ℕ} {parts : List Text}
    → Hits value min max parts
    → (min ≤ value) × (value ≤ max)
Hits_bounds {value} {min} {max} (here {part = p} e) =
    part_matches_bounds (trim_space p) value min max e
Hits_bounds (later e hits) = Hits_bounds hits

-- A value that a cron field matches lies within the bounds of the field.
pub field_matches_bounds :
    (field : Text) (value min max : ℕ)
    → field_matches field value min max ≡ ok true
    → (min ≤ value) × (value ≤ max)
field_matches_bounds field value min max h =
    Hits_bounds ((field_matches_iff field value min max).0 h)

-- The five fields of an expression, each with the number of the instant that it is held against.
pub record AllMatch (f0 f1 f2 f3 f4 : Text) (t : Instant) : Type 0 where
  pub minutes : Hits t.minute 0 59 (split b',' f0)
  pub hours : Hits t.hour 0 23 (split b',' f1)
  pub days : Hits t.day 1 31 (split b',' f2)
  pub months : Hits t.month 1 12 (split b',' f3)
  pub weekdays : Hits t.weekday 0 6 (split b',' f4)

and_then-eq-true :
    (c : Check) (cs : List Check)
    → run_checks (c ∷ cs) ≡ ok true
    → Hits c.value c.min c.max (split b',' c.field) × (run_checks cs ≡ ok true)
unfolding run_checks
and_then-eq-true c cs h = elim (Result-cases (field_matches c.field c.value c.min c.max)) [
  | inl (true, e) ↦ ((field_matches_iff c.field c.value c.min c.max).0 e, rw e at h)
  | inl (false, e) ↦ cc
  | inr (x, e) ↦ cc
]

true-and_then :
    (c : Check) (cs : List Check)
    → Hits c.value c.min c.max (split b',' c.field)
    → run_checks cs ≡ ok true
    → run_checks (c ∷ cs) ≡ ok true
unfolding run_checks
true-and_then c cs hits h = rw ((field_matches_iff c.field c.value c.min c.max).1 hits) h

run_checks→AllMatch :
    (f0 f1 f2 f3 f4 : Text) (t : Instant)
    → run_checks (checks f0 f1 f2 f3 f4 t) ≡ ok true
    → AllMatch f0 f1 f2 f3 f4 t
unfolding checks
run_checks→AllMatch f0 f1 f2 f3 f4 t h =
    let (m0, h1) = and_then-eq-true _ _ h in
    let (m1, h2) = and_then-eq-true _ _ h1 in
    let (m2, h3) = and_then-eq-true _ _ h2 in
    let (m3, h4) = and_then-eq-true _ _ h3 in
    let (m4, h5) = and_then-eq-true _ _ h4 in
    record { minutes = m0; hours = m1; days = m2; months = m3; weekdays = m4 }

no_checks : run_checks [] ≡ ok true
unfolding run_checks
no_checks = refl

AllMatch→run_checks :
    (f0 f1 f2 f3 f4 : Text) (t : Instant)
    → AllMatch f0 f1 f2 f3 f4 t
    → run_checks (checks f0 f1 f2 f3 f4 t) ≡ ok true
unfolding checks
AllMatch→run_checks f0 f1 f2 f3 f4 t m = true-and_then _ _ m.minutes (
    true-and_then _ _ m.hours (
      true-and_then _ _ m.days
        (true-and_then _ _ m.months (true-and_then _ _ m.weekdays no_checks))))

-- The expression has exactly the five fields `f0` to `f4`.
abbrev pub HasFields : Text → Text → Text → Text → Text → Text → Type 0
HasFields expr f0 f1 f2 f3 f4 = fields expr ≡ f0 ∷ f1 ∷ f2 ∷ f3 ∷ f4 ∷ []

-- An expression of five fields matches an instant exactly when each field matches the corresponding
-- part of the instant.
pub matches_iff :
    (expr f0 f1 f2 f3 f4 : Text) (t : Instant)
    → HasFields expr f0 f1 f2 f3 f4
    → (matches expr t ≡ ok true) ↔ AllMatch f0 f1 f2 f3 f4 t
unfolding matches
matches_iff expr f0 f1 f2 f3 f4 t five =
    rw (five, match_fields)
      (run_checks→AllMatch f0 f1 f2 f3 f4 t, AllMatch→run_checks f0 f1 f2 f3 f4 t)
