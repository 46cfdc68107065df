-- ===== src/Tests/CronTests.antt =====
-- Cron expressions: internal/worker/cron_test.go, and the theorems at concrete expressions.
use gocontrolpanel.Base.{◌-◌, ◌%◌, ◌≤◌, ◌≡◌, refl, ◌↔◌, true, false, ok, err}
use gocontrolpanel.Go.Strings.{codes, text_eq, split, trim_space, contains_byte, cut, fields}
use gocontrolpanel.Go.Strconv.{atoi}
use gocontrolpanel.Cron.{
  Instant, out_of_range, bad_value, field_count, part_matches, field_matches, matches,
}
use gocontrolpanel.Cron.Denotation.{Denotes, stepped, range, part_matches_iff}
use gocontrolpanel.Cron.Lists.{Hits, field_matches_iff, AllMatch, HasFields, matches_iff}

-- Monday 2026-07-20, 10:15.
abbrev monday : Instant
monday = record { minute = 15; hour = 10; day = 20; month = 7; weekday = 1 }

runs : Unit {0}
unfolding matches field_matches part_matches split trim_space contains_byte cut fields atoi text_eq
runs = tt

quarter_hours : matches (codes "*/15 9-18 * * 1-5") monday ≡ ok true
unfolding runs
quarter_hours = refl

sunday_only : matches (codes "15 10 * * 7") monday ≡ ok false
unfolding runs
sunday_only = refl

too_few : matches (codes "* * *") monday ≡ err (field_count 3)
unfolding runs
too_few = refl

-- A malformed field is not looked at where an earlier field does not match.
unseen_error : matches (codes "3 x * * *") monday ≡ ok false
unfolding runs
unseen_error = refl

seen_error : matches (codes "15 x * * *") monday ≡ err (bad_value (codes "x"))
unfolding runs
seen_error = refl

-- As the end of a range, 7 is no weekday.
sunday_range : matches (codes "* * * * 5-7") monday ≡ err (out_of_range 0 6)
unfolding runs
sunday_range = refl

every_ten : Denotes 0 59 (codes "5-45/10") 5 45 10
unfolding contains_byte atoi
every_ten =
    stepped (codes "5-45") (codes "10") 9 refl refl refl refl
      (range (codes "5") (codes "45") refl refl refl refl)

part_matches_iff_example :
    (part_matches (codes "5-45/10") 25 0 59 ≡ ok true)
    ↔ ((0 ≤ 5) × (5 ≤ 25) × (25 ≤ 45) × (45 ≤ 59) × ((25 - 5) % 10 ≡ 0))
part_matches_iff_example = part_matches_iff 25 every_ten

field_matches_iff_example :
    (field_matches (codes "1,5-9") 7 0 59 ≡ ok true) ↔ Hits 7 0 59 (split b',' (codes "1,5-9"))
field_matches_iff_example = field_matches_iff (codes "1,5-9") 7 0 59

seven : field_matches (codes "1,5-9") 7 0 59 ≡ ok true
unfolding runs
seven = refl

five_fields :
    HasFields
      (codes "*/15 9-18 * * 1-5")
      (codes "*/15")
      (codes "9-18")
      (codes "*")
      (codes "*")
      (codes "1-5")
unfolding fields
five_fields = refl

matches_iff_example :
    (matches (codes "*/15 9-18 * * 1-5") monday ≡ ok true)
    ↔ AllMatch (codes "*/15") (codes "9-18") (codes "*") (codes "*") (codes "1-5") monday
matches_iff_example =
    matches_iff (codes "*/15 9-18 * * 1-5") (codes "*/15") (codes "9-18") (codes "*") (codes "*")
      (codes "1-5") monday five_fields
