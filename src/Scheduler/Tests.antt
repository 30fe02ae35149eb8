-- ===== src/Scheduler/Tests.antt =====
-- Schedules at work on a calendar whose months all have 28 days and are all called January.
use asc_daemon.Prelude.{
  ℕ, ◌^◌, ◌*◌, ◌+◌, ◌/◌, ◌%◌, ◌≤◌, ◌<◌, ◌≡◌, ◌≢◌, refl, true, false, codes, arith,
}
use asc_daemon.Failure.{ok}
use asc_daemon.Scheduler.Bits.{or_range, bit, mask_all}
use asc_daemon.Scheduler.Field.{parse_field}
use asc_daemon.Scheduler.Field.Range.{parse_field_range}
use asc_daemon.Scheduler.Schedule.{Moment, Schedule, matches, daily_at, parse_schedule}
use asc_daemon.Scheduler.Next.{found, nothing, out_of_fuel, next_after}
use asc_daemon.Scheduler.Next.Clock.{HasOffset}
use asc_daemon.Scheduler.Next.Exact.{
  next_after_ends, next_after_finds, next_after_first, next_after_nothing,
}

abbrev january : ℕ → Moment
january t = record {
  minute = t / 60 % 60;
  hour = t / 3600 % 24;
  day = t / 86400 % 28 + 1;
  month = 1;
  weekday = (t / 86400 + 4) % 7;
}

january-HasOffset : HasOffset january 0
january-HasOffset = record {
  whole = refl;
  minute_of = λ t. omega arith;
  hour_of = λ t. omega arith;
  day_of = λ t u e. omega arith;
  month_of = λ t u e. refl;
  weekday_of = λ t u e. omega arith;
}

-- 12:30 every day, and a schedule for no month
abbrev half_past_noon : Schedule
half_past_noon = daily_at (2 ^ 30) (2 ^ 12)

abbrev never : Schedule
never = record half_past_noon { month = 0 }

half_past_noon_form : parse_schedule (codes " 12:30 ") ≡ ok half_past_noon
unfolding parse_schedule
half_past_noon_form = refl

found_noon : next_after january half_past_noon 0 ≡ found 45000
unfolding next_after mask_all
found_noon = refl

found_never : next_after january never 0 ≡ nothing
unfolding next_after mask_all
found_never = refl

next_after_ends_example : next_after january never 0 ≢ out_of_fuel
next_after_ends_example = next_after_ends january never 0 0 january-HasOffset

next_after_finds_example :
    (0 < 45000)
    × (45000 ≤ 0 + 366 * 24 * 3600)
    × (45000 % 60 ≡ 0)
    × (matches half_past_noon (january 45000) ≡ true)
next_after_finds_example =
    next_after_finds january half_past_noon 0 0 45000 january-HasOffset found_noon

next_after_first_example : matches half_past_noon (january 43200) ≡ false
next_after_first_example =
    next_after_first january half_past_noon 0 0 45000 43200 january-HasOffset found_noon
      (omega arith) (omega arith) refl

never_in_january : matches never (january 45000) ≡ false
never_in_january =
    next_after_nothing january never 0 0 45000 january-HasOffset found_never (omega arith)
      (omega arith) refl

quarter_hours : parse_field (codes "*/15") 0 59 ≡ ok (1 + 2 ^ 15 + 2 ^ 30 + 2 ^ 45)
unfolding parse_field or_range
quarter_hours = refl

quarter_in_range : (0 ≤ 45) × (45 ≤ 59)
unfolding bit
quarter_in_range = parse_field_range (codes "*/15") 0 59 45 quarter_hours refl
