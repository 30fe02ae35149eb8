-- ===== src/Scheduler/Next.antt =====
-- src/daemon/scheduler/mod.rs: `next_after`, the next minute at which a schedule fires.
pub mod Clock
pub mod Exact
use asc_daemon.Prelude.{
  ℕ, zero, suc, ◌+◌, ◌-◌, ◌*◌, ◌/◌, ◌≤◌, ◌<◌, ◌≡◌, Bool, true, false, ◌&&◌, not, arith, leb,
  if◌then◌else◌,
}
use asc_daemon.Scheduler.Bits.{bit}
use asc_daemon.Scheduler.Schedule.{Moment, Schedule, day_matches}

-- `Option<i64>`, and the end of the fuel, which the code does not have
pub data Search : Type 0 where
  found : ℕ → Search
  nothing : Search
  out_of_fuel : Search

-- `date_ok`
unfoldable pub date_ok : Schedule → Moment → Bool
unfolding day_matches bit
date_ok s m = bit s.month m.month && day_matches s m

-- the start of the next day, of the next hour
abbrev pub next_day : ℕ → Moment → ℕ
next_day t m = t + ((23 - m.hour) * 60 + (60 - m.minute)) * 60

abbrev pub next_hour : ℕ → Moment → ℕ
next_hour t m = t + (60 - m.minute) * 60

module _ (clock : ℕ → Moment) (s : Schedule) (limit : ℕ) where
  unfoldable pub next_loop : ℕ → ℕ → Search
  unfolding date_ok bit
  next_loop zero t = out_of_fuel
  next_loop (suc fuel) t =
      let later_day = next_loop fuel (next_day t (clock t)) in
      let later_hour = next_loop fuel (next_hour t (clock t)) in
      let later_minute = next_loop fuel (t + 60) in
      if not (leb t limit)
      then nothing
      else if not (date_ok s (clock t))
      then later_day
      else if not (bit s.hour (clock t).hour)
      then later_hour
      else if bit s.minute (clock t).minute
      then found t
      else later_minute

-- A year and a day has this many minutes; each round goes on by a minute at least.
abbrev pub year_minutes : ℕ
year_minutes = 366 * 24 * 60

-- `clock` is `Moment::at(_, utc)`, which asks the C library.
unfoldable pub next_after : (ℕ → Moment) → Schedule → ℕ → Search
unfolding next_loop
next_after clock s epoch =
    next_loop clock s (epoch + 366 * 24 * 3600) (suc year_minutes) ((epoch / 60 + 1) * 60)
