-- ===== src/Scheduler/Next/Clock.antt =====
-- What `next_after` relies on of the C library's calendar.
use asc_daemon.Prelude.{ℕ, ◌+◌, ◌-◌, ◌*◌, ◌/◌, ◌%◌, ◌≤◌, ◌<◌, ◌≡◌, arith}
use asc_daemon.Scheduler.Schedule.{Moment}

-- Broken-down time at a constant offset from UTC, of whole minutes: the minutes and the hours count
-- on, and the date stays the same all day. (`gmtime_r`, and `localtime_r` where no clocks change.)
pub record HasOffset (clock : ℕ → Moment) (offset : ℕ) : Type 0 where
  pub whole : offset % 60 ≡ 0
  pub minute_of : (t : ℕ) → (clock t).minute ≡ (t + offset) / 60 % 60
  pub hour_of : (t : ℕ) → (clock t).hour ≡ (t + offset) / 3600 % 24
  pub day_of :
      (t u : ℕ) → (t + offset) / 86400 ≡ (u + offset) / 86400 → (clock t).day ≡ (clock u).day
  pub month_of :
      (t u : ℕ) → (t + offset) / 86400 ≡ (u + offset) / 86400 → (clock t).month ≡ (clock u).month
  pub weekday_of :
      (t u : ℕ)
      → (t + offset) / 86400 ≡ (u + offset) / 86400
      → (clock t).weekday ≡ (clock u).weekday

-- a skip to the next day, and to the next hour, stays within the day or hour until its end
pub day_arith :
    (x y h m : ℕ)
    → x % 60 ≡ 0
    → h ≡ x / 3600 % 24
    → m ≡ x / 60 % 60
    → x ≤ y
    → y < x + ((23 - h) * 60 + (60 - m)) * 60
    → x / 86400 ≡ y / 86400
day_arith x y h m z eh em le lt = omega arith

pub hour_arith :
    (x y m : ℕ)
    → x % 60 ≡ 0
    → m ≡ x / 60 % 60
    → x ≤ y
    → y < x + (60 - m) * 60
    → (x / 3600 ≡ y / 3600) × (x / 86400 ≡ y / 86400)
hour_arith x y m z em le lt = (omega arith, omega arith)
