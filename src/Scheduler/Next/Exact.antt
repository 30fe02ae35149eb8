-- ===== src/Scheduler/Next/Exact.antt =====
-- src/daemon/scheduler/mod.rs: `next_after` against `matches`, minute by minute.
use asc_daemon.Prelude.{
  ℕ, zero, suc, ◌+◌, ◌*◌, ◌/◌, ◌%◌, ◌≤◌, ◌<◌, ◌≡◌, ◌≢◌, sym, ◌∙◌, true, false, not, arith, leb, ltb,
  if◌then◌else◌, Bool-cases, inl, inr, if_split, leb→le,
}
use asc_daemon.Scheduler.Bits.{bit}
use asc_daemon.Scheduler.Schedule.{Moment, Schedule, day_matches, matches}
use asc_daemon.Scheduler.Next.{
  Search, found, nothing, out_of_fuel, date_ok, next_day, next_hour, next_loop, next_after,
  year_minutes,
}
use asc_daemon.Scheduler.Next.Clock.{HasOffset, day_arith, hour_arith}

matches_date : (s : Schedule) (m : Moment) → date_ok s m ≡ false → matches s m ≡ false
unfolding matches date_ok day_matches bit
matches_date s m h = ground arith

matches_hour : (s : Schedule) (m : Moment) → bit s.hour m.hour ≡ false → matches s m ≡ false
unfolding matches
matches_hour s m h = ground arith

matches_minute : (s : Schedule) (m : Moment) → bit s.minute m.minute ≡ false → matches s m ≡ false
unfolding matches
matches_minute s m h = ground arith

matches_all :
    (s : Schedule) (m : Moment)
    → date_ok s m ≡ true
    → bit s.hour m.hour ≡ true
    → bit s.minute m.minute ≡ true
    → matches s m ≡ true
unfolding matches date_ok
matches_all s m d h i = ground arith

date_ok_same :
    (s : Schedule) (m n : Moment)
    → m.day ≡ n.day
    → m.month ≡ n.month
    → m.weekday ≡ n.weekday
    → date_ok s m ≡ date_ok s n
unfolding date_ok day_matches
date_ok_same s m n d o w = cc

module _ (clock : ℕ → Moment) (s : Schedule) where
  -- No minute in `[t, t')` matches.
  abbrev Skips : ℕ → ℕ → Type 0
  Skips t t' = (u : ℕ) → t ≤ u → u < t' → u % 60 ≡ 0 → matches s (clock u) ≡ false

  -- The answer is right for a search from `t` up to `limit`.
  abbrev Correct : ℕ → ℕ → Search → Type 0
  Correct limit t (found r) =
      (t ≤ r) × (r ≤ limit) × (r % 60 ≡ 0) × (matches s (clock r) ≡ true) × Skips t r
  Correct limit t nothing = Skips t (limit + 1)
  Correct limit t out_of_fuel = ⊥

  Skips-append : (t t' r : ℕ) → Skips t t' → Skips t' r → Skips t r
  Skips-append t t' r a b u le lt z = elim (Bool-cases (ltb u t')) [
    | inl y ↦ a u le (ground arith) z
    | inr n ↦ b u (ground arith) lt z
  ]

  Correct-skip :
      (limit t t' : ℕ) (r : Search) → t ≤ t' → Skips t t' → Correct limit t' r → Correct limit t r
  Correct-skip limit t t' (found r) le k (a, b, c, d, e) =
      (omega arith, b, c, d, Skips-append t t' r k e)
  Correct-skip limit t t' nothing le k e = Skips-append t t' (limit + 1) k e
  Correct-skip limit t t' out_of_fuel le k e = e

  module _ (offset : ℕ) (o : HasOffset clock offset) where
    skip_day : (t : ℕ) → t % 60 ≡ 0 → date_ok s (clock t) ≡ false → Skips t (next_day t (clock t))
    skip_day t z off u le lt zu =
        let same =
          day_arith (t + offset) (u + offset) (clock t).hour (clock t).minute
            (omega (arith, o.whole)) (o.hour_of t) (o.minute_of t) (omega arith) (omega arith) in
        matches_date s (clock u) (
          sym (
            date_ok_same s (clock t) (clock u) (o.day_of t u same) (o.month_of t u same)
              (o.weekday_of t u same))
          ∙ off)

    skip_hour :
        (t : ℕ) → t % 60 ≡ 0 → bit s.hour (clock t).hour ≡ false → Skips t (next_hour t (clock t))
    skip_hour t z off u le lt zu =
        let same =
          (hour_arith (t + offset) (u + offset) (clock t).minute (omega (arith, o.whole))
            (o.minute_of t) (omega arith) (omega arith)).0 in
        let hour : (clock u).hour ≡ (clock t).hour = cc (o.hour_of t, o.hour_of u, same) in
        matches_hour s (clock u) (rw hour off)

    skip_minute : (t : ℕ) → t % 60 ≡ 0 → bit s.minute (clock t).minute ≡ false → Skips t (t + 60)
    skip_minute t z off u le lt zu =
        let e : u ≡ t = omega arith in rw e (matches_minute s (clock t) off)

    -- a skip ends at a whole minute, later than it began
    next_day_step :
        (t : ℕ) → t % 60 ≡ 0 → (next_day t (clock t) % 60 ≡ 0) × (t + 60 ≤ next_day t (clock t))
    next_day_step t z = omega (arith, o.minute_of t)

    next_hour_step :
        (t : ℕ) → t % 60 ≡ 0 → (next_hour t (clock t) % 60 ≡ 0) × (t + 60 ≤ next_hour t (clock t))
    next_hour_step t z = omega (arith, o.minute_of t)

    -- one round, where the search goes on rightly from any later whole minute
    round-Correct :
        (limit t : ℕ) (later : ℕ → Search)
        → t % 60 ≡ 0
        → (leb t limit ≡ true → (t' : ℕ) → t' % 60 ≡ 0 → t + 60 ≤ t' → Correct limit t' (later t'))
        → Correct limit t (
            if not (leb t limit)
            then nothing
            else if not (date_ok s (clock t))
            then later (next_day t (clock t))
            else if not (bit s.hour (clock t).hour)
            then later (next_hour t (clock t))
            else if bit s.minute (clock t).minute
            then found t
            else later (t + 60))
    round-Correct limit t later z ih =
        if_split (Correct limit t) (not (leb t limit)) _ _
          (λ past u le lt zu. absurd (ground arith))
          λ here.
            let on : leb t limit ≡ true = ground arith in
            let day = next_day_step t z in
            let hour = next_hour_step t z in
            if_split (Correct limit t) (not (date_ok s (clock t))) _ _
              (λ n.
                Correct-skip limit t _ _ (omega arith) (skip_day t z (ground arith))
                  (ih on _ day.0 day.1))
              λ date.
                if_split (Correct limit t) (not (bit s.hour (clock t).hour)) _ _
                  (λ n.
                    Correct-skip limit t _ _ (omega arith) (skip_hour t z (ground arith))
                      (ih on _ hour.0 hour.1))
                  λ h.
                    if_split (Correct limit t) (bit s.minute (clock t).minute) _ _
                      (λ m. (
                        omega arith,
                        leb→le _ _ on,
                        z,
                        matches_all s (clock t) (ground arith) (ground arith) m,
                        λ u le lt zu. absurd (omega arith),
                      ))
                      λ m.
                        Correct-skip limit t _ _ (omega arith) (skip_minute t z m)
                          (ih on (t + 60) (omega arith) (omega arith))

    next_loop-Correct :
        (limit fuel t : ℕ)
        → t % 60 ≡ 0
        → limit < t + fuel * 60
        → Correct limit t (next_loop clock s limit (suc fuel) t)
    unfolding next_loop
    next_loop-Correct limit zero t z enough =
        round-Correct limit t (next_loop clock s limit zero) z λ on t' z' le. absurd (ground arith)
    next_loop-Correct limit (suc fuel) t z enough =
        round-Correct limit t (next_loop clock s limit (suc fuel)) z
          λ on t' z' le. next_loop-Correct limit fuel t' z' (omega arith)

module _ (clock : ℕ → Moment) (s : Schedule) (epoch offset : ℕ) (o : HasOffset clock offset) where
  next_after-Correct :
      Correct clock s (epoch + 366 * 24 * 3600) ((epoch / 60 + 1) * 60) (next_after clock s epoch)
  unfolding next_after
  next_after-Correct =
      next_loop-Correct clock s offset o (epoch + 366 * 24 * 3600) year_minutes
        ((epoch / 60 + 1) * 60) (omega arith) (omega arith)

-- On a clock at a constant offset from UTC, `next_after` comes to an answer: its loop ends within
-- the minutes of a year and a day.
pub next_after_ends :
    (clock : ℕ → Moment) (s : Schedule) (epoch offset : ℕ)
    → HasOffset clock offset
    → next_after clock s epoch ≢ out_of_fuel
next_after_ends clock s epoch offset o e = rw e at (next_after-Correct clock s epoch offset o)

-- On a clock at a constant offset from UTC, a time that is found is a whole minute after `epoch`, at most 366 days later, and the schedule
-- fires then.
pub next_after_finds :
    (clock : ℕ → Moment) (s : Schedule) (epoch offset t : ℕ)
    → HasOffset clock offset
    → next_after clock s epoch ≡ found t
    → (epoch < t) × (t ≤ epoch + 366 * 24 * 3600) × (t % 60 ≡ 0) × (matches s (clock t) ≡ true)
next_after_finds clock s epoch offset t o e =
    let (a, b, c, d, skips) = rw e at (next_after-Correct clock s epoch offset o) in
    (omega arith, b, c, d)

-- On a clock at a constant offset from UTC, although whole hours and days are skipped, the schedule
-- fires at no whole minute `u` between
-- `epoch` and the time that is found.
pub next_after_first :
    (clock : ℕ → Moment) (s : Schedule) (epoch offset t u : ℕ)
    → HasOffset clock offset
    → next_after clock s epoch ≡ found t
    → epoch < u
    → u < t
    → u % 60 ≡ 0
    → matches s (clock u) ≡ false
next_after_first clock s epoch offset t u o e after before whole =
    let (a, b, c, d, skips) = rw e at (next_after-Correct clock s epoch offset o) in
    skips u (omega arith) before whole

-- On a clock at a constant offset from UTC, if nothing is found, the schedule fires at no whole minute of the 366 days after `epoch`.
pub next_after_nothing :
    (clock : ℕ → Moment) (s : Schedule) (epoch offset u : ℕ)
    → HasOffset clock offset
    → next_after clock s epoch ≡ nothing
    → epoch < u
    → u ≤ epoch + 366 * 24 * 3600
    → u % 60 ≡ 0
    → matches s (clock u) ≡ false
next_after_nothing clock s epoch offset u o e after before whole =
    let skips = rw e at (next_after-Correct clock s epoch offset o) in
    skips u (omega arith) (omega arith) whole
