-- ===== src/Scheduler/Schedule.antt =====
-- src/daemon/scheduler/mod.rs: `Moment`, `Schedule`, its parser and its test of a moment.
use asc_daemon.Prelude.{
  ℕ, ◌-◌, Bool, false, ◌&&◌, ◌||◌, not, Option, none, some, Text, List, [], ◌∷◌, map, leb, ◌==◌,
  if◌then◌else◌, codes, text_eq, trim, is_empty, is_whitespace, to_lower, split_once, contains,
  byte_length,
}
use asc_daemon.Failure.{Result, ok, err, internal, ◌>>=◌, ◌>>◌, guard}
use asc_daemon.Scheduler.Bits.{bit, set_bit, mask_all}
use asc_daemon.Scheduler.Field.{parse_u32, parse_field}

pub record Moment : Type 0 where
  pub minute : ℕ
  pub hour : ℕ
  pub day : ℕ
  pub month : ℕ
  pub weekday : ℕ

pub record Schedule : Type 0 where
  pub minute : ℕ
  pub hour : ℕ
  pub day : ℕ
  pub month : ℕ
  pub weekday : ℕ
  pub day_restricted : Bool
  pub weekday_restricted : Bool

-- the date half of the test, shared by `matches` and `next_after`
unfoldable pub day_matches : Schedule → Moment → Bool
unfolding bit
day_matches s at =
    let day_ok = bit s.day at.day in
    let weekday_ok = bit s.weekday at.weekday in
    if s.day_restricted && s.weekday_restricted then day_ok || weekday_ok else day_ok && weekday_ok

-- `Schedule::matches`
unfoldable pub matches : Schedule → Moment → Bool
unfolding day_matches bit
matches s at =
    if not (bit s.minute at.minute) || not (bit s.hour at.hour) || not (bit s.month at.month)
    then false
    else day_matches s at

-- every day of every month, at the given minutes and hours
abbrev pub daily_at : ℕ → ℕ → Schedule
daily_at minute hour = record {
  minute = minute;
  hour = hour;
  day = mask_all 1 31;
  month = mask_all 1 12;
  weekday = mask_all 0 6;
  day_restricted = false;
  weekday_restricted = false;
}

-- `HH:MM`
unfoldable pub parse_time : Option (Text × Text) → Result Schedule
unfolding parse_u32 byte_length set_bit
parse_time none = err internal
parse_time (some (hh, mm)) = do
  hour ← parse_u32 hh
  minute ← parse_u32 mm
  guard (byte_length hh == 2 && byte_length mm == 2 && leb hour 23 && leb minute 59) internal
  ok (daily_at (set_bit 0 minute) (set_bit 0 hour))

abbrev onto_word : ℕ → List Text → List Text
onto_word c [] = (c ∷ []) ∷ []
onto_word c (w ∷ words) = (c ∷ w) ∷ words

abbrev starts_word : Text → Bool
starts_word [] = false
starts_word (c ∷ _) = not (is_whitespace c)

-- `split_whitespace`
unfoldable pub split_whitespace : Text → List Text
unfolding is_whitespace
split_whitespace [] = []
split_whitespace (c ∷ s) =
    let words = split_whitespace s in
    if is_whitespace c then words else if starts_word s then onto_word c words else (c ∷ []) ∷ words

-- 7 is Sunday too: bit 7 is cleared and bit 0 set
unfoldable pub fold_sunday : ℕ → ℕ
unfolding bit set_bit
fold_sunday mask = if bit mask 7 then set_bit (mask - 128) 0 else mask

unfoldable pub parse_cron : List Text → Result Schedule
unfolding parse_field fold_sunday text_eq
parse_cron (minute ∷ hour ∷ day ∷ month ∷ weekday ∷ []) = do
  weekday_mask ← parse_field weekday 0 7
  minutes ← parse_field minute 0 59
  hours ← parse_field hour 0 23
  days ← parse_field day 1 31
  months ← parse_field month 1 12
  ok (record {
    minute = minutes;
    hour = hours;
    day = days;
    month = months;
    weekday = fold_sunday weekday_mask;
    day_restricted = not (text_eq day (codes "*"));
    weekday_restricted = not (text_eq weekday (codes "*"));
  })
parse_cron _ = err internal

abbrev same_word : Text → Text → Bool
same_word s word = text_eq (map to_lower s) word

-- the forms with `@` or `:`, or a cron expression
unfoldable pub parse_form : Text → Option (Text × Text) → Result Schedule
unfolding parse_time parse_cron split_whitespace split_once contains to_lower text_eq
parse_form s (some (prefix, time)) =
    if same_word prefix (codes "daily") then parse_time (split_once b':' time) else err internal
parse_form s none =
    if contains b':' s then parse_time (split_once b':' s) else parse_cron (split_whitespace s)

-- `Schedule::parse`
unfoldable pub parse_schedule : Text → Result Schedule
unfolding parse_form trim split_once to_lower text_eq
parse_schedule given =
    let s = trim given in
    if is_empty s
    then err internal
    else if same_word s (codes "hourly")
    then ok (daily_at 1 (mask_all 0 23))
    else parse_form s (split_once b'@' s)
