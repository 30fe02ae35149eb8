-- ===== src/Scheduler/Field.antt =====
-- src/daemon/scheduler/mod.rs: `parse_field`, one field of a cron expression.
pub mod Range
use asc_daemon.Prelude.{
  ℕ, ◌^◌, ◌||◌, not, Option, none, some, Text, List, [], ◌∷◌, ltb, ◌==◌, if◌then◌else◌, codes,
  text_eq, split, split_once, contains, parse_uint,
}
use asc_daemon.Failure.{Result, ok, err, internal, ◌>>=◌, ◌>>◌, guard}
use asc_daemon.Scheduler.Bits.{or_range}

-- `parse::<u32>()`
abbrev pub u32_limit : ℕ
u32_limit = 2 ^ 32

unfoldable pub parse_u32 : Text → Result ℕ
unfolding parse_uint
parse_u32 s = elim (parse_uint u32_limit s) [ none ↦ err internal | some n ↦ ok n ]

-- the range of a part and its step
abbrev pub Stepped : Type 0
Stepped = Text × ℕ

unfoldable pub with_step : Text → Option (Text × Text) → Result Stepped
unfolding parse_u32
with_step part none = ok (part, 1)
with_step part (some (range, step)) = do
  n ← parse_u32 step
  if n == 0 then err internal else ok (range, n)

-- the bounds of a range without `*`
unfoldable pub range_bounds : Text → ℕ → Text → Option (Text × Text) → Result (ℕ × ℕ)
unfolding parse_u32 contains
range_bounds part max range (some (lo, hi)) = do l ← parse_u32 lo; u ← parse_u32 hi; ok (l, u)
range_bounds part max range none = do
  v ← parse_u32 range
  ok (v, if contains b'/' part then max else v)

unfoldable pub bounds : Text → ℕ → ℕ → Text → Result (ℕ × ℕ)
unfolding range_bounds split_once text_eq
bounds part min max range =
    if text_eq range (codes "*")
    then ok (min, max)
    else range_bounds part max range (split_once b'-' range)

-- one round of the loop: the mask with the values of `part` added
unfoldable pub add_part : ℕ → ℕ → Text → ℕ → Result ℕ
unfolding with_step bounds split_once
add_part min max part mask = do
  (range, step) ← with_step part (split_once b'/' part)
  (lo, hi) ← bounds part min max range
  guard (not (ltb lo min || ltb max hi || ltb hi lo)) internal
  ok (or_range mask lo hi step)

unfoldable pub add_parts : ℕ → ℕ → List Text → ℕ → Result ℕ
unfolding add_part
add_parts min max [] mask = ok mask
add_parts min max (part ∷ parts) mask = do
  next ← add_part min max part mask
  add_parts min max parts next

unfoldable pub parse_field : Text → ℕ → ℕ → Result ℕ
unfolding add_parts split
parse_field field min max = do
  mask ← add_parts min max (split b',' field) 0
  if mask == 0 then err internal else ok mask
