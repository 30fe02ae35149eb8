-- ===== src/Scheduler/Field/Range.antt =====
-- src/daemon/scheduler/mod.rs: the values of a field and its range.
use asc_daemon.Prelude.{
  ℕ, ◌+◌, ◌-◌, ◌/◌, ◌≤◌, ◌<◌, ◌≡◌, true, not, ◌||◌, Option, none, some, Text, List, [], ◌∷◌, arith,
  ltb, ◌==◌, if_split, split, split_once, Bool-cases, inl, inr,
}
use asc_daemon.Failure.{ok, internal, Holds, Holds-trivial, Holds-bind, Holds-guard}
use asc_daemon.Scheduler.Bits.{bit, bit-zero, or_range, hits, bit-or_range, hits_sound, range_bound}
use asc_daemon.Scheduler.Field.{
  Stepped, with_step, bounds, add_part, add_parts, parse_field, parse_u32,
}

-- Every value of the mask lies between `min` and `max`.
abbrev Within : ℕ → ℕ → ℕ → Type 0
Within min max mask = (v : ℕ) → bit mask v ≡ true → (min ≤ v) × (v ≤ max)

or_range-Within :
    (min max mask lo hi step : ℕ)
    → 0 < step
    → min ≤ lo
    → lo ≤ hi
    → hi ≤ max
    → Within min max mask
    → Within min max (or_range mask lo hi step)
or_range-Within min max mask lo hi step pos a b c w v h =
    elim (Bool-cases (hits ((hi - lo) / step + 1) lo step v)) [
      | inl y ↦
          let (k, lt, e) = hits_sound ((hi - lo) / step + 1) lo step v y in
          let bound = range_bound lo hi step k pos b lt in (omega arith, omega arith)
      | inr n ↦ w v (ground (arith, bit-or_range mask lo hi step v))
    ]

abbrev Advances : Stepped → Type 0
Advances s = 0 < s.1

-- the step of a part is positive
with_step-Advances : (part : Text) (o : Option (Text × Text)) → Holds Advances (with_step part o)
unfolding with_step
with_step-Advances part none = omega arith
with_step-Advances part (some (range, step)) =
    Holds-bind (λ _. Unit {0}) Advances (parse_u32 step) _ (Holds-trivial (parse_u32 step))
      λ n _. if_split (Holds Advances) (n == 0) _ _ (λ z. tt) λ nz. ground arith

add_part-Within :
    (min max : ℕ) (part : Text) (mask : ℕ)
    → Within min max mask
    → Holds (Within min max) (add_part min max part mask)
unfolding add_part
add_part-Within min max part mask w =
    Holds-bind Advances (Within min max) (with_step part (split_once b'/' part)) _
      (with_step-Advances part (split_once b'/' part))
      λ (range, step) pos.
        Holds-bind (λ _. Unit {0}) (Within min max) (bounds part min max range) _
          (Holds-trivial (bounds part min max range))
          λ (lo, hi) _.
            Holds-guard (Within min max) (not (ltb lo min || ltb max hi || ltb hi lo)) internal _
              λ inside.
                or_range-Within min max mask lo hi step pos (ground arith) (ground arith)
                  (ground arith) w

add_parts-Within :
    (min max : ℕ) (parts : List Text) (mask : ℕ)
    → Within min max mask
    → Holds (Within min max) (add_parts min max parts mask)
unfolding add_parts
add_parts-Within min max [] mask w = w
add_parts-Within min max (part ∷ parts) mask w =
    Holds-bind (Within min max) (Within min max) (add_part min max part mask) _
      (add_part-Within min max part mask w) λ next w'. add_parts-Within min max parts next w'

parse_field-Holds :
    (field : Text) (min max : ℕ) → Holds (Within min max) (parse_field field min max)
unfolding parse_field
parse_field-Holds field min max =
    Holds-bind (Within min max) (Within min max) (add_parts min max (split b',' field) 0) _
      (add_parts-Within min max (split b',' field) 0
        (λ v h. absurd (ground (arith, bit-zero v, h))))
      λ mask w. if_split (Holds (Within min max)) (mask == 0) _ _ (λ z. tt) λ nz. w

-- A value whose bit is set in the mask of a field that was accepted lies in the range of the field.
pub parse_field_range :
    (field : Text) (min max : ℕ) {mask : ℕ} (v : ℕ)
    → parse_field field min max ≡ ok mask
    → bit mask v ≡ true
    → (min ≤ v) × (v ≤ max)
parse_field_range field min max v e h = (rw e at (parse_field-Holds field min max)) v h
