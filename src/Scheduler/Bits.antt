-- ===== src/Scheduler/Bits.antt =====
-- The `u64` bitmasks of src/daemon/scheduler/mod.rs, one bit for each value of a cron field.
use native.Mathlib.Nat.{div-add-mod}
use asc_daemon.Prelude.{
  ℕ, zero, suc, ◌+◌, ◌-◌, ◌*◌, ◌/◌, ◌%◌, ◌≤◌, ◌<◌, ◌≡◌, refl, Bool, true, false, ◌||◌, arith, ◌==◌,
  if◌then◌else◌, Bool-cases, inl, inr,
}

-- `mask & (1 << v) != 0`: the digit v of the mask, base 2
unfoldable pub bit : ℕ → ℕ → Bool
bit mask zero = mask % 2 == 1
bit mask (suc v) = bit (mask / 2) v

-- `mask | 1 << v`
unfoldable pub set_bit : ℕ → ℕ → ℕ
set_bit mask zero = if mask % 2 == 1 then mask else mask + 1
set_bit mask (suc v) = mask % 2 + 2 * set_bit (mask / 2) v

-- `fold(mask, |m, v| m | 1 << v)` over `n` values from `v`, `step` apart
unfoldable pub set_from : ℕ → ℕ → ℕ → ℕ → ℕ
unfolding set_bit
set_from zero v step mask = mask
set_from (suc n) v step mask = set_from n (v + step) step (set_bit mask v)

-- `mask |= (lo..=hi).step_by(step).fold(0, …)`: the bits are set in `mask` itself
unfoldable pub or_range : ℕ → ℕ → ℕ → ℕ → ℕ
unfolding set_from
or_range mask lo hi step = set_from ((hi - lo) / step + 1) lo step mask

-- `mask_all`
unfoldable pub mask_all : ℕ → ℕ → ℕ
unfolding set_from
mask_all lo hi = set_from (hi + 1 - lo) lo 1 0

pub bit-zero : (v : ℕ) → bit 0 v ≡ false
unfolding bit
bit-zero zero = refl
bit-zero (suc v) = bit-zero v

set_bit_half_zero : (mask : ℕ) → set_bit mask zero / 2 ≡ mask / 2
unfolding set_bit
set_bit_half_zero mask = ground arith

set_bit_half : (mask v : ℕ) → set_bit mask (suc v) / 2 ≡ set_bit (mask / 2) v
unfolding set_bit
set_bit_half mask v = omega arith

pub bit-set_bit : (mask v u : ℕ) → bit (set_bit mask v) u ≡ ((u == v) || bit mask u)
unfolding bit
bit-set_bit mask zero zero = unfold set_bit in ground arith
bit-set_bit mask zero (suc u) = rw set_bit_half_zero (ground arith)
bit-set_bit mask (suc v) zero = unfold set_bit in ground arith
bit-set_bit mask (suc v) (suc u) = rw (set_bit_half, bit-set_bit (mask / 2) v u) (ground arith)

-- whether `u` is one of `n` values from `v`, `step` apart
unfoldable pub hits : ℕ → ℕ → ℕ → ℕ → Bool
hits zero v step u = false
hits (suc n) v step u = u == v || hits n (v + step) step u

pub bit-set_from :
    (n v step mask u : ℕ) → bit (set_from n v step mask) u ≡ (hits n v step u || bit mask u)
unfolding set_from hits
bit-set_from zero v step mask u = refl
bit-set_from (suc n) v step mask u =
    ground (arith, bit-set_from n (v + step) step (set_bit mask v) u, bit-set_bit mask v u)

-- the values that are hit: `v + k * step` for the `k` below `n`
pub hits_sound : (n v step u : ℕ) → hits n v step u ≡ true → (k : ℕ) × (k < n) × (u ≡ v + k * step)
unfolding hits
hits_sound zero v step u h = cc
hits_sound (suc n) v step u h = elim (Bool-cases (u == v)) [
  | inl e ↦ (0, omega arith, ground arith)
  | inr ne ↦
      let (k, lt, eq) = hits_sound n (v + step) step u (ground arith) in
      (k + 1, omega arith, grind arith)
]

pub hits_complete : (n v step k : ℕ) → k < n → hits n v step (v + k * step) ≡ true
unfolding hits
hits_complete zero v step k h = absurd (omega arith)
hits_complete (suc n) v step zero h = ground arith
hits_complete (suc n) v step (suc k) h =
    let e : v + suc k * step ≡ v + step + k * step = grind arith in
    rw e (ground (arith, hits_complete n (v + step) step k))

-- In a range mask exactly the values `lo + k * step` up to `hi` are added.
pub bit-or_range :
    (mask lo hi step u : ℕ)
    → bit (or_range mask lo hi step) u ≡ (hits ((hi - lo) / step + 1) lo step u || bit mask u)
unfolding or_range
bit-or_range mask lo hi step u = bit-set_from _ lo step mask u

pub bit-mask_all : (lo hi u : ℕ) → bit (mask_all lo hi) u ≡ hits (hi + 1 - lo) lo 1 u
unfolding mask_all
bit-mask_all lo hi u = ground (arith, bit-set_from (hi + 1 - lo) lo 1 0 u, bit-zero u)

-- the last value of a range is within it
pub range_bound :
    (lo hi step k : ℕ) → 0 < step → lo ≤ hi → k < (hi - lo) / step + 1 → lo + k * step ≤ hi
range_bound lo hi step k h le lt = grind (arith, div-add-mod (hi - lo) step)
