-- ===== src/Prelude/Decimal.antt =====
-- `Display` of an unsigned integer, and its round trip with `parse`.
use Prim.Native.Nat.{ℕ, zero, suc, ◌+◌, ◌-◌, ◌*◌, ◌/◌, ◌%◌, ◌<◌}
use mathlib.Core.Path.{◌≡◌, refl, ◌∙◌}
use mathlib.Core.Logic.{inl, inr}
use mathlib.Core.Bool.{◌&&◌, Bool, true, false}
use mathlib.Core.Option.{Option, none, some}
use mathlib.Core.List.{[], ◌∷◌}
use native.Mathlib.Omega.{arith}
use asc_daemon.Prelude.Tests.{if_split, ◌==◌, ltb, if◌then◌else◌, Bool-cases}
use asc_daemon.Prelude.Lists.{All}
use asc_daemon.Prelude.Chars.{Text, is_empty, is_digit, parse_digits, parse_uint}

show_digits : ℕ → ℕ → Text → Text
show_digits zero n acc = acc
show_digits (suc f) n acc =
    let rest = show_digits f (n / 10) ((b'0' + n % 10) ∷ acc) in
    if ltb n 10 then (b'0' + n) ∷ acc else rest

unfoldable pub show_uint : ℕ → Text
unfolding show_digits
show_uint n = show_digits (n + 1) n []

abbrev IsDigit : ℕ → Type 0
IsDigit c = is_digit c ≡ true

show_digits-IsDigit : (f n : ℕ) (acc : Text) → All IsDigit acc → All IsDigit (show_digits f n acc)
unfolding show_digits
show_digits-IsDigit zero n acc h = h
show_digits-IsDigit (suc f) n acc h = elim (Bool-cases (ltb n 10)) [
  | inl small ↦ rw small (ground arith, h)
  | inr large ↦ rw large (show_digits-IsDigit f (n / 10) ((b'0' + n % 10) ∷ acc) (ground arith, h))
]

parse_digits-cons :
    (limit m n c : ℕ) (s : Text)
    → IsDigit c
    → m * 10 + (c - b'0') ≡ n
    → n < limit
    → parse_digits limit m (c ∷ s) ≡ parse_digits limit n s
unfolding parse_digits
parse_digits-cons limit m n c s d e h = rw e (ground arith)

parse_digits-show_digits :
    (limit f n : ℕ) (acc : Text)
    → n < f
    → n < limit
    → parse_digits limit 0 (show_digits f n acc) ≡ parse_digits limit n acc
unfolding show_digits
parse_digits-show_digits limit zero n acc h k = absurd (omega arith)
parse_digits-show_digits limit (suc f) n acc h k = elim (Bool-cases (ltb n 10)) [
  | inl small ↦ rw small (parse_digits-cons limit 0 n (b'0' + n) acc (ground arith) (omega arith) k)
  | inr large ↦ rw large (
      parse_digits-show_digits limit f (n / 10) ((b'0' + n % 10) ∷ acc) (ground arith)
        (ground arith)
      ∙ parse_digits-cons limit (n / 10) n (b'0' + n % 10) acc (ground arith) (omega arith) k)
]

is_cons : Text → Bool
is_cons [] = false
is_cons (_ ∷ _) = true

show_digits-is_cons : (f n c : ℕ) (acc : Text) → is_cons (show_digits f n (c ∷ acc)) ≡ true
unfolding show_digits is_cons
show_digits-is_cons zero n c acc = refl
show_digits-is_cons (suc f) n c acc =
    ground (arith, show_digits-is_cons f (n / 10) (b'0' + n % 10) (c ∷ acc))

show_digits-is_cons_fuel : (f n : ℕ) → 0 < f → is_cons (show_digits f n []) ≡ true
unfolding show_digits is_cons
show_digits-is_cons_fuel zero n h = absurd (omega arith)
show_digits-is_cons_fuel (suc f) n h =
    ground (arith, show_digits-is_cons f (n / 10) (b'0' + n % 10) [])

show_uint-is_cons : (n : ℕ) → is_cons (show_uint n) ≡ true
unfolding show_uint
show_uint-is_cons n = show_digits-is_cons_fuel (n + 1) n (omega arith)

pub show_uint-IsDigit : (n : ℕ) → All (λ c. is_digit c ≡ true) (show_uint n)
unfolding show_uint
show_uint-IsDigit n = show_digits-IsDigit (n + 1) n [] tt

cons-is_empty : (s : Text) → is_cons s ≡ true → is_empty s ≡ false
unfolding is_cons
cons-is_empty [] h = ground (arith, h)
cons-is_empty (c ∷ s) h = refl

pub show_uint-is_empty : (n : ℕ) → is_empty (show_uint n) ≡ false
show_uint-is_empty n = cons-is_empty (show_uint n) (show_uint-is_cons n)

parse_uint-All :
    (limit : ℕ) (s : Text)
    → is_cons s ≡ true
    → All IsDigit s
    → parse_uint limit s ≡ parse_digits limit 0 s
unfolding parse_uint is_cons
parse_uint-All limit [] e h = ground arith
parse_uint-All limit (c ∷ []) e h = ground arith
parse_uint-All limit (c ∷ d ∷ s) e h = ground arith

-- Parsing what was printed gives the number back, while it fits the type.
pub parse_uint-show_uint : (limit n : ℕ) → n < limit → parse_uint limit (show_uint n) ≡ some n
parse_uint-show_uint limit n h =
    parse_uint-All limit (show_uint n) (show_uint-is_cons n) (show_uint-IsDigit n)
    ∙ (unfold show_uint parse_digits in parse_digits-show_digits limit (n + 1) n [] (omega arith) h)

-- What was read fits the type.
abbrev pub Below : ℕ → Option ℕ → Type 0
Below limit none = Unit
Below limit (some n) = n < limit

parse_digits-Below : (limit n : ℕ) (s : Text) → n < limit → Below limit (parse_digits limit n s)
unfolding parse_digits
parse_digits-Below limit n [] lt = lt
parse_digits-Below limit n (c ∷ s) lt =
    let next = n * 10 + (c - b'0') in
    if_split (Below limit) (is_digit c && ltb next limit) _ _
      (λ y. parse_digits-Below limit next s (ground arith)) λ no. tt

pub parse_uint-Below : (limit : ℕ) (s : Text) → 0 < limit → Below limit (parse_uint limit s)
unfolding parse_uint
parse_uint-Below limit [] pos = tt
parse_uint-Below limit (c ∷ []) pos =
    if_split (Below limit) (c == b'+') _ _ (λ y. tt) λ n. parse_digits-Below limit 0 (c ∷ []) pos
parse_uint-Below limit (c ∷ d ∷ s) pos =
    if_split (Below limit) (c == b'+') _ _ (λ y. parse_digits-Below limit 0 (d ∷ s) pos)
      λ n. parse_digits-Below limit 0 (c ∷ d ∷ s) pos
