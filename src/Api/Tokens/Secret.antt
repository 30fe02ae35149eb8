-- ===== src/Api/Tokens/Secret.antt =====
-- src/daemon/api/console.rs: `constant_time_eq` is equality.
use Prim.Native.Nat.{bit_or, bit_xor}
use asc_daemon.Prelude.{ℕ, ◌≡◌, refl, true, Text, [], ◌∷◌, length, ◌↔◌, arith}
use asc_daemon.Prelude.Bits.{bit_or-zero, bit_xor-zero, bit_xor_self}
use asc_daemon.Api.Tokens.{difference, constant_time_eq}

difference-zero :
    (acc : ℕ) (a b : Text) → length a ≡ length b → difference acc a b ≡ 0 → (acc ≡ 0) × (a ≡ b)
unfolding difference
difference-zero acc [] [] n e = (e, refl)
difference-zero acc [] (y ∷ b) n e = absurd (omega arith)
difference-zero acc (x ∷ a) [] n e = absurd (omega arith)
difference-zero acc (x ∷ a) (y ∷ b) n e =
    let rest = difference-zero (bit_or acc (bit_xor x y)) a b (omega arith) e in
    let zeros = bit_or-zero acc (bit_xor x y) rest.0 in
    (zeros.0, cc (bit_xor-zero x y zeros.1, rest.1))

difference_self : (a : Text) → difference 0 a a ≡ 0
unfolding difference
difference_self [] = refl
difference_self (x ∷ a) = rw (bit_xor_self x) (difference_self a)

-- `constant_time_eq` compares every byte and says whether the texts are the same.
pub constant_time_eq_iff : (a b : Text) → (constant_time_eq a b ≡ true) ↔ (a ≡ b)
unfolding constant_time_eq
constant_time_eq_iff a b = (
  λ e. (difference-zero 0 a b (ground arith) (ground arith)).1,
  λ e. rw e (ground (arith, difference_self b)),
)
