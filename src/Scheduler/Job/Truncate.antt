-- ===== src/Scheduler/Job/Truncate.antt =====
-- src/daemon/scheduler/jobs.rs: the longest prefix of whole characters that `truncate` keeps.
use mathlib.Core.List.{append_assoc, append-nil}
use asc_daemon.Prelude.{
  ℕ, zero, suc, ◌+◌, ◌-◌, ◌≤◌, ◌<◌, ◌≡◌, refl, sym, ap, ◌∙◌, inl, inr, true, false, Text, [], ◌∷◌,
  ◌++◌, byte_length, byte_length-append, char_bytes, leb, ◌==◌, if_split, arith, Bool-cases,
}
use asc_daemon.Scheduler.Job.{is_char_boundary, boundary_below, byte_prefix, truncate}

-- `t` is the longest prefix of `s` that fits in `max` bytes.
pub record LongestPrefix (max : ℕ) (s t : Text) : Type 0 where
  pub rest : Text
  pub splits : s ≡ t ++ rest
  pub fits : byte_length t ≤ max
  pub longest : (c : ℕ) (r : Text) → rest ≡ c ∷ r → max < byte_length t + char_bytes c

char_bytes-pos : (c : ℕ) → 1 ≤ char_bytes c
unfolding char_bytes
char_bytes-pos c = ground arith

-- the prefix up to a boundary
record PrefixAt (s : Text) (n : ℕ) (t : Text) : Type 0 where
  rest : Text
  splits : s ≡ t ++ rest
  at_end : byte_length t ≡ n

cons_PrefixAt :
    (c : ℕ) (s : Text) (n : ℕ) (t : Text)
    → char_bytes c ≤ n
    → PrefixAt s (n - char_bytes c) t
    → PrefixAt (c ∷ s) n (c ∷ t)
unfolding byte_length
cons_PrefixAt c s n t le p = record {
  rest = p.rest;
  splits = ap (λ u. c ∷ u) p.splits;
  at_end = omega (arith, p.at_end);
}

byte_prefix-PrefixAt :
    (s : Text) (n : ℕ) → is_char_boundary s n ≡ true → PrefixAt s n (byte_prefix s n)
unfolding is_char_boundary byte_prefix
byte_prefix-PrefixAt [] n h = record {
  rest = [];
  splits = refl;
  at_end = unfold byte_length in ground arith;
}
byte_prefix-PrefixAt (c ∷ s) n h =
    if_split (PrefixAt (c ∷ s) n) (n == 0) _ _
      (λ z. record { rest = c ∷ s; splits = refl; at_end = unfold byte_length in ground arith })
      λ p.
        cons_PrefixAt c s n (byte_prefix s (n - char_bytes c)) (ground arith)
          (byte_prefix-PrefixAt s (n - char_bytes c) (ground arith))

-- the highest boundary that is not above `max`
record Highest (s : Text) (max e : ℕ) : Type 0 where
  at_most : e ≤ max
  boundary : is_char_boundary s e ≡ true
  above : (k : ℕ) → e < k → k ≤ max → is_char_boundary s k ≡ false

zero_boundary : (s : Text) → is_char_boundary s 0 ≡ true
unfolding is_char_boundary
zero_boundary [] = refl
zero_boundary (c ∷ s) = refl

above_suc :
    (s : Text) (max e : ℕ)
    → Highest s max e
    → is_char_boundary s (suc max) ≡ false
    → (k : ℕ) → e < k
    → k ≤ suc max
    → is_char_boundary s k ≡ false
above_suc s max e h n k lt le = elim (Bool-cases (leb k max)) [
  | inl small ↦ h.above k lt (ground arith)
  | inr large ↦ let same : k ≡ suc max = ground arith in rw same n
]

boundary_below-Highest : (s : Text) (max : ℕ) → Highest s max (boundary_below s max)
unfolding boundary_below
boundary_below-Highest s zero = record {
  at_most = omega arith;
  boundary = zero_boundary s;
  above = λ k lt le. absurd (omega arith);
}
boundary_below-Highest s (suc max) =
    let ih = boundary_below-Highest s max in
    if_split (Highest s (suc max)) (is_char_boundary s (suc max)) _ _
      (λ b. record { at_most = omega arith; boundary = b; above = λ k lt le. absurd (omega arith) })
      λ n. record {
        at_most = omega (arith, ih.at_most);
        boundary = ih.boundary;
        above = above_suc s max (boundary_below s max) ih n;
      }

-- the end of each prefix of characters is a boundary
append_boundary : (t r : Text) → is_char_boundary (t ++ r) (byte_length t) ≡ true
unfolding byte_length is_char_boundary
append_boundary [] [] = refl
append_boundary [] (c ∷ r) = refl
append_boundary (c ∷ t) r =
    let e : (char_bytes c + byte_length t) - char_bytes c ≡ byte_length t = omega arith in
    let le : leb (char_bytes c) (char_bytes c + byte_length t) ≡ true = ground arith in
    let ih : is_char_boundary (t ++ r) ((char_bytes c + byte_length t) - char_bytes c) ≡ true =
      rw e (append_boundary t r) in
    ground (arith, ih, le)

snoc_boundary :
    (s t : Text) (c : ℕ) (r : Text)
    → s ≡ t ++ c ∷ r
    → is_char_boundary s (byte_length t + char_bytes c) ≡ true
snoc_boundary s t c r e =
    let whole : s ≡ (t ++ c ∷ []) ++ r = e ∙ sym (append_assoc t (c ∷ []) r) in
    let size : byte_length (t ++ c ∷ []) ≡ byte_length t + char_bytes c =
      byte_length-append t (c ∷ []) ∙ unfold byte_length in omega arith in
    rw (whole, ← size) (append_boundary (t ++ c ∷ []) r)

beyond : (s : Text) (max e k : ℕ) → Highest s max e → is_char_boundary s k ≡ true → e < k → max < k
beyond s max e k h b lt = elim (Bool-cases (leb k max)) [
  | inl small ↦ let n = h.above k lt (ground arith) in ground arith
  | inr large ↦ ground arith
]

-- What `truncate` keeps is the longest prefix of whole characters that has at most `max` bytes.
pub truncate-LongestPrefix : (s : Text) (max : ℕ) → LongestPrefix max s (truncate s max)
unfolding truncate
truncate-LongestPrefix s max =
    if_split (LongestPrefix max s) (leb (byte_length s) max) _ _
      (λ y. record {
        rest = [];
        splits = sym (append-nil s);
        fits = ground arith;
        longest = λ c r e. ground arith;
      })
      λ n. cut (boundary_below s max) (boundary_below-Highest s max)
  where
    cut : (e : ℕ) → Highest s max e → LongestPrefix max s (byte_prefix s e)
    cut e h =
        let p = byte_prefix-PrefixAt s e h.boundary in
        record {
          rest = p.rest;
          splits = p.splits;
          fits = omega (arith, p.at_end, h.at_most);
          longest = λ c r k.
              let b =
                snoc_boundary s (byte_prefix s e) c r
                  (p.splits ∙ ap (λ (u : Text). byte_prefix s e ++ u) k) in
              beyond s max e (byte_length (byte_prefix s e) + char_bytes c) h b
                (omega (arith, p.at_end, char_bytes-pos c));
        }
