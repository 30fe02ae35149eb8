-- ===== src/Prelude/Trimming.antt =====
-- Texts that trimming leaves alone, and that stay whole where a text is taken apart.
use mathlib.Core.Path.{◌≡◌, refl, ap, ◌∙◌}
use mathlib.Core.Bool.{Bool, true, false, ◌||◌, not}
use mathlib.Core.Option.{some}
use mathlib.Core.List.{List, [], ◌∷◌, ◌++◌, reverse, reverse-append, reverse-reverse}
use Prim.Native.Nat.{ℕ}
use native.Mathlib.Omega.{arith}
use asc_daemon.Prelude.Lists.{All}
use asc_daemon.Prelude.Chars.{Text, is_whitespace, trim_start, trim, contains, split_once, lines}
use asc_daemon.Prelude.Words.{strip_prefix, is_prefix, contains_text, up_to, text_lines}

unfoldable pub starts_solid : Text → Bool
unfolding is_whitespace
starts_solid [] = false
starts_solid (c ∷ s) = not (is_whitespace c)

abbrev pub Solid : Text → Type 0
Solid s = (starts_solid s ≡ true) × (starts_solid (reverse s) ≡ true)

pub trim_start-solid : (s : Text) → starts_solid s ≡ true → trim_start s ≡ s
unfolding trim_start starts_solid
trim_start-solid [] h = refl
trim_start-solid (c ∷ s) h = ground (arith, h)

pub trim_start-space : (s : Text) → trim_start (32 ∷ s) ≡ trim_start s
unfolding trim_start
trim_start-space s = refl

pub trim-Solid : (s : Text) → Solid s → trim s ≡ s
unfolding trim
trim-Solid s h = rw (trim_start-solid s h.0, trim_start-solid (reverse s) h.1) (reverse-reverse s)

pub starts_solid-append : (s t : Text) → starts_solid s ≡ true → starts_solid (s ++ t) ≡ true
unfolding starts_solid
starts_solid-append [] t h = ground arith
starts_solid-append (c ∷ s) t h = h

pub Solid-append :
    (s t : Text) → starts_solid s ≡ true → starts_solid (reverse t) ≡ true → Solid (s ++ t)
Solid-append s t h k = (
  starts_solid-append s t h,
  rw (reverse-append s t) (starts_solid-append (reverse t) (reverse s) k),
)

-- a space after, or before
pub trim-space_after : (s : Text) → Solid s → trim (s ++ 32 ∷ []) ≡ s
unfolding trim
trim-space_after s h =
    rw
      (
        trim_start-solid (s ++ 32 ∷ []) (starts_solid-append s (32 ∷ []) h.0),
        reverse-append s (32 ∷ []),
        trim_start-space (reverse s),
        trim_start-solid (reverse s) h.1,
      )
      (reverse-reverse s)

pub trim-space : (s : Text) → trim (32 ∷ s) ≡ trim s
unfolding trim trim_start
trim-space s = refl

pub contains-append : (c : ℕ) (s t : Text) → contains c (s ++ t) ≡ (contains c s || contains c t)
unfolding contains
contains-append c [] t = refl
contains-append c (d ∷ s) t = ground (arith, contains-append c s t)

pub up_to-free : (c : ℕ) (s : Text) → contains c s ≡ false → up_to c s ≡ s
unfolding contains up_to
up_to-free c [] h = refl
up_to-free c (d ∷ s) h = ground (arith, up_to-free c s)

pub split_once-free :
    (c : ℕ) (s t : Text) → contains c s ≡ false → split_once c (s ++ c ∷ t) ≡ some (s, t)
unfolding contains split_once
split_once-free c [] t h = ground arith
split_once-free c (d ∷ s) t h = ground (arith, split_once-free c s t)

-- a text that starts with `c` is in none without `c`
pub contains_text-free :
    (c : ℕ) (part s : Text) → contains c s ≡ false → contains_text (c ∷ part) s ≡ false
unfolding contains contains_text strip_prefix
contains_text-free c part [] h = refl
contains_text-free c part (d ∷ s) h = ground (arith, contains_text-free c part s)

pub strip_prefix-append : (prefix s : Text) → strip_prefix prefix (prefix ++ s) ≡ some s
unfolding strip_prefix
strip_prefix-append [] s = refl
strip_prefix-append (c ∷ prefix) s = ground (arith, strip_prefix-append prefix s)

contains_text-prefix : (part s : Text) → is_prefix part s ≡ true → contains_text part s ≡ true
unfolding contains_text
contains_text-prefix part [] h = h
contains_text-prefix part (c ∷ s) h = ground (arith, h)

pub contains_text-append : (part s t : Text) → contains_text part (s ++ part ++ t) ≡ true
unfolding contains_text
contains_text-append part [] t =
    contains_text-prefix part (part ++ t) (ground (arith, strip_prefix-append part t))
contains_text-append part (c ∷ s) t = ground (arith, contains_text-append part s t)

-- no end of a line
abbrev pub Clean : Text → Type 0
Clean s = (contains 10 s ≡ false) × (contains 13 s ≡ false)

text_lines-cons : (l s : Text) → Clean l → text_lines (l ++ 10 ∷ s) ≡ l ∷ text_lines s
unfolding text_lines contains
text_lines-cons [] s h = refl
text_lines-cons (c ∷ l) s h =
    let rest = text_lines-cons l s (ground arith, ground arith) in ground (arith, rest)

pub text_lines-lines : (ls : List Text) → All Clean ls → text_lines (lines ls) ≡ ls
unfolding lines
text_lines-lines [] a = unfold text_lines in refl
text_lines-lines (l ∷ ls) a =
    text_lines-cons l (lines ls) a.0 ∙ ap (λ (x : List Text). l ∷ x) (text_lines-lines ls a.1)
