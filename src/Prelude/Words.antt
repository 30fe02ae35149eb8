-- ===== src/Prelude/Words.antt =====
-- More of Rust's `str`: prefixes, parts and lines.
use Prim.Native.Nat.{ℕ}
use mathlib.Core.Bool.{Bool, true, false, ◌&&◌, ◌||◌}
use mathlib.Core.Option.{Option, none, some}
use mathlib.Core.List.{List, [], ◌∷◌}
use asc_daemon.Prelude.Tests.{◌==◌, if◌then◌else◌}
use asc_daemon.Prelude.Chars.{Text, onto_first}

-- `strip_prefix`
unfoldable pub strip_prefix : Text → Text → Option Text
strip_prefix [] s = some s
strip_prefix (c ∷ prefix) [] = none
strip_prefix (c ∷ prefix) (d ∷ s) =
    let rest = strip_prefix prefix s in if c == d then rest else none

abbrev pub is_prefix : Text → Text → Bool
is_prefix prefix s = elim (strip_prefix prefix s) [ none ↦ false | some rest ↦ true ]

-- `contains` of a text
unfoldable pub contains_text : Text → Text → Bool
unfolding strip_prefix
contains_text part [] = is_prefix part []
contains_text part (c ∷ s) = is_prefix part (c ∷ s) || contains_text part s

-- what stands before the first `c`
unfoldable pub up_to : ℕ → Text → Text
up_to c [] = []
up_to c (d ∷ s) = let rest = up_to c s in if d == c then [] else d ∷ rest

abbrev starts_with_newline : Text → Bool
starts_with_newline [] = false
starts_with_newline (c ∷ s) = c == 10

-- `lines`: what stands between the ends of lines, which are `\n` or `\r\n`
unfoldable pub text_lines : Text → List Text
text_lines [] = []
text_lines (c ∷ s) =
    let rest = text_lines s in
    if c == 10
    then [] ∷ rest
    else if c == 13 && starts_with_newline s
    then rest
    else onto_first c rest
