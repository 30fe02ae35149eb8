-- ===== src/Prelude/Texts.antt =====
-- Lists of texts, none of which is there twice.
use mathlib.Core.Path.{◌≡◌}
use mathlib.Core.Bool.{Bool, false}
use mathlib.Core.List.{List, [], ◌∷◌}
use asc_daemon.Prelude.Lists.{any}
use asc_daemon.Prelude.Chars.{Text, text_eq}

abbrev pub member : Text → List Text → Bool
member id l = any (λ x. text_eq x id) l

-- no text is there twice
abbrev pub Single : List Text → Type 0
Single [] = Unit
Single (x ∷ l) = (member x l ≡ false) × Single l
