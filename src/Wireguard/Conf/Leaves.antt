-- ===== src/Wireguard/Conf/Leaves.antt =====
-- src/daemon/wireguard/conf.rs: what `redact` leaves of the lines that `render` writes.
use mathlib.Core.Path.{subst}
use mathlib.Core.List.{map-append, append_assoc}
use asc_daemon.Prelude.{
  ℕ, ◌≡◌, refl, sym, ap, ◌∙◌, Bool, false, Option, none, some, Text, List, [], ◌∷◌, ◌++◌, codes,
  to_lower, map, show_uint,
}
use asc_daemon.Wireguard.Conf.{nat_tag}
use asc_daemon.Wireguard.Conf.Render.{
  pair, pair_unless_empty, pair_of_number, pair_of_list, listed, tagged,
}
use asc_daemon.Wireguard.Conf.Redact.{secret_keys, redact_line}
use asc_daemon.Wireguard.Conf.Reading.{KeyLike, with_prefix}
use asc_daemon.Wireguard.Conf.HiddenLines.{pair-kept, comment-kept}

-- what is left of lines, a record, so that the lines are read off it
pub record Leaves (off : Bool) (lines left : List Text) : Type 0 where
  pub each : map redact_line (map (with_prefix off) lines) ≡ map (with_prefix off) left

tagged_pair : (k c : Text) → pair k c ++ codes " " ++ nat_tag ≡ pair k (c ++ codes " " ++ nat_tag)
tagged_pair k c =
    ap (λ (x : Text). x ++ nat_tag) (append_assoc k (codes " = " ++ c) (codes " "))
    ∙ append_assoc k (codes " = " ++ (c ++ codes " ")) nat_tag

module _ {off : Bool} where
  pub no_line : Leaves off [] []
  no_line = record { each = refl }

  pub first_line :
      {l l' : Text} {lines left : List Text}
      → redact_line (with_prefix off l) ≡ with_prefix off l'
      → Leaves off lines left
      → Leaves off (l ∷ lines) (l' ∷ left)
  first_line {l} {l'} {lines} {left} e r = record { each = cc (e, r.each) }

  pub both_lines :
      {a b a' b' : List Text} → Leaves off a a' → Leaves off b b' → Leaves off (a ++ b) (a' ++ b')
  both_lines {a} {b} {a'} {b'} h k = record {
    each =
        ap (map redact_line) (map-append (with_prefix off) a b)
        ∙ map-append redact_line (map (with_prefix off) a) (map (with_prefix off) b)
        ∙ cc (h.each, k.each)
        ∙ sym (map-append (with_prefix off) a' b');
  }

  module _ (k : Text) (like : KeyLike k) (s : secret_keys (map to_lower k) ≡ false) where
    pub unless_empty-kept : (v : Text) → Leaves off (pair_unless_empty k v) (pair_unless_empty k v)
    unless_empty-kept [] = no_line
    unless_empty-kept (c ∷ v) = first_line (pair-kept off k (c ∷ v) like s) no_line

    pub number-kept : (n : Option ℕ) → Leaves off (pair_of_number k n) (pair_of_number k n)
    number-kept none = no_line
    number-kept (some n) = first_line (pair-kept off k (show_uint n) like s) no_line

    pub list-kept : (l : List Text) → Leaves off (pair_of_list k l) (pair_of_list k l)
    list-kept [] = no_line
    list-kept (t ∷ ts) = first_line (pair-kept off k (listed (t ∷ ts)) like s) no_line

    pub commands-kept :
        (commands : List Text) → Leaves off (map (pair k) commands) (map (pair k) commands)
    commands-kept [] = no_line
    commands-kept (c ∷ commands) = first_line (pair-kept off k c like s) (commands-kept commands)

    pub tagged-kept : (commands : List Text) → Leaves off (tagged k commands) (tagged k commands)
    tagged-kept [] = no_line
    tagged-kept (c ∷ commands) =
        first_line
          (subst (λ l. redact_line (with_prefix off l) ≡ with_prefix off l) (sym (tagged_pair k c))
            (pair-kept off k (c ++ codes " " ++ nat_tag) like s))
          (tagged-kept commands)

  pub comment_or_none-kept :
      (w v : Text)
      → Leaves off
          (pair_unless_empty (codes "# asc:" ++ w) v)
          (pair_unless_empty (codes "# asc:" ++ w) v)
  comment_or_none-kept w [] = no_line
  comment_or_none-kept w (c ∷ v) = first_line (comment-kept off (pair w (c ∷ v))) no_line

  pub comments-kept :
      (w : Text) (l : List Text)
      → Leaves off (pair_of_list (codes "# asc:" ++ w) l) (pair_of_list (codes "# asc:" ++ w) l)
  comments-kept w [] = no_line
  comments-kept w (t ∷ ts) = first_line (comment-kept off (pair w (listed (t ∷ ts)))) no_line
