-- ===== src/Wireguard/Conf/Reading.antt =====
-- src/daemon/wireguard/conf.rs: how `parse` reads the lines that `render` writes.
use mathlib.Core.List.{append_assoc, reverse-append}
use asc_daemon.Prelude.{
  ℕ, ◌==◌, ◌≡◌, refl, sym, ap, ◌∙◌, Bool, true, false, Option, none, some, Text, [], ◌∷◌, ◌++◌,
  codes, trim, contains, map, reverse, to_lower, split_once, arith, Solid, starts_solid,
  starts_solid-append, trim-Solid, trim-space, trim-space_after, Solid-append, contains-append,
  up_to-free, split_once-free, contains_text-free, trim_start, trim_start-solid, trim_start-space,
  strip_prefix-append, Clean, is_prefix, strip_prefix,
}
use asc_daemon.Failure.{ok}
use asc_daemon.Wireguard.Conf.Keys.{Reader, read_key, read_comment}
use asc_daemon.Wireguard.Conf.{
  off_prefix, asc_comment, read_pair, read_content, read_body, unprefixed, read_line,
}
use asc_daemon.Wireguard.Conf.Render.{pair}

-- a value that a line can carry
pub record Plain (v : Text) : Type 0 where
  pub solid : Solid v
  pub no_hash : contains b'#' v ≡ false
  pub clean : Clean v

pub record KeyLike (k : Text) : Type 0 where
  pub solid : Solid k
  pub no_hash : contains b'#' k ≡ false
  pub no_sign : contains b'=' k ≡ false
  pub no_header : contains b'[' k ≡ false

pair-Solid : (k v : Text) → KeyLike k → Solid v → Solid (pair k v)
pair-Solid k v h p =
    Solid-append k (codes " = " ++ v) h.solid.0
      (rw (reverse-append (codes " = ") v) (starts_solid-append (reverse v) (codes " = ") p.1))

pub split_once-pair :
    (k v : Text) → KeyLike k → split_once b'=' (pair k v) ≡ some (k ++ codes " ", codes " " ++ v)
split_once-pair k v h =
    ap (split_once b'=') (sym (append_assoc k (codes " ") (codes "= " ++ v)))
    ∙ split_once-free b'=' (k ++ codes " ") (codes " " ++ v)
        (contains-append b'=' k (codes " ") ∙ (unfold contains in ground (arith, h.no_sign)))

read_pair-pair :
    (k v : Text) (r : Reader)
    → KeyLike k
    → Plain v
    → read_pair (split_once b'=' (pair k v)) r ≡ read_key r.section (map to_lower k) v r
unfolding read_pair
read_pair-pair k v r h p =
    rw (split_once-pair k v h, trim-space_after k h.solid, trim-space v, trim-Solid v p.solid)

no_hash-pair : (k v : Text) → KeyLike k → Plain v → contains b'#' (pair k v) ≡ false
no_hash-pair k v h p =
    contains-append b'#' k (codes " = " ++ v)
    ∙ (unfold contains in ground (arith, h.no_hash, p.no_hash))

read_content-line :
    (off : Bool) (c : ℕ) (s : Text) (r : Reader)
    → (c == b'[') ≡ false
    → read_content off (c ∷ s) r ≡ read_pair (split_once b'=' (c ∷ s)) r
unfolding read_content
read_content-line off c s r h = ground (arith, h)

read_body-line :
    (off : Bool) (c : ℕ) (s : Text) (r : Reader)
    → contains b'#' (c ∷ s) ≡ false
    → Solid (c ∷ s)
    → read_body off (c ∷ s) r ≡ read_content off (c ∷ s) r
unfolding read_body
read_body-line off c s r h k =
    let head : (c == b'#') ≡ false = unfold contains in ground (arith, h) in
    ground (
      arith,
      head,
      contains_text-free b'#' (codes " asc:nat") (c ∷ s) h,
      ap trim (up_to-free b'#' (c ∷ s) h),
      trim-Solid (c ∷ s) k,
    )

pub no_empty : starts_solid [] ≡ true → ⊥
unfolding starts_solid
no_empty e = ground arith

off_prefix-solid : starts_solid off_prefix ≡ true
unfolding starts_solid
off_prefix-solid = refl

comment-solid : starts_solid (codes "# asc:") ≡ true
unfolding starts_solid
comment-solid = refl

read_body-pair :
    (off : Bool) (k v : Text) (r : Reader)
    → KeyLike k
    → Plain v
    → read_body off (pair k v) r ≡ read_key r.section (map to_lower k) v r
read_body-pair off [] v r h p = absurd (no_empty h.solid.0)
read_body-pair off (c ∷ k) v r h p =
    read_body-line off c (k ++ (codes " = " ++ v)) r (no_hash-pair (c ∷ k) v h p)
      (pair-Solid (c ∷ k) v h p.solid)
    ∙ read_content-line off c (k ++ (codes " = " ++ v)) r
        (unfold contains in ground (arith, h.no_header))
    ∙ read_pair-pair (c ∷ k) v r h p

-- a line of a peer that is enabled or not
abbrev pub with_prefix : Bool → Text → Text
with_prefix true l = off_prefix ++ l
with_prefix false l = l

trim_start-after_space : (s : Text) → starts_solid s ≡ true → trim_start (32 ∷ s) ≡ s
trim_start-after_space s h = trim_start-space s ∙ trim_start-solid s h

not_prefixed :
    (o : Option Text) (l : Text) (r : Reader)
    → elim o as (λ _. Bool) [ none ↦ false | some rest ↦ true ] ≡ false
    → unprefixed o l r ≡ read_body false l r
not_prefixed none l r n = refl
not_prefixed (some rest) l r n = ground (arith, n)

pub read_line-with_prefix :
    (off : Bool) (l : Text) (r : Reader)
    → Solid l
    → is_prefix (codes "#asc:off") l ≡ false
    → read_line (with_prefix off l) r ≡ read_body off l r
unfolding read_line
read_line-with_prefix true l r h n =
    rw
      (
        trim-Solid (off_prefix ++ l) (Solid-append off_prefix l off_prefix-solid h.1),
        strip_prefix-append (codes "#asc:off") (32 ∷ l),
      )
      (ap (λ (x : Text). read_body true x r) (trim_start-after_space l h.0))
read_line-with_prefix false l r h n =
    rw (trim-Solid l h) (not_prefixed (strip_prefix (codes "#asc:off") l) l r n)

pub no_off-pair : (k v : Text) → KeyLike k → is_prefix (codes "#asc:off") (pair k v) ≡ false
unfolding strip_prefix contains starts_solid
no_off-pair [] v h = refl
no_off-pair (c ∷ k) v h = ground (arith, h.no_hash)

pub read_line-pair :
    (off : Bool) (k v : Text) (r : Reader)
    → KeyLike k
    → Plain v
    → read_line (with_prefix off (pair k v)) r ≡ read_key r.section (map to_lower k) v r
read_line-pair off k v r h p =
    read_line-with_prefix off (pair k v) r (pair-Solid k v h p.solid) (no_off-pair k v h)
    ∙ read_body-pair off k v r h p

-- `# asc:word = value`
asc_comment-pair :
    (w v : Text) → KeyLike w → Solid v → asc_comment (codes "# asc:" ++ pair w v) ≡ some (w, v)
unfolding asc_comment strip_prefix trim_start
asc_comment-pair w v h s =
    rw
      (trim-Solid (codes "# asc:" ++ pair w v)
        (Solid-append (codes "# asc:") (pair w v) comment-solid (pair-Solid w v h s).1))
      (rw (split_once-pair w v h, trim-space_after w h.solid, trim-space v, trim-Solid v s))

read_body-comment :
    (off : Bool) (s : Text) (r : Reader)
    → read_body off (b'#' ∷ s) r ≡ ok (read_comment r.section (asc_comment (b'#' ∷ s)) r)
unfolding read_body
read_body-comment off s r = refl

no_off-comment : (s : Text) → is_prefix (codes "#asc:off") (codes "# asc:" ++ s) ≡ false
unfolding strip_prefix
no_off-comment s = refl

pub read_line-comment :
    (off : Bool) (w v : Text) (r : Reader)
    → KeyLike w
    → Solid v
    → read_line (with_prefix off (codes "# asc:" ++ pair w v)) r
      ≡ ok (read_comment r.section (some (w, v)) r)
read_line-comment off w v r h s =
    let line = codes "# asc:" ++ pair w v in
    read_line-with_prefix off line r
      (Solid-append (codes "# asc:") (pair w v) comment-solid (pair-Solid w v h s).1)
      (no_off-comment (pair w v))
    ∙ read_body-comment off (codes " asc:" ++ pair w v) r
    ∙ ap (λ (o : Option (Text × Text)). ok (read_comment r.section o r)) (asc_comment-pair w v h s)
