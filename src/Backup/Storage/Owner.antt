-- ===== src/Backup/Storage/Owner.antt =====
-- src/daemon/backup/storage.rs: which app an archive belongs to.
use mathlib.Core.List.{
  append_cancel_right, append_assoc, reverse-reverse, reverse-append, tail-eq_of_cons-eq,
  head-eq_of_cons-eq,
}
use mathlib.Core.Option.{some-injective}
use asc_daemon.Prelude.{
  ◌≡◌, refl, ap, sym, ◌∙◌, true, false, some, Text, [], ◌∷◌, ◌++◌, arith, reverse, Option-cases,
  inl, inr, Bool-cases, ◌==◌,
}
use asc_daemon.Backup.Storage.{strip_prefix, strip_suffix, archive_suffix, all_digits, belongs_to}

strip_prefix-append : (p s : Text) {r : Text} → strip_prefix p s ≡ some r → s ≡ p ++ r
unfolding strip_prefix
strip_prefix-append [] s h = cc
strip_prefix-append (p ∷ ps) [] h = cc
strip_prefix-append (p ∷ ps) (c ∷ s) h = elim (Bool-cases (c == p)) [
  | inl y ↦
      let e : c ≡ p = ground arith in rw e (ap (λ t. p ∷ t) (strip_prefix-append ps s (rw y at h)))
  | inr n ↦ cc (rw n at h)
]

strip_suffix-append :
    (suffix s : Text) {r : Text} → strip_suffix suffix s ≡ some r → s ≡ r ++ suffix
unfolding strip_suffix
strip_suffix-append suffix s {r} h =
    elim (Option-cases (strip_prefix (reverse suffix) (reverse s))) [
      | inl e ↦ cc (rw (strip_suffix, e) at h)
      | inr (q, e) ↦
          let k : reverse q ≡ r = some-injective (reverse q) r (rw (strip_suffix, e) at h) in
          let back : reverse s ≡ reverse suffix ++ q =
            strip_prefix-append (reverse suffix) (reverse s) e in
          sym (reverse-reverse s)
          ∙ ap reverse back
          ∙ reverse-append (reverse suffix) q
          ∙ rw (reverse-reverse suffix, k) refl
    ]

-- a name, taken apart
record Named (name app_id : Text) : Type 0 where
  ts : Text
  digits : all_digits ts ≡ true
  parts : name ≡ (app_id ++ b'-' ∷ ts) ++ archive_suffix

belongs_to-Named : (name app_id : Text) → belongs_to name app_id ≡ true → Named name app_id
unfolding belongs_to
belongs_to-Named name app_id h = elim (Option-cases (strip_prefix app_id name)) [
  | inl e ↦ cc (rw (belongs_to, e) at h)
  | inr (rest, e) ↦ elim (Option-cases (strip_prefix (b'-' ∷ []) rest)) [
    | inl e' ↦ cc (rw (belongs_to, e, e') at h)
    | inr (tail, e') ↦ elim (Option-cases (strip_suffix archive_suffix tail)) [
      | inl e'' ↦ cc (rw (belongs_to, e, e', e'') at h)
      | inr (ts, e'') ↦ record {
        ts = ts;
        digits = ground (arith, rw (belongs_to, e, e', e'') at h);
        parts =
            strip_prefix-append app_id name e
            ∙ ap (λ t. app_id ++ t) (strip_prefix-append (b'-' ∷ []) rest e')
            ∙ ap (λ t. app_id ++ b'-' ∷ t) (strip_suffix-append archive_suffix tail e'')
            ∙ sym (append_assoc app_id (b'-' ∷ ts) archive_suffix);
      }
    ]
  ]
]

-- a list of digits has no dash in it
no_dash : (a b : Text) → all_digits (a ++ b'-' ∷ b) ≡ false
no_dash [] b = refl
no_dash (c ∷ a) b = ground (arith, no_dash a b)

same_app :
    (a b d e : Text)
    → all_digits d ≡ true
    → all_digits e ≡ true
    → a ++ b'-' ∷ d ≡ b ++ b'-' ∷ e
    → a ≡ b
same_app [] [] d e p q h = refl
same_app [] (c ∷ b) d e p q h = ground (arith, no_dash b e, tail-eq_of_cons-eq h)
same_app (c ∷ a) [] d e p q h = ground (arith, no_dash a d, tail-eq_of_cons-eq h)
same_app (c ∷ a) (c' ∷ b) d e p q h =
    let x : c ≡ c' = head-eq_of_cons-eq h in
    let y : a ≡ b = same_app a b d e p q (tail-eq_of_cons-eq h) in cc (x, y)

-- An archive belongs to one app at most.
pub belongs_to_unique :
    (name a b : Text) → belongs_to name a ≡ true → belongs_to name b ≡ true → a ≡ b
belongs_to_unique name a b h k =
    let m = belongs_to-Named name a h in
    let n = belongs_to-Named name b k in
    same_app a b m.ts n.ts m.digits n.digits (
      append_cancel_right (a ++ b'-' ∷ m.ts) (b ++ b'-' ∷ n.ts) archive_suffix
        (sym m.parts ∙ n.parts))
