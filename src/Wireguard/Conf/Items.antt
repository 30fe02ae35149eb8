-- ===== src/Wireguard/Conf/Items.antt =====
-- src/daemon/wireguard/conf.rs: lists with commas, and numbers, as `render` writes them and `parse` reads them.
use mathlib.Core.Path.{subst}
use mathlib.Core.List.{append_assoc, reverse-append}
use asc_daemon.Prelude.{
  ℕ, ◌≡◌, refl, sym, ap, ◌∙◌, true, false, not, Text, List, [], ◌∷◌, ◌++◌, codes, is_empty, trim,
  contains, map, reverse, retain, split, onto_first, join, show_uint, All, arith, Solid,
  starts_solid, starts_solid-append, show_uint-IsDigit, show_uint-is_empty, is_digit, is_whitespace,
  All-append, trim-Solid, trim-space, Solid-append, contains-append, Clean,
}
use asc_daemon.Wireguard.Conf.Keys.{items_of}
use asc_daemon.Wireguard.Conf.Render.{listed}
use asc_daemon.Wireguard.Conf.Reading.{Plain}

-- an item of a list
pub record Item (t : Text) : Type 0 where
  pub plain : Plain t
  pub no_comma : contains b',' t ≡ false

split-free : (t : Text) → contains b',' t ≡ false → split b',' t ≡ t ∷ []
unfolding contains split
split-free [] h = refl
split-free (c ∷ t) h = ground (arith, split-free t)

split-cons : (t s : Text) → contains b',' t ≡ false → split b',' (t ++ b',' ∷ s) ≡ t ∷ split b',' s
unfolding contains split
split-cons [] s h = refl
split-cons (c ∷ t) s h = ground (arith, split-cons t s)

trim_first :
    (l : List Text) (x : Text) (xs : List Text)
    → map trim l ≡ x ∷ xs
    → map trim (onto_first 32 l) ≡ x ∷ xs
trim_first [] x xs e = ground arith
trim_first (y ∷ l) x xs e = ap (λ (t : Text). t ∷ map trim l) (trim-space y) ∙ e

split_after_space : (s : Text) → split b',' (32 ∷ s) ≡ onto_first 32 (split b',' s)
unfolding split
split_after_space s = refl

split-listed :
    (t : Text) (ts : List Text)
    → All Item (t ∷ ts)
    → map trim (split b',' (listed (t ∷ ts))) ≡ t ∷ ts
unfolding join
split-listed t [] a =
    rw (split-free t a.0.no_comma) (ap (λ (x : Text). x ∷ []) (trim-Solid t a.0.plain.solid))
split-listed t (u ∷ ts) a =
    let rest = join (codes ", ") (u ∷ ts) in
    ap (λ (x : Text). map trim (split b',' x)) (append_assoc t (codes ", ") rest)
    ∙ ap (map trim) (split-cons t (32 ∷ rest) a.0.no_comma)
    ∙ ap (λ (x : List Text). trim t ∷ map trim x) (split_after_space rest)
    ∙ cc (trim-Solid t a.0.plain.solid, trim_first (split b',' rest) u ts (split-listed u ts a.1))

pub not_empty : (t : Text) → Solid t → is_empty t ≡ false
unfolding starts_solid
not_empty [] h = ground (arith, h.0)
not_empty (c ∷ t) h = refl

retain_items : (ts : List Text) → All Item ts → retain (λ t. not (is_empty t)) ts ≡ ts
retain_items [] a = refl
retain_items (t ∷ ts) a = ground (arith, retain_items ts a.1, not_empty t a.0.plain.solid)

pub items_of-listed :
    (t : Text) (ts : List Text) → All Item (t ∷ ts) → items_of (listed (t ∷ ts)) ≡ t ∷ ts
unfolding items_of
items_of-listed t ts a = rw (split-listed t ts a) (retain_items (t ∷ ts) a)

free-append :
    (c : ℕ) (s t : Text) → contains c s ≡ false → contains c t ≡ false → contains c (s ++ t) ≡ false
free-append c s t h k = contains-append c s t ∙ ground (arith, h, k)

Plain-append :
    (s t between : Text)
    → Plain s
    → Plain t
    → contains b'#' between ≡ false
    → Clean between
    → Plain (s ++ between ++ t)
Plain-append s t between p q h k = record {
  solid = Solid-append (s ++ between) t (starts_solid-append s between p.solid.0) q.solid.1;
  no_hash = free-append b'#' (s ++ between) t (free-append b'#' s between p.no_hash h) q.no_hash;
  clean = (
    free-append 10 (s ++ between) t (free-append 10 s between p.clean.0 k.0) q.clean.0,
    free-append 13 (s ++ between) t (free-append 13 s between p.clean.1 k.1) q.clean.1,
  );
}

pub listed-Plain : (t : Text) (ts : List Text) → All Item (t ∷ ts) → Plain (listed (t ∷ ts))
unfolding join contains
listed-Plain t [] a = a.0.plain
listed-Plain t (u ∷ ts) a =
    Plain-append t (join (codes ", ") (u ∷ ts)) (codes ", ") a.0.plain (listed-Plain u ts a.1) refl
      (refl, refl)

digits_free :
    (c : ℕ) (s : Text) → is_digit c ≡ false → All (λ d. is_digit d ≡ true) s → contains c s ≡ false
unfolding contains
digits_free c [] h a = refl
digits_free c (d ∷ s) h a = ground (arith, digits_free c s h a.1, a.0, h)

starts_digit :
    (s : Text) (c : ℕ)
    → All (λ d. is_digit d ≡ true) s
    → is_digit c ≡ true
    → starts_solid (s ++ c ∷ []) ≡ true
unfolding starts_solid is_whitespace
starts_digit [] c a h = ground (arith, h)
starts_digit (d ∷ s) c a h = ground (arith, a.0)

All-reverse : (P : ℕ → Type 0) (s : Text) → All P s → All P (reverse s)
All-reverse P [] a = tt
All-reverse P (c ∷ s) a =
    subst (All P) (sym (reverse-append (c ∷ []) s))
      (All-append P (reverse s) (c ∷ []) (All-reverse P s a.1) (a.0, tt))

digits-Solid : (c : ℕ) (s : Text) → All (λ d. is_digit d ≡ true) (c ∷ s) → Solid (c ∷ s)
digits-Solid c s a = (
  starts_digit_cons c s a.0,
  subst (λ x. starts_solid x ≡ true) (sym (reverse-append (c ∷ []) s))
      (starts_digit (reverse s) c (All-reverse (λ d. is_digit d ≡ true) s a.1) a.0),
)
  where
    starts_digit_cons : (c : ℕ) (s : Text) → is_digit c ≡ true → starts_solid (c ∷ s) ≡ true
    starts_digit_cons c s h = unfold starts_solid is_whitespace in ground (arith, h)

digits-Plain : (s : Text) → is_empty s ≡ false → All (λ d. is_digit d ≡ true) s → Plain s
digits-Plain [] e a = ground arith
digits-Plain (c ∷ s) e a = record {
  solid = digits-Solid c s a;
  no_hash = digits_free b'#' (c ∷ s) refl a;
  clean = (digits_free 10 (c ∷ s) refl a, digits_free 13 (c ∷ s) refl a);
}

pub show_uint-Plain : (n : ℕ) → Plain (show_uint n)
show_uint-Plain n = digits-Plain (show_uint n) (show_uint-is_empty n) (show_uint-IsDigit n)
