-- ===== src/Wireguard/Conf/Reads.antt =====
-- src/daemon/wireguard/conf.rs: what the lines that `render` writes do to the reader, in order.
use asc_daemon.Prelude.{
  ℕ, ◌<◌, ◌^◌, ◌≡◌, refl, ap, ◌∙◌, Bool, true, false, ◌&&◌, not, Option, none, some, Text, List, [],
  ◌∷◌, ◌++◌, codes, contains, map, reverse, to_lower, show_uint, parse_uint, parse_uint-show_uint,
  All, arith, starts_solid,
}
use asc_daemon.Failure.{Result, ok, err, ◌>>=◌}
use asc_daemon.Wireguard.Peers.{Interface}
use asc_daemon.Wireguard.Conf.Keys.{
  Reader, in_interface, items_of, read_comment, read_interface_key,
}
use asc_daemon.Wireguard.Conf.{read_line, read_lines}
use asc_daemon.Wireguard.Conf.Render.{pair, pair_unless_empty, pair_of_number, pair_of_list, listed}
use asc_daemon.Wireguard.Conf.Reading.{Plain, KeyLike, read_line-pair, read_line-comment}
use asc_daemon.Wireguard.Conf.Items.{Item, items_of-listed, listed-Plain, show_uint-Plain}

-- the lines take the reader from one state to the other
abbrev pub Reads : List Text → Reader → Reader → Type 0
Reads lines r r' = read_lines lines r ≡ ok r'

pub Reads-nil : (r : Reader) → Reads [] r r
unfolding read_lines
Reads-nil r = refl

pub Reads-cons :
    (l : Text) (lines : List Text) (r r' r'' : Reader)
    → read_line l r ≡ ok r'
    → Reads lines r' r''
    → Reads (l ∷ lines) r r''
unfolding read_lines
Reads-cons l lines r r' r'' e h = rw e h

step-append :
    (o : Result Reader) (a b : List Text)
    → ((r : Reader) → read_lines (a ++ b) r ≡ (read_lines a r >>= read_lines b))
    → (o >>= read_lines (a ++ b)) ≡ ((o >>= read_lines a) >>= read_lines b)
step-append (ok r) a b ih = ih r
step-append (err e) a b ih = refl

read_lines-append :
    (a b : List Text) (r : Reader) → read_lines (a ++ b) r ≡ (read_lines a r >>= read_lines b)
unfolding read_lines
read_lines-append [] b r = refl
read_lines-append (l ∷ a) b r = step-append (read_line l r) a b (read_lines-append a b)

pub Reads-append :
    (a b : List Text) (r r' r'' : Reader) → Reads a r r' → Reads b r' r'' → Reads (a ++ b) r r''
Reads-append a b r r' r'' h k =
    read_lines-append a b r ∙ ap (λ (o : Result Reader). o >>= read_lines b) h ∙ k

unfoldable pub key_like : Text → Bool
unfolding contains starts_solid
key_like k =
    starts_solid k
    && starts_solid (reverse k)
    && not (contains b'#' k)
    && not (contains b'=' k)
    && not (contains b'[' k)

pub key_like_sound : (k : Text) → key_like k ≡ true → KeyLike k
unfolding key_like
key_like_sound k h = record {
  solid = (ground (arith, h), ground (arith, h));
  no_hash = ground (arith, h);
  no_sign = ground (arith, h);
  no_header = ground (arith, h);
}

abbrev pub at : Interface → Reader
at j = record {
  interface = j;
  warnings = [];
  section = in_interface;
  seen_interface = true;
  peer = none;
}

-- a value that may be left out
abbrev pub Written : Text → Type 0
Written [] = Unit
Written (c ∷ v) = Plain (c ∷ v)

module _ (k : Text) (like : KeyLike k) (j : Interface) where
  -- `f` is what the key sets
  pub one_text :
      (f : Text → Interface)
      → ((v : Text) → read_interface_key (map to_lower k) v (at j) ≡ ok (at (f v)))
      → (v : Text) → Plain v
      → Reads (pair k v ∷ []) (at j) (at (f v))
  one_text f e v p =
      Reads-cons (pair k v) [] (at j) (at (f v)) (at (f v))
        (read_line-pair false k v (at j) like p ∙ e v) (Reads-nil (at (f v)))

  pub text_or_none :
      (f : Text → Interface)
      → ((v : Text) → read_interface_key (map to_lower k) v (at j) ≡ ok (at (f v)))
      → f [] ≡ j
      → (v : Text) → Written v
      → Reads (pair_unless_empty k v) (at j) (at (f v))
  text_or_none f e n [] w = rw n (Reads-nil (at j))
  text_or_none f e n (c ∷ v) p = one_text f e (c ∷ v) p

  pub number_or_none :
      (f : Option ℕ → Interface)
      → ((v : Text) (m : ℕ)
          → parse_uint (2 ^ 16) v ≡ some m
          → read_interface_key (map to_lower k) v (at j) ≡ ok (at (f (some m))))
      → f none ≡ j
      → (n : Option ℕ) → elim n as (λ _. Type 0) [ none ↦ Unit {0} | some m ↦ m < 2 ^ 16 ]
      → Reads (pair_of_number k n) (at j) (at (f n))
  number_or_none f e nothing none lt = rw nothing (Reads-nil (at j))
  number_or_none f e nothing (some m) lt =
      Reads-cons (pair k (show_uint m)) [] (at j) (at (f (some m))) (at (f (some m)))
        (read_line-pair false k (show_uint m) (at j) like (show_uint-Plain m)
          ∙ e (show_uint m) m (parse_uint-show_uint (2 ^ 16) m lt))
        (Reads-nil (at (f (some m))))

  pub list_or_none :
      (f : List Text → Interface)
      → ((v : Text) → read_interface_key (map to_lower k) v (at j) ≡ ok (at (f (items_of v))))
      → f [] ≡ j
      → (l : List Text) → All Item l
      → Reads (pair_of_list k l) (at j) (at (f l))
  list_or_none f e nothing [] a = rw nothing (Reads-nil (at j))
  list_or_none f e nothing (t ∷ ts) a =
      Reads-cons (pair k (listed (t ∷ ts))) [] (at j) (at (f (t ∷ ts))) (at (f (t ∷ ts)))
        (read_line-pair false k (listed (t ∷ ts)) (at j) like (listed-Plain t ts a)
          ∙ e (listed (t ∷ ts))
          ∙ ap (λ (l : List Text). ok (at (f l))) (items_of-listed t ts a))
        (Reads-nil (at (f (t ∷ ts))))

  -- a comment of the daemon
  pub comment_or_none :
      (f : Text → Interface)
      → ((v : Text) → read_comment in_interface (some (k, v)) (at j) ≡ at (f v))
      → f [] ≡ j
      → (v : Text) → Written v
      → Reads (pair_unless_empty (codes "# asc:" ++ k) v) (at j) (at (f v))
  comment_or_none f e nothing [] w = rw nothing (Reads-nil (at j))
  comment_or_none f e nothing (c ∷ v) w =
      Reads-cons (pair (codes "# asc:" ++ k) (c ∷ v)) [] (at j) (at (f (c ∷ v))) (at (f (c ∷ v)))
        (read_line-comment false k (c ∷ v) (at j) like w.solid ∙ ap ok (e (c ∷ v)))
        (Reads-nil (at (f (c ∷ v))))

  pub listed_comment_or_none :
      (f : List Text → Interface)
      → ((v : Text) → read_comment in_interface (some (k, v)) (at j) ≡ at (f (items_of v)))
      → f [] ≡ j
      → (l : List Text) → All Item l
      → Reads (pair_of_list (codes "# asc:" ++ k) l) (at j) (at (f l))
  listed_comment_or_none f e nothing [] a = rw nothing (Reads-nil (at j))
  listed_comment_or_none f e nothing (t ∷ ts) a =
      Reads-cons (pair (codes "# asc:" ++ k) (listed (t ∷ ts))) [] (at j) (at (f (t ∷ ts)))
        (at (f (t ∷ ts)))
        (read_line-comment false k (listed (t ∷ ts)) (at j) like (listed-Plain t ts a).solid
          ∙ ap ok (e (listed (t ∷ ts)))
          ∙ ap (λ (l : List Text). ok (at (f l))) (items_of-listed t ts a))
        (Reads-nil (at (f (t ∷ ts))))
