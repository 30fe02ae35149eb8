-- ===== src/Wireguard/Conf/PeerLines.antt =====
-- src/daemon/wireguard/conf.rs: the lines of a block, of a peer that is enabled or not, read one by one.
use mathlib.Core.Path.{subst}
use mathlib.Core.List.{map-append}
use asc_daemon.Prelude.{
  ℕ, show_uint-is_empty, show_uint-IsDigit, is_digit, if_split, ◌<◌, ◌^◌, ◌≡◌, refl, sym, ap, ◌∙◌,
  Bool, true, false, not, Option, some, Text, List, [], ◌∷◌, ◌++◌, codes, is_empty, map, to_lower,
  text_eq, show_uint, parse_uint-show_uint, All, arith, Solid, starts_solid, trim, strip_prefix,
  up_to, contains_text, ltb, if◌then◌else◌,
}
use asc_daemon.Failure.{Result, ok}
use asc_daemon.Wireguard.Peers.{Peer, Interface}
use asc_daemon.Wireguard.Conf.Keys.{
  Reader, in_peer, new_peer, items_of, read_comment, read_peer_key, if_number,
}
use asc_daemon.Wireguard.Conf.{finish, read_header, read_content, read_body, read_line}
use asc_daemon.Wireguard.Conf.Render.{pair, pair_unless_empty, pair_of_list, listed}
use asc_daemon.Wireguard.Conf.Reading.{
  Plain, KeyLike, with_prefix, read_line-pair, read_line-comment, read_line-with_prefix,
}
use asc_daemon.Wireguard.Conf.Items.{Item, items_of-listed, listed-Plain, show_uint-Plain}
use asc_daemon.Wireguard.Conf.Reads.{
  Reads, Reads-nil, Reads-cons, Reads-append, key_like, key_like_sound, Written,
}

-- the reader in a block
abbrev pub inside : Interface → Peer → Reader
inside j q = record {
  interface = j;
  warnings = [];
  section = in_peer;
  seen_interface = true;
  peer = some q;
}

not_off :
    (s : Text)
    → is_empty s ≡ false
    → All (λ c. is_digit c ≡ true) s
    → text_eq (map to_lower s) (codes "off") ≡ false
unfolding text_eq to_lower
not_off [] e a = ground (arith, e)
not_off (c ∷ s) e a = ground (arith, a.0)

read_keepalive_key :
    (j : Interface) (q : Peer) (n : ℕ)
    → n < 2 ^ 16
    → read_peer_key (codes "persistentkeepalive") (show_uint n) (inside j q) q
      ≡ ok (inside j (record q { persistent_keepalive = n }))
unfolding read_peer_key
read_keepalive_key j q n lt =
    if_split {A = Result Reader} (λ o. o ≡ ok (inside j (record q { persistent_keepalive = n })))
      (text_eq (map to_lower (show_uint n)) (codes "off")) _ _
      (λ y. ground (arith, y, not_off (show_uint n) (show_uint-is_empty n) (show_uint-IsDigit n)))
      λ no.
        ap (λ (o : Option ℕ). if_number o λ m. inside j (record q { persistent_keepalive = m }))
          (parse_uint-show_uint (2 ^ 16) n lt)

unfoldable pub keepalive_lines : ℕ → List Text
keepalive_lines n = if ltb 0 n then pair (codes "PersistentKeepalive") (show_uint n) ∷ [] else []

module _ (off : Bool) where
  abbrev pub Lines : List Text → Reader → Reader → Type 0
  Lines lines r r' = Reads (map (with_prefix off) lines) r r'

  pub Lines-append :
      (a b : List Text) (r r' r'' : Reader) → Lines a r r' → Lines b r' r'' → Lines (a ++ b) r r''
  Lines-append a b r r' r'' h k =
      subst (λ l. Reads l r r'') (sym (map-append (with_prefix off) a b))
        (Reads-append (map (with_prefix off) a) (map (with_prefix off) b) r r' r'' h k)

  pub one_line :
      (l : Text) (r r' : Reader) → read_line (with_prefix off l) r ≡ ok r' → Lines (l ∷ []) r r'
  one_line l r r' e = Reads-cons (with_prefix off l) [] r r' r' e (Reads-nil r')

  header-Solid : Solid (codes "[Peer]")
  unfolding starts_solid
  header-Solid = (refl, refl)

  -- the header of a block closes the block before it
  pub read_header_line :
      (r : Reader)
      → read_line (with_prefix off (codes "[Peer]")) r
        ≡ ok (record (finish r) {
          peer = some (record (new_peer []) { enabled = not off });
          section = in_peer;
        })
  unfolding read_body read_content read_header strip_prefix trim up_to contains_text
  read_header_line r = read_line-with_prefix off (codes "[Peer]") r header-Solid refl

  module _ (k : Text) (like : KeyLike k) (j : Interface) (q : Peer) where
    pub peer_text :
        (f : Text → Peer)
        → ((v : Text) → read_peer_key (map to_lower k) v (inside j q) q ≡ ok (inside j (f v)))
        → (v : Text) → Plain v
        → Lines (pair k v ∷ []) (inside j q) (inside j (f v))
    peer_text f e v p =
        one_line (pair k v) (inside j q) (inside j (f v))
          (read_line-pair off k v (inside j q) like p ∙ e v)

    pub peer_text_or_none :
        (f : Text → Peer)
        → ((v : Text) → read_peer_key (map to_lower k) v (inside j q) q ≡ ok (inside j (f v)))
        → f [] ≡ q
        → (v : Text) → Written v
        → Lines (pair_unless_empty k v) (inside j q) (inside j (f v))
    peer_text_or_none f e n [] w = rw n (Reads-nil (inside j q))
    peer_text_or_none f e n (c ∷ v) p = peer_text f e (c ∷ v) p

    pub peer_list_or_none :
        (f : List Text → Peer)
        → ((v : Text)
            → read_peer_key (map to_lower k) v (inside j q) q ≡ ok (inside j (f (items_of v))))
        → f [] ≡ q
        → (l : List Text) → All Item l
        → Lines (pair_of_list k l) (inside j q) (inside j (f l))
    peer_list_or_none f e n [] a = rw n (Reads-nil (inside j q))
    peer_list_or_none f e n (t ∷ ts) a =
        one_line (pair k (listed (t ∷ ts))) (inside j q) (inside j (f (t ∷ ts))) (
          read_line-pair off k (listed (t ∷ ts)) (inside j q) like (listed-Plain t ts a)
          ∙ e (listed (t ∷ ts))
          ∙ ap (λ (l : List Text). ok (inside j (f l))) (items_of-listed t ts a))

    pub peer_comment_or_none :
        (f : Text → Peer)
        → ((v : Text) → read_comment in_peer (some (k, v)) (inside j q) ≡ inside j (f v))
        → f [] ≡ q
        → (v : Text) → Written v
        → Lines (pair_unless_empty (codes "# asc:" ++ k) v) (inside j q) (inside j (f v))
    peer_comment_or_none f e n [] w = rw n (Reads-nil (inside j q))
    peer_comment_or_none f e n (c ∷ v) w =
        one_line (pair (codes "# asc:" ++ k) (c ∷ v)) (inside j q) (inside j (f (c ∷ v)))
          (read_line-comment off k (c ∷ v) (inside j q) like w.solid ∙ ap ok (e (c ∷ v)))

  keepalive_key : KeyLike (codes "PersistentKeepalive")
  unfolding key_like
  keepalive_key = key_like_sound (codes "PersistentKeepalive") refl

  lower_keepalive : map to_lower (codes "PersistentKeepalive") ≡ codes "persistentkeepalive"
  unfolding to_lower
  lower_keepalive = refl

  pub read_keepalive :
      (j : Interface) (q : Peer) (n : ℕ)
      → q.persistent_keepalive ≡ 0
      → n < 2 ^ 16
      → Lines (keepalive_lines n) (inside j q) (inside j (record q { persistent_keepalive = n }))
  unfolding keepalive_lines
  read_keepalive j q n e lt =
      if_split
        (λ lines. Lines lines (inside j q) (inside j (record q { persistent_keepalive = n })))
        (ltb 0 n) _ _
        (λ y.
          one_line (pair (codes "PersistentKeepalive") (show_uint n)) (inside j q)
            (inside j (record q { persistent_keepalive = n }))
            (read_line-pair off (codes "PersistentKeepalive") (show_uint n) (inside j q)
                keepalive_key (show_uint-Plain n)
              ∙ ap (λ (k : Text). read_peer_key k (show_uint n) (inside j q) q) lower_keepalive
              ∙ read_keepalive_key j q n lt))
        λ no.
          let none_left : q.persistent_keepalive ≡ n = ground (arith, e, no) in
          Reads-nil (inside j q)
          ∙ ap (λ (m : ℕ). ok (inside j (record q { persistent_keepalive = m }))) none_left
