-- ===== src/Wireguard/Conf/OneLine.antt =====
-- src/daemon/wireguard/conf.rs: no line that `render` writes has an end of a line in it.
use asc_daemon.Prelude.{
  ℕ, ◌≡◌, refl, ap, ◌∙◌, false, Option, none, some, Text, List, [], ◌∷◌, ◌++◌, codes, contains,
  contains-append, map, is_alphanumeric, show_uint, All, All-append, arith, Clean, if◌then◌else◌,
  if_split, ltb, ◌==◌,
}
use asc_daemon.Wireguard.Peers.{Peer, Interface}
use asc_daemon.Wireguard.Conf.{nat_tag}
use asc_daemon.Wireguard.Conf.Render.{
  pair, pair_unless_empty, pair_of_number, pair_of_list, listed, nat_table, tagged, block_lines,
  own_lines,
}
use asc_daemon.Wireguard.Conf.Reading.{Plain}
use asc_daemon.Wireguard.Conf.Items.{Item, listed-Plain, show_uint-Plain}
use asc_daemon.Wireguard.Conf.Reads.{Written}
use asc_daemon.Wireguard.Conf.Own.{WritableOwn, SomeItems}
use asc_daemon.Wireguard.Conf.Blocks.{WritablePeer}

pub Clean-append : (s t : Text) → Clean s → Clean t → Clean (s ++ t)
Clean-append s t h k = (
  contains-append 10 s t ∙ ground (arith, h.0, k.0),
  contains-append 13 s t ∙ ground (arith, h.1, k.1),
)

sign_Clean : Clean (codes " = ")
unfolding contains
sign_Clean = (refl, refl)

pair-Clean : (k v : Text) → Clean k → Clean v → Clean (pair k v)
pair-Clean k v h p = Clean-append k (codes " = " ++ v) h (Clean-append (codes " = ") v sign_Clean p)

-- a record, so that its lists are read off it
pub record CleanLines (lines : List Text) : Type 0 where
  pub each : All Clean lines

pub no_text : CleanLines []
no_text = record { each = tt }

pub first : {l : Text} {lines : List Text} → Clean l → CleanLines lines → CleanLines (l ∷ lines)
first h c = record { each = (h, c.each) }

pub both : {a b : List Text} → CleanLines a → CleanLines b → CleanLines (a ++ b)
both {a} {b} h k = record { each = All-append Clean a b h.each k.each }

module _ (k : Text) (clean : Clean k) where
  one-Clean : (v : Text) → Plain v → Clean (pair k v)
  one-Clean v p = pair-Clean k v clean p.clean

  unless_empty-Clean : (v : Text) → Written v → CleanLines (pair_unless_empty k v)
  unless_empty-Clean [] w = no_text
  unless_empty-Clean (c ∷ v) w = first (one-Clean (c ∷ v) w) no_text

  number-Clean : (n : Option ℕ) → CleanLines (pair_of_number k n)
  number-Clean none = no_text
  number-Clean (some n) = first (one-Clean (show_uint n) (show_uint-Plain n)) no_text

  list-Clean : (l : List Text) → All Item l → CleanLines (pair_of_list k l)
  list-Clean [] a = no_text
  list-Clean (t ∷ ts) a = first (one-Clean (listed (t ∷ ts)) (listed-Plain t ts a)) no_text

  some-Clean : (l : List Text) → SomeItems l → Clean (pair k (listed l))
  some-Clean [] a = absurd a
  some-Clean (t ∷ ts) a = one-Clean (listed (t ∷ ts)) (listed-Plain t ts a)

  pub commands-Clean :
      (commands : List Text) → All Plain commands → CleanLines (map (pair k) commands)
  commands-Clean [] a = no_text
  commands-Clean (c ∷ commands) a = first (one-Clean c a.0) (commands-Clean commands a.1)

  pub tagged-Clean : (commands : List Text) → All Clean commands → CleanLines (tagged k commands)
  unfolding contains
  tagged-Clean [] a = no_text
  tagged-Clean (c ∷ commands) a =
      let whole = pair k c ++ codes " " in
      let start = Clean-append (pair k c) (codes " ") (pair-Clean k c clean a.0) (refl, refl) in
      first (Clean-append whole nat_tag start (refl, refl)) (tagged-Clean commands a.1)

safe-free :
    (d : ℕ) (s : Text)
    → is_alphanumeric d ≡ false
    → (d == b'_') ≡ false
    → contains d (map (λ c. if is_alphanumeric c then c else b'_') s) ≡ false
unfolding contains
safe-free d [] h k = refl
safe-free d (c ∷ s) h k = ground (arith, safe-free d s h k, ap is_alphanumeric {x = c} {y = d})

pub nat_table-Clean : (name : Text) → Clean (nat_table name)
unfolding nat_table contains is_alphanumeric
nat_table-Clean name = (safe-free 10 name refl refl, safe-free 13 name refl refl)

pub own_lines-Clean : (i : Interface) → WritableOwn i → CleanLines (own_lines i)
unfolding own_lines contains
own_lines-Clean i w =
    let start =
      both
        (both (unless_empty-Clean (codes "# asc:endpoint") (refl, refl) i.endpoint w.endpoint)
          (if_split CleanLines i.masquerade _ _ (λ y. first (refl, refl) no_text) λ n. no_text))
        (list-Clean (codes "# asc:client-dns") (refl, refl) i.client_dns w.client_dns) in
    let address = some-Clean (codes "Address") (refl, refl) i.addresses w.addresses in
    let key = one-Clean (codes "PrivateKey") (refl, refl) i.private_key w.private_key in
    let port = number-Clean (codes "ListenPort") (refl, refl) i.listen_port in
    both
      (both
        (both
          (both (both start (first key (first address port)))
            (list-Clean (codes "DNS") (refl, refl) i.dns w.dns))
          (number-Clean (codes "MTU") (refl, refl) i.mtu))
        (unless_empty-Clean (codes "Table") (refl, refl) i.table w.table))
      (unless_empty-Clean (codes "FwMark") (refl, refl) i.fwmark w.fwmark)

pub block_lines-Clean : (p : Peer) → WritablePeer p → CleanLines (block_lines p)
unfolding block_lines contains
block_lines-Clean p w =
    let name = unless_empty-Clean (codes "# asc:name") (refl, refl) p.name w.name in
    let key = one-Clean (codes "PublicKey") (refl, refl) p.public_key w.public_key in
    let shared =
      unless_empty-Clean (codes "PresharedKey") (refl, refl) p.preshared_key w.preshared_key in
    both
      (both
        (both (both (first (refl, refl) name) (first key shared))
          (list-Clean (codes "AllowedIPs") (refl, refl) p.allowed_ips w.allowed_ips))
        (unless_empty-Clean (codes "Endpoint") (refl, refl) p.endpoint w.endpoint))
      (if_split CleanLines (ltb 0 p.persistent_keepalive) _ _
        (λ y.
          first
            (one-Clean (codes "PersistentKeepalive") (refl, refl) (show_uint p.persistent_keepalive)
              (show_uint-Plain p.persistent_keepalive))
            no_text)
        λ n. no_text)
