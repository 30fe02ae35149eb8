-- ===== src/Wireguard/Peers/Held.antt =====
-- src/daemon/wireguard/model.rs: which addresses an interface has, itself or as host routes of its peers.
use asc_daemon.Prelude.{
  ℕ, ◌≡◌, refl, sym, ap, ◌∙◌, ◌⊎◌, inl, inr, Bool, true, false, ◌==◌, Option, none, some, Text,
  List, [], ◌∷◌, ◌++◌, Among, Bool-cases, arith, if◌then◌else◌,
}
use asc_daemon.Failure.{Result, ok, err}
use asc_daemon.Net.{IpText, IpAddr, Net, parse_net, width}
use asc_daemon.Wireguard.Address.{addr_eq, is_used, host_bits}
use asc_daemon.Wireguard.Peers.{
  Peer, Interface, when_net, is_host, own_addresses, routed_hosts, peer_hosts, used_addresses,
}

Among-front : {A : Type 0} (x : A) (a b : List A) → Among x a → Among x (a ++ b)
Among-front x [] b m = absurd m
Among-front x (y ∷ a) b (inl e) = inl e
Among-front x (y ∷ a) b (inr m) = inr (Among-front x a b m)

Among-back : {A : Type 0} (x : A) (a b : List A) → Among x b → Among x (a ++ b)
Among-back x [] b m = m
Among-back x (y ∷ a) b m = inr (Among-back x a b m)

Among-append : {A : Type 0} (x : A) (a b : List A) → Among x (a ++ b) → Among x a ⊎ Among x b
Among-append x [] b m = inr m
Among-append x (y ∷ a) b (inl e) = inl (inl e)
Among-append x (y ∷ a) b (inr m) = elim (Among-append x a b m) [
  | inl h ↦ inl (inr h)
  | inr h ↦ inr h
]

addr_eq_sound : (a b : IpAddr) → addr_eq a b ≡ true → a ≡ b
addr_eq_sound a b h = ground (arith, h)

addr_eq_refl : (a : IpAddr) → addr_eq a a ≡ true
addr_eq_refl a = ground arith

pub is_used-Among : (used : List IpAddr) (a : IpAddr) → is_used used a ≡ true → Among a used
unfolding is_used
is_used-Among [] a h = ground (arith, h)
is_used-Among (b ∷ used) a h = elim (Bool-cases (addr_eq b a)) [
  | inl y ↦ inl (sym (addr_eq_sound b a y))
  | inr n ↦ inr (is_used-Among used a (rw n at h))
]

pub Among-is_used : (used : List IpAddr) (a : IpAddr) → Among a used → is_used used a ≡ true
unfolding is_used
Among-is_used [] a m = absurd m
Among-is_used (b ∷ used) a (inl e) = rw e (ground (arith, addr_eq_refl b))
Among-is_used (b ∷ used) a (inr m) = ground (arith, Among-is_used used a m)

module _ (ip : IpText) where
  -- the address of a network, whether or not it is a host's
  abbrev pub HasAddress : Text → IpAddr → Type 0
  HasAddress text a = (net : Net) × (parse_net ip text ≡ ok net) × (a ≡ net.addr)

  -- the address of one host: without a prefix, or with one of the whole width
  abbrev pub IsHostRoute : Text → IpAddr → Type 0
  IsHostRoute text a =
      (net : Net) × (parse_net ip text ≡ ok net)
      × ((net.prefix ≡ none) ⊎ (net.prefix ≡ some (width net.addr.is_v6)))
      × (a ≡ net.addr)

  pub data Held (i : Interface) (a : IpAddr) : Type 0 where
    by_interface : (text : Text) → Among text i.addresses → HasAddress text a → Held i a
    by_peer :
        (p : Peer)
        → Among p i.peers
        → (text : Text) → Among text p.allowed_ips
        → IsHostRoute text a
        → Held i a

  abbrev OwnOf : List Text → IpAddr → Type 0
  OwnOf addresses a = (text : Text) × Among text addresses × HasAddress text a

  abbrev RoutedOf : List Text → IpAddr → Type 0
  RoutedOf allowed a = (text : Text) × Among text allowed × IsHostRoute text a

  abbrev PeerOf : List Peer → IpAddr → Type 0
  PeerOf peers a = (p : Peer) × Among p peers × RoutedOf p.allowed_ips a

  own_head :
      (text : Text) (a : IpAddr) (r : Result Net)
      → parse_net ip text ≡ r
      → Among a (when_net ip (λ net. net.addr ∷ []) [] r)
      → HasAddress text a
  own_head text a (ok net) e (inl h) = (net, e, h)
  own_head text a (ok net) e (inr h) = absurd h
  own_head text a (err x) e m = absurd m

  own-OwnOf :
      (addresses : List Text) (a : IpAddr)
      → Among a (own_addresses ip addresses)
      → OwnOf addresses a
  unfolding own_addresses
  own-OwnOf [] a m = absurd m
  own-OwnOf (text ∷ addresses) a m =
      elim (Among-append a (when_net ip (λ net. net.addr ∷ []) [] (parse_net ip text))
        (own_addresses ip addresses) m) [
          | inl h ↦ (text, inl refl, own_head text a (parse_net ip text) refl h)
          | inr h ↦ let o = own-OwnOf addresses a h in (o.0, inr o.1, o.2)
        ]

  OwnOf-own :
      (addresses : List Text) (a : IpAddr)
      → OwnOf addresses a
      → Among a (own_addresses ip addresses)
  unfolding own_addresses
  OwnOf-own [] a (t, m, h) = absurd m
  OwnOf-own (text ∷ addresses) a (t, inl e, (net, r, h)) =
      Among-front a (when_net ip (λ net. net.addr ∷ []) [] (parse_net ip text))
        (own_addresses ip addresses) (rw (ap (parse_net ip) (sym e) ∙ r) (inl h))
  OwnOf-own (text ∷ addresses) a (t, inr m, h) =
      Among-back a (when_net ip (λ net. net.addr ∷ []) [] (parse_net ip text))
        (own_addresses ip addresses) (OwnOf-own addresses a (t, m, h))

  abbrev host_only : Net → List IpAddr
  host_only net = if is_host ip net then net.addr ∷ [] else []

  is_host-cases :
      (net : Net)
      → is_host ip net ≡ true
      → (net.prefix ≡ none) ⊎ (net.prefix ≡ some (width net.addr.is_v6))
  is_host-cases net h = go net.prefix refl h
    where
      go :
          (p : Option ℕ)
          → net.prefix ≡ p
          → (elim p [ none ↦ true | some n ↦ n == host_bits net ]) ≡ true
          → (net.prefix ≡ none) ⊎ (net.prefix ≡ some (width net.addr.is_v6))
      go none e k = inl e
      go (some n) e k = inr (e ∙ ap some (ground (arith, k)))

  cases-is_host :
      (net : Net)
      → (net.prefix ≡ none) ⊎ (net.prefix ≡ some (width net.addr.is_v6))
      → is_host ip net ≡ true
  cases-is_host net (inl e) = rw e refl
  cases-is_host net (inr e) = rw e (ground arith)

  routed_head :
      (text : Text) (a : IpAddr) (r : Result Net)
      → parse_net ip text ≡ r
      → Among a (when_net ip host_only [] r)
      → IsHostRoute text a
  routed_head text a (err x) e m = absurd m
  routed_head text a (ok net) e m = go (is_host ip net) refl m
    where
      go :
          (b : Bool)
          → is_host ip net ≡ b
          → Among a (if b then net.addr ∷ [] else [])
          → IsHostRoute text a
      go true y (inl k) = (net, e, is_host-cases net y, k)
      go true y (inr k) = absurd k
      go false n k = absurd k

  routed-RoutedOf :
      (allowed : List Text) (a : IpAddr) → Among a (routed_hosts ip allowed) → RoutedOf allowed a
  unfolding routed_hosts
  routed-RoutedOf [] a m = absurd m
  routed-RoutedOf (text ∷ allowed) a m =
      elim (Among-append a (when_net ip host_only [] (parse_net ip text)) (routed_hosts ip allowed)
        m) [
          | inl h ↦ (text, inl refl, routed_head text a (parse_net ip text) refl h)
          | inr h ↦ let o = routed-RoutedOf allowed a h in (o.0, inr o.1, o.2)
        ]

  RoutedOf-routed :
      (allowed : List Text) (a : IpAddr) → RoutedOf allowed a → Among a (routed_hosts ip allowed)
  unfolding routed_hosts
  RoutedOf-routed [] a (t, m, h) = absurd m
  RoutedOf-routed (text ∷ allowed) a (t, inl e, (net, r, p, h)) =
      Among-front a (when_net ip host_only [] (parse_net ip text)) (routed_hosts ip allowed)
        (rw (ap (parse_net ip) (sym e) ∙ r) (rw (cases-is_host net p) (inl h)))
  RoutedOf-routed (text ∷ allowed) a (t, inr m, h) =
      Among-back a (when_net ip host_only [] (parse_net ip text)) (routed_hosts ip allowed)
        (RoutedOf-routed allowed a (t, m, h))

  peer-PeerOf : (peers : List Peer) (a : IpAddr) → Among a (peer_hosts ip peers) → PeerOf peers a
  unfolding peer_hosts
  peer-PeerOf [] a m = absurd m
  peer-PeerOf (p ∷ peers) a m =
      elim (Among-append a (routed_hosts ip p.allowed_ips) (peer_hosts ip peers) m) [
        | inl h ↦ (p, inl refl, routed-RoutedOf p.allowed_ips a h)
        | inr h ↦ let o = peer-PeerOf peers a h in (o.0, inr o.1, o.2)
      ]

  PeerOf-peer : (peers : List Peer) (a : IpAddr) → PeerOf peers a → Among a (peer_hosts ip peers)
  unfolding peer_hosts
  PeerOf-peer [] a (p, m, h) = absurd m
  PeerOf-peer (q ∷ peers) a (p, inl e, h) =
      Among-front a (routed_hosts ip q.allowed_ips) (peer_hosts ip peers)
        (RoutedOf-routed q.allowed_ips a (rw e at h))
  PeerOf-peer (q ∷ peers) a (p, inr m, h) =
      Among-back a (routed_hosts ip q.allowed_ips) (peer_hosts ip peers)
        (PeerOf-peer peers a (p, m, h))

  pub used-Held : (i : Interface) (a : IpAddr) → Among a (used_addresses ip i) → Held i a
  unfolding used_addresses
  used-Held i a m = elim (Among-append a (own_addresses ip i.addresses) (peer_hosts ip i.peers) m) [
    | inl h ↦ let o = own-OwnOf i.addresses a h in by_interface o.0 o.1 o.2
    | inr h ↦ let o = peer-PeerOf i.peers a h in by_peer o.0 o.1 o.2.0 o.2.1 o.2.2
  ]

  pub Held-used : (i : Interface) (a : IpAddr) → Held i a → Among a (used_addresses ip i)
  unfolding used_addresses
  Held-used i a (by_interface text m h) =
      Among-front a (own_addresses ip i.addresses) (peer_hosts ip i.peers)
        (OwnOf-own i.addresses a (text, m, h))
  Held-used i a (by_peer p m text k h) =
      Among-back a (own_addresses ip i.addresses) (peer_hosts ip i.peers)
        (PeerOf-peer i.peers a (p, m, (text, k, h)))
