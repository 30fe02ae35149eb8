-- ===== src/Wireguard/Peers/Unused.antt =====
-- src/daemon/wireguard/model.rs: the addresses that `Interface::free_addresses` hands out.
use asc_daemon.Prelude.{
  ℕ, ◌+◌, ◌-◌, ◌/◌, ◌%◌, All-map, ◌^◌, ◌<◌, ◌≡◌, refl, Bool, false, ◌||◌, not, some, Text, List, [],
  ◌∷◌, All, Among, inl, inr, if◌then◌else◌, if_split,
}
use asc_daemon.Failure.{Result, ok, err, Holds, Holds-bind, Holds-self}
use asc_daemon.Net.{IpText, IpAddr, Net, parse_net, parse_net-Holds, width}
use asc_daemon.Wireguard.Address.{allocate, show_host, host_bits, prefix_of, from_bits, masked}
use asc_daemon.Wireguard.Address.Free.{IsFree, allocate-IsFree}
use asc_daemon.Wireguard.Peers.Held.{Held, used-Held, Held-used, is_used-Among, Among-is_used}
use asc_daemon.Wireguard.Peers.{Interface, used_addresses, free_loop, free_addresses}

module _ (ip : IpText) where
  -- a host route of an address that is free in the network of one of the addresses
  record FreeRoute (addresses : List Text) (used : List IpAddr) (route : Text) : Type 0 where
    given : Text
    net : Net
    free : IpAddr
    among : Among given addresses
    reads : parse_net ip given ≡ ok net
    is_free : IsFree net used free
    written : route ≡ show_host ip free

  -- a host route of a free address in the network of one of the addresses of the interface
  pub record Offered (i : Interface) (route : Text) : Type 0 where
    pub given : Text
    pub net : Net
    pub free : IpAddr
    pub among : Among given i.addresses
    pub reads : parse_net ip given ≡ ok net
    pub family : free.is_v6 ≡ net.addr.is_v6
    pub network :
        free.bits / 2 ^ (host_bits net - prefix_of net)
        ≡ net.addr.bits / 2 ^ (host_bits net - prefix_of net)
    pub after_first : 0 < free.bits % 2 ^ (host_bits net - prefix_of net)
    pub before_last :
        free.bits % 2 ^ (host_bits net - prefix_of net) + (if net.addr.is_v6 then 0 else 1)
        < 2 ^ (host_bits net - prefix_of net)
    pub unused : ¬ Held ip i free
    pub lowest :
        (h : ℕ)
        → 0 < h
        → h < free.bits % 2 ^ (host_bits net - prefix_of net)
        → Held ip i
            (from_bits net.addr.is_v6 (masked net.addr.is_v6 (prefix_of net) net.addr.bits + h))
    pub written : route ≡ show_host ip free

  -- What an address reads as fits its family, as the bits of an `IpAddr` do.
  module _
      (parse_fits : (text : Text) (a : IpAddr)
        → ip.parse text ≡ some a
        → a.bits < 2 ^ width a.is_v6) where
    free_loop-FreeRoute :
        (all : List Text) (used : List IpAddr) (seen_v4 seen_v6 : Bool) (addresses : List Text)
        → ((a : Text) → Among a addresses → Among a all)
        → Holds (All (FreeRoute all used)) (free_loop ip used seen_v4 seen_v6 addresses)
    unfolding free_loop
    free_loop-FreeRoute all used seen_v4 seen_v6 [] within = tt
    free_loop-FreeRoute all used seen_v4 seen_v6 (a ∷ addresses) within =
        Holds-bind
          (λ (net : Net). (parse_net ip a ≡ ok net) × (net.addr.bits < 2 ^ width net.addr.is_v6)) _
          (parse_net ip a) _
          (Holds-self (λ (net : Net). net.addr.bits < 2 ^ width net.addr.is_v6) (parse_net ip a)
            (parse_net-Holds ip (λ (a : IpAddr). a.bits < 2 ^ width a.is_v6) parse_fits a))
          λ net r.
            let v6 = net.addr.is_v6 in
            let rest =
              free_loop-FreeRoute all used (seen_v4 || not v6) (seen_v6 || v6) addresses
                (λ b m. within b (inr m)) in
            if_split (Holds (All (FreeRoute all used))) (if v6 then seen_v6 else seen_v4) _ _
              (λ y. rest)
              λ n.
                Holds-bind (IsFree net used) _ (allocate net used) _ (allocate-IsFree net used r.1)
                  λ free f. Holds-bind (All (FreeRoute all used)) _ _ _ rest λ out h. (
                    record {
                      given = a;
                      net = net;
                      free = free;
                      among = within a (inl refl);
                      reads = r.0;
                      is_free = f;
                      written = refl;
                    },
                    h,
                  )

    FreeRoute-Offered :
        (i : Interface) (route : Text)
        → FreeRoute i.addresses (used_addresses ip i) route
        → Offered i route
    FreeRoute-Offered i route o = record {
      given = o.given;
      net = o.net;
      free = o.free;
      among = o.among;
      reads = o.reads;
      family = o.is_free.family;
      network = o.is_free.network;
      after_first = o.is_free.after_first;
      before_last = o.is_free.before_last;
      unused = λ h.
          let used = Among-is_used (used_addresses ip i) o.free (Held-used ip i o.free h) in
          cc (used, o.is_free.unused);
      lowest = λ h pos lt.
          used-Held ip i _ (is_used-Among (used_addresses ip i) _ (o.is_free.lowest h pos lt));
      written = o.written;
    }

    Holds-All :
        (P Q : Text → Type 0)
        → ((t : Text) → P t → Q t)
        → (r : Result (List Text)) → Holds (All P) r
        → Holds (All Q) r
    Holds-All P Q k (ok l) a = All-map P Q l k a
    Holds-All P Q k (err e) a = tt

    -- If what is read as an address fits its family, then each route that `free_addresses` hands out is the host
    -- route of an address in the network of one of the interface's addresses, neither its first nor, of IPv4, its
    -- last. The interface does not have that address, nor is it a host route of a peer; and of every host of the
    -- network before it one of these is true.
    pub free_addresses-Offered : (i : Interface) → Holds (All (Offered i)) (free_addresses ip i)
    unfolding free_addresses
    free_addresses-Offered i =
        Holds-All (FreeRoute i.addresses (used_addresses ip i)) (Offered i) (FreeRoute-Offered i)
          (free_loop ip (used_addresses ip i) false false i.addresses)
          (free_loop-FreeRoute i.addresses (used_addresses ip i) false false i.addresses λ a m. m)
