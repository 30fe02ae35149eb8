-- ===== src/Wireguard/Peers.antt =====
-- src/daemon/wireguard/model.rs: `Interface`, `Peer` and the addresses for a new peer.
pub mod Held
pub mod Unused
use asc_daemon.Prelude.{
  ℕ, Bool, true, false, ◌&&◌, ◌||◌, not, Option, none, some, Text, List, [], ◌∷◌, ◌++◌, text_eq,
  any, retain, map, ◌==◌, if◌then◌else◌,
}
use asc_daemon.Failure.{Result, ok, err, ◌>>=◌}
use asc_daemon.Net.{IpText, IpAddr, Net, parse_net, width}
use asc_daemon.Wireguard.Address.{host_bits, net_contains, network_of, allocate, show_host}

pub record Hooks : Type 0 where
  pub pre_up : List Text
  pub post_up : List Text
  pub pre_down : List Text
  pub post_down : List Text

pub record Peer : Type 0 where
  pub public_key : Text
  pub name : Text
  pub enabled : Bool
  pub preshared_key : Text
  pub allowed_ips : List Text
  pub endpoint : Text
  pub persistent_keepalive : ℕ

pub record Interface : Type 0 where
  pub name : Text
  pub private_key : Text
  pub listen_port : Option ℕ
  pub addresses : List Text
  pub dns : List Text
  pub client_dns : List Text
  pub mtu : Option ℕ
  pub table : Text
  pub fwmark : Text
  pub endpoint : Text
  pub masquerade : Bool
  pub hooks : Hooks
  pub peers : List Peer

module _ (ip : IpText) where
  abbrev pub when_net : {A : Type 0} → (Net → A) → A → Result Net → A
  when_net f other (ok net) = f net
  when_net f other (err e) = other

  abbrev pub is_host : Net → Bool
  is_host net = elim net.prefix [ none ↦ true | some p ↦ p == host_bits net ]

  -- the two loops over `used` in `free_addresses`
  unfoldable pub own_addresses : List Text → List IpAddr
  unfolding parse_net
  own_addresses [] = []
  own_addresses (a ∷ addresses) =
      when_net (λ net. net.addr ∷ []) [] (parse_net ip a) ++ own_addresses addresses

  unfoldable pub routed_hosts : List Text → List IpAddr
  unfolding parse_net
  routed_hosts [] = []
  routed_hosts (a ∷ allowed) =
      when_net (λ net. if is_host net then net.addr ∷ [] else []) [] (parse_net ip a)
      ++ routed_hosts allowed

  unfoldable pub peer_hosts : List Peer → List IpAddr
  unfolding routed_hosts
  peer_hosts [] = []
  peer_hosts (p ∷ peers) = routed_hosts p.allowed_ips ++ peer_hosts peers

  unfoldable pub used_addresses : Interface → List IpAddr
  unfolding own_addresses peer_hosts
  used_addresses i = own_addresses i.addresses ++ peer_hosts i.peers

  -- the loop over the addresses of the interface: the first of each family hands one out
  unfoldable pub free_loop : List IpAddr → Bool → Bool → List Text → Result (List Text)
  unfolding parse_net allocate show_host
  free_loop used seen_v4 seen_v6 [] = ok []
  free_loop used seen_v4 seen_v6 (a ∷ addresses) = parse_net ip a >>= λ net.
      let v6 = net.addr.is_v6 in
      let rest = free_loop used (seen_v4 || not v6) (seen_v6 || v6) addresses in
      if (if v6 then seen_v6 else seen_v4)
      then rest
      else allocate net used >>= λ free. rest >>= λ out. ok (show_host ip free ∷ out)

  -- `Interface::free_addresses`
  unfoldable pub free_addresses : Interface → Result (List Text)
  unfolding used_addresses free_loop
  free_addresses i = free_loop (used_addresses i) false false i.addresses

  -- `Interface::subnets`
  unfoldable pub subnets_onto : List Text → List Text → List Text
  unfolding parse_net network_of text_eq
  subnets_onto out [] = out
  subnets_onto out (a ∷ addresses) =
      subnets_onto
        (when_net
          (λ net.
            if any (text_eq (network_of ip net)) out then out else out ++ network_of ip net ∷ [])
          out (parse_net ip a))
        addresses

  unfoldable pub subnets : Interface → List Text
  unfolding subnets_onto
  subnets i = subnets_onto [] i.addresses

  -- `ipv4_subnet`
  unfoldable pub ipv4_subnet : List Text → Option Text
  unfolding parse_net network_of
  ipv4_subnet [] = none
  ipv4_subnet (a ∷ addresses) =
      let rest = ipv4_subnet addresses in
      when_net (λ net. if net.addr.is_v6 then rest else some (network_of ip net)) rest
        (parse_net ip a)

  -- the filter of `extra_routes`; the set of them is a list here
  unfoldable pub is_extra : List Text → Text → Bool
  unfolding parse_net net_contains
  is_extra own route =
      when_net
        (λ net.
          not (any (λ s. when_net (λ subnet. net_contains subnet net) false (parse_net ip s)) own))
        false (parse_net ip route)

  unfoldable pub extra_of : List Text → List Peer → List Text
  unfolding is_extra
  extra_of own [] = []
  extra_of own (p ∷ peers) =
      let rest = extra_of own peers in
      if p.enabled then retain (is_extra own) p.allowed_ips ++ rest else rest

  unfoldable pub extra_routes : Interface → List Text
  unfolding subnets extra_of
  extra_routes i = extra_of (subnets i) i.peers
