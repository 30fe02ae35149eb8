-- ===== src/Wireguard/Tests.antt =====
-- A server with one peer at work.
use asc_daemon.Prelude.{
  ◌≡◌, refl, true, false, none, Text, [], ◌∷◌, codes, parse_uint, show_uint, All, Single,
}
use asc_daemon.Failure.{ok, err, internal, Holds}
use asc_daemon.Net.Toy.{toy_ip, toy_ip_fits}
use asc_daemon.Wireguard.Peers.{Peer, Interface, free_addresses}
use asc_daemon.Wireguard.Normalize.{normalize_interface}
use asc_daemon.Wireguard.Routes.{keys_of, hosts_of, normalize_interface-Single}
use asc_daemon.Wireguard.Peers.Unused.{Offered, free_addresses-Offered}

abbrev laptop : Peer
laptop = record {
  public_key = [];
  name = codes "laptop";
  enabled = true;
  preshared_key = [];
  allowed_ips = codes "4167772162/32" ∷ [];
  endpoint = [];
  persistent_keepalive = 0;
}

-- 10.0.0.1/24
abbrev server : Interface
server = record {
  name = codes "wg0";
  private_key = [];
  listen_port = none;
  addresses = codes "4167772161/24" ∷ [];
  dns = [];
  client_dns = [];
  mtu = none;
  table = [];
  fwmark = [];
  endpoint = [];
  masquerade = false;
  hooks = record { pre_up = []; post_up = []; pre_down = []; post_down = [] };
  peers = laptop ∷ [];
}

third_host : free_addresses toy_ip server ≡ ok (codes "4167772163/32" ∷ [])
unfolding free_addresses parse_uint
third_host = refl

free_addresses-Offered_example : Holds (All (Offered toy_ip server)) (free_addresses toy_ip server)
free_addresses-Offered_example = free_addresses-Offered toy_ip toy_ip_fits server

abbrev key : Text
key = codes "AAAAAAAAAAAAAAAAAAAAAAAAAAAAAAAAAAAAAAAAAAA="

abbrev keyed : Interface
keyed = record server { private_key = key; peers = record laptop { public_key = key } ∷ [] }

-- one host route at two peers
one_route_twice :
    normalize_interface toy_ip (record keyed {
      peers =
          record laptop { public_key = key }
          ∷ record laptop { public_key = codes "BAAAAAAAAAAAAAAAAAAAAAAAAAAAAAAAAAAAAAAAAAA=" }
          ∷ [];
    })
    ≡ err internal
unfolding normalize_interface parse_uint
one_route_twice = refl

accepted : normalize_interface toy_ip keyed ≡ ok keyed
unfolding normalize_interface parse_uint show_uint
accepted = refl

normalize_interface-Single_example :
    Holds
      (λ (n : Interface). Single (keys_of n.peers) × Single (hosts_of toy_ip n.peers))
      (normalize_interface toy_ip keyed)
normalize_interface-Single_example = normalize_interface-Single toy_ip keyed
