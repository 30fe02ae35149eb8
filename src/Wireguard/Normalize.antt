-- ===== src/Wireguard/Normalize.antt =====
-- src/daemon/wireguard/model.rs: `Interface::normalize`.
use asc_daemon.Prelude.{
  ℕ, Bool, true, false, ◌&&◌, ◌||◌, not, Option, none, some, Text, List, [], ◌∷◌, ◌++◌, text_eq,
  is_empty, trim, contains, length, is_alphanumeric, any, member, ltb, leb, ◌==◌,
}
use asc_daemon.Failure.{Result, ok, err, internal, guard, ◌>>=◌, ◌>>◌}
use asc_daemon.Net.{IpText, Net, parse_net}
use asc_daemon.Wireguard.Address.{host_bits}
use asc_daemon.Wireguard.Peers.{Peer, Interface, ipv4_subnet}
use asc_daemon.Wireguard.Check.{
  valid_name, valid_key, valid_dns, valid_host, valid_fwmark, normalize_nets, normalize_peer, every,
  trimmed_lines,
}

abbrev max_peers : ℕ
max_peers = 1000

abbrev table_char : ℕ → Bool
table_char c = is_alphanumeric c || c == b'_' || c == b'-'

abbrev bad_hook : Text → Bool
bad_hook hook = is_empty (trim hook) || contains 10 hook || contains 13 hook

abbrev mtu_ok : Option ℕ → Bool
mtu_ok none = true
mtu_ok (some mtu) = leb 576 mtu && leb mtu 9000

abbrev port_ok : Option ℕ → Bool
port_ok none = true
port_ok (some port) = not (port == 0)

-- the checks before the addresses
unfoldable pub check_identity : Interface → Result (Unit {0})
unfolding valid_name valid_key
check_identity i = do
  guard (valid_name i.name) internal
  guard (valid_key i.private_key) internal
  guard (port_ok i.listen_port) internal

-- the fields that the checks canonicalise
unfoldable pub canonical : Interface → List Text → List Peer → Interface
unfolding trim
canonical i addresses peers = record i {
  addresses = addresses;
  dns = trimmed_lines i.dns;
  client_dns = trimmed_lines i.client_dns;
  table = trim i.table;
  fwmark = trim i.fwmark;
  endpoint = trim i.endpoint;
  peers = peers;
}

module _ (ip : IpText) where
  abbrev full_prefix : Result Net → Bool
  full_prefix (err e) = false
  full_prefix (ok net) = elim net.prefix [ none ↦ false | some p ↦ p == host_bits net ]

  -- `is_host_route`
  unfoldable pub is_host_route : Text → Bool
  unfolding parse_net
  is_host_route value = full_prefix (parse_net ip value)

  -- the loop over the routes of one peer
  unfoldable pub add_hosts : List Text → List Text → Result (List Text)
  unfolding is_host_route text_eq
  add_hosts hosts [] = ok hosts
  add_hosts hosts (route ∷ routes) = elim (is_host_route route) [
    | false ↦ add_hosts hosts routes
    | true ↦ guard (not (member route hosts)) internal >> add_hosts (route ∷ hosts) routes
  ]

  -- the loop over the peers
  unfoldable pub normalize_peers : List Text → List Text → List Peer → Result (List Peer)
  unfolding normalize_peer add_hosts text_eq
  normalize_peers keys hosts [] = ok []
  normalize_peers keys hosts (p ∷ peers) = do
    q ← normalize_peer ip p
    guard (not (member q.public_key keys)) internal
    taken ← add_hosts hosts q.allowed_ips
    rest ← normalize_peers (q.public_key ∷ keys) taken peers
    ok (q ∷ rest)

  abbrev has_subnet : Option Text → Bool
  has_subnet none = false
  has_subnet (some subnet) = true

  -- the checks after the addresses
  unfoldable pub check_settings : Interface → List Text → Result (Unit {0})
  unfolding valid_dns is_alphanumeric valid_fwmark valid_host trim contains ipv4_subnet
  check_settings i addresses = do
    guard (not (length addresses == 0)) internal
    guard (not (any (λ d. not (valid_dns ip d)) (trimmed_lines i.dns))) internal
    guard (not (any (λ d. not (valid_dns ip d)) (trimmed_lines i.client_dns))) internal
    guard (mtu_ok i.mtu) internal
    guard (is_empty (trim i.table) || every table_char (trim i.table)) internal
    guard (is_empty (trim i.fwmark) || valid_fwmark (trim i.fwmark)) internal
    guard (is_empty (trim i.endpoint) || valid_host ip (trim i.endpoint)) internal
    guard
        (not (
          any bad_hook
            (i.hooks.pre_up ++ i.hooks.post_up ++ i.hooks.pre_down ++ i.hooks.post_down)))
        internal
    guard (not i.masquerade || has_subnet (ipv4_subnet ip addresses)) internal
    guard (not (ltb max_peers (length i.peers))) internal

  -- `Interface::normalize`
  unfoldable pub normalize_interface : Interface → Result Interface
  unfolding check_identity normalize_nets check_settings normalize_peers canonical
  normalize_interface i = do
    check_identity i
    addresses ← normalize_nets ip i.addresses
    check_settings i addresses
    peers ← normalize_peers [] [] i.peers
    ok (canonical i addresses peers)
