-- ===== src/Wireguard/Conf/Keys.antt =====
-- src/daemon/wireguard/conf.rs: the variables of `parse`, and what the keys and the daemon's comments set.
use asc_daemon.Prelude.{
  ℕ, ◌^◌, Bool, true, false, Option, none, some, Text, List, [], ◌∷◌, ◌++◌, codes, text_eq, trim,
  split, to_lower, parse_uint, map, if◌then◌else◌,
}
use asc_daemon.Failure.{Result, ok, err, internal}
use asc_daemon.Wireguard.Peers.{Hooks, Peer, Interface}
use asc_daemon.Wireguard.Check.{trimmed_lines}

-- the warnings that `parse` writes
pub data Warning : Type 0 where
  no_public_key save_config : Warning
  unknown_key unknown_peer_key : Text → Warning

pub record Parsed : Type 0 where
  pub interface : Interface
  pub managed : Bool
  pub warnings : List Warning

pub data Section : Type 0 where
  outside in_interface in_peer : Section

-- the variables of the loop
pub record Reader : Type 0 where
  pub interface : Interface
  pub warnings : List Warning
  pub section : Section
  pub seen_interface : Bool
  pub peer : Option Peer

-- `Interface::new`, `Peer::new`
abbrev pub new_interface : Text → Text → Interface
new_interface name private_key = record {
  name = name;
  private_key = private_key;
  listen_port = none;
  addresses = [];
  dns = [];
  client_dns = [];
  mtu = none;
  table = [];
  fwmark = [];
  endpoint = [];
  masquerade = false;
  hooks = record { pre_up = []; post_up = []; pre_down = []; post_down = [] };
  peers = [];
}

abbrev pub new_peer : Text → Peer
new_peer public_key = record {
  public_key = public_key;
  name = [];
  enabled = true;
  preshared_key = [];
  allowed_ips = [];
  endpoint = [];
  persistent_keepalive = 0;
}

-- `list`
unfoldable pub items_of : Text → List Text
unfolding split trim
items_of value = trimmed_lines (split b',' value)

abbrev interface_comment : Text → Text → Interface → Interface
interface_comment key value i =
    if text_eq key (codes "endpoint")
    then record i { endpoint = value }
    else if text_eq key (codes "masquerade")
    then record i { masquerade = true }
    else if text_eq key (codes "client-dns")
    then record i { client_dns = items_of value }
    else i

abbrev peer_comment : Text → Text → Peer → Peer
peer_comment key value p = if text_eq key (codes "name") then record p { name = value } else p

-- the match on a comment of the daemon, by the section
unfoldable pub read_comment : Section → Option (Text × Text) → Reader → Reader
unfolding text_eq
read_comment section none r = r
read_comment outside (some (key, value)) r = r
read_comment in_interface (some (key, value)) r = record r {
  interface = interface_comment key value r.interface;
}
read_comment in_peer (some (key, value)) r = record r {
  peer = elim r.peer [ none ↦ none | some p ↦ some (peer_comment key value p) ];
}

abbrev pub if_number : {A : Type 0} → Option ℕ → (ℕ → A) → Result A
if_number none f = err internal
if_number (some n) f = ok (f n)

abbrev number : {A : Type 0} → Text → (ℕ → A) → Result A
number value f = if_number (parse_uint (2 ^ 16) value) f

abbrev hooks_of : Interface → Hooks → Interface
hooks_of i hooks = record i { hooks = hooks }

abbrev says : Text → Text → Bool
says value word = text_eq (map to_lower value) word

-- a key of the interface, and one of a peer
unfoldable pub read_interface_key : Text → Text → Reader → Result Reader
unfolding text_eq to_lower
read_interface_key key value r =
    let i = r.interface in
    let h = i.hooks in
    if text_eq key (codes "privatekey")
    then ok (record r { interface = record i { private_key = value } })
    else if text_eq key (codes "address")
    then ok (record r { interface = record i { addresses = i.addresses ++ items_of value } })
    else if text_eq key (codes "listenport")
    then number value (λ n. record r { interface = record i { listen_port = some n } })
    else if text_eq key (codes "dns")
    then ok (record r { interface = record i { dns = i.dns ++ items_of value } })
    else if text_eq key (codes "mtu")
    then number value (λ n. record r { interface = record i { mtu = some n } })
    else if text_eq key (codes "table")
    then ok (record r { interface = record i { table = value } })
    else if text_eq key (codes "fwmark")
    then ok (record r { interface = record i { fwmark = value } })
    else if text_eq key (codes "preup")
    then ok (record r { interface = hooks_of i (record h { pre_up = h.pre_up ++ value ∷ [] }) })
    else if text_eq key (codes "postup")
    then ok (record r { interface = hooks_of i (record h { post_up = h.post_up ++ value ∷ [] }) })
    else if text_eq key (codes "predown")
    then ok (record r { interface = hooks_of i (record h { pre_down = h.pre_down ++ value ∷ [] }) })
    else if text_eq key (codes "postdown")
    then ok
        (record r { interface = hooks_of i (record h { post_down = h.post_down ++ value ∷ [] }) })
    else if text_eq key (codes "saveconfig")
    then ok (record r {
      warnings = if says value (codes "true") then r.warnings ++ save_config ∷ [] else r.warnings;
    })
    else ok (record r { warnings = r.warnings ++ unknown_key key ∷ [] })

unfoldable pub read_peer_key : Text → Text → Reader → Peer → Result Reader
unfolding text_eq to_lower
read_peer_key key value r p =
    if text_eq key (codes "publickey")
    then ok (record r { peer = some (record p { public_key = value }) })
    else if text_eq key (codes "presharedkey")
    then ok (record r { peer = some (record p { preshared_key = value }) })
    else if text_eq key (codes "allowedips")
    then ok (record r { peer = some (record p { allowed_ips = p.allowed_ips ++ items_of value }) })
    else if text_eq key (codes "endpoint")
    then ok (record r { peer = some (record p { endpoint = value }) })
    else if text_eq key (codes "persistentkeepalive")
    then if says value (codes "off")
      then ok (record r { peer = some (record p { persistent_keepalive = 0 }) })
      else number value (λ n. record r { peer = some (record p { persistent_keepalive = n }) })
    else ok (record r { warnings = r.warnings ++ unknown_peer_key key ∷ [] })

abbrev pub read_key : Section → Text → Text → Reader → Result Reader
read_key outside key value r = err internal
read_key in_interface key value r = read_interface_key key value r
read_key in_peer key value r = elim r.peer [ none ↦ ok r | some p ↦ read_peer_key key value r p ]
