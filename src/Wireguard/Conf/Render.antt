-- ===== src/Wireguard/Conf/Render.antt =====
-- src/daemon/wireguard/conf.rs: `render`, which writes an interface as a file of wg-quick, and `redact`.
use asc_daemon.Prelude.{
  ℕ, Option, none, some, Text, List, [], ◌∷◌, ◌++◌, codes, is_empty, is_alphanumeric, show_uint,
  map, lines, join, if◌then◌else◌, ltb, text_lines,
}
use asc_daemon.Net.{IpText}
use asc_daemon.Wireguard.Peers.{Peer, Interface, ipv4_subnet}
use asc_daemon.Wireguard.Conf.{marker, nat_tag, off_prefix}

-- `{key} = {value}`
abbrev pub pair : Text → Text → Text
pair key value = key ++ (codes " = " ++ value)

abbrev pub pair_unless_empty : Text → Text → List Text
pair_unless_empty key value = if is_empty value then [] else pair key value ∷ []

abbrev pub pair_of_number : Text → Option ℕ → List Text
pair_of_number key none = []
pair_of_number key (some n) = pair key (show_uint n) ∷ []

abbrev pub listed : List Text → Text
listed values = join (codes ", ") values

abbrev pub pair_of_list : Text → List Text → List Text
pair_of_list key [] = []
pair_of_list key (t ∷ ts) = pair key (listed (t ∷ ts)) ∷ []

-- `nat_table`
unfoldable pub nat_table : Text → Text
unfolding is_alphanumeric
nat_table name = codes "asc_wg_" ++ map (λ c. if is_alphanumeric c then c else b'_') name

-- `nat_hooks`
abbrev pub nat_rule : Text → Text → Text → Text
nat_rule table subnet name =
    codes "nft 'add table ip "
    ++ table
    ++ codes "; add chain ip "
    ++ table
    ++ codes " postrouting { type nat hook postrouting priority srcnat; }; add rule ip "
    ++ table
    ++ codes " postrouting ip saddr "
    ++ subnet
    ++ codes " oifname != \""
    ++ name
    ++ codes "\" masquerade'"

abbrev pub nat_up_of : Text → Option Text → List Text
nat_up_of name none = []
nat_up_of name (some subnet) =
    codes "sysctl -q -w net.ipv4.ip_forward=1" ∷ nat_rule (nat_table name) subnet name ∷ []

abbrev pub nat_down_of : Text → Option Text → List Text
nat_down_of name none = []
nat_down_of name (some subnet) =
    (codes "nft delete table ip " ++ nat_table name ++ codes " || true") ∷ []

abbrev pub tagged : Text → List Text → List Text
tagged key commands = map (λ c. pair key c ++ codes " " ++ nat_tag) commands

-- the block of a peer
unfoldable pub block_lines : Peer → List Text
unfolding join show_uint
block_lines p =
    codes "[Peer]" ∷ (if is_empty p.name then [] else pair (codes "# asc:name") p.name ∷ [])
    ++ pair (codes "PublicKey") p.public_key
      ∷ pair_unless_empty (codes "PresharedKey") p.preshared_key
    ++ pair_of_list (codes "AllowedIPs") p.allowed_ips
    ++ pair_unless_empty (codes "Endpoint") p.endpoint
    ++ (if ltb 0 p.persistent_keepalive
        then pair (codes "PersistentKeepalive") (show_uint p.persistent_keepalive) ∷ []
        else [])

unfoldable pub peer_lines : Peer → List Text
unfolding block_lines lines text_lines
peer_lines p =
    if p.enabled
    then block_lines p
    else map (λ l. off_prefix ++ l) (text_lines (lines (block_lines p)))

unfoldable pub all_peer_lines : List Peer → List Text
unfolding peer_lines
all_peer_lines [] = []
all_peer_lines (p ∷ peers) = [] ∷ peer_lines p ++ all_peer_lines peers

-- the section of the interface
unfoldable pub own_lines : Interface → List Text
unfolding join show_uint
own_lines i =
    pair_unless_empty (codes "# asc:endpoint") i.endpoint
    ++ (if i.masquerade then codes "# asc:masquerade" ∷ [] else [])
    ++ pair_of_list (codes "# asc:client-dns") i.client_dns
    ++ pair (codes "PrivateKey") i.private_key
      ∷ pair (codes "Address") (listed i.addresses)
      ∷ pair_of_number (codes "ListenPort") i.listen_port
    ++ pair_of_list (codes "DNS") i.dns
    ++ pair_of_number (codes "MTU") i.mtu
    ++ pair_unless_empty (codes "Table") i.table
    ++ pair_unless_empty (codes "FwMark") i.fwmark

abbrev pub preamble : List Text
preamble =
    (marker ++ codes ". Edit with `asc wireguard` or the panel; the `# asc:` comments carry")
    ∷ codes "# the daemon's own settings and are read back."
    ∷ []
    ∷ codes "[Interface]"
    ∷ []

module _ (ip : IpText) where
  abbrev pub subnet_if_masquerade : Interface → Option Text
  unfolding ipv4_subnet
  subnet_if_masquerade i = if i.masquerade then ipv4_subnet ip i.addresses else none

  unfoldable pub hook_lines : Interface → List Text
  unfolding nat_table ipv4_subnet
  hook_lines i =
      map (pair (codes "PreUp")) i.hooks.pre_up
      ++ map (pair (codes "PostUp")) i.hooks.post_up
      ++ tagged (codes "PostUp") (nat_up_of i.name (subnet_if_masquerade i))
      ++ map (pair (codes "PreDown")) i.hooks.pre_down
      ++ map (pair (codes "PostDown")) i.hooks.post_down
      ++ tagged (codes "PostDown") (nat_down_of i.name (subnet_if_masquerade i))

  unfoldable pub render_lines : Interface → List Text
  unfolding own_lines hook_lines all_peer_lines
  render_lines i = preamble ++ own_lines i ++ hook_lines i ++ all_peer_lines i.peers

  -- `render`
  unfoldable pub render : Interface → Text
  unfolding render_lines lines
  render i = lines (render_lines i)
