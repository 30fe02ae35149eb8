-- ===== src/Wireguard/Check.antt =====
-- src/daemon/wireguard/model.rs: what makes a peer and an interface valid, and their canonical form.
use asc_daemon.Prelude.{
  ℕ, ◌*◌, ◌+◌, ◌-◌, ◌^◌, Bool, true, false, ◌&&◌, ◌||◌, not, Option, none, some, Text, List, [],
  ◌∷◌, ◌++◌, codes, text_eq, is_empty, trim, length, byte_length, is_alphanumeric, is_digit,
  parse_uint, show_uint, any, retain, map, reverse, split_once, ltb, leb, ◌==◌, if◌then◌else◌,
}
use asc_daemon.Failure.{Result, ok, err, internal, guard, ◌>>=◌, ◌>>◌}
use asc_daemon.Net.{IpText, Net, parse_net, show_net}
use asc_daemon.Wireguard.Address.{host_bits}
use asc_daemon.Wireguard.Peers.{Peer}

abbrev pub every : (ℕ → Bool) → Text → Bool
every p s = not (any (λ c. not (p c)) s)

abbrev is_control : ℕ → Bool
is_control c = ltb c 32 || (leb 127 c && leb c 159)

abbrev name_char : ℕ → Bool
name_char c = is_alphanumeric c || c == b'_' || c == b'=' || c == b'+' || c == b'.' || c == b'-'

abbrev starts_well : Text → Bool
starts_well [] = false
starts_well (c ∷ s) = is_alphanumeric c && every name_char s

-- `valid_name`
unfoldable pub valid_name : Text → Bool
unfolding is_alphanumeric byte_length
valid_name name = starts_well name && leb (byte_length name) 15

-- the last character is `=`, and all before it are of base64
unfoldable pub base64_then_eq : Text → Bool
unfolding is_alphanumeric
base64_then_eq [] = false
base64_then_eq (c ∷ []) = c == b'='
base64_then_eq (c ∷ d ∷ s) = (is_alphanumeric c || c == b'+' || c == b'/') && base64_then_eq (d ∷ s)

-- `valid_key`
unfoldable pub valid_key : Text → Bool
unfolding byte_length base64_then_eq
valid_key key = byte_length key == 44 && base64_then_eq key

abbrev is_some : {A : Type 0} → Option A → Bool
is_some none = false
is_some (some a) = true

abbrev host_char : ℕ → Bool
host_char c = is_alphanumeric c || c == b'.' || c == b'-'

-- `from_str_radix(_, 16)`, with an optional `+`
abbrev hex_digit : ℕ → Option ℕ
hex_digit c =
    if is_digit c
    then some (c - b'0')
    else if leb b'a' c && leb c b'f'
    then some (c - b'a' + 10)
    else if leb b'A' c && leb c b'F'
    then some (c - b'A' + 10)
    else none

unfoldable pub fits_hex : ℕ → Text → Bool
fits_hex n [] = true
fits_hex n (c ∷ s) = elim (hex_digit c) [
  | none ↦ false
  | some d ↦ ltb (n * 16 + d) (2 ^ 32) && fits_hex (n * 16 + d) s
]

unfoldable pub is_hex : Text → Bool
unfolding fits_hex
is_hex [] = false
is_hex (c ∷ []) = not (c == b'+') && fits_hex 0 (c ∷ [])
is_hex (c ∷ d ∷ s) = if c == b'+' then fits_hex 0 (d ∷ s) else fits_hex 0 (c ∷ d ∷ s)

abbrev hex_mark : Text → Bool
hex_mark (z ∷ x ∷ h) = z == b'0' && x == b'x' && is_hex h
hex_mark _ = false

-- `valid_fwmark`
unfoldable pub valid_fwmark : Text → Bool
unfolding text_eq parse_uint is_hex
valid_fwmark value =
    text_eq value (codes "off") || is_some (parse_uint (2 ^ 32) value) || hex_mark value

-- `rsplit_once(':')`
unfoldable pub rsplit_colon : Text → Option (Text × Text)
unfolding split_once
rsplit_colon s = elim (split_once b':' (reverse s)) [
  | none ↦ none
  | some (a, b) ↦ some (reverse b, reverse a)
]

-- between brackets
unfoldable pub unbracket : Text → Option Text
unbracket [] = none
unbracket (c ∷ s) = elim (reverse s) [
  | [] ↦ none
  | d ∷ r ↦ if c == b'[' && d == b']' then some (reverse r) else none
]

abbrev pub trimmed_lines : List Text → List Text
trimmed_lines list = retain (λ d. not (is_empty d)) (map trim list)

module _ (ip : IpText) where
  abbrev reads_v6 : Text → Bool
  reads_v6 t = elim (ip.parse t) [ none ↦ false | some a ↦ a.is_v6 ]

  -- `valid_host`, `valid_dns`
  unfoldable pub valid_host : Text → Bool
  unfolding byte_length is_alphanumeric
  valid_host host =
      not (is_empty host)
      && leb (byte_length host) 253
      && (is_some (ip.parse host) || every host_char host)

  unfoldable pub valid_dns : Text → Bool
  unfolding byte_length is_alphanumeric
  valid_dns value =
      is_some (ip.parse value) || (leb (byte_length value) 253 && every host_char value)

  abbrev endpoint_of : Text → ℕ → Option Text → Result Text
  endpoint_of host port (some v6) =
      if reads_v6 v6 then ok (b'[' ∷ v6 ++ b']' ∷ b':' ∷ show_uint port) else err internal
  endpoint_of host port none =
      if reads_v6 host
      then err internal
      else if valid_host host
      then ok (host ++ b':' ∷ show_uint port)
      else err internal

  -- a port that is read, and not 0
  abbrev with_port : Text → Option ℕ → Result Text
  with_port host none = err internal
  with_port host (some port) =
      if port == 0 then err internal else endpoint_of host port (unbracket host)

  -- `normalize_endpoint`
  unfoldable pub normalize_endpoint : Text → Result Text
  unfolding trim rsplit_colon parse_uint unbracket valid_host show_uint
  normalize_endpoint value = elim (rsplit_colon (trim value)) [
    | none ↦ err internal
    | some (host, port) ↦ with_port host (parse_uint (2 ^ 16) port)
  ]

  -- the text of a net, a bare address as a host route
  abbrev net_text : Net → Text
  net_text net = elim net.prefix [
    | some p ↦ show_net ip net
    | none ↦ ip.show net.addr ++ b'/' ∷ show_uint (host_bits net)
  ]

  -- `normalize_nets`, from what is there
  unfoldable pub nets_onto : List Text → List Text → Result (List Text)
  unfolding trim parse_net show_net show_uint text_eq
  nets_onto out [] = ok out
  nets_onto out (item ∷ list) = elim (is_empty (trim item)) [
    | true ↦ nets_onto out list
    | false ↦ parse_net ip (trim item) >>= λ net.
        nets_onto (if any (text_eq (net_text net)) out then out else out ++ net_text net ∷ []) list
  ]

  unfoldable pub normalize_nets : List Text → Result (List Text)
  unfolding nets_onto
  normalize_nets list = nets_onto [] list

  abbrev endpoint_or_none : Text → Result Text
  endpoint_or_none endpoint = elim (is_empty endpoint) [
    | true ↦ ok endpoint
    | false ↦ normalize_endpoint endpoint
  ]

  -- `Peer::normalize`
  unfoldable pub normalize_peer : Peer → Result Peer
  unfolding valid_key trim normalize_nets normalize_endpoint
  normalize_peer p = do
    guard (valid_key p.public_key) internal
    guard (is_empty p.preshared_key || valid_key p.preshared_key) internal
    let name = trim p.name
    guard (not (ltb 64 (length name) || any is_control name)) internal
    allowed ← normalize_nets p.allowed_ips
    endpoint ← endpoint_or_none (trim p.endpoint)
    ok (record p { name = name; allowed_ips = allowed; endpoint = endpoint })
