-- ===== src/Wireguard/Address.antt =====
-- src/daemon/wireguard/model.rs: arithmetic on networks, and the addresses that are handed out. An address is its
-- bits; `& mask` is written as division by the power of two of the host bits.
pub mod Free
use asc_daemon.Prelude.{
  ℕ, zero, suc, ◌+◌, ◌-◌, ◌*◌, ◌/◌, ◌%◌, ◌^◌, min, Bool, true, false, ◌&&◌, ◌||◌, not, Option, none,
  some, Text, List, [], ◌∷◌, ◌++◌, leb, ◌==◌, any, if◌then◌else◌, bool_eq, show_uint,
}
use asc_daemon.Failure.{Result, ok, err, internal}
use asc_daemon.Net.{IpText, IpAddr, Net, width}

-- `host_bits`
abbrev pub host_bits : Net → ℕ
host_bits net = width net.addr.is_v6

-- `net.prefix.unwrap_or(width)`
abbrev pub prefix_of : Net → ℕ
prefix_of net = elim net.prefix [ none ↦ host_bits net | some p ↦ p ]

-- `bits & mask(v6, prefix)`
unfoldable pub masked : Bool → ℕ → ℕ → ℕ
masked v6 prefix bits = let shift = width v6 - min prefix (width v6) in bits / 2 ^ shift * 2 ^ shift

-- `from_bits`: the bits that the family has no place for are cut off
abbrev pub from_bits : Bool → ℕ → IpAddr
from_bits v6 bits = record { is_v6 = v6; bits = bits % 2 ^ width v6 }

abbrev pub addr_eq : IpAddr → IpAddr → Bool
addr_eq a b = bool_eq a.is_v6 b.is_v6 && a.bits == b.bits

-- `contains`, of networks
unfoldable pub net_contains : Net → Net → Bool
unfolding masked
net_contains outer inner =
    bool_eq outer.addr.is_v6 inner.addr.is_v6
    && leb (prefix_of outer) (prefix_of inner)
    && masked outer.addr.is_v6 (prefix_of outer) outer.addr.bits
      == masked outer.addr.is_v6 (prefix_of outer) inner.addr.bits

unfoldable pub is_used : List IpAddr → IpAddr → Bool
is_used used a = any (λ b. addr_eq b a) used

-- the loop over `count` hosts, from `host` on
unfoldable pub first_free : Bool → ℕ → List IpAddr → ℕ → ℕ → Option IpAddr
unfolding is_used
first_free v6 base used host zero = none
first_free v6 base used host (suc count) =
    let rest = first_free v6 base used (host + 1) count in
    let ip = from_bits v6 (base + host) in if is_used used ip then rest else some ip

-- the last host of a network of 2^shift addresses; from 2^127 on the source takes the largest number
unfoldable pub last_host : Bool → ℕ → ℕ
last_host v6 shift =
    let size = if leb 127 shift then 2 ^ 128 - 1 else 2 ^ shift in if v6 then size - 1 else size - 2

unfoldable pub max_scan : ℕ
max_scan = 2 ^ 20

abbrev pub or_full : {A : Type 0} → Option A → Result A
or_full none = err internal
or_full (some a) = ok a

-- `allocate`, less the text: the address of the host route
unfoldable pub allocate : Net → List IpAddr → Result IpAddr
unfolding masked first_free last_host max_scan
allocate net used =
    let v6 = net.addr.is_v6 in
    let prefix = prefix_of net in
    if leb (host_bits net - 1) prefix
    then err internal
    else or_full (
        first_free v6 (masked v6 prefix net.addr.bits) used 1
          (min (last_host v6 (host_bits net - prefix)) max_scan))

module _ (ip : IpText) where
  -- `network_of`
  unfoldable pub network_of : Net → Text
  unfolding masked show_uint
  network_of net =
      ip.show (from_bits net.addr.is_v6 (masked net.addr.is_v6 (prefix_of net) net.addr.bits))
      ++ b'/' ∷ show_uint (prefix_of net)

  -- the host route of an address, as `allocate` writes it
  unfoldable pub show_host : IpAddr → Text
  unfolding show_uint
  show_host a = ip.show a ++ b'/' ∷ show_uint (width a.is_v6)
