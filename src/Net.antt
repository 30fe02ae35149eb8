-- ===== src/Net.antt =====
-- src/daemon/firewall/model.rs, `Net` and `parse_net`: an address or a network, shared by the
-- firewall and WireGuard.
pub mod Toy
use asc_daemon.Prelude.{
  ℕ, ◌<◌, ◌^◌, ◌≡◌, refl, Bool, Option, none, some, Text, ◌∷◌, ◌++◌, leb, if◌then◌else◌, trim,
  split_once, parse_uint, show_uint,
}
use asc_daemon.Failure.{Result, ok, err, internal, Holds}

-- `std::net::IpAddr`, by its family and its bits.
pub record IpAddr : Type 0 where
  pub is_v6 : Bool
  pub bits : ℕ

-- 32 or 128
abbrev pub width : Bool → ℕ
width v6 = if v6 then 128 else 32

-- The textual form of an address belongs to Rust's standard library. What the program relies on:
-- a printed address reads back as itself.
pub record IpText : Type 0 where
  pub parse : Text → Option IpAddr
  pub show : IpAddr → Text
  pub parse_show : (a : IpAddr) → a.bits < 2 ^ width a.is_v6 → parse (show a) ≡ some a

pub record Net : Type 0 where
  pub addr : IpAddr
  pub prefix : Option ℕ

-- `prefix.parse::<u8>()`, at most the width of the family
parse_prefix : Bool → Text → Option ℕ
parse_prefix v6 p = elim (parse_uint 256 p) [
  | none ↦ none
  | some n ↦ if leb n (width v6) then some n else none
]

with_prefix : IpAddr → Option Text → Result Net
with_prefix addr none = ok (record { addr = addr; prefix = none })
with_prefix addr (some p) = elim (parse_prefix addr.is_v6 p) [
  | none ↦ err internal
  | some n ↦ ok (record { addr = addr; prefix = some n })
]

module _ (ip : IpText) where
  parse_parts : Text → Option Text → Result Net
  unfolding with_prefix parse_prefix
  parse_parts a p = elim (ip.parse a) [ none ↦ err internal | some addr ↦ with_prefix addr p ]

  abbrev slash : Text → Text × Option Text
  slash text = elim (split_once b'/' text) [ none ↦ (text, none) | some (a, p) ↦ (a, some p) ]

  unfoldable pub parse_net : Text → Result Net
  unfolding parse_parts split_once trim
  parse_net text = let (a, p) = slash (trim text) in parse_parts a p

  -- `Display` of `Net`
  unfoldable pub show_net : Net → Text
  unfolding show_uint
  show_net n = elim n.prefix [
    | none ↦ ip.show n.addr
    | some p ↦ ip.show n.addr ++ b'/' ∷ show_uint p
  ]

  -- What holds of every address that is read, holds of that of a net.
  module _ (P : IpAddr → Type 0) (each : (t : Text) (a : IpAddr) → ip.parse t ≡ some a → P a) where
    with_prefix-Holds :
        (a : IpAddr) (p : Option Text) → P a → Holds (λ (n : Net). P n.addr) (with_prefix a p)
    unfolding with_prefix
    with_prefix-Holds a none h = h
    with_prefix-Holds a (some p) h = go (parse_prefix a.is_v6 p)
      where
        go :
            (o : Option ℕ)
            → Holds
                (λ (n : Net). P n.addr)
                (elim o [
                  | none ↦ err internal
                  | some n ↦ ok (record { addr = a; prefix = some n })
                ])
        go none = tt
        go (some n) = h

    parse_parts-Holds :
        (a : Text) (p : Option Text) → Holds (λ (n : Net). P n.addr) (parse_parts a p)
    unfolding parse_parts
    parse_parts-Holds a p = go (ip.parse a) refl
      where
        go :
            (o : Option IpAddr)
            → ip.parse a ≡ o
            → Holds
                (λ (n : Net). P n.addr)
                (elim o [ none ↦ err internal | some addr ↦ with_prefix addr p ])
        go none e = tt
        go (some addr) e = with_prefix-Holds addr p (each a addr e)

    pub parse_net-Holds : (text : Text) → Holds (λ (n : Net). P n.addr) (parse_net text)
    unfolding parse_net
    parse_net-Holds text = parse_parts-Holds (slash (trim text)).0 (slash (trim text)).1
