-- ===== src/Net/Toy.antt =====
-- A textual form of addresses, for the tests.
use native.Mathlib.Nat.{one-le-pow}
use asc_daemon.Prelude.{
  ℕ, ◌^◌, ◌<◌, ◌≡◌, Option, none, some, Text, [], ◌∷◌, Bool, true, false, ◌==◌, if◌then◌else◌,
  arith, parse_uint, show_uint, parse_uint-show_uint, Below, parse_uint-Below,
}
use asc_daemon.Net.{IpAddr, IpText, width}

-- addresses are written `4` or `6`, and their bits in decimal
abbrev show_ip : IpAddr → Text
show_ip a = (if a.is_v6 then b'6' else b'4') ∷ show_uint a.bits

abbrev read_ip : Bool → Text → Option IpAddr
read_ip v6 s = elim (parse_uint (2 ^ width v6) s) [
  | none ↦ none
  | some n ↦ some (record { is_v6 = v6; bits = n })
]

abbrev parse_ip : Text → Option IpAddr
parse_ip [] = none
parse_ip (c ∷ s) = read_ip (c == b'6') s

pub parse-show_ip :
    (v6 : Bool) (n : ℕ)
    → n < 2 ^ width v6
    → parse_ip (show_ip (record { is_v6 = v6; bits = n })) ≡ some (record { is_v6 = v6; bits = n })
parse-show_ip true n lt = ground (arith, parse_uint-show_uint (2 ^ width true) n lt)
parse-show_ip false n lt = ground (arith, parse_uint-show_uint (2 ^ width false) n lt)

abbrev pub toy_ip : IpText
toy_ip = record { parse = parse_ip; show = show_ip; parse_show = λ a. parse-show_ip a.is_v6 a.bits }

FitsIfSome : Option IpAddr → Type 0
FitsIfSome none = Unit
FitsIfSome (some a) = a.bits < 2 ^ width a.is_v6

read_ip-FitsIfSome : (v6 : Bool) (s : Text) → FitsIfSome (read_ip v6 s)
unfolding FitsIfSome
read_ip-FitsIfSome v6 s =
    go (parse_uint (2 ^ width v6) s)
      (parse_uint-Below (2 ^ width v6) s (one-le-pow (width v6) 2 (omega arith)))
  where
    go :
        (o : Option ℕ)
        → Below (2 ^ width v6) o
        → FitsIfSome (elim o [ none ↦ none | some n ↦ some (record { is_v6 = v6; bits = n }) ])
    go none b = tt
    go (some n) b = b

pub toy_ip_fits :
    (text : Text) (a : IpAddr) → toy_ip.parse text ≡ some a → a.bits < 2 ^ width a.is_v6
unfolding FitsIfSome
toy_ip_fits [] a e = ground arith
toy_ip_fits (c ∷ text) a e =
    let f : FitsIfSome (some a) = rw e at (read_ip-FitsIfSome (c == b'6') text) in f
