-- ===== src/Wireguard/Address/Free.antt =====
-- src/daemon/wireguard/model.rs: the address that `allocate` hands out.
use mathlib.Core.Path.{subst}
use native.Mathlib.Nat.{
  pow-suc, suc-mul, mul_right_comm, add_comm, div-eq_of_lt, mod-eq_of_lt, lt_of_mul-lt-mul_right,
  mul-le-mul_right, pow-le-pow_right, one-le-pow, div-mul-le_self, add-mul-div_right,
  add-mul-mod_self_right,
}
use asc_daemon.Prelude.{
  ℕ, zero, suc, ◌+◌, ◌-◌, ◌*◌, ◌/◌, ◌%◌, ◌^◌, ◌≤◌, ◌<◌, ◌≡◌, refl, sym, ap, ◌∙◌, ◌⊎◌, inl, inr, min,
  Bool, true, false, Option, none, some, List, leb, if◌then◌else◌, if_split, arith, Bool-cases,
}
use asc_daemon.Failure.{Result, ok, err, Holds}
use asc_daemon.Net.{IpAddr, Net, width}
use asc_daemon.Wireguard.Address.{
  host_bits, prefix_of, masked, from_bits, is_used, first_free, last_host, max_scan, or_full,
  allocate,
}

module _ (v6 : Bool) (base : ℕ) (used : List IpAddr) where
  abbrev pub Taken : ℕ → Type 0
  Taken h = is_used used (from_bits v6 (base + h)) ≡ true

  -- what the loop finds from `host` on, in `count` rounds
  abbrev FirstIn : ℕ → ℕ → Option IpAddr → Type 0
  FirstIn host count none = (h : ℕ) → host ≤ h → h < host + count → Taken h
  FirstIn host count (some a) =
      (h : ℕ) × (host ≤ h)
      × (h < host + count)
      × (a ≡ from_bits v6 (base + h))
      × (is_used used a ≡ false)
      × ((k : ℕ) → host ≤ k → k < h → Taken k)

  later_hosts :
      (host count : ℕ) (r : Option IpAddr)
      → Taken host
      → FirstIn (host + 1) count r
      → FirstIn host (suc count) r
  later_hosts host count none t f = λ h lo hi. elim (Bool-cases (leb h host)) [
    | inl y ↦ let e : h ≡ host = ground arith in rw e t
    | inr n ↦ f h (ground arith) (omega arith)
  ]
  later_hosts host count (some a) t f = (
    f.0,
    omega (arith, f.1),
    omega (arith, f.2),
    f.3,
    f.4,
    λ k lo hi. elim (Bool-cases (leb k host)) [
      | inl y ↦ let e : k ≡ host = ground arith in rw e t
      | inr n ↦ f.5 k (ground arith) hi
    ],
  )

  first_free-FirstIn : (host count : ℕ) → FirstIn host count (first_free v6 base used host count)
  unfolding first_free
  first_free-FirstIn host zero = λ h lo hi. absurd (omega arith)
  first_free-FirstIn host (suc count) =
      if_split (FirstIn host (suc count)) (is_used used (from_bits v6 (base + host))) _ _
        (λ y. later_hosts host count _ y (first_free-FirstIn (host + 1) count))
        λ n. (host, omega arith, omega arith, refl, n, λ k lo hi. absurd (omega arith))

pow-add : (a b : ℕ) → 2 ^ (a + b) ≡ 2 ^ a * 2 ^ b
pow-add zero b = let e : 0 + b ≡ b = omega arith in rw e (omega arith)
pow-add (suc a) b =
    let e : suc a + b ≡ suc (a + b) = omega arith in
    rw e (
      pow-suc 2 (a + b)
      ∙ ap (λ (t : ℕ). t * 2) (pow-add a b)
      ∙ mul_right_comm (2 ^ a) (2 ^ b) 2
      ∙ ap (λ (t : ℕ). t * 2 ^ b) (sym (pow-suc 2 a)))

-- a block of 2^s numbers that starts below 2^(p + s) ends there at the latest
block_fits : (p s b : ℕ) → b < 2 ^ (p + s) → b / 2 ^ s * 2 ^ s + 2 ^ s ≤ 2 ^ (p + s)
block_fits p s b lt =
    let below : b / 2 ^ s * 2 ^ s < 2 ^ p * 2 ^ s =
      omega (arith, div-mul-le_self b (2 ^ s), pow-add p s, lt) in
    let q : b / 2 ^ s < 2 ^ p = lt_of_mul-lt-mul_right (2 ^ s) below in
    let up : suc (b / 2 ^ s) * 2 ^ s ≤ 2 ^ p * 2 ^ s = mul-le-mul_right (2 ^ s) q in
    omega (arith, up, suc-mul (b / 2 ^ s) (2 ^ s), pow-add p s)

-- the address of a host in the block
block_host : (q m h : ℕ) → 0 < m → h < m → ((q * m + h) / m ≡ q) × ((q * m + h) % m ≡ h)
block_host q m h pos lt =
    let swap : q * m + h ≡ h + q * m = add_comm (q * m) h in
    let none_left : h / m + q ≡ q = rw (div-eq_of_lt lt) (omega arith) in
    (
      ap (λ (t : ℕ). t / m) swap ∙ add-mul-div_right h q pos ∙ none_left,
      ap (λ (t : ℕ). t % m) swap ∙ add-mul-mod_self_right h q m ∙ mod-eq_of_lt lt,
    )

-- What `allocate` gives: an address of the network, neither its first one nor, of IPv4, its last one, which is not used, while
-- every one before it is.
pub record IsFree (net : Net) (used : List IpAddr) (a : IpAddr) : Type 0 where
  pub family : a.is_v6 ≡ net.addr.is_v6
  pub network :
      a.bits / 2 ^ (host_bits net - prefix_of net)
      ≡ net.addr.bits / 2 ^ (host_bits net - prefix_of net)
  pub after_first : 0 < a.bits % 2 ^ (host_bits net - prefix_of net)
  pub before_last :
      a.bits % 2 ^ (host_bits net - prefix_of net) + (if net.addr.is_v6 then 0 else 1)
      < 2 ^ (host_bits net - prefix_of net)
  pub unused : is_used used a ≡ false
  pub lowest :
      (h : ℕ)
      → 0 < h
      → h < a.bits % 2 ^ (host_bits net - prefix_of net)
      → Taken net.addr.is_v6 (masked net.addr.is_v6 (prefix_of net) net.addr.bits) used h

pos_pow : (s : ℕ) → 0 < 2 ^ s
pos_pow s = one-le-pow s 2 (omega arith)

masked_at :
    (v6 : Bool) (p bits : ℕ)
    → p ≤ width v6
    → masked v6 p bits ≡ bits / 2 ^ (width v6 - p) * 2 ^ (width v6 - p)
unfolding masked
masked_at v6 p bits le = let e : min p (width v6) ≡ p = omega arith in rw e refl

-- the loop stays below the end of the network, and of IPv4 below the last address
below_end :
    (v6 : Bool) (s h : ℕ)
    → 2 ≤ s
    → s ≤ width v6
    → h < 1 + min (last_host v6 s) max_scan
    → h + (if v6 then 0 else 1) < 2 ^ s
unfolding last_host max_scan
below_end true s h two le lt = elim (Bool-cases (leb 127 s)) [
  | inl y ↦
      let far : 2 ^ 21 ≤ 2 ^ s = pow-le-pow_right (omega arith) {i = 21} (ground arith) in
      let near = rw y at lt in omega (arith, near, far)
  | inr n ↦ let near = rw n at lt in omega (arith, near, pos_pow s)
]
below_end false s h two le lt =
    let n : leb 127 s ≡ false = ground arith in
    let four : 2 ^ 2 ≤ 2 ^ s = pow-le-pow_right (omega arith) two in
    let near = rw n at lt in omega (arith, near, four)

module _ (net : Net) (used : List IpAddr) (fits : net.addr.bits < 2 ^ width net.addr.is_v6) where
  found_IsFree :
      (a : IpAddr)
      → prefix_of net + 1 < host_bits net
      → FirstIn net.addr.is_v6
          (masked net.addr.is_v6 (prefix_of net) net.addr.bits)
          used
          1
          (min (last_host net.addr.is_v6 (host_bits net - prefix_of net)) max_scan)
          (some a)
      → IsFree net used a
  found_IsFree a room f =
      let v6 = net.addr.is_v6 in
      let p = prefix_of net in
      let s = host_bits net - prefix_of net in
      let q = net.addr.bits / 2 ^ s in
      let h = f.0 in
      let base : masked v6 p net.addr.bits ≡ q * 2 ^ s =
        masked_at v6 p net.addr.bits (omega arith) in
      let end : h + (if v6 then 0 else 1) < 2 ^ s =
        below_end v6 s h (omega arith) (omega arith) f.2 in
      let whole : p + s ≡ width v6 = omega arith in
      let block : q * 2 ^ s + 2 ^ s ≤ 2 ^ width v6 =
        subst (λ w. q * 2 ^ s + 2 ^ s ≤ 2 ^ w) whole
          (block_fits p s net.addr.bits (subst (λ w. net.addr.bits < 2 ^ w) (sym whole) fits)) in
      let small : h < 2 ^ s = omega (arith, end) in
      let value : a.bits ≡ q * 2 ^ s + h =
        ap (λ (b : IpAddr). b.bits) f.3
        ∙ ap (λ (t : ℕ). (t + h) % 2 ^ width v6) base
        ∙ mod-eq_of_lt (omega (arith, block, small)) in
      let parts = block_host q (2 ^ s) h (pos_pow s) small in
      let host : a.bits % 2 ^ s ≡ h = ap (λ (t : ℕ). t % 2 ^ s) value ∙ parts.1 in
      record {
        family = ap (λ (b : IpAddr). b.is_v6) f.3;
        network = ap (λ (t : ℕ). t / 2 ^ s) value ∙ parts.0;
        after_first = omega (arith, host, f.1);
        before_last = rw host end;
        unused = f.4;
        lowest = λ k pos lt. f.5 k pos (omega (arith, host, lt));
      }

  -- the branches of `allocate`
  abbrev pub Allocated : Result IpAddr → Type 0
  Allocated (ok a) = IsFree net used a
  Allocated (err e) =
      (host_bits net ≤ prefix_of net + 1)
      ⊎ ((h : ℕ)
          → 1 ≤ h
          → h < 1 + min (last_host net.addr.is_v6 (host_bits net - prefix_of net)) max_scan
          → Taken net.addr.is_v6 (masked net.addr.is_v6 (prefix_of net) net.addr.bits) used h)

  -- Of a network with an address that fits its family, `allocate` gives the lowest address that is not used, which lies in the
  -- network and is neither its first address nor, of IPv4, its last; and it fails only where the network has no
  -- room for hosts or each of its hosts is used, of more than 2^20 the first 2^20.
  pub allocate_lem : Allocated (allocate net used)
  unfolding allocate
  allocate_lem =
      if_split Allocated (leb (host_bits net - 1) (prefix_of net)) _ _ (λ y. inl (ground arith))
        λ n.
          scanned
            (first_free net.addr.is_v6 (masked net.addr.is_v6 (prefix_of net) net.addr.bits) used 1
              (min (last_host net.addr.is_v6 (host_bits net - prefix_of net)) max_scan))
            (ground arith)
            (first_free-FirstIn net.addr.is_v6 (masked net.addr.is_v6 (prefix_of net) net.addr.bits)
              used 1 (min (last_host net.addr.is_v6 (host_bits net - prefix_of net)) max_scan))
    where
      scanned :
          (r : Option IpAddr)
          → prefix_of net + 1 < host_bits net
          → FirstIn net.addr.is_v6
              (masked net.addr.is_v6 (prefix_of net) net.addr.bits)
              used
              1
              (min (last_host net.addr.is_v6 (host_bits net - prefix_of net)) max_scan)
              r
          → Allocated (or_full r)
      scanned none room f = inr f
      scanned (some a) room f = found_IsFree a room f

  pub allocate-IsFree : Holds (IsFree net used) (allocate net used)
  allocate-IsFree = go (allocate net used) allocate_lem
    where
      go : (r : Result IpAddr) → Allocated r → Holds (IsFree net used) r
      go (ok a) h = h
      go (err e) h = tt
