-- ===== src/Firewall/Ports/Valid.antt =====
-- The ports of a rule that is accepted.
use asc_daemon.Prelude.{
  ℕ, ◌<◌, ◌≤◌, ◌≡◌, refl, Option, none, some, Text, List, [], ◌∷◌, arith, All, All-append, leb,
  ◌==◌, if◌then◌else◌, if_split, trim, split_once, parse_uint, Below, parse_uint-Below,
}
use asc_daemon.Failure.{Result, ok, err, internal, Holds, Holds-bind, Holds-guard}
use asc_daemon.Firewall.Ports.{
  PortRange, parse_port, parse_range_parts, parse_range, port_items, parse_items, parse_entries,
  sort_ranges, parse_ports,
}
use asc_daemon.Firewall.Ports.Sorted.{
  Ordered, range_ltb, sort_ranges-All, dedup_ranges-All, dedup_sorted-Ordered,
}

-- ports from 1 to 65535, the lower end first
pub record IsValid (r : PortRange) : Type 0 where
  pub low : 0 < r.from
  pub ordered : r.from ≤ r.to
  pub high : r.to < 65536

abbrev IsPort : ℕ → Type 0
IsPort p = (0 < p) × (p < 65536)

abbrev AllValid : List PortRange → Type 0
AllValid = All IsValid

-- a number that was read, as a port
checked : Option ℕ → Result ℕ
checked o = elim o [ none ↦ err internal | some p ↦ if p == 0 then err internal else ok p ]

parse_port-checked : (s : Text) → parse_port s ≡ checked (parse_uint 65536 (trim s))
unfolding parse_port checked
parse_port-checked s = refl

checked-IsPort : (o : Option ℕ) → Below 65536 o → Holds IsPort (checked o)
unfolding checked
checked-IsPort none b = tt
checked-IsPort (some p) b = if_split (Holds IsPort) (p == 0) _ _ (λ y. tt) λ n. (ground arith, b)

parse_port-IsPort : (s : Text) → Holds IsPort (parse_port s)
parse_port-IsPort s =
    rw parse_port-checked
      (checked-IsPort (parse_uint 65536 (trim s)) (parse_uint-Below 65536 (trim s) (omega arith)))

parse_range_parts-IsValid :
    (text : Text) (o : Option (Text × Text)) → Holds IsValid (parse_range_parts text o)
unfolding parse_range_parts
parse_range_parts-IsValid text none =
    Holds-bind IsPort IsValid (parse_port text) _ (parse_port-IsPort text)
      λ p v. record { low = v.0; ordered = omega arith; high = v.1 }
parse_range_parts-IsValid text (some (a, b)) =
    Holds-bind IsPort IsValid (parse_port a) _ (parse_port-IsPort a) λ from low.
      Holds-bind IsPort IsValid (parse_port b) _ (parse_port-IsPort b) λ to high.
        Holds-guard IsValid (leb from to) internal _
          λ le. record { low = low.0; ordered = ground arith; high = high.1 }

parse_items-AllValid : (items : List Text) → Holds AllValid (parse_items items)
unfolding parse_items parse_range
parse_items-AllValid [] = tt
parse_items-AllValid (i ∷ items) =
    Holds-bind IsValid AllValid (parse_range i) _
      (parse_range_parts-IsValid (trim i) (split_once b'-' (trim i)))
      λ r v.
        Holds-bind AllValid AllValid (parse_items items) _ (parse_items-AllValid items)
          λ rest vs. (v, vs)

parse_entries-AllValid : (entries : List Text) → Holds AllValid (parse_entries entries)
unfolding parse_entries
parse_entries-AllValid [] = tt
parse_entries-AllValid (e ∷ entries) =
    Holds-bind AllValid AllValid (parse_items (port_items e)) _
      (parse_items-AllValid (port_items e))
      λ rs v.
        Holds-bind AllValid AllValid (parse_entries entries) _ (parse_entries-AllValid entries)
          λ rest vs. All-append IsValid rs rest v vs

abbrev Canonical : List PortRange → Type 0
Canonical l = All IsValid l × Ordered range_ltb l

parse_ports-Holds : (ports : List Text) → Holds Canonical (parse_ports ports)
unfolding parse_ports
parse_ports-Holds ports =
    Holds-bind AllValid Canonical (parse_entries ports) _ (parse_entries-AllValid ports) λ out v. (
      dedup_ranges-All IsValid (sort_ranges out) (sort_ranges-All IsValid out v),
      dedup_sorted-Ordered out,
    )

-- The ranges of a list of ports that is accepted are ranges of ports from 1 to 65535, the lower end
-- first, and strictly increase by their ends: they are sorted, and none is there twice.
pub parse_ports_canonical :
    (ports : List Text) {ranges : List PortRange}
    → parse_ports ports ≡ ok ranges
    → All IsValid ranges × Ordered range_ltb ranges
parse_ports_canonical ports e = rw e at (parse_ports-Holds ports)
