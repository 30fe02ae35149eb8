-- ===== src/Firewall/Ports.antt =====
-- src/daemon/firewall/model.rs: `PortRange` and `parse_ports`.
pub mod Sorted
pub mod Valid
use asc_daemon.Prelude.{
  ℕ, Bool, ◌&&◌, ◌||◌, not, Option, none, some, Text, List, [], ◌∷◌, ◌++◌, leb, ltb, ◌==◌,
  if◌then◌else◌, trim, split_once, split, parse_uint, show_uint, is_empty, retain,
}
use asc_daemon.Failure.{Result, ok, err, internal, ◌>>=◌, ◌>>◌, guard}

pub record PortRange : Type 0 where
  pub from : ℕ
  pub to : ℕ

-- `Display`
unfoldable pub show_range : PortRange → Text
unfolding show_uint
show_range r =
    if r.from == r.to then show_uint r.from else show_uint r.from ++ b'-' ∷ show_uint r.to

-- the closure `port`: a `u16` that is not 0
unfoldable pub parse_port : Text → Result ℕ
unfolding parse_uint trim
parse_port s = elim (parse_uint 65536 (trim s)) [
  | none ↦ err internal
  | some p ↦ if p == 0 then err internal else ok p
]

parse_range_parts : Text → Option (Text × Text) → Result PortRange
parse_range_parts text none = do p ← parse_port text; ok (record { from = p; to = p })
parse_range_parts text (some (a, b)) = do
  from ← parse_port a
  to ← parse_port b
  guard (leb from to) internal
  ok (record { from = from; to = to })

unfoldable pub parse_range : Text → Result PortRange
unfolding parse_range_parts trim split_once parse_port
parse_range text = parse_range_parts (trim text) (split_once b'-' (trim text))

-- `entry.split(',').filter(|i| !i.trim().is_empty())`
unfoldable pub port_items : Text → List Text
unfolding split trim
port_items entry = retain (λ i. not (is_empty (trim i))) (split b',' entry)

parse_items : List Text → Result (List PortRange)
parse_items [] = ok []
parse_items (i ∷ items) = do r ← parse_range i; rest ← parse_items items; ok (r ∷ rest)

parse_entries : List Text → Result (List PortRange)
parse_entries [] = ok []
parse_entries (e ∷ entries) = do
  rs ← parse_items (port_items e)
  rest ← parse_entries entries
  ok (rs ++ rest)

-- the key `(r.from, r.to)`, in lexicographic order
abbrev pub range_leb : PortRange → PortRange → Bool
range_leb a b = ltb a.from b.from || (a.from == b.from && leb a.to b.to)

abbrev pub range_eq : PortRange → PortRange → Bool
range_eq a b = a.from == b.from && a.to == b.to

-- `sort_by_key`: a stable sort, here by insertion
pub insert_range : PortRange → List PortRange → List PortRange
insert_range r [] = r ∷ []
insert_range r (s ∷ rest) = if range_leb r s then r ∷ s ∷ rest else s ∷ insert_range r rest

pub sort_ranges : List PortRange → List PortRange
sort_ranges [] = []
sort_ranges (r ∷ rs) = insert_range r (sort_ranges rs)

-- `dedup`: of neighbours that are equal the first stays
pub dedup_after : PortRange → List PortRange → List PortRange
dedup_after r [] = []
dedup_after r (s ∷ rest) =
    let same = dedup_after r rest in
    let other = s ∷ dedup_after s rest in if range_eq r s then same else other

pub dedup_ranges : List PortRange → List PortRange
unfolding dedup_after
dedup_ranges [] = []
dedup_ranges (r ∷ rs) = r ∷ dedup_after r rs

unfoldable pub parse_ports : List Text → Result (List PortRange)
unfolding parse_entries parse_items port_items parse_range sort_ranges insert_range dedup_ranges
parse_ports ports = do out ← parse_entries ports; ok (dedup_ranges (sort_ranges out))
