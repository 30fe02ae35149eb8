-- ===== src/Firewall/Render/Lines.antt =====
-- src/daemon/firewall/render.rs: the lines of the rules of a chain.
use asc_daemon.Prelude.{
  Bool, true, false, not, Option, none, some, Text, List, [], ◌∷◌, ◌++◌, codes, text_eq,
  if◌then◌else◌, ◌==◌, map, retain, join,
}
use asc_daemon.Failure.{ok, err}
use asc_daemon.Net.{IpText, parse_net, show_net}
use asc_daemon.Firewall.Ports.{PortRange, parse_ports, show_range}
use asc_daemon.Firewall.Model.{Action, Protocol, Rule, tcp, udp, any_protocol, icmp}

pub data Chain : Type 0 where
  input forward : Chain

-- `80` for one item, `{ 80, 443 }` for several
unfoldable pub braces : List Text → Text
unfolding join
braces (item ∷ []) = item
braces items = codes "{ " ++ join (codes ", ") items ++ codes " }"

abbrev on_ports : Text → Text → List PortRange → Text
on_ports plain before [] = plain
on_ports plain before (r ∷ ranges) = before ++ braces (map show_range (r ∷ ranges)) ++ codes " "

-- the match of a protocol with ports, by its name
abbrev transport : Chain → Text → List PortRange → Text
transport input name ranges =
    on_ports (codes "meta l4proto " ++ name ++ codes " ") (name ++ codes " dport ") ranges
transport forward name ranges =
    on_ports (codes "ct original protocol " ++ name ++ codes " ")
      (codes "ct original protocol " ++ name ++ codes " ct original proto-dst ") ranges

abbrev proto_text : Protocol → Chain → List PortRange → Option Text
proto_text any_protocol chain ranges = some []
proto_text icmp input ranges = some (codes "meta l4proto { icmp, ipv6-icmp } ")
proto_text icmp forward ranges = none
proto_text tcp chain ranges = some (transport chain (codes "tcp") ranges)
proto_text udp chain ranges = some (transport chain (codes "udp") ranges)

unfoldable pub proto_match : Rule → Chain → Option Text
unfolding parse_ports braces show_range
proto_match rule chain = elim (parse_ports rule.ports) [
  | err _ ↦ none
  | ok ranges ↦ proto_text rule.protocol chain ranges
]

-- `clauses`, `v4` and `v6` of the loop over the sources
pub record Sources : Type 0 where
  pub clauses : List Text
  pub v4 : List Text
  pub v6 : List Text

abbrev pub set_clauses : Bool → Text → List Text
set_clauses ipv6 name =
    let set = if text_eq name (codes "blocklist") then codes "block" else codes "allow" in
    (codes "ip saddr @" ++ set ++ codes "4 ")
    ∷ (if ipv6 then (codes "ip6 saddr @" ++ set ++ codes "6 ") ∷ [] else [])

module _ (ip : IpText) (ipv6 : Bool) where
  add_net : Text → Sources → Sources
  unfolding parse_net show_net
  add_net source rest = elim (parse_net ip source) [
    | err _ ↦ rest
    | ok net ↦
        if net.addr.is_v6
        then record rest { v6 = show_net ip net ∷ rest.v6 }
        else record rest { v4 = show_net ip net ∷ rest.v4 }
  ]

  add_source : Text → Sources → Sources
  unfolding add_net
  add_source [] rest = add_net [] rest
  add_source (c ∷ name) rest =
      if c == b'@'
      then record rest { clauses = set_clauses ipv6 name ++ rest.clauses }
      else add_net (c ∷ name) rest

  unfoldable pub split_sources : List Text → Sources
  unfolding add_source
  split_sources [] = record { clauses = []; v4 = []; v6 = [] }
  split_sources (s ∷ sources) = add_source s (split_sources sources)

  abbrev family_clause : Text → List Text → List Text
  family_clause family [] = []
  family_clause family (t ∷ ts) = (family ++ codes " saddr " ++ braces (t ∷ ts) ++ codes " ") ∷ []

  unfoldable pub source_clauses : List Text → List Text
  unfolding split_sources braces
  source_clauses [] = [] ∷ []
  source_clauses (s ∷ sources) =
      let split = split_sources (s ∷ sources) in
      split.clauses
      ++ family_clause (codes "ip") split.v4
      ++ (if ipv6 then family_clause (codes "ip6") split.v6 else [])

abbrev pub verdict : Action → Text
verdict Action.accept = codes "accept"
verdict Action.drop = codes "drop"
verdict Action.reject = codes "reject"

abbrev pub dnat : Chain → Text
dnat input = []
dnat forward = codes "ct status dnat "

abbrev pub rule_tail : Rule → Text
rule_tail rule =
    codes "counter " ++ verdict rule.action ++ codes " comment \"asc:" ++ rule.id ++ codes "\""

unfoldable pub rule_lines : IpText → Rule → Chain → Bool → List Text
unfolding proto_match source_clauses
rule_lines ip rule chain ipv6 = elim (proto_match rule chain) [
  | none ↦ []
  | some proto ↦
      map (λ source. dnat chain ++ source ++ proto ++ rule_tail rule)
        (source_clauses ip ipv6 rule.sources)
]

abbrev pub denies : Rule → Bool
denies rule = elim rule.action [ Action.accept ↦ false | _ ↦ true ]

abbrev indent : Text → Text
indent line = codes "\t\t" ++ line

-- the lines of the rules, one after another
unfoldable pub write_each : IpText → List Rule → Chain → Bool → List Text
unfolding rule_lines
write_each ip [] chain ipv6 = []
write_each ip (r ∷ rules) chain ipv6 =
    map indent (rule_lines ip r chain ipv6) ++ write_each ip rules chain ipv6

unfoldable pub write_rules : IpText → List Rule → Chain → Bool → List Text
unfolding write_each
write_rules ip rules chain ipv6 =
    write_each ip (retain denies rules) chain ipv6
    ++ write_each ip (retain (λ r. not (denies r)) rules) chain ipv6
