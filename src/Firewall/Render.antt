-- ===== src/Firewall/Render.antt =====
-- src/daemon/firewall/render.rs: the managed model as the text of the table `inet asc`.
mod Lines
unfoldable pub use Lines.{write_rules}
pub use Lines.{Chain, input, forward}
use asc_daemon.Prelude.{
  ℕ, ◌-◌, Bool, true, false, ◌&&◌, ◌||◌, not, Option, none, some, Text, List, [], ◌∷◌, ◌++◌, codes,
  text_eq, if◌then◌else◌, leb, ltb, ◌==◌, map, retain, lines, join, show_uint,
}
use asc_daemon.Failure.{ok, err}
use asc_daemon.Net.{IpText, Net, parse_net, show_net}
use asc_daemon.Firewall.Model.{
  Policy, Scope, Settings, Rule, SetEntry, Model, is_preset, expired, host_scope, docker_scope,
}
use asc_daemon.Firewall.Presets.{Facts, presets}

abbrev pub in_effect : Rule → Bool
in_effect r = r.enabled && not (is_preset r)

unfoldable pub effective_rules : Model → Facts → List Rule
effective_rules model facts = presets facts model.settings ++ retain in_effect model.rules

pub record Element : Type 0 where
  pub net : Net
  pub timeout : Option ℕ

-- `at - now`, and 1 at least
abbrev time_left : ℕ → Option ℕ → Option ℕ
time_left now none = none
time_left now (some at) = some (if ltb (at - now) 1 then 1 else at - now)

-- the order of the key `(is_v6, addr, prefix)`
abbrev prefix_leb : Option ℕ → Option ℕ → Bool
prefix_leb none q = true
prefix_leb (some p) none = false
prefix_leb (some p) (some q) = leb p q

abbrev bool_leb : Bool → Bool → Bool
bool_leb a b = not a || b

abbrev same_family : Bool → Bool → Bool
same_family a b = bool_leb a b && bool_leb b a

abbrev net_leb : Net → Net → Bool
net_leb m n =
    if same_family m.addr.is_v6 n.addr.is_v6
    then ltb m.addr.bits n.addr.bits || (m.addr.bits == n.addr.bits && prefix_leb m.prefix n.prefix)
    else bool_leb m.addr.is_v6 n.addr.is_v6

insert_element : Element → List Element → List Element
insert_element e [] = e ∷ []
insert_element e (f ∷ rest) =
    if net_leb e.net f.net then e ∷ f ∷ rest else f ∷ insert_element e rest

sort_elements : List Element → List Element
unfolding insert_element
sort_elements [] = []
sort_elements (e ∷ rest) = insert_element e (sort_elements rest)

module _ (ip : IpText) where
  -- `dedup_by_key`: of neighbours with the same text the first stays
  dedup_after : Element → List Element → List Element
  dedup_after e [] = []
  dedup_after e (f ∷ rest) =
      let same = dedup_after e rest in
      let other = f ∷ dedup_after f rest in
      if text_eq (show_net ip e.net) (show_net ip f.net) then same else other

  dedup_elements : List Element → List Element
  unfolding dedup_after
  dedup_elements [] = []
  dedup_elements (e ∷ rest) = e ∷ dedup_after e rest

  -- the entry as an element, if it is one
  element_of : ℕ → SetEntry → List Element
  element_of now e = elim (parse_net ip e.value) [
    | err _ ↦ []
    | ok net ↦ record { net = net; timeout = time_left now e.expires_unix } ∷ []
  ]

  live_elements : ℕ → List SetEntry → List Element
  unfolding element_of
  live_elements now [] = []
  live_elements now (e ∷ entries) =
      let rest = live_elements now entries in
      if expired e now then rest else element_of now e ++ rest

  unfoldable pub elements : List SetEntry → ℕ → List Element
  unfolding live_elements sort_elements dedup_elements
  elements entries now = dedup_elements (sort_elements (live_elements now entries))

  element_text : Element → Text
  element_text e = elim e.timeout [
    | none ↦ show_net ip e.net
    | some seconds ↦ show_net ip e.net ++ codes " timeout " ++ show_uint seconds ++ codes "s"
  ]

  abbrev element_line : List Text → List Text
  element_line [] = []
  element_line (t ∷ ts) =
      (codes "\t\telements = { " ++ join (codes ", ") (t ∷ ts) ++ codes " }") ∷ []

  unfoldable pub write_set : Text → Bool → List Element → List Text
  unfolding element_text
  write_set name v6 list =
      (codes "\tset " ++ name ++ (if v6 then codes "6" else codes "4") ++ codes " {")
        ∷ (codes "\t\ttype " ++ (if v6 then codes "ipv6_addr" else codes "ipv4_addr"))
        ∷ codes "\t\tflags interval,timeout"
        ∷ codes "\t\tauto-merge"
        ∷ element_line (map element_text (retain (λ e. same_family e.net.addr.is_v6 v6) list))
      ++ codes "\t}" ∷ []

  both_sets : Bool → Text → List Element → List Text
  unfolding write_set
  both_sets ipv6 name list =
      write_set name false list ++ (if ipv6 then write_set name true list else [])

-- what is written where `test` holds
abbrev when : Bool → List Text → List Text
when test out = if test then out else []

abbrev set_rule : Text → Text → Text → Text → Text → Text
set_rule family suffix set verdict extra =
    codes "\t\t"
    ++ family
    ++ codes " saddr @"
    ++ set
    ++ suffix
    ++ codes " "
    ++ extra
    ++ codes "counter "
    ++ verdict
    ++ codes " comment \"asc:"
    ++ (if text_eq set (codes "allow") then codes "allowlist" else codes "blocklist")
    ++ codes "\""

unfoldable pub write_set_rules : Text → Text → Bool → Text → List Text
write_set_rules set verdict ipv6 extra =
    set_rule (codes "ip") (codes "4") set verdict extra
    ∷ when ipv6 (set_rule (codes "ip6") (codes "6") set verdict extra ∷ [])

abbrev policy_text : Policy → Text
policy_text Policy.accept = codes "accept"
policy_text Policy.drop = codes "drop"

abbrev drops : Policy → Bool
drops Policy.accept = false
drops Policy.drop = true

abbrev nonempty {ℓ} : {A : Type ℓ} → List A → Bool
nonempty [] = false
nonempty (_ ∷ _) = true

module _ (ip : IpText) (settings : Settings) where
  unfoldable pub input_chain : List Rule → List Text
  unfolding write_set_rules write_rules
  input_chain rules =
      codes "\tchain input {"
        ∷ (codes "\t\ttype filter hook input priority 0; policy "
            ++ policy_text settings.input_policy
            ++ codes ";")
        ∷ when (not settings.ipv6) (codes "\t\tmeta nfproto ipv6 accept" ∷ [])
      ++ write_set_rules (codes "block") (codes "drop") settings.ipv6 []
      ++ codes "\t\tct state established,related accept"
        ∷ codes "\t\tct state invalid drop"
        ∷ codes "\t\tiifname \"lo\" accept"
        ∷ write_set_rules (codes "allow") (codes "accept") settings.ipv6 []
      ++ when settings.ipv6 (
          codes
            "\t\ticmpv6 type { destination-unreachable, packet-too-big, time-exceeded, parameter-problem, nd-router-solicit, nd-router-advert, nd-neighbor-solicit, nd-neighbor-advert } accept"
          ∷ [])
      ++ codes "\t\ticmp type { destination-unreachable, time-exceeded, parameter-problem } accept"
        ∷ when settings.allow_icmp (
            codes "\t\ticmp type echo-request accept"
            ∷ when settings.ipv6 (codes "\t\ticmpv6 type echo-request accept" ∷ []))
      ++ when (drops settings.input_policy) (
          codes "\t\tudp sport 67 udp dport 68 accept"
          ∷ when settings.ipv6 (codes "\t\tudp sport 547 udp dport 546 accept" ∷ []))
      ++ write_rules ip rules input settings.ipv6
      ++ codes "\t}" ∷ []

  unfoldable pub forward_chain : List Rule → List Text
  unfolding write_set_rules write_rules
  forward_chain rules =
      codes "\tchain forward {"
        ∷ codes "\t\ttype filter hook forward priority -1; policy accept;"
        ∷ when (not settings.ipv6) (codes "\t\tmeta nfproto ipv6 accept" ∷ [])
      ++ write_set_rules (codes "block") (codes "drop") settings.ipv6 (codes "ct status dnat ")
      ++ codes "\t\tct state established,related accept"
        ∷ write_set_rules (codes "allow") (codes "accept") settings.ipv6 (codes "ct status dnat ")
      ++ write_rules ip rules forward settings.ipv6
      ++ when settings.protect_docker
          (codes "\t\tct status dnat counter drop comment \"asc:protect-docker\"" ∷ [])
      ++ codes "\t}" ∷ []

unfoldable pub render : IpText → Model → Facts → ℕ → Text
unfolding effective_rules elements both_sets input_chain forward_chain lines
render ip model facts now =
    let settings = model.settings in
    let rules = effective_rules model facts in
    let docker_rules = retain (λ r. docker_scope r.scope) rules in
    let allow = elements ip model.sets.allowlist now in
    let block = elements ip model.sets.blocklist now in
    let need_forward = nonempty docker_rules || settings.protect_docker || nonempty block in
    lines (
      codes "table inet asc {" ∷ both_sets ip settings.ipv6 (codes "allow") allow
      ++ both_sets ip settings.ipv6 (codes "block") block
      ++ input_chain ip settings (retain (λ r. host_scope r.scope) rules)
      ++ when need_forward (forward_chain ip settings docker_rules)
      ++ codes "}" ∷ [])
