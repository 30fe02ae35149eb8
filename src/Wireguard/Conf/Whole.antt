-- ===== src/Wireguard/Conf/Whole.antt =====
-- src/daemon/wireguard/conf.rs: the lines of a whole file come back when it is taken apart.
use mathlib.Core.Path.{subst}
use asc_daemon.Prelude.{
  String, ◌≡◌, refl, sym, Option, none, some, Text, List, [], ◌∷◌, ◌++◌, codes, contains, map,
  text_lines, text_lines-lines, All, Clean, if_split,
}
use asc_daemon.Net.{IpText}
use asc_daemon.Wireguard.Peers.{Peer, Interface, ipv4_subnet}
use asc_daemon.Wireguard.Conf.{off_prefix}
use asc_daemon.Wireguard.Conf.Render.{
  nat_table, nat_rule, nat_up_of, nat_down_of, block_lines, peer_lines, all_peer_lines, preamble,
  subnet_if_masquerade, hook_lines, render_lines, render,
}
use asc_daemon.Wireguard.Conf.Own.{WritableOwn}
use asc_daemon.Wireguard.Conf.Commands.{WritableHooks}
use asc_daemon.Wireguard.Conf.Blocks.{WritablePeer}
use asc_daemon.Wireguard.Conf.OneLine.{
  Clean-append, CleanLines, no_text, first, both, tagged-Clean, commands-Clean, nat_table-Clean,
  own_lines-Clean, block_lines-Clean,
}

-- a record, so that its text is read off it
record OneLine (s : Text) : Type 0 where
  clean : Clean s

then_text : {s t : Text} → OneLine s → OneLine t → OneLine (s ++ t)
then_text {s} {t} h k = record { clean = Clean-append s t h.clean k.clean }

literal : (x : String) → Clean (codes x) → OneLine (codes x)
literal x c = record { clean = c }

nat_rule-OneLine :
    (table subnet name : Text)
    → OneLine table
    → OneLine subnet
    → OneLine name
    → OneLine (nat_rule table subnet name)
unfolding contains
nat_rule-OneLine table subnet name t s n =
    let added = then_text (literal "nft 'add table ip " (refl, refl)) t in
    let chain = then_text (then_text added (literal "; add chain ip " (refl, refl))) t in
    let hook =
      literal " postrouting { type nat hook postrouting priority srcnat; }; add rule ip "
        (refl, refl) in
    let rule = then_text (then_text chain hook) t in
    let source = then_text (then_text rule (literal " postrouting ip saddr " (refl, refl))) s in
    let out = then_text (then_text source (literal " oifname != \"" (refl, refl))) n in
    then_text out (literal "\" masquerade'" (refl, refl))

abbrev pub IfSomeClean : Option Text → Type 0
IfSomeClean none = Unit
IfSomeClean (some t) = Clean t

nat_up-Clean :
    (name : Text) (o : Option Text) → Clean name → IfSomeClean o → All Clean (nat_up_of name o)
nat_up-Clean name none n s = tt
nat_up-Clean name (some subnet) n s =
    let rule =
      nat_rule-OneLine (nat_table name) subnet name (record { clean = nat_table-Clean name })
        (record { clean = s }) (record { clean = n }) in
    (unfold contains in (refl, refl), (rule.clean, tt))

nat_down-Clean : (name : Text) (o : Option Text) → All Clean (nat_down_of name o)
nat_down-Clean name none = tt
nat_down-Clean name (some subnet) =
    let table : OneLine (nat_table name) = record { clean = nat_table-Clean name } in
    let before : OneLine (codes "nft delete table ip ") = record {
      clean = unfold contains in (refl, refl);
    } in
    let after : OneLine (codes " || true") = record { clean = unfold contains in (refl, refl) } in
    ((then_text (then_text before table) after).clean, tt)

-- What can be written: values that fit into one line each.
pub record Writable (ip : IpText) (i : Interface) : Type 0 where
  pub name : Clean i.name
  pub subnet : IfSomeClean (ipv4_subnet ip i.addresses)
  pub own : WritableOwn i
  pub hooks : WritableHooks i.hooks
  pub peers : All WritablePeer i.peers

with_off-Clean : (l : List Text) → CleanLines l → CleanLines (map (λ t. off_prefix ++ t) l)
unfolding contains
with_off-Clean [] c = no_text
with_off-Clean (t ∷ l) c =
    first (Clean-append off_prefix t (refl, refl) c.each.0)
      (with_off-Clean l (record { each = c.each.1 }))

peer_lines-Clean : (p : Peer) → WritablePeer p → CleanLines (peer_lines p)
unfolding peer_lines
peer_lines-Clean p w =
    let block = block_lines-Clean p w in
    if_split CleanLines p.enabled _ _ (λ y. block)
      λ n.
        subst (λ l. CleanLines (map (λ t. off_prefix ++ t) l))
          (sym (text_lines-lines (block_lines p) block.each)) (with_off-Clean (block_lines p) block)

all_peer_lines-Clean :
    (peers : List Peer) → All WritablePeer peers → CleanLines (all_peer_lines peers)
unfolding all_peer_lines contains
all_peer_lines-Clean [] w = no_text
all_peer_lines-Clean (p ∷ peers) w =
    both (first (refl, refl) (peer_lines-Clean p w.0)) (all_peer_lines-Clean peers w.1)

preamble-Clean : CleanLines preamble
unfolding contains
preamble-Clean =
    first (refl, refl) (first (refl, refl) (first (refl, refl) (first (refl, refl) no_text)))

module _ (ip : IpText) where
  hook_lines-Clean : (i : Interface) → Writable ip i → CleanLines (hook_lines ip i)
  unfolding hook_lines contains
  hook_lines-Clean i w =
      let h = i.hooks in
      let subnet = subnet_if_masquerade ip i in
      let known =
        if_split IfSomeClean i.masquerade (ipv4_subnet ip i.addresses) none (λ y. w.subnet)
          (λ n. tt) in
      both
        (both
          (both
            (both
              (both (commands-Clean (codes "PreUp") (refl, refl) h.pre_up w.hooks.pre_up)
                (commands-Clean (codes "PostUp") (refl, refl) h.post_up w.hooks.post_up))
              (tagged-Clean (codes "PostUp") (refl, refl) (nat_up_of i.name subnet)
                (nat_up-Clean i.name subnet w.name known)))
            (commands-Clean (codes "PreDown") (refl, refl) h.pre_down w.hooks.pre_down))
          (commands-Clean (codes "PostDown") (refl, refl) h.post_down w.hooks.post_down))
        (tagged-Clean (codes "PostDown") (refl, refl) (nat_down_of i.name subnet)
          (nat_down-Clean i.name subnet))

  -- the lines of what is rendered are the lines that were written
  pub text_lines-render :
      (i : Interface) → Writable ip i → text_lines (render ip i) ≡ render_lines ip i
  unfolding render render_lines
  text_lines-render i w =
      text_lines-lines (render_lines ip i)
        (both (both (both preamble-Clean (own_lines-Clean i w.own)) (hook_lines-Clean i w))
          (all_peer_lines-Clean i.peers w.peers)).each
