-- ===== src/Wireguard/Conf/Redacted.antt =====
-- src/daemon/wireguard/conf.rs: what `redact` leaves of a file of the daemon.
use mathlib.Core.List.{map-append}
use asc_daemon.Prelude.{
  ◌≡◌, refl, sym, ap, ◌∙◌, Bool, true, false, Text, List, [], ◌∷◌, ◌++◌, codes, is_empty, contains,
  text_eq, trim_start, split_once, to_lower, map, lines, strip_prefix, starts_solid, All,
  if◌then◌else◌, if_split, ltb, show_uint, text_lines, text_lines-lines,
}
use asc_daemon.Net.{IpText}
use asc_daemon.Wireguard.Peers.{Peer, Interface}
use asc_daemon.Wireguard.Conf.{off_prefix}
use asc_daemon.Wireguard.Conf.Render.{
  pair, pair_unless_empty, listed, block_lines, peer_lines, all_peer_lines, own_lines, preamble,
  subnet_if_masquerade, nat_up_of, nat_down_of, hook_lines, render_lines, render,
}
use asc_daemon.Wireguard.Conf.Redact.{hidden_value, redact_line, redact}
use asc_daemon.Wireguard.Conf.Reading.{Plain, with_prefix}
use asc_daemon.Wireguard.Conf.Reads.{Written, key_like, key_like_sound}
use asc_daemon.Wireguard.Conf.HiddenLines.{pair-kept, pair-hidden, comment-kept}
use asc_daemon.Wireguard.Conf.Blocks.{WritablePeer}
use asc_daemon.Wireguard.Conf.OneLine.{block_lines-Clean}
use asc_daemon.Wireguard.Conf.RoundTrip.{with_no_prefix}
use asc_daemon.Wireguard.Conf.Whole.{Writable, text_lines-render}
use asc_daemon.Wireguard.Conf.Leaves.{
  Leaves, no_line, first_line, both_lines, unless_empty-kept, number-kept, list-kept, commands-kept,
  tagged-kept, comment_or_none-kept, comments-kept,
}

-- a peer and an interface with the text `(hidden)` for the secrets
abbrev pub hide_peer : Peer → Peer
hide_peer p = record p { preshared_key = if is_empty p.preshared_key then [] else hidden_value }

abbrev pub hide : Interface → Interface
hide i = record i { private_key = hidden_value; peers = map hide_peer i.peers }

own_lines-Leaves : (i : Interface) → Leaves false (own_lines i) (own_lines (hide i))
unfolding own_lines key_like text_eq to_lower
own_lines-Leaves i =
    let like = λ (k : Text) (e : key_like k ≡ true). key_like_sound k e in
    let masquerade =
      if_split (λ l. Leaves false l l) i.masquerade (codes "# asc:masquerade" ∷ []) []
        (λ y. first_line (comment-kept false (codes "masquerade")) no_line) λ n. no_line in
    let start =
      both_lines (both_lines (comment_or_none-kept (codes "endpoint") i.endpoint) masquerade)
        (comments-kept (codes "client-dns") i.client_dns) in
    let key =
      pair-hidden false (codes "PrivateKey") i.private_key (like (codes "PrivateKey") refl) refl in
    let address =
      pair-kept false (codes "Address") (listed i.addresses) (like (codes "Address") refl) refl in
    let port =
      number-kept (codes "ListenPort") (like (codes "ListenPort") refl) refl i.listen_port in
    both_lines
      (both_lines
        (both_lines
          (both_lines (both_lines start (first_line key (first_line address port)))
            (list-kept (codes "DNS") (like (codes "DNS") refl) refl i.dns))
          (number-kept (codes "MTU") (like (codes "MTU") refl) refl i.mtu))
        (unless_empty-kept (codes "Table") (like (codes "Table") refl) refl i.table))
      (unless_empty-kept (codes "FwMark") (like (codes "FwMark") refl) refl i.fwmark)

shared-Leaves :
    (off : Bool) (v : Text)
    → Leaves off
        (pair_unless_empty (codes "PresharedKey") v)
        (pair_unless_empty (codes "PresharedKey") (if is_empty v then [] else hidden_value))
unfolding key_like text_eq to_lower
shared-Leaves off [] = no_line
shared-Leaves off (c ∷ v) =
    first_line
      (pair-hidden off (codes "PresharedKey") (c ∷ v) (key_like_sound (codes "PresharedKey") refl)
        refl)
      no_line

block_header-kept :
    (off : Bool) → redact_line (with_prefix off (codes "[Peer]")) ≡ with_prefix off (codes "[Peer]")
unfolding redact_line strip_prefix trim_start split_once
block_header-kept true = refl
block_header-kept false = refl

block_lines-Leaves :
    (off : Bool) (p : Peer) → Leaves off (block_lines p) (block_lines (hide_peer p))
unfolding block_lines key_like text_eq to_lower
block_lines-Leaves off p =
    let like = λ (k : Text) (e : key_like k ≡ true). key_like_sound k e in
    let name = comment_or_none-kept (codes "name") p.name in
    let key = pair-kept off (codes "PublicKey") p.public_key (like (codes "PublicKey") refl) refl in
    let keepalive =
      if_split (λ l. Leaves off l l) (ltb 0 p.persistent_keepalive)
        (pair (codes "PersistentKeepalive") (show_uint p.persistent_keepalive) ∷ []) []
        (λ y.
          first_line
            (pair-kept off (codes "PersistentKeepalive") (show_uint p.persistent_keepalive)
              (like (codes "PersistentKeepalive") refl) refl)
            no_line)
        λ n. no_line in
    both_lines
      (both_lines
        (both_lines
          (both_lines (first_line (block_header-kept off) name)
            (first_line key (shared-Leaves off p.preshared_key)))
          (list-kept (codes "AllowedIPs") (like (codes "AllowedIPs") refl) refl p.allowed_ips))
        (unless_empty-kept (codes "Endpoint") (like (codes "Endpoint") refl) refl p.endpoint))
      keepalive

hidden_Plain : Plain hidden_value
unfolding contains starts_solid
hidden_Plain = record { solid = (refl, refl); no_hash = refl; clean = (refl, refl) }

hidden_Written : (v : Text) → Written (if is_empty v then [] else hidden_value)
hidden_Written [] = tt
hidden_Written (c ∷ v) = hidden_Plain

hide_peer-WritablePeer : (p : Peer) → WritablePeer p → WritablePeer (hide_peer p)
hide_peer-WritablePeer p w = record {
  public_key = w.public_key;
  name = w.name;
  preshared_key = hidden_Written p.preshared_key;
  allowed_ips = w.allowed_ips;
  endpoint = w.endpoint;
  persistent_keepalive = w.persistent_keepalive;
}

enabled_block : (p : Peer) → map redact_line (block_lines p) ≡ block_lines (hide_peer p)
enabled_block p =
    ap (map redact_line) (sym (with_no_prefix (block_lines p)))
    ∙ (block_lines-Leaves false p).each
    ∙ with_no_prefix (block_lines (hide_peer p))

abbrev written_off : Peer → List Text
written_off p = map (λ l. off_prefix ++ l) (text_lines (lines (block_lines p)))

whole_block : (p : Peer) → WritablePeer p → written_off p ≡ map (with_prefix true) (block_lines p)
whole_block p w =
    ap (map (with_prefix true)) (text_lines-lines (block_lines p) (block_lines-Clean p w).each)

disabled_block :
    (p : Peer) → WritablePeer p → map redact_line (written_off p) ≡ written_off (hide_peer p)
disabled_block p w =
    ap (map redact_line) (whole_block p w)
    ∙ (block_lines-Leaves true p).each
    ∙ sym (whole_block (hide_peer p) (hide_peer-WritablePeer p w))

peer_lines-redacted :
    (p : Peer) → WritablePeer p → map redact_line (peer_lines p) ≡ peer_lines (hide_peer p)
unfolding peer_lines
peer_lines-redacted p w = go p.enabled
  where
    go :
        (b : Bool)
        → map redact_line (if b then block_lines p else written_off p)
          ≡ (if b then block_lines (hide_peer p) else written_off (hide_peer p))
    go true = enabled_block p
    go false = disabled_block p w

blank_line : redact_line [] ≡ []
unfolding redact_line strip_prefix trim_start split_once
blank_line = refl

all_peer_lines-redacted :
    (peers : List Peer)
    → All WritablePeer peers
    → map redact_line (all_peer_lines peers) ≡ all_peer_lines (map hide_peer peers)
unfolding all_peer_lines
all_peer_lines-redacted [] w = refl
all_peer_lines-redacted (p ∷ peers) w =
    map-append redact_line ([] ∷ peer_lines p) (all_peer_lines peers)
    ∙ cc (blank_line, peer_lines-redacted p w.0, all_peer_lines-redacted peers w.1)

preamble-Leaves : Leaves false preamble preamble
unfolding redact_line strip_prefix trim_start split_once
preamble-Leaves = first_line refl (first_line refl (first_line refl (first_line refl no_line)))

module _ (ip : IpText) where
  hook_lines-Leaves : (i : Interface) → Leaves false (hook_lines ip i) (hook_lines ip (hide i))
  unfolding hook_lines key_like text_eq to_lower
  hook_lines-Leaves i =
      let like = λ (k : Text) (e : key_like k ≡ true). key_like_sound k e in
      let h = i.hooks in
      let subnet = subnet_if_masquerade ip i in
      let pre_up = commands-kept (codes "PreUp") (like (codes "PreUp") refl) refl h.pre_up in
      let post_up = commands-kept (codes "PostUp") (like (codes "PostUp") refl) refl h.post_up in
      let nat_up =
        tagged-kept (codes "PostUp") (like (codes "PostUp") refl) refl (nat_up_of i.name subnet) in
      let pre_down =
        commands-kept (codes "PreDown") (like (codes "PreDown") refl) refl h.pre_down in
      let post_down =
        commands-kept (codes "PostDown") (like (codes "PostDown") refl) refl h.post_down in
      let nat_down =
        tagged-kept (codes "PostDown") (like (codes "PostDown") refl) refl
          (nat_down_of i.name subnet) in
      both_lines
        (both_lines (both_lines (both_lines (both_lines pre_up post_up) nat_up) pre_down) post_down)
        nat_down

  section-redacted :
      (i : Interface)
      → map redact_line (preamble ++ own_lines i ++ hook_lines ip i)
        ≡ preamble ++ own_lines (hide i) ++ hook_lines ip (hide i)
  section-redacted i =
      let whole =
        both_lines (both_lines preamble-Leaves (own_lines-Leaves i)) (hook_lines-Leaves i) in
      ap (map redact_line) (sym (with_no_prefix (preamble ++ own_lines i ++ hook_lines ip i)))
      ∙ whole.each
      ∙ with_no_prefix (preamble ++ own_lines (hide i) ++ hook_lines ip (hide i))

  -- What is redacted of a rendered interface, whose values can be written, is what is rendered of it with the text
  -- `(hidden)` for its private key and for every pre-shared key that it has: nothing in it depends on them.
  pub redact-render : (i : Interface) → Writable ip i → redact (render ip i) ≡ render ip (hide i)
  unfolding redact render render_lines
  redact-render i w =
      ap (λ (l : List Text). lines (map redact_line l)) (text_lines-render ip i w)
      ∙ ap lines {y = render_lines ip (hide i)} (
          map-append redact_line (preamble ++ own_lines i ++ hook_lines ip i)
            (all_peer_lines i.peers)
          ∙ cc (section-redacted i, all_peer_lines-redacted i.peers w.peers))
