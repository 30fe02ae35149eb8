-- ===== src/Wireguard/Conf/RoundTrip.antt =====
-- src/daemon/wireguard/conf.rs: what `render` writes, `parse` reads back.
use mathlib.Core.Path.{subst}
use mathlib.Core.List.{append_assoc, append-nil}
use asc_daemon.Prelude.{
  ◌≡◌, refl, sym, ap, ◌∙◌, Bool, true, false, Text, List, [], ◌∷◌, ◌++◌, is_empty, map, to_lower,
  text_eq, trim, trim_start, strip_prefix, split_once, up_to, contains_text, text_lines-lines, All,
  arith, if_split,
}
use asc_daemon.Failure.{Result, ok, ◌>>=◌}
use asc_daemon.Net.{IpText}
use asc_daemon.Wireguard.Peers.{Peer, Interface}
use asc_daemon.Wireguard.Conf.Keys.{Reader, new_interface, read_comment}
use asc_daemon.Wireguard.Conf.{
  off_prefix, asc_comment, finish, read_header, read_content, read_body, read_line, read_lines,
  is_managed, first_reader, close, parse,
}
use asc_daemon.Wireguard.Conf.Render.{
  block_lines, peer_lines, all_peer_lines, own_lines, preamble, hook_lines, render_lines, render,
}
use asc_daemon.Wireguard.Conf.Reading.{with_prefix}
use asc_daemon.Wireguard.Conf.Items.{not_empty}
use asc_daemon.Wireguard.Conf.Reads.{Reads, Reads-nil, Reads-cons, Reads-append, at}
use asc_daemon.Wireguard.Conf.Own.{own_lines-Reads, own_part}
use asc_daemon.Wireguard.Conf.Commands.{hook_lines-Reads}
use asc_daemon.Wireguard.Conf.PeerLines.{inside}
use asc_daemon.Wireguard.Conf.Blocks.{WritablePeer, block_lines-Lines}
use asc_daemon.Wireguard.Conf.OneLine.{block_lines-Clean}
use asc_daemon.Wireguard.Conf.Whole.{Writable, text_lines-render}

preamble-Reads : (name : Text) → Reads preamble (first_reader name) (at (new_interface name []))
unfolding read_lines read_line trim trim_start strip_prefix split_once up_to contains_text read_body
    read_content asc_comment read_comment read_header finish text_eq to_lower
preamble-Reads name = refl

blank-Reads : (r : Reader) → read_line [] r ≡ ok r
unfolding read_line trim trim_start strip_prefix read_body
blank-Reads r = refl

pub with_no_prefix : (l : List Text) → map (with_prefix false) l ≡ l
with_no_prefix [] = refl
with_no_prefix (t ∷ l) = ap (λ (x : List Text). t ∷ x) (with_no_prefix l)

-- what an unfinished reader is of
abbrev Open : Interface → Reader → Type 0
Open j r = finish r ≡ record (finish r) { interface = j; warnings = []; seen_interface = true }

peer_lines-Reads :
    (j : Interface) (r : Reader) (p : Peer)
    → WritablePeer p
    → Open j r
    → Reads (peer_lines p) r (inside j p)
unfolding peer_lines
peer_lines-Reads j r p w o =
    if_split (λ l. Reads l r (inside j p)) p.enabled _ _
      (λ y.
        subst (λ l. Reads l r (inside j p)) (with_no_prefix (block_lines p))
          (block_lines-Lines false j r p w y o))
      λ n.
        subst (λ l. Reads (map (λ t. off_prefix ++ t) l) r (inside j p))
          (sym (text_lines-lines (block_lines p) (block_lines-Clean p w).each))
          (block_lines-Lines true j r p w n o)

abbrev with_peers : Interface → List Peer → Interface
with_peers j peers = record j { peers = peers }

-- a block that is open, with a key, is closed by the next
inside-Open :
    (j : Interface) (q : Peer)
    → is_empty q.public_key ≡ false
    → Open (with_peers j (j.peers ++ q ∷ [])) (inside j q)
unfolding finish
inside-Open j q k =
    if_split {A = Reader}
      (λ x. x ≡ record x {
        interface = with_peers j (j.peers ++ q ∷ []);
        warnings = [];
        seen_interface = true;
      })
      (is_empty q.public_key) _ _ (λ y. ground (arith, k, y)) λ n. refl

blocks-Reads :
    (j : Interface) (r : Reader) (peers : List Peer)
    → All WritablePeer peers
    → Open j r
    → (r' : Reader) × Reads (all_peer_lines peers) r r' × Open (with_peers j (j.peers ++ peers)) r'
unfolding all_peer_lines
blocks-Reads j r [] w o =
    (r, Reads-nil r, subst (λ l. Open (with_peers j l) r) (sym (append-nil j.peers)) o)
blocks-Reads j r (p ∷ peers) w o =
    let (r', reads, open') =
      blocks-Reads (with_peers j (j.peers ++ p ∷ [])) (inside j p) peers w.1
        (inside-Open j p (not_empty p.public_key w.0.public_key.solid)) in
    let block =
      Reads-cons [] (peer_lines p) r r (inside j p) (blank-Reads r)
        (peer_lines-Reads j r p w.0 o) in
    (
      r',
      Reads-append ([] ∷ peer_lines p) (all_peer_lines peers) r (inside j p) r' block reads,
      subst (λ l. Open (with_peers j l) r') (append_assoc j.peers (p ∷ []) peers) open',
    )

module _ (ip : IpText) where
  rendered-Reads :
      (i : Interface)
      → Writable ip i
      → (r : Reader) × Reads (render_lines ip i) (first_reader i.name) r × Open i r
  unfolding render_lines finish
  rendered-Reads i w =
      let start = first_reader i.name in
      let j0 = at (new_interface i.name []) in
      let j1 = at (own_part i) in
      let j2 = at (with_peers i []) in
      let (r, reads, open') = blocks-Reads (with_peers i []) j2 i.peers w.peers refl in
      let own =
        Reads-append preamble (own_lines i) start j0 j1 (preamble-Reads i.name)
          (own_lines-Reads i w.own) in
      let hooks =
        Reads-append (preamble ++ own_lines i) (hook_lines ip i) start j1 j2 own
          (hook_lines-Reads ip i w.hooks) in
      (
        r,
        Reads-append (preamble ++ own_lines i ++ hook_lines ip i) (all_peer_lines i.peers) start j2
            r hooks reads,
        open',
      )

  managed : (i : Interface) → is_managed (render_lines ip i) ≡ true
  unfolding is_managed render_lines trim trim_start strip_prefix
  managed i = refl

  close-Open :
      (i : Interface) (r : Reader)
      → is_empty i.private_key ≡ false
      → Open i r
      → close true (finish r) ≡ ok (record { interface = i; managed = true; warnings = [] })
  close-Open i r k o = ap (close true) o ∙ rw k refl

  -- An interface whose values can be written is read back as it was written, as managed and without a warning. What
  -- can be written: a text is on one line, without a `#` and blanks around it; the name and the network for NAT are
  -- on one line; an item of a list has no comma; the keys, the addresses, the hooks and the items are not empty; a
  -- number has 16 bits.
  pub parse-render :
      (i : Interface)
      → Writable ip i
      → parse i.name (render ip i) ≡ ok (record { interface = i; managed = true; warnings = [] })
  unfolding parse
  parse-render i w =
      let (r, reads, o) = rendered-Reads i w in
      ap
        (λ (l : List Text).
          read_lines l (first_reader i.name) >>= λ r. close (is_managed l) (finish r))
        (text_lines-render ip i w)
      ∙ ap (λ (o : Result Reader). o >>= λ r. close (is_managed (render_lines ip i)) (finish r))
          reads
      ∙ ap (λ (b : Bool). close b (finish r)) (managed i)
      ∙ close-Open i r (not_empty i.private_key w.own.private_key.solid) o
