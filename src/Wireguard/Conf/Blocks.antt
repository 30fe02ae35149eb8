-- ===== src/Wireguard/Conf/Blocks.antt =====
-- src/daemon/wireguard/conf.rs: the block of a peer, enabled or not, written and read back.
use asc_daemon.Prelude.{
  ◌<◌, ◌^◌, ◌≡◌, refl, sym, ap, ◌∙◌, Bool, true, not, some, Text, List, [], ◌∷◌, ◌++◌, codes, All,
}
use asc_daemon.Failure.{ok}
use asc_daemon.Wireguard.Peers.{Peer, Interface}
use asc_daemon.Wireguard.Conf.Keys.{
  Reader, in_peer, new_peer, items_of, read_comment, read_peer_key,
}
use asc_daemon.Wireguard.Conf.{finish}
use asc_daemon.Wireguard.Conf.Render.{pair, pair_unless_empty, pair_of_list, block_lines}
use asc_daemon.Wireguard.Conf.Reading.{Plain}
use asc_daemon.Wireguard.Conf.Items.{Item}
use asc_daemon.Wireguard.Conf.Reads.{key_like, key_like_sound, Written}
use asc_daemon.Wireguard.Conf.PeerLines.{
  inside, Lines, one_line, Lines-append, read_header_line, peer_text, peer_text_or_none,
  peer_list_or_none, peer_comment_or_none, keepalive_lines, read_keepalive,
}

-- the values of a peer are such as lines can carry
pub record WritablePeer (p : Peer) : Type 0 where
  pub public_key : Plain p.public_key
  pub name : Written p.name
  pub preshared_key : Written p.preshared_key
  pub allowed_ips : All Item p.allowed_ips
  pub endpoint : Written p.endpoint
  pub persistent_keepalive : p.persistent_keepalive < 2 ^ 16

module _ (off : Bool) where
  read_name :
      (j : Interface) (q : Peer)
      → q.name ≡ []
      → (v : Text) → Written v
      → Lines off
          (pair_unless_empty (codes "# asc:name") v)
          (inside j q)
          (inside j (record q { name = v }))
  unfolding key_like read_comment
  read_name j q e v w =
      let set = λ (v : Text). record q { name = v } in
      peer_comment_or_none off (codes "name") (key_like_sound (codes "name") refl) j q set
        (λ v. refl) (ap set (sym e)) v w

  read_public_key :
      (j : Interface) (q : Peer)
      → q.public_key ≡ []
      → (v : Text) → Plain v
      → Lines off
          (pair (codes "PublicKey") v ∷ [])
          (inside j q)
          (inside j (record q { public_key = v }))
  unfolding key_like read_peer_key
  read_public_key j q e v w =
      let set = λ (v : Text). record q { public_key = v } in
      peer_text off (codes "PublicKey") (key_like_sound (codes "PublicKey") refl) j q set
        (λ v. refl) v w

  read_preshared_key :
      (j : Interface) (q : Peer)
      → q.preshared_key ≡ []
      → (v : Text) → Written v
      → Lines off
          (pair_unless_empty (codes "PresharedKey") v)
          (inside j q)
          (inside j (record q { preshared_key = v }))
  unfolding key_like read_peer_key
  read_preshared_key j q e v w =
      let set = λ (v : Text). record q { preshared_key = v } in
      peer_text_or_none off (codes "PresharedKey") (key_like_sound (codes "PresharedKey") refl) j q
        set (λ v. refl) (ap set (sym e)) v w

  read_allowed_ips :
      (j : Interface) (q : Peer)
      → q.allowed_ips ≡ []
      → (v : List Text) → All Item v
      → Lines off
          (pair_of_list (codes "AllowedIPs") v)
          (inside j q)
          (inside j (record q { allowed_ips = v }))
  unfolding key_like read_peer_key
  read_allowed_ips j q e v w =
      let set = λ (v : List Text). record q { allowed_ips = v } in
      peer_list_or_none off (codes "AllowedIPs") (key_like_sound (codes "AllowedIPs") refl) j q set
        (λ v. ap (λ (l : List Text). ok (inside j (record q { allowed_ips = l ++ items_of v }))) e)
        (ap set (sym e)) v w

  read_peer_endpoint :
      (j : Interface) (q : Peer)
      → q.endpoint ≡ []
      → (v : Text) → Written v
      → Lines off
          (pair_unless_empty (codes "Endpoint") v)
          (inside j q)
          (inside j (record q { endpoint = v }))
  unfolding key_like read_peer_key
  read_peer_endpoint j q e v w =
      let set = λ (v : Text). record q { endpoint = v } in
      peer_text_or_none off (codes "Endpoint") (key_like_sound (codes "Endpoint") refl) j q set
        (λ v. refl) (ap set (sym e)) v w

  -- a block makes the peer that it was written of
  pub block_lines-Lines :
      (j : Interface) (r : Reader) (p : Peer)
      → WritablePeer p
      → p.enabled ≡ not off
      → finish r ≡ record (finish r) { interface = j; warnings = []; seen_interface = true }
      → Lines off (block_lines p) r (inside j p)
  unfolding block_lines keepalive_lines
  block_lines-Lines j r p w e f =
      let q0 = record (new_peer []) { enabled = not off } in
      let q1 = record q0 { name = p.name } in
      let q2 = record q1 { public_key = p.public_key } in
      let q3 = record q2 { preshared_key = p.preshared_key } in
      let q4 = record q3 { allowed_ips = p.allowed_ips } in
      let q5 = record q4 { endpoint = p.endpoint } in
      let header = one_line off (codes "[Peer]") r (inside j q0) (
        read_header_line off r
        ∙ ap (λ (x : Reader). ok (record x { peer = some q0; section = in_peer })) f) in
      let l0 = codes "[Peer]" ∷ [] in
      let l1 = l0 ++ pair_unless_empty (codes "# asc:name") p.name in
      let own = pair (codes "PublicKey") p.public_key ∷ [] in
      let shared = pair_unless_empty (codes "PresharedKey") p.preshared_key in
      let l3 = l1 ++ (own ++ shared) in
      let l4 = l3 ++ pair_of_list (codes "AllowedIPs") p.allowed_ips in
      let l5 = l4 ++ pair_unless_empty (codes "Endpoint") p.endpoint in
      let s1 =
        Lines-append off l0 (pair_unless_empty (codes "# asc:name") p.name) r (inside j q0)
          (inside j q1) header (read_name j q0 refl p.name w.name) in
      let keys =
        Lines-append off own shared (inside j q1) (inside j q2) (inside j q3)
          (read_public_key j q1 refl p.public_key w.public_key)
          (read_preshared_key j q2 refl p.preshared_key w.preshared_key) in
      let s3 = Lines-append off l1 (own ++ shared) r (inside j q1) (inside j q3) s1 keys in
      let s4 =
        Lines-append off l3 (pair_of_list (codes "AllowedIPs") p.allowed_ips) r (inside j q3)
          (inside j q4) s3 (read_allowed_ips j q3 refl p.allowed_ips w.allowed_ips) in
      let s5 =
        Lines-append off l4 (pair_unless_empty (codes "Endpoint") p.endpoint) r (inside j q4)
          (inside j q5) s4 (read_peer_endpoint j q4 refl p.endpoint w.endpoint) in
      let s6 =
        Lines-append off l5 (keepalive_lines p.persistent_keepalive) r (inside j q5)
          (inside j (record p { enabled = not off })) s5
          (read_keepalive off j q5 p.persistent_keepalive refl w.persistent_keepalive) in
      s6 ∙ ap (λ (b : Bool). ok (inside j (record p { enabled = b }))) (sym e)
