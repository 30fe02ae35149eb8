-- ===== src/Wireguard/Conf/Commands.antt =====
-- src/daemon/wireguard/conf.rs: the hooks, written and read back; those for NAT are not read back.
use mathlib.Core.List.{append_assoc, append-nil}
use asc_daemon.Prelude.{
  ℕ, ◌==◌, ◌≡◌, refl, sym, ap, ◌∙◌, true, false, Text, List, [], ◌∷◌, ◌++◌, codes, contains,
  contains_text, contains_text-append, map, to_lower, All, arith, reverse, Solid, starts_solid,
  starts_solid-append, Solid-append, strip_prefix, is_prefix,
}
use asc_daemon.Failure.{ok}
use asc_daemon.Net.{IpText}
use asc_daemon.Wireguard.Peers.{Hooks, Interface}
use asc_daemon.Wireguard.Conf.Keys.{Reader, read_interface_key}
use asc_daemon.Wireguard.Conf.{nat_tag, read_body, read_line}
use asc_daemon.Wireguard.Conf.Render.{
  pair, tagged, nat_up_of, nat_down_of, subnet_if_masquerade, hook_lines,
}
use asc_daemon.Wireguard.Conf.Reading.{
  Plain, KeyLike, read_line-pair, read_line-with_prefix, no_empty,
}
use asc_daemon.Wireguard.Conf.Reads.{
  Reads, Reads-nil, Reads-cons, Reads-append, key_like, key_like_sound, at,
}

module _ (k : Text) (like : KeyLike k) where
  -- `put` is the interface with the commands of one hook
  commands-Reads :
      (put : List Text → Interface)
      → ((l : List Text) (v : Text)
          → read_interface_key (map to_lower k) v (at (put l)) ≡ ok (at (put (l ++ v ∷ []))))
      → (l commands : List Text) → All Plain commands
      → Reads (map (pair k) commands) (at (put l)) (at (put (l ++ commands)))
  commands-Reads put e l [] a =
      Reads-nil (at (put l)) ∙ ap (λ (x : List Text). ok (at (put x))) (sym (append-nil l))
  commands-Reads put e l (c ∷ commands) a =
      Reads-cons (pair k c) (map (pair k) commands) (at (put l)) (at (put (l ++ c ∷ [])))
        (at (put (l ++ c ∷ commands))) (read_line-pair false k c (at (put l)) like a.0 ∙ e l c)
        (commands-Reads put e (l ++ c ∷ []) commands a.1
          ∙ ap (λ (x : List Text). ok (at (put x))) (append_assoc l (c ∷ []) commands))

tagged_line : Text → Text → Text
tagged_line k c = pair k c ++ codes " " ++ nat_tag

nat_tag_solid : starts_solid (reverse nat_tag) ≡ true
unfolding starts_solid
nat_tag_solid = refl

tagged_line-Solid : (k c : Text) → KeyLike k → Solid (tagged_line k c)
unfolding tagged_line
tagged_line-Solid k c like =
    Solid-append (pair k c ++ codes " ") nat_tag
      (starts_solid-append (pair k c) (codes " ")
        (starts_solid-append k (codes " = " ++ c) like.solid.0))
      nat_tag_solid

tagged_line-tag : (k c : Text) → contains_text nat_tag (tagged_line k c) ≡ true
unfolding tagged_line
tagged_line-tag k c =
    ap (contains_text nat_tag) (sym (append-nil (pair k c ++ codes " " ++ nat_tag)))
    ∙ contains_text-append nat_tag (pair k c ++ codes " ") []

-- a line with the tag is left out
read_body-tag :
    (c : ℕ) (s : Text) (r : Reader)
    → (c == b'#') ≡ false
    → contains_text nat_tag (c ∷ s) ≡ true
    → read_body false (c ∷ s) r ≡ ok r
unfolding read_body
read_body-tag c s r h k = ground (arith, h, k)

no_off-head :
    (c : ℕ) (s : Text) → (c == b'#') ≡ false → is_prefix (codes "#asc:off") (c ∷ s) ≡ false
unfolding strip_prefix
no_off-head c s h = ground (arith, h)

read_line-tagged : (k c : Text) (r : Reader) → KeyLike k → read_line (tagged_line k c) r ≡ ok r
read_line-tagged [] c r like = absurd (no_empty like.solid.0)
read_line-tagged (d ∷ k) c r like =
    let head : (d == b'#') ≡ false = unfold contains in ground (arith, like.no_hash) in
    let rest = k ++ (codes " = " ++ c) ++ codes " " ++ nat_tag in
    read_line-with_prefix false (tagged_line (d ∷ k) c) r (tagged_line-Solid (d ∷ k) c like)
      (unfold tagged_line in no_off-head d rest head)
    ∙ (unfold tagged_line in read_body-tag d rest r head (tagged_line-tag (d ∷ k) c))

tagged-Reads :
    (k : Text) (commands : List Text) (r : Reader) → KeyLike k → Reads (tagged k commands) r r
tagged-Reads k [] r like = Reads-nil r
tagged-Reads k (c ∷ commands) r like =
    Reads-cons (pair k c ++ codes " " ++ nat_tag) (tagged k commands) r r r
      (unfold tagged_line in read_line-tagged k c r like) (tagged-Reads k commands r like)

-- the hooks are such as lines can carry
pub record WritableHooks (h : Hooks) : Type 0 where
  pub pre_up : All Plain h.pre_up
  pub post_up : All Plain h.post_up
  pub pre_down : All Plain h.pre_down
  pub post_down : All Plain h.post_down

abbrev with_hooks : Interface → List Text → List Text → List Text → List Text → Interface
with_hooks i a b c d = record i {
  hooks = record { pre_up = a; post_up = b; pre_down = c; post_down = d };
  peers = [];
}

pre_up_key : KeyLike (codes "PreUp")
unfolding key_like
pre_up_key = key_like_sound (codes "PreUp") refl

post_up_key : KeyLike (codes "PostUp")
unfolding key_like
post_up_key = key_like_sound (codes "PostUp") refl

pre_down_key : KeyLike (codes "PreDown")
unfolding key_like
pre_down_key = key_like_sound (codes "PreDown") refl

post_down_key : KeyLike (codes "PostDown")
unfolding key_like
post_down_key = key_like_sound (codes "PostDown") refl

module _ (ip : IpText) where
  pub hook_lines-Reads :
      (i : Interface)
      → WritableHooks i.hooks
      → Reads (hook_lines ip i) (at (with_hooks i [] [] [] [])) (at (record i { peers = [] }))
  unfolding hook_lines read_interface_key
  hook_lines-Reads i w =
      let h = i.hooks in
      let subnet = subnet_if_masquerade ip i in
      let r0 = at (with_hooks i [] [] [] []) in
      let r1 = at (with_hooks i h.pre_up [] [] []) in
      let r2 = at (with_hooks i h.pre_up h.post_up [] []) in
      let r3 = at (with_hooks i h.pre_up h.post_up h.pre_down []) in
      let r4 = at (record i { peers = [] }) in
      let s1 =
        commands-Reads (codes "PreUp") pre_up_key (λ l. with_hooks i l [] [] []) (λ l v. refl) []
          h.pre_up w.pre_up in
      let post_up =
        commands-Reads (codes "PostUp") post_up_key (λ l. with_hooks i h.pre_up l [] [])
          (λ l v. refl) [] h.post_up w.post_up in
      let s2 = Reads-append _ _ r0 r1 r2 s1 post_up in
      let s3 =
        Reads-append _ _ r0 r2 r2 s2
          (tagged-Reads (codes "PostUp") (nat_up_of i.name subnet) r2 post_up_key) in
      let pre_down =
        commands-Reads (codes "PreDown") pre_down_key (λ l. with_hooks i h.pre_up h.post_up l [])
          (λ l v. refl) [] h.pre_down w.pre_down in
      let s4 = Reads-append _ _ r0 r2 r3 s3 pre_down in
      let post_down =
        commands-Reads (codes "PostDown") post_down_key
          (λ l. with_hooks i h.pre_up h.post_up h.pre_down l) (λ l v. refl) [] h.post_down
          w.post_down in
      let s5 = Reads-append _ _ r0 r3 r4 s4 post_down in
      Reads-append _ _ r0 r4 r4 s5
        (tagged-Reads (codes "PostDown") (nat_down_of i.name subnet) r4 post_down_key)
