-- ===== src/Wireguard/Conf/Own.antt =====
-- src/daemon/wireguard/conf.rs: the section of the interface, written and read back.
use asc_daemon.Prelude.{
  ℕ, ◌<◌, ◌^◌, ◌≡◌, refl, sym, ap, Bool, true, false, Option, none, some, Text, List, [], ◌∷◌, ◌++◌,
  codes, All, trim, trim_start, strip_prefix, split_once, if◌then◌else◌,
}
use asc_daemon.Failure.{ok}
use asc_daemon.Wireguard.Peers.{Interface}
use asc_daemon.Wireguard.Conf.Keys.{
  new_interface, items_of, read_comment, read_interface_key, if_number,
}
use asc_daemon.Wireguard.Conf.{asc_comment, read_body, read_line, read_lines}
use asc_daemon.Wireguard.Conf.Render.{
  pair, pair_unless_empty, pair_of_number, pair_of_list, listed, own_lines,
}
use asc_daemon.Wireguard.Conf.Reading.{Plain}
use asc_daemon.Wireguard.Conf.Items.{Item}
use asc_daemon.Wireguard.Conf.Reads.{
  Reads, Reads-append, key_like, key_like_sound, at, Written, one_text, text_or_none,
  number_or_none, list_or_none, comment_or_none, listed_comment_or_none,
}

abbrev pub SomeItems : List Text → Type 0
SomeItems [] = ⊥
SomeItems (t ∷ ts) = All Item (t ∷ ts)

abbrev pub Fits : Option ℕ → Type 0
Fits none = Unit
Fits (some n) = n < 2 ^ 16

-- the values of the section are such as a line can carry
pub record WritableOwn (i : Interface) : Type 0 where
  pub private_key : Plain i.private_key
  pub listen_port : Fits i.listen_port
  pub addresses : SomeItems i.addresses
  pub dns : All Item i.dns
  pub client_dns : All Item i.client_dns
  pub mtu : Fits i.mtu
  pub table : Written i.table
  pub fwmark : Written i.fwmark
  pub endpoint : Written i.endpoint

read_endpoint :
    (j : Interface)
    → j.endpoint ≡ []
    → (v : Text) → Written v
    → Reads (pair_unless_empty (codes "# asc:endpoint") v) (at j) (at (record j { endpoint = v }))
unfolding key_like read_comment
read_endpoint j e v w =
    let set = λ (v : Text). record j { endpoint = v } in
    comment_or_none (codes "endpoint") (key_like_sound (codes "endpoint") refl) j set (λ v. refl)
      (ap set (sym e)) v w

read_client_dns :
    (j : Interface)
    → j.client_dns ≡ []
    → (v : List Text) → All Item v
    → Reads (pair_of_list (codes "# asc:client-dns") v) (at j) (at (record j { client_dns = v }))
unfolding key_like read_comment
read_client_dns j e v w =
    let set = λ (v : List Text). record j { client_dns = v } in
    listed_comment_or_none (codes "client-dns") (key_like_sound (codes "client-dns") refl) j set
      (λ v. refl) (ap set (sym e)) v w

read_listen_port :
    (j : Interface)
    → j.listen_port ≡ none
    → (v : Option ℕ) → Fits v
    → Reads (pair_of_number (codes "ListenPort") v) (at j) (at (record j { listen_port = v }))
unfolding key_like read_interface_key
read_listen_port j e v w =
    let set = λ (v : Option ℕ). record j { listen_port = v } in
    number_or_none (codes "ListenPort") (key_like_sound (codes "ListenPort") refl) j set
      (λ v m e. ap (λ (o : Option ℕ). if_number o λ n. at (record j { listen_port = some n })) e)
      (ap set (sym e)) v w

read_dns :
    (j : Interface)
    → j.dns ≡ []
    → (v : List Text) → All Item v
    → Reads (pair_of_list (codes "DNS") v) (at j) (at (record j { dns = v }))
unfolding key_like read_interface_key
read_dns j e v w =
    let set = λ (v : List Text). record j { dns = v } in
    list_or_none (codes "DNS") (key_like_sound (codes "DNS") refl) j set
      (λ v. ap (λ (l : List Text). ok (at (record j { dns = l ++ items_of v }))) e) (ap set (sym e))
      v w

read_mtu :
    (j : Interface)
    → j.mtu ≡ none
    → (v : Option ℕ) → Fits v
    → Reads (pair_of_number (codes "MTU") v) (at j) (at (record j { mtu = v }))
unfolding key_like read_interface_key
read_mtu j e v w =
    let set = λ (v : Option ℕ). record j { mtu = v } in
    number_or_none (codes "MTU") (key_like_sound (codes "MTU") refl) j set
      (λ v m e. ap (λ (o : Option ℕ). if_number o λ n. at (record j { mtu = some n })) e)
      (ap set (sym e)) v w

read_table :
    (j : Interface)
    → j.table ≡ []
    → (v : Text) → Written v
    → Reads (pair_unless_empty (codes "Table") v) (at j) (at (record j { table = v }))
unfolding key_like read_interface_key
read_table j e v w =
    let set = λ (v : Text). record j { table = v } in
    text_or_none (codes "Table") (key_like_sound (codes "Table") refl) j set (λ v. refl)
      (ap set (sym e)) v w

read_fwmark :
    (j : Interface)
    → j.fwmark ≡ []
    → (v : Text) → Written v
    → Reads (pair_unless_empty (codes "FwMark") v) (at j) (at (record j { fwmark = v }))
unfolding key_like read_interface_key
read_fwmark j e v w =
    let set = λ (v : Text). record j { fwmark = v } in
    text_or_none (codes "FwMark") (key_like_sound (codes "FwMark") refl) j set (λ v. refl)
      (ap set (sym e)) v w

read_private_key :
    (j : Interface) (v : Text)
    → Plain v
    → Reads (pair (codes "PrivateKey") v ∷ []) (at j) (at (record j { private_key = v }))
unfolding key_like read_interface_key
read_private_key j v p =
    one_text (codes "PrivateKey") (key_like_sound (codes "PrivateKey") refl) j
      (λ (v : Text). record j { private_key = v }) (λ v. refl) v p

read_addresses :
    (j : Interface)
    → j.addresses ≡ []
    → (v : List Text) → SomeItems v
    → Reads (pair (codes "Address") (listed v) ∷ []) (at j) (at (record j { addresses = v }))
unfolding key_like read_interface_key
read_addresses j e [] w = absurd w
read_addresses j e (t ∷ ts) w =
    list_or_none (codes "Address") (key_like_sound (codes "Address") refl) j
      (λ (v : List Text). record j { addresses = v })
      (λ v. ap (λ (l : List Text). ok (at (record j { addresses = l ++ items_of v }))) e)
      (ap (λ (l : List Text). record j { addresses = l }) (sym e)) (t ∷ ts) w

masquerade_lines : Bool → List Text
masquerade_lines masquerade = if masquerade then codes "# asc:masquerade" ∷ [] else []

read_masquerade :
    (j : Interface)
    → j.masquerade ≡ false
    → (v : Bool) → Reads (masquerade_lines v) (at j) (at (record j { masquerade = v }))
unfolding masquerade_lines read_lines read_line trim trim_start strip_prefix split_once read_body
    asc_comment read_comment
read_masquerade j e true = refl
read_masquerade j e false = ap (λ (v : Bool). ok (at (record j { masquerade = v }))) e

-- what is read of the section
abbrev pub own_part : Interface → Interface
own_part i = record i {
  hooks = record { pre_up = []; post_up = []; pre_down = []; post_down = [] };
  peers = [];
}

pub own_lines-Reads :
    (i : Interface)
    → WritableOwn i
    → Reads (own_lines i) (at (new_interface i.name [])) (at (own_part i))
unfolding own_lines masquerade_lines
own_lines-Reads i w =
    let j0 = new_interface i.name [] in
    let j1 = record j0 { endpoint = i.endpoint } in
    let j2 = record j1 { masquerade = i.masquerade } in
    let j3 = record j2 { client_dns = i.client_dns } in
    let j4 = record j3 { private_key = i.private_key } in
    let j5 = record j4 { addresses = i.addresses } in
    let j6 = record j5 { listen_port = i.listen_port } in
    let j7 = record j6 { dns = i.dns } in
    let j8 = record j7 { mtu = i.mtu } in
    let j9 = record j8 { table = i.table } in
    let s1 = read_endpoint j0 refl i.endpoint w.endpoint in
    let s2 = Reads-append _ _ (at j0) (at j1) (at j2) s1 (read_masquerade j1 refl i.masquerade) in
    let s3 =
      Reads-append _ _ (at j0) (at j2) (at j3) s2
        (read_client_dns j2 refl i.client_dns w.client_dns) in
    let port = read_listen_port j5 refl i.listen_port w.listen_port in
    let addresses =
      Reads-append _ _ (at j4) (at j5) (at j6) (read_addresses j4 refl i.addresses w.addresses)
        port in
    let key =
      Reads-append _ _ (at j3) (at j4) (at j6) (read_private_key j3 i.private_key w.private_key)
        addresses in
    let s6 = Reads-append _ _ (at j0) (at j3) (at j6) s3 key in
    let s7 = Reads-append _ _ (at j0) (at j6) (at j7) s6 (read_dns j6 refl i.dns w.dns) in
    let s8 = Reads-append _ _ (at j0) (at j7) (at j8) s7 (read_mtu j7 refl i.mtu w.mtu) in
    let s9 = Reads-append _ _ (at j0) (at j8) (at j9) s8 (read_table j8 refl i.table w.table) in
    Reads-append _ _ (at j0) (at j9) (at (own_part i)) s9 (read_fwmark j9 refl i.fwmark w.fwmark)
