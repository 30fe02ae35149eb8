-- ===== src/Wireguard/Conf/Tests.antt =====
-- A file of the daemon: a server with NAT, a peer at work and one that is off.
use asc_daemon.Prelude.{
  ◌≡◌, refl, Bool, true, false, ◌&&◌, not, none, some, Text, [], ◌∷◌, ◌++◌, codes, contains,
  reverse, starts_solid, parse_uint, show_uint, split_once, split, trim, trim_start, strip_prefix,
  contains_text, up_to, text_lines, text_eq, to_lower, arith,
}
use asc_daemon.Failure.{ok}
use asc_daemon.Net.Toy.{toy_ip}
use asc_daemon.Wireguard.Peers.{Hooks, Peer, Interface, ipv4_subnet}
use asc_daemon.Wireguard.Conf.Keys.{read_interface_key, read_comment, items_of}
use asc_daemon.Wireguard.Conf.{
  parse, read_lines, read_line, read_body, read_content, read_pair, read_header, asc_comment,
  finish, is_managed,
}
use asc_daemon.Wireguard.Conf.Blocks.{WritablePeer}
use asc_daemon.Wireguard.Conf.Render.{render}
use asc_daemon.Wireguard.Conf.Redact.{redact}
use asc_daemon.Wireguard.Conf.Reading.{Plain}
use asc_daemon.Wireguard.Conf.Items.{Item}
use asc_daemon.Wireguard.Conf.Whole.{Writable}
use asc_daemon.Wireguard.Conf.RoundTrip.{parse-render}
use asc_daemon.Wireguard.Conf.Redacted.{hide, redact-render}

abbrev laptop : Peer
laptop = record {
  public_key = codes "AAAA=";
  name = codes "laptop 1";
  enabled = true;
  preshared_key = codes "CCCC=";
  allowed_ips = codes "4167772162/32" ∷ codes "4167772164/30" ∷ [];
  endpoint = [];
  persistent_keepalive = 25;
}

abbrev phone : Peer
phone = record laptop { public_key = codes "BBBB="; name = []; enabled = false; allowed_ips = [] }

abbrev no_hooks : Hooks
no_hooks = record { pre_up = []; post_up = codes "echo up" ∷ []; pre_down = []; post_down = [] }

abbrev server : Interface
server = record {
  name = codes "wg0";
  private_key = codes "DDDD=";
  listen_port = some 51820;
  addresses = codes "4167772161/24" ∷ [];
  dns = [];
  client_dns = codes "example.com" ∷ [];
  mtu = none;
  table = codes "off";
  fwmark = [];
  endpoint = codes "vpn.example.com";
  masquerade = true;
  hooks = no_hooks;
  peers = laptop ∷ phone ∷ [];
}

is_plain : Text → Bool
unfolding contains starts_solid
is_plain v =
    starts_solid v
    && starts_solid (reverse v)
    && not (contains b'#' v)
    && not (contains 10 v)
    && not (contains 13 v)

is_plain-Plain : (v : Text) → is_plain v ≡ true → Plain v
unfolding is_plain
is_plain-Plain v h = record {
  solid = (ground (arith, h), ground (arith, h));
  no_hash = ground (arith, h);
  clean = (ground (arith, h), ground (arith, h));
}

plain-Item : (v : Text) → is_plain v ≡ true → contains b',' v ≡ false → Item v
plain-Item v h k = record { plain = is_plain-Plain v h; no_comma = k }

laptop_written : WritablePeer laptop
unfolding is_plain
laptop_written = record {
  public_key = is_plain-Plain laptop.public_key refl;
  name = is_plain-Plain laptop.name refl;
  preshared_key = is_plain-Plain laptop.preshared_key refl;
  allowed_ips = (
    plain-Item (codes "4167772162/32") refl refl,
    (plain-Item (codes "4167772164/30") refl refl, tt),
  );
  endpoint = tt;
  persistent_keepalive = omega arith;
}

phone_written : WritablePeer phone
unfolding is_plain
phone_written = record {
  public_key = is_plain-Plain phone.public_key refl;
  name = tt;
  preshared_key = is_plain-Plain phone.preshared_key refl;
  allowed_ips = tt;
  endpoint = tt;
  persistent_keepalive = omega arith;
}

server_written : Writable toy_ip server
unfolding is_plain ipv4_subnet parse_uint show_uint
server_written = record {
  name = (refl, refl);
  subnet = (refl, refl);
  own = record {
    private_key = is_plain-Plain server.private_key refl;
    listen_port = omega arith;
    addresses = (plain-Item (codes "4167772161/24") refl refl, tt);
    dns = tt;
    client_dns = (plain-Item (codes "example.com") refl refl, tt);
    mtu = tt;
    table = is_plain-Plain server.table refl;
    fwmark = tt;
    endpoint = is_plain-Plain server.endpoint refl;
  };
  hooks = record {
    pre_up = tt;
    post_up = (is_plain-Plain (codes "echo up") refl, tt);
    pre_down = tt;
    post_down = tt;
  };
  peers = (laptop_written, (phone_written, tt));
}

parse-render_example :
    parse (codes "wg0") (render toy_ip server)
    ≡ ok (record { interface = server; managed = true; warnings = [] })
parse-render_example = parse-render toy_ip server server_written

redact-render_example : redact (render toy_ip server) ≡ render toy_ip (hide server)
redact-render_example = redact-render toy_ip server server_written

-- a hook with a `#` is cut there when it is read back
abbrev with_comment : Interface
with_comment = record server {
  hooks = record no_hooks { post_up = codes "echo '#1'" ∷ [] };
  masquerade = false;
  peers = [];
}

comment_is_cut :
    parse (codes "wg0") (render toy_ip with_comment)
    ≡ ok (record {
      interface = record with_comment { hooks = record no_hooks { post_up = codes "echo '" ∷ [] } };
      managed = true;
      warnings = [];
    })
unfolding parse render parse_uint show_uint text_lines read_lines read_line read_body read_content
    read_pair read_header read_interface_key read_comment asc_comment finish is_managed items_of
    trim trim_start strip_prefix split_once split contains_text up_to text_eq to_lower
comment_is_cut = refl

-- a pre-shared key in a block that is off and indented is shown
indented_key_is_shown :
    redact (codes "  #asc:off PresharedKey = CCCC=")
    ≡ codes "  #asc:off PresharedKey = CCCC=" ++ 10 ∷ []
unfolding redact trim trim_start strip_prefix split_once
indented_key_is_shown = refl
