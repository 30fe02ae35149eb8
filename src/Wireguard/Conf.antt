-- ===== src/Wireguard/Conf.antt =====
-- src/daemon/wireguard/conf.rs: `parse`, which reads a file of wg-quick into an interface.
pub mod Keys
pub mod Render
pub mod Reading
pub mod Items
pub mod Reads
pub mod Own
pub mod Commands
pub mod PeerLines
pub mod Blocks
pub mod OneLine
pub mod Whole
pub mod Redact
pub mod HiddenLines
pub mod Leaves
pub mod Redacted
mod Tests
pub mod RoundTrip
use asc_daemon.Prelude.{
  ℕ, ◌^◌, Bool, true, false, ◌&&◌, ◌||◌, not, Option, none, some, Text, List, [], ◌∷◌, ◌++◌, codes,
  text_eq, is_empty, trim, trim_start, contains, split, split_once, to_lower, parse_uint, map,
  if◌then◌else◌, strip_prefix, is_prefix, contains_text, up_to, text_lines,
}
use asc_daemon.Failure.{Result, ok, err, internal, ◌>>=◌}
use asc_daemon.Wireguard.Peers.{Hooks, Peer, Interface}
use asc_daemon.Wireguard.Conf.Keys.{
  Warning, no_public_key, save_config, unknown_key, unknown_peer_key, Parsed, Section, outside,
  in_interface, in_peer, Reader, new_interface, new_peer, items_of, read_comment,
  read_interface_key, read_peer_key, read_key,
}

abbrev pub marker : Text
marker = codes "# Managed by ASC"

abbrev pub nat_tag : Text
nat_tag = codes "# asc:nat"

abbrev pub off_prefix : Text
off_prefix = codes "#asc:off "

abbrev asc_pair : Option (Text × Text) → Text → Text × Text
asc_pair none body = (trim body, [])
asc_pair (some (k, v)) body = (trim k, trim v)

abbrev asc_body : Option Text → Option (Text × Text)
asc_body none = none
asc_body (some body) = some (asc_pair (split_once b'=' body) body)

abbrev asc_rest : Option Text → Option (Text × Text)
asc_rest none = none
asc_rest (some rest) = asc_body (strip_prefix (codes "asc:") (trim_start rest))

-- `asc_comment`
unfoldable pub asc_comment : Text → Option (Text × Text)
unfolding trim trim_start strip_prefix split_once
asc_comment line = asc_rest (strip_prefix (codes "#") (trim line))

-- `finish`
unfoldable pub finish : Reader → Reader
finish r = elim r.peer [
  | none ↦ r
  | some done ↦
      if is_empty done.public_key
      then record r { peer = none; warnings = r.warnings ++ no_public_key ∷ [] }
      else record r {
        peer = none;
        interface = record r.interface { peers = r.interface.peers ++ done ∷ [] };
      }
]

-- a header
unfoldable pub read_header : Bool → Text → Reader → Result Reader
unfolding text_eq to_lower finish
read_header off content r =
    if text_eq (map to_lower content) (codes "[interface]")
    then if r.seen_interface
      then err internal
      else ok (record (finish r) { seen_interface = true; section = in_interface })
    else if text_eq (map to_lower content) (codes "[peer]")
    then ok (record (finish r) {
      peer = some (record (new_peer []) { enabled = not off });
      section = in_peer;
    })
    else err internal

-- `key = value`
unfoldable pub read_pair : Option (Text × Text) → Reader → Result Reader
read_pair none r = err internal
read_pair (some (key, value)) r = read_key r.section (map to_lower (trim key)) (trim value) r

abbrev starts : ℕ → Text → Bool
starts c s = is_prefix (c ∷ []) s

-- a line that is not a comment, without what follows a `#`
unfoldable pub read_content : Bool → Text → Reader → Result Reader
unfolding strip_prefix
read_content off content r =
    if is_empty content
    then ok r
    else if starts b'[' content
    then read_header off content r
    else read_pair (split_once b'=' content) r

-- a line without the prefix of a disabled peer
unfoldable pub read_body : Bool → Text → Reader → Result Reader
unfolding strip_prefix
read_body off line r =
    if is_empty line
    then ok r
    else if starts b'#' line
    then ok (read_comment r.section (asc_comment line) r)
    else if contains_text nat_tag line
    then ok r
    else read_content off (trim (up_to b'#' line)) r

abbrev pub unprefixed : Option Text → Text → Reader → Result Reader
unprefixed none line r = read_body false line r
unprefixed (some rest) line r = read_body true (trim_start rest) r

-- one round of the loop
unfoldable pub read_line : Text → Reader → Result Reader
read_line raw r = unprefixed (strip_prefix (codes "#asc:off") (trim raw)) (trim raw) r

unfoldable pub read_lines : List Text → Reader → Result Reader
unfolding read_line
read_lines [] r = ok r
read_lines (line ∷ lines) r = read_line line r >>= read_lines lines

-- whether the first line that is not blank starts with the marker
unfoldable pub is_managed : List Text → Bool
is_managed [] = false
is_managed (line ∷ lines) =
    let rest = is_managed lines in
    if is_empty (trim line) then rest else is_prefix marker (trim line)

abbrev pub first_reader : Text → Reader
first_reader name = record {
  interface = new_interface name [];
  warnings = [];
  section = outside;
  seen_interface = false;
  peer = none;
}

abbrev pub close : Bool → Reader → Result Parsed
close managed r =
    if not r.seen_interface
    then err internal
    else if is_empty r.interface.private_key
    then err internal
    else ok (record { interface = r.interface; managed = managed; warnings = r.warnings })

-- `parse`
unfoldable pub parse : Text → Text → Result Parsed
parse name text = read_lines (text_lines text) (first_reader name) >>= λ r.
    close (is_managed (text_lines text)) (finish r)
