-- ===== src/Console/Hub.antt =====
-- src/daemon/console/hub.rs: the chunks of an app's output, packed, kept for new clients, and sent to all clients.
pub mod Packed
pub mod Recent
pub mod Once
use asc_daemon.Prelude.{
  ℕ, zero, suc, ◌+◌, ◌-◌, ◌*◌, Bool, true, false, Option, none, some, List, [], ◌∷◌, ◌++◌, length,
  leb, ltb, if◌then◌else◌,
}

abbrev pub replay_limit_bytes : ℕ
replay_limit_bytes = 128 * 1024

abbrev pub coalesce_limit_bytes : ℕ
coalesce_limit_bytes = 16 * 1024

-- a `Vec<u8>`
abbrev pub Chunk : Type 0
Chunk = List ℕ

-- the body of the loop of `coalesce`
unfoldable pub pack : List Chunk → Chunk → List Chunk
pack [] chunk = chunk ∷ []
pack (last ∷ []) chunk =
    if leb (length last + length chunk) coalesce_limit_bytes
    then (last ++ chunk) ∷ []
    else last ∷ chunk ∷ []
pack (first ∷ second ∷ packed) chunk = first ∷ pack (second ∷ packed) chunk

unfoldable pub pack_all : List Chunk → List Chunk → List Chunk
unfolding pack
pack_all packed [] = packed
pack_all packed (chunk ∷ chunks) = pack_all (pack packed chunk) chunks

-- `coalesce`
unfoldable pub coalesce : List Chunk → List Chunk
unfolding pack_all
coalesce chunks = pack_all [] chunks

-- `Replay`
pub record Replay : Type 0 where
  pub chunks : List Chunk
  pub bytes : ℕ

-- the loop of `Replay::push`
unfoldable pub drop_front : List Chunk → ℕ → Replay
drop_front [] bytes = record { chunks = []; bytes = bytes }
drop_front (chunk ∷ chunks) bytes =
    let dropped = drop_front chunks (bytes - length chunk) in
    if ltb replay_limit_bytes bytes
    then dropped
    else record { chunks = chunk ∷ chunks; bytes = bytes }

-- `Replay::push`
unfoldable pub push : Replay → Chunk → Replay
unfolding drop_front
push replay chunk = drop_front (replay.chunks ++ chunk ∷ []) (replay.bytes + length chunk)

-- `Shared`, with whether the pump's loop goes on. The sender is there until the pump takes it; `sent` are the chunks that
-- were given to it. A receiver gets those that are sent after it subscribed, as long as it does not fall behind.
pub record Shared : Type 0 where
  pub pumping : Bool
  pub tx_open : Bool
  pub sent : List Chunk
  pub replay : Replay

-- the session's start, in `spawn`
abbrev pub fresh : Shared
fresh = record {
  pumping = true;
  tx_open = true;
  sent = [];
  replay = record { chunks = []; bytes = 0 };
}

-- `publish`, under both locks
unfoldable pub publish : Chunk → Shared → Shared
unfolding push
publish chunk s = record s {
  sent = if s.tx_open then s.sent ++ chunk ∷ [] else s.sent;
  replay = push s.replay chunk;
}

-- `AttachClient`: the output from before, and how much was sent before its receiver was there
pub record Client : Type 0 where
  pub before : List Chunk
  pub mark : ℕ

-- `join`, under both locks
unfoldable pub join : Shared → Option Client
join s =
    if s.tx_open then some (record { before = s.replay.chunks; mark = length s.sent }) else none

-- What a round of the pump finds: a chunk of the source, an error of it, which is shown, its end, or the app's input, which may not
-- be written.
pub data Round : Type 0 where
  output : (chunk : Chunk) → Round
  error : (shown : Chunk) → Round
  ended : Round
  input : (written : Bool) → Round

unfoldable pub pump : Round → Shared → Shared
unfolding publish
pump (output chunk) s = publish chunk s
pump (error shown) s = record (publish shown s) { pumping = false }
pump ended s = record s { pumping = false }
pump (input written) s = record s { pumping = written }

-- the loop of the pump, until it breaks
unfoldable pub pump_all : List Round → Shared → Shared
unfolding pump
pump_all [] s = s
pump_all (next ∷ rest) s = if s.pumping then pump_all rest (pump next s) else s

-- the pump's end, after its loop: `take` of the sender
abbrev pub close : Shared → Shared
close s = record s { tx_open = false }
