-- ===== src/Console/Tests.antt =====
-- A console at work: what is packed, and what a client that joins late is shown.
use asc_daemon.Prelude.{◌≡◌, refl, none, some, true, List, [], ◌∷◌, All}
use asc_daemon.Console.Hub.{
  Chunk, coalesce, pump_all, fresh, join, Client, Round, output, error, ended, input, close,
}
use asc_daemon.Console.Hub.Packed.{flatten, Whole, Tight, coalesce_lem}
use asc_daemon.Console.Hub.Once.{Joined, join_lem}

abbrev three_chunks : List Chunk
three_chunks = (b'a' ∷ b'b' ∷ []) ∷ [] ∷ (b'c' ∷ []) ∷ []

packed_to_one : coalesce three_chunks ≡ (b'a' ∷ b'b' ∷ b'c' ∷ []) ∷ []
unfolding coalesce
packed_to_one = refl

three_chunks_packed :
    (flatten (coalesce three_chunks) ≡ flatten three_chunks)
    × All (Whole three_chunks) (coalesce three_chunks)
    × Tight (coalesce three_chunks)
three_chunks_packed = coalesce_lem three_chunks

-- the source shows three chunks and an error; the client joins after the first chunk
abbrev earlier : List Round
earlier = output (b'x' ∷ []) ∷ input true ∷ []

abbrev later : List Round
later = output (b'y' ∷ []) ∷ output (b'z' ∷ []) ∷ error (b'!' ∷ []) ∷ ended ∷ []

joined_late : join (pump_all earlier fresh) ≡ some (record { before = (b'x' ∷ []) ∷ []; mark = 1 })
unfolding join pump_all
joined_late = refl

join_lem_example :
    ((client : Client) × Joined earlier later client)
    × (join (close (pump_all earlier fresh)) ≡ none)
join_lem_example = join_lem earlier later
