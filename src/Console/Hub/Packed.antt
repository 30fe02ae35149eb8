-- ===== src/Console/Hub/Packed.antt =====
-- src/daemon/console/hub.rs: the chunks that `coalesce` makes.
use mathlib.Core.List.{append_assoc, append-nil}
use asc_daemon.Prelude.{
  ◌+◌, ◌≤◌, ◌<◌, ◌≡◌, refl, sym, ap, ◌∙◌, ◌⊎◌, inl, inr, List, [], ◌∷◌, ◌++◌, length, length-append,
  All, Among, leb, if_split, arith,
}
use asc_daemon.Console.Hub.{Chunk, coalesce_limit_bytes, pack, pack_all, coalesce}

-- the bytes of chunks, one after the other
abbrev pub flatten : List Chunk → Chunk
flatten [] = []
flatten (chunk ∷ chunks) = chunk ++ flatten chunks

flatten-pack :
    (packed : List Chunk) (chunk : Chunk) → flatten (pack packed chunk) ≡ flatten packed ++ chunk
unfolding pack
flatten-pack [] chunk = append-nil chunk
flatten-pack (last ∷ []) chunk =
    if_split (λ l. flatten l ≡ (last ++ []) ++ chunk)
      (leb (length last + length chunk) coalesce_limit_bytes) _ _
      (λ y. append-nil (last ++ chunk) ∙ rw (append-nil last) refl)
      λ n. rw (append-nil last, append-nil chunk) refl
flatten-pack (first ∷ second ∷ packed) chunk =
    ap (λ l. first ++ l) (flatten-pack (second ∷ packed) chunk)
    ∙ sym (append_assoc first (second ++ flatten packed) chunk)

flatten-pack_all :
    (packed chunks : List Chunk)
    → flatten (pack_all packed chunks) ≡ flatten packed ++ flatten chunks
unfolding pack_all
flatten-pack_all packed [] = sym (append-nil (flatten packed))
flatten-pack_all packed (chunk ∷ chunks) =
    flatten-pack_all (pack packed chunk) chunks
    ∙ ap (λ l. l ++ flatten chunks) (flatten-pack packed chunk)
    ∙ append_assoc (flatten packed) chunk (flatten chunks)

-- not over the limit, or one of those that were given
abbrev pub Whole : List Chunk → Chunk → Type 0
Whole given p = (length p ≤ coalesce_limit_bytes) ⊎ Among p given

pack-Whole :
    (given packed : List Chunk) (chunk : Chunk)
    → Among chunk given
    → All (Whole given) packed
    → All (Whole given) (pack packed chunk)
unfolding pack
pack-Whole given [] chunk m a = (inr m, tt)
pack-Whole given (last ∷ []) chunk m a =
    if_split (All (Whole given)) (leb (length last + length chunk) coalesce_limit_bytes) _ _
      (λ y. (inl (ground (arith, length-append last chunk)), tt)) λ n. (a.0, (inr m, tt))
pack-Whole given (first ∷ second ∷ packed) chunk m a =
    (a.0, pack-Whole given (second ∷ packed) chunk m a.1)

pack_all-Whole :
    (given packed chunks : List Chunk)
    → All (λ (c : Chunk). Among c given) chunks
    → All (Whole given) packed
    → All (Whole given) (pack_all packed chunks)
unfolding pack_all
pack_all-Whole given packed [] m a = a
pack_all-Whole given packed (chunk ∷ chunks) m a =
    pack_all-Whole given (pack packed chunk) chunks m.1 (pack-Whole given packed chunk m.0 a)

All-weaken :
    (x : Chunk) (given chunks : List Chunk)
    → All (λ (c : Chunk). Among c given) chunks
    → All (λ (c : Chunk). Among c (x ∷ given)) chunks
All-weaken x given [] a = tt
All-weaken x given (c ∷ chunks) a = (inr a.0, All-weaken x given chunks a.1)

All-Among : (given : List Chunk) → All (λ (c : Chunk). Among c given) given
All-Among [] = tt
All-Among (c ∷ given) = (inl refl, All-weaken c given given (All-Among given))

-- No two neighbours would fit into one.
abbrev pub Tight : List Chunk → Type 0
Tight [] = Unit
Tight (a ∷ []) = Unit
Tight (a ∷ b ∷ l) = (coalesce_limit_bytes < length a + length b) × Tight (b ∷ l)

pack-Tight : (packed : List Chunk) (chunk : Chunk) → Tight packed → Tight (pack packed chunk)
unfolding pack
pack-Tight [] chunk t = tt
pack-Tight (last ∷ []) chunk t =
    if_split Tight (leb (length last + length chunk) coalesce_limit_bytes) _ _ (λ y. tt)
      λ n. (ground arith, tt)
pack-Tight (first ∷ second ∷ []) chunk t =
    if_split (λ l. Tight (first ∷ l)) (leb (length second + length chunk) coalesce_limit_bytes) _ _
      (λ y. (omega (arith, t.0, length-append second chunk), tt)) λ n. (t.0, (ground arith, tt))
pack-Tight (first ∷ second ∷ third ∷ packed) chunk t =
    (t.0, pack-Tight (second ∷ third ∷ packed) chunk t.1)

pack_all-Tight : (packed chunks : List Chunk) → Tight packed → Tight (pack_all packed chunks)
unfolding pack_all
pack_all-Tight packed [] t = t
pack_all-Tight packed (chunk ∷ chunks) t =
    pack_all-Tight (pack packed chunk) chunks (pack-Tight packed chunk t)

-- `coalesce` changes none of the bytes and not their order; a chunk that it makes is not longer than the limit or is one
-- of the chunks that it was given; and no two neighbours that it leaves would fit into one.
pub coalesce_lem :
    (chunks : List Chunk)
    → (flatten (coalesce chunks) ≡ flatten chunks)
      × All (Whole chunks) (coalesce chunks)
      × Tight (coalesce chunks)
unfolding coalesce
coalesce_lem chunks = (
  flatten-pack_all [] chunks,
  pack_all-Whole chunks [] chunks (All-Among chunks) tt,
  pack_all-Tight [] chunks tt,
)
