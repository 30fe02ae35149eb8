-- ===== src/Console/Hub/Recent.antt =====
-- src/daemon/console/hub.rs: what `Replay` keeps.
use mathlib.Core.List.{append_assoc}
use asc_daemon.Prelude.{
  ℕ, ◌+◌, ◌-◌, ◌≤◌, ◌<◌, ◌≡◌, refl, sym, ap, ◌∙◌, List, [], ◌∷◌, ◌++◌, length, ltb, if_split, arith,
}
use asc_daemon.Console.Hub.{Chunk, replay_limit_bytes, Replay, drop_front, push}

abbrev pub total : List Chunk → ℕ
total [] = 0
total (chunk ∷ chunks) = length chunk + total chunks

total-append : (a b : List Chunk) → total (a ++ b) ≡ total a + total b
total-append [] b = omega arith
total-append (c ∷ a) b = omega (arith, total-append a b)

-- With the last of `dropped` before it, `kept` is over the limit.
abbrev pub LastOver : List Chunk → List Chunk → Type 0
LastOver kept [] = Unit
LastOver kept (x ∷ []) = replay_limit_bytes < length x + total kept
LastOver kept (x ∷ y ∷ dropped) = LastOver kept (y ∷ dropped)

-- `kept` are the last of the chunks, as many as fit.
pub record Recent (chunks kept : List Chunk) : Type 0 where
  pub dropped : List Chunk
  pub splits : chunks ≡ dropped ++ kept
  pub fits : total kept ≤ replay_limit_bytes
  pub most : LastOver kept dropped

pub record Keeps (chunks : List Chunk) (r : Replay) : Type 0 where
  pub exact : r.bytes ≡ total r.chunks
  pub recent : Recent chunks r.chunks

LastOver-cons :
    (kept dropped : List Chunk) (x : Chunk)
    → LastOver kept dropped
    → (dropped ≡ [] → replay_limit_bytes < length x + total kept)
    → LastOver kept (x ∷ dropped)
LastOver-cons kept [] x h k = k refl
LastOver-cons kept (y ∷ dropped) x h k = h

dropped_over :
    (chunk : Chunk) (chunks : List Chunk) (r : Replay)
    → replay_limit_bytes < length chunk + total chunks
    → Keeps chunks r
    → Keeps (chunk ∷ chunks) r
dropped_over chunk chunks r over k = record {
  exact = k.exact;
  recent = record {
    dropped = chunk ∷ k.recent.dropped;
    splits = ap (λ l. chunk ∷ l) k.recent.splits;
    fits = k.recent.fits;
    most = LastOver-cons r.chunks k.recent.dropped chunk k.recent.most λ e.
        let all : chunks ≡ r.chunks = k.recent.splits ∙ ap (λ (l : List Chunk). l ++ r.chunks) e in
        omega (arith, ap total all);
  };
}

drop_front-Keeps :
    (chunks : List Chunk) (bytes : ℕ)
    → bytes ≡ total chunks
    → Keeps chunks (drop_front chunks bytes)
unfolding drop_front
drop_front-Keeps [] bytes e = record {
  exact = e;
  recent = record { dropped = []; splits = refl; fits = omega arith; most = tt };
}
drop_front-Keeps (chunk ∷ chunks) bytes e =
    if_split (Keeps (chunk ∷ chunks)) (ltb replay_limit_bytes bytes) _ _
      (λ y.
        dropped_over chunk chunks (drop_front chunks (bytes - length chunk)) (ground arith)
          (drop_front-Keeps chunks (bytes - length chunk) (omega arith)))
      λ n. record {
        exact = e;
        recent = record { dropped = []; splits = refl; fits = ground arith; most = tt };
      }

-- what was dropped before, and now
LastOver-append :
    (kept new a b : List Chunk)
    → LastOver kept a
    → LastOver new b
    → (b ≡ [] → total kept ≤ total new)
    → LastOver new (a ++ b)
LastOver-append kept new [] b h k grow = k
LastOver-append kept new (x ∷ []) [] h k grow = let g = grow refl in omega (arith, h, g)
LastOver-append kept new (x ∷ []) (y ∷ b) h k grow = k
LastOver-append kept new (x ∷ y ∷ a) b h k grow = LastOver-append kept new (y ∷ a) b h k grow

pub push-Keeps :
    (chunks : List Chunk) (r : Replay) (chunk : Chunk)
    → Keeps chunks r
    → Keeps (chunks ++ chunk ∷ []) (push r chunk)
unfolding push
push-Keeps chunks r chunk k =
    let all = r.chunks ++ chunk ∷ [] in
    let next = drop_front all (r.bytes + length chunk) in
    let n =
      drop_front-Keeps all (r.bytes + length chunk)
        (omega (arith, k.exact, total-append r.chunks (chunk ∷ []))) in
    record {
      exact = n.exact;
      recent = record {
        dropped = k.recent.dropped ++ n.recent.dropped;
        splits =
            ap (λ (l : List Chunk). l ++ chunk ∷ []) k.recent.splits
            ∙ append_assoc k.recent.dropped r.chunks (chunk ∷ [])
            ∙ ap (λ (l : List Chunk). k.recent.dropped ++ l) n.recent.splits
            ∙ sym (append_assoc k.recent.dropped n.recent.dropped next.chunks);
        fits = n.recent.fits;
        most =
            LastOver-append r.chunks next.chunks k.recent.dropped n.recent.dropped k.recent.most
              n.recent.most
              λ e.
                let same : all ≡ next.chunks =
                  n.recent.splits ∙ ap (λ (l : List Chunk). l ++ next.chunks) e in
                omega (arith, ap total same, total-append r.chunks (chunk ∷ []));
      };
    }
