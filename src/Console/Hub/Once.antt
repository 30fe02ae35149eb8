-- ===== src/Console/Hub/Once.antt =====
-- src/daemon/console/hub.rs: what a client that joins is shown.
use mathlib.Core.Path.{subst}
use mathlib.Core.List.{append_assoc, append-nil}
use asc_daemon.Prelude.{
  ◌≡◌, refl, sym, ap, ◌∙◌, Bool, true, false, not, none, some, List, [], ◌∷◌, ◌++◌, length, drop,
  drop-append, if◌then◌else◌, if_split, arith,
}
use asc_daemon.Console.Hub.{
  Chunk, Shared, fresh, push, publish, Client, join, Round, output, error, ended, input, pump,
  pump_all, close,
}
use asc_daemon.Console.Hub.Recent.{Recent, Keeps, push-Keeps}

-- all that is shown until the loop ends, and whether it ends
abbrev pub shown : List Round → List Chunk
shown [] = []
shown (output chunk ∷ rest) = chunk ∷ shown rest
shown (error message ∷ rest) = message ∷ []
shown (ended ∷ rest) = []
shown (input true ∷ rest) = shown rest
shown (input false ∷ rest) = []

abbrev pub ends : List Round → Bool
ends [] = false
ends (output chunk ∷ rest) = ends rest
ends (error message ∷ rest) = true
ends (ended ∷ rest) = true
ends (input true ∷ rest) = ends rest
ends (input false ∷ rest) = true

-- a session after `rounds`, of which it had sent `before`
record After (before : List Chunk) (rounds : List Round) (s : Shared) : Type 0 where
  sent : s.sent ≡ before ++ shown rounds
  replayed : Keeps s.sent s.replay
  live : s.pumping ≡ not (ends rounds)
  there : s.tx_open ≡ true

publish-sent :
    (s : Shared) (chunk : Chunk) → s.tx_open ≡ true → (publish chunk s).sent ≡ s.sent ++ chunk ∷ []
unfolding publish
publish-sent s chunk o = ground (arith, o)

publish-Keeps :
    (s : Shared) (chunk : Chunk)
    → s.tx_open ≡ true
    → Keeps s.sent s.replay
    → Keeps (publish chunk s).sent (publish chunk s).replay
unfolding publish
publish-Keeps s chunk o k =
    if_split (λ l. Keeps l (push s.replay chunk)) s.tx_open _ _
      (λ y. push-Keeps s.sent s.replay chunk k) λ n. ground arith

pump_all-next :
    (next : Round) (rest : List Round) (s : Shared)
    → s.pumping ≡ true
    → pump_all (next ∷ rest) s ≡ pump_all rest (pump next s)
unfolding pump_all
pump_all-next next rest s o = ground (arith, o)

pump_all-over : (rest : List Round) (s : Shared) → s.pumping ≡ false → pump_all rest s ≡ s
unfolding pump_all
pump_all-over [] s c = refl
pump_all-over (next ∷ rest) s c = ground (arith, c)

pump_all-After :
    (rounds : List Round) (s : Shared)
    → s.pumping ≡ true
    → s.tx_open ≡ true
    → Keeps s.sent s.replay
    → After s.sent rounds (pump_all rounds s)
unfolding pump publish
pump_all-After [] s p o k =
    subst (After s.sent []) (sym (nothing s))
      (record { sent = sym (append-nil s.sent); replayed = k; live = p; there = o })
  where
    nothing : (s : Shared) → pump_all [] s ≡ s
    nothing s = unfold pump_all in refl
pump_all-After (output chunk ∷ rest) s p o k =
    let ih = pump_all-After rest (publish chunk s) p o (publish-Keeps s chunk o k) in
    subst (After s.sent (output chunk ∷ rest)) (sym (pump_all-next (output chunk) rest s p))
      (record {
        sent =
            ih.sent
            ∙ ap (λ (l : List Chunk). l ++ shown rest) (publish-sent s chunk o)
            ∙ append_assoc s.sent (chunk ∷ []) (shown rest);
        replayed = ih.replayed;
        live = ih.live;
        there = ih.there;
      })
pump_all-After (error message ∷ rest) s p o k =
    let last : Shared = record (publish message s) { pumping = false } in
    subst (After s.sent (error message ∷ rest))
      (sym (pump_all-next (error message) rest s p ∙ pump_all-over rest last refl))
      (record {
        sent = publish-sent s message o;
        replayed = publish-Keeps s message o k;
        live = refl;
        there = o;
      })
pump_all-After (ended ∷ rest) s p o k =
    let last : Shared = record s { pumping = false } in
    subst (After s.sent (ended ∷ rest))
      (sym (pump_all-next ended rest s p ∙ pump_all-over rest last refl))
      (record { sent = sym (append-nil s.sent); replayed = k; live = refl; there = o })
pump_all-After (input true ∷ rest) s p o k =
    let ih = pump_all-After rest (record s { pumping = true }) refl o k in
    subst (After s.sent (input true ∷ rest)) (sym (pump_all-next (input true) rest s p))
      (record { sent = ih.sent; replayed = ih.replayed; live = ih.live; there = ih.there })
pump_all-After (input false ∷ rest) s p o k =
    let last : Shared = record s { pumping = false } in
    subst (After s.sent (input false ∷ rest))
      (sym (pump_all-next (input false) rest s p ∙ pump_all-over rest last refl))
      (record { sent = sym (append-nil s.sent); replayed = k; live = refl; there = o })

-- What `join` gives a client after the rounds `earlier`: its receiver gets what is sent during those that follow.
pub record Joined (earlier later : List Round) (client : Client) : Type 0 where
  pub joins : join (pump_all earlier fresh) ≡ some client
  pub recent : Recent (shown earlier) client.before
  pub received :
      drop client.mark (pump_all later (pump_all earlier fresh)).sent
      ≡ (if ends earlier then [] else shown later)

fresh-Keeps : Keeps fresh.sent fresh.replay
fresh-Keeps = record {
  exact = refl;
  recent = record { dropped = []; splits = refl; fits = omega arith; most = tt };
}

received_lem :
    (earlier later : List Round) (s : Shared)
    → After [] earlier s
    → drop (length s.sent) (pump_all later s).sent ≡ (if ends earlier then [] else shown later)
received_lem earlier later s a =
    if_split (λ l. drop (length s.sent) (pump_all later s).sent ≡ l) (ends earlier) _ _
      (λ e.
        rw (pump_all-over later s (ground (arith, a.live)))
          (ap (drop (length s.sent)) (sym (append-nil s.sent)) ∙ drop-append s.sent []))
      λ n.
        let b = pump_all-After later s (ground (arith, a.live)) a.there a.replayed in
        ap (drop (length s.sent)) b.sent ∙ drop-append s.sent (shown later)

-- Until the pump has taken the sender, a client can join a session, and then none can. It is shown the last of the chunks
-- before, as many of them as fit into the limit, and sent each chunk that is shown from then on until the
-- pump ends, once and in order.
pub join_lem :
    (earlier later : List Round)
    → ((client : Client) × Joined earlier later client)
      × (join (close (pump_all earlier fresh)) ≡ none)
unfolding join
join_lem earlier later =
    let s = pump_all earlier fresh in
    let a = pump_all-After earlier fresh refl refl fresh-Keeps in
    (
      (
        record { before = s.replay.chunks; mark = length s.sent },
        record {
          joins = ground (arith, a.there);
          recent = subst (λ l. Recent l s.replay.chunks) a.sent a.replayed.recent;
          received = received_lem earlier later s a;
        },
      ),
      refl,
    )
