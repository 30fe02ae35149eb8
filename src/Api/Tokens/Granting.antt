-- ===== src/Api/Tokens/Granting.antt =====
-- src/daemon/api/tokens.rs: what `issue_access` grants, and at the expense of which tokens.
use asc_daemon.Prelude.{
  ℕ, member, none, ◌+◌, ◌*◌, ◌/◌, ◌<◌, Bool-cases, ◌≤◌, ◌≡◌, refl, true, Option, some, Text,
  text_eq, length, All, All-map, Among, Single, ◌⊎◌, inl, inr, ltb, arith,
}
use asc_daemon.Api.Tokens.{
  second, access_ttl_max, granted_ttl, unix_seconds, Clock, AccessEntry, AccessMap, sweep,
  find_entry, insert_entry, evict, new_entry, issue_access,
}
use asc_daemon.Api.Tokens.Sections.{after}
use asc_daemon.Api.Tokens.Recognised.{insert_entry-All}
use asc_daemon.Api.Tokens.Entries.{keys, keys-retain-Single, find_entry-insert, Among-insert}
use asc_daemon.Api.Tokens.Soonest.{KeptOrSoonest, all_kept, evict-KeptOrSoonest}
use asc_daemon.Api.Tokens.Room.{evict-length, member-evict, length-insert-new}

-- No entry that is there after it, but the new one, runs out before `x`.
abbrev pub RunsOutFirst : Text × AccessEntry → Text → AccessMap → Type 0
RunsOutFirst x key = All (λ y. (y.0 ≡ key) ⊎ (x.1.expires ≤ y.1.expires))

insert_kept :
    (key : Text) (e : AccessEntry) (kept : AccessMap) (x : Text × AccessEntry)
    → KeptOrSoonest kept x
    → Among x (insert_entry key e kept)
      ⊎ (text_eq x.0 key ≡ true)
      ⊎ RunsOutFirst x key (insert_entry key e kept)
insert_kept key e kept x (inl a) = elim (Among-insert key e kept x a) [
  | inl b ↦ inl b
  | inr t ↦ inr (inl t)
]
insert_kept key e kept x (inr no_later) = inr (
    inr (
      insert_entry-All (λ y. (y.0 ≡ key) ⊎ (x.1.expires ≤ y.1.expires)) key e kept (inl refl)
        (All-map (λ y. x.1.expires ≤ y.1.expires) (λ y. (y.0 ≡ key) ⊎ (x.1.expires ≤ y.1.expires))
          kept (λ y le. inr le) no_later)))

-- The lifetime that is granted: 10 minutes without a request, and otherwise the one that is requested, but at least a
-- second and at most an hour.
abbrev pub IsGranted : Option ℕ → ℕ → Type 0
IsGranted none ttl = ttl ≡ 600 * second
IsGranted (some wish) ttl =
    ((wish < second) × (ttl ≡ second))
    ⊎ ((3600 * second < wish) × (ttl ≡ 3600 * second))
    ⊎ ((second ≤ wish) × (wish ≤ 3600 * second) × (ttl ≡ wish))

granted_ttl-IsGranted : (wish : Option ℕ) → IsGranted wish (granted_ttl wish)
unfolding granted_ttl
granted_ttl-IsGranted none = refl
granted_ttl-IsGranted (some wish) = elim (Bool-cases (ltb wish second)) [
  | inl y ↦ inl (ground arith, rw y refl)
  | inr n ↦ elim (Bool-cases (ltb access_ttl_max wish)) [
    | inl m ↦ inr (inl (ground arith, rw (n, m) refl))
    | inr k ↦ inr (inr (ground arith, ground arith, rw (n, k) refl))
  ]
]

-- A token with this lifetime runs out, on both clocks, when it has passed.
pub record Granted (c : Clock) (wish : Option ℕ) (label : Text) (e : AccessEntry) : Type 0 where
  pub ttl : ℕ
  pub is_granted : IsGranted wish ttl
  pub expires : e.expires ≡ c.instant + ttl
  pub expires_at : e.expires_at ≡ (c.system + ttl) / second
  pub label_eq : e.label ≡ label

new_entry-Granted :
    (c : Clock) (wish : Option ℕ) (label : Text) → Granted c wish label (new_entry c wish label)
unfolding new_entry unix_seconds
new_entry-Granted c wish label = record {
  ttl = granted_ttl wish;
  is_granted = granted_ttl-IsGranted wish;
  expires = refl;
  expires_at = refl;
  label_eq = refl;
}

-- There is no room for one more: 64 entries are there, or the new one took the place of an entry with its digest.
abbrev pub IsFull : Text → AccessMap → AccessMap → Type 0
IsFull key before after = (64 ≤ length after) ⊎ (member key (keys before) ≡ true)

-- why `x` may be gone
abbrev pub Stays : Text → AccessMap → AccessMap → Text × AccessEntry → Type 0
Stays key before after x =
    Among x after ⊎ (text_eq x.0 key ≡ true) ⊎ (RunsOutFirst x key after × IsFull key before after)

nothing_evicted :
    (key : Text) (e : AccessEntry) (before : AccessMap) (x : Text × AccessEntry)
    → Among x before
    → Stays key before (insert_entry key e before) x
nothing_evicted key e before x a = elim (Among-insert key e before x a) [
  | inl b ↦ inl b
  | inr t ↦ inr (inl t)
]

with_full :
    (key : Text) (before after : AccessMap) (x : Text × AccessEntry)
    → IsFull key before after
    → Among x after ⊎ (text_eq x.0 key ≡ true) ⊎ RunsOutFirst x key after
    → Stays key before after x
with_full key before after x full (inl a) = inl a
with_full key before after x full (inr (inl t)) = inr (inl t)
with_full key before after x full (inr (inr first)) = inr (inr (first, full))

insert-IsFull :
    (key : Text) (e : AccessEntry) (before : AccessMap)
    → 63 ≤ length (evict (length before) before)
    → IsFull key before (insert_entry key e (evict (length before) before))
insert-IsFull key e before l = elim (Bool-cases (member key (keys before))) [
  | inl y ↦ inr y
  | inr n ↦
      let new = member-evict (length before) key before n in
      inl (omega (arith, l, length-insert-new key e (evict (length before) before) new))
]

evicted-Stays :
    (key : Text) (e : AccessEntry) (before : AccessMap)
    → Single (keys before)
    → All (Stays key before (insert_entry key e (evict (length before) before))) before
evicted-Stays key e before s = elim (evict-length (length before) before s) [
  | inl same ↦ rw same (
      All-map (λ x. Among x before) (Stays key before (insert_entry key e before)) before
        (nothing_evicted key e before) (all_kept before))
  | inr l ↦
      let kept = evict (length before) before in
      All-map (KeptOrSoonest kept) (Stays key before (insert_entry key e kept)) before
        (λ x k.
          with_full key before (insert_entry key e kept) x (insert-IsFull key e before l)
            (insert_kept key e kept x k))
        (evict-KeptOrSoonest (length before) before s)
]

module _ (digest : Text → Text) where
  -- If no two access tokens have one digest, then after `issue_access` the new one is there, for the lifetime that is
  -- granted, of which the end is returned: ten minutes without a request, and otherwise the one that is requested, but
  -- at least a second and at most an hour. Each that was alive before it still is, unless it has the digest of
  -- the new one, or there was no room: then 64 are there, or the new one replaced one of its digest, and all others
  -- that are left run out no earlier than the one that is gone.
  pub issue_access_lem :
      (c : Clock) (ttl : Option ℕ) (label new : Text) (live : AccessMap)
      → Single (keys live)
      → ((e : AccessEntry) × Granted c ttl label e
          × (find_entry (digest new) (issue_access digest c ttl label new live).0 ≡ some e)
          × ((issue_access digest c ttl label new live).1 ≡ e.expires_at))
        × All
            (Stays (digest new) (sweep c.instant live) (issue_access digest c ttl label new live).0)
            (sweep c.instant live)
  unfolding issue_access sweep
  issue_access_lem c ttl label new live s =
      let swept = sweep c.instant live in
      let entry = new_entry c ttl label in
      (
        (
          entry,
          new_entry-Granted c ttl label,
          find_entry-insert (digest new) entry (evict (length swept) swept),
          refl,
        ),
        evicted-Stays (digest new) entry swept
            (keys-retain-Single (λ e. ltb c.instant e.1.expires) live s),
      )
