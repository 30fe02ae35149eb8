-- ===== src/Api/Requests/Allowed.antt =====
-- src/daemon/api/rest.rs: who may change the tokens.
use asc_daemon.Prelude.{
  ℕ, ◌<◌, ◌≡◌, refl, true, false, ◌&&◌, Option, none, some, Text, ◌⊎◌, inl, inr, ltb, ltb→lt,
  Bool-cases, arith,
}
use asc_daemon.Api.Tokens.{
  primary, Resolved, of_kind, of_access, Primary, TokenStore, AccessEntry, AccessMap, find_entry,
  sweep, constant_time_eq, resolve_primary, grace_token, resolve_access, resolve, require_primary,
}
use asc_daemon.Api.Tokens.Secret.{constant_time_eq_iff}
use asc_daemon.Api.Requests.{
  Request, issue, revoke, rotate, commit_rotation, Facts, handle, with_resolved, serve,
}

-- the previous primary, while its grace lasts
abbrev pub InGrace : ℕ → Text → Primary → Type 0
InGrace now presented p =
    (deadline : ℕ) × (p.previous ≡ some (presented, deadline)) × (now < deadline)

abbrev of_grace : Resolved
of_grace = record { kind = primary; grace = true; expires_at = none }

grace_cases :
    (now : ℕ) (presented : Text) (previous : Option (Text × ℕ))
    → (grace_token now presented previous ≡ none)
      ⊎ ((grace_token now presented previous ≡ some of_grace)
          × ((deadline : ℕ) × (previous ≡ some (presented, deadline)) × (now < deadline)))
grace_cases now presented none = inl refl
grace_cases now presented (some (old, deadline)) =
    elim (Bool-cases (ltb now deadline && constant_time_eq presented old)) [
      | inr n ↦ inl (rw n)
      | inl y ↦ inr (
        rw y,
        (
          deadline,
          cc ((constant_time_eq_iff presented old).0 (ground arith)),
          ltb→lt now deadline (ground arith),
        ),
      )
    ]

resolve_primary-cases :
    (now : ℕ) (presented : Text) (p : Primary)
    → (resolve_primary now presented p ≡ none)
      ⊎ ((resolve_primary now presented p ≡ some (of_kind primary)) × (presented ≡ p.current))
      ⊎ ((resolve_primary now presented p ≡ some of_grace) × InGrace now presented p)
unfolding resolve_primary
resolve_primary-cases now presented p = elim (Bool-cases (constant_time_eq presented p.current)) [
  | inl y ↦ inr (inl (rw y, (constant_time_eq_iff presented p.current).0 y))
  | inr n ↦ elim (grace_cases now presented p.previous) [
    | inl e ↦ inl (rw (n, e))
    | inr g ↦ inr (inr (rw (n, g.0), g.1))
  ]
]

module _ (digest : Text → Text) (facts : Facts) where
  -- A caller without a primary is refused.
  refused :
      (r : Resolved) (request : Request) (s : TokenStore)
      → require_primary (some r) true ≡ false
      → (handle digest facts (some r) true request s).1 ≡ s
  unfolding handle
  refused r (issue ttl label) s e = rw e
  refused r revoke s e = rw e
  refused r (rotate grace) s e = rw e
  refused r commit_rotation s e = rw e

  commit_in_grace :
      (s : TokenStore) → (handle digest facts (some of_grace) true commit_rotation s).1 ≡ s
  unfolding handle
  commit_in_grace s = refl

  not_primary :
      (presented : Text) (live : AccessMap) (request : Request) (s : TokenStore)
      → (with_resolved digest facts
          (resolve_access digest facts.found_at presented live).1
          request
          s).1
        ≡ s
  unfolding with_resolved resolve_access require_primary
  not_primary presented live request s =
      go (find_entry (digest presented) (sweep facts.found_at live))
    where
      go :
          (o : Option AccessEntry)
          → (with_resolved digest facts
              (elim o [ none ↦ none | some e ↦ some (of_access e.expires_at) ])
              request
              s).1
            ≡ s
      go none = refl
      go (some e) = refused (of_access e.expires_at) request s refl

  -- A request on the tokens leaves them as looking up the token that it presents does, or presents the current
  -- primary, or presents the one before in its grace, and then it is not a confirmation of the rotation, which changes
  -- nothing.
  pub serve-Allowed :
      (presented : Text) (request : Request) (s : TokenStore)
      → ((serve digest facts presented request s).1
          ≡ record s { access = (resolve_access digest facts.found_at presented s.access).0 })
        ⊎ (presented ≡ s.primary.current)
        ⊎ (InGrace facts.presented_at presented s.primary
            × (request ≡ commit_rotation → (serve digest facts presented request s).1 ≡ s))
  unfolding serve resolve
  serve-Allowed presented request s =
      elim (resolve_primary-cases facts.presented_at presented s.primary) [
        | inl e ↦ inl (
            rw e (
              not_primary presented s.access request (record s {
                access = (resolve_access digest facts.found_at presented s.access).0;
              })))
        | inr (inl c) ↦ inr (inl c.1)
        | inr (inr g) ↦ inr (inr (g.1, λ e. rw (g.0, e) (commit_in_grace s)))
      ]
