-- ===== src/Api/Tokens/Recognised.antt =====
-- src/daemon/api/tokens.rs: which tokens are recognised, after any sections of the locks, and how many are alive.
use mathlib.Core.Path.{subst}
use mathlib.Core.Option.{some-injective}
use asc_daemon.Prelude.{
  ℕ, zero, suc, ◌<◌, ◌≡◌, refl, Bool, true, false, ◌&&◌, not, Option, none, some, Text, [], ◌∷◌,
  text_eq, text_eq_sound, length, retain-All, retain-passes, ltb→lt, All, All-map, inl, inr, ltb,
  leb, if◌then◌else◌, if_split, arith,
}
use asc_daemon.Api.Tokens.{
  primary, Resolved, of_kind, of_access, AccessEntry, AccessMap, constant_time_eq, sweep,
  find_entry, insert_entry, remove_entry, soonest_from, remove_soonest, evict, resolve_primary,
  grace_token, new_entry, resolve_access, or_access, resolve, issue_access, revoke_all_access,
  replace_primary, commit_rotation, max_live_access,
}
use asc_daemon.Api.Tokens.Secret.{constant_time_eq_iff}
use asc_daemon.Api.Tokens.Sections.{
  issue, revoke, replace, commit, look_up, History, current_of, previous_of, take_place, after,
  Issued,
}

module _ (P : Text × AccessEntry → Type 0) where
  remove_entry-All : (key : Text) (live : AccessMap) → All P live → All P (remove_entry key live)
  unfolding remove_entry
  remove_entry-All key live a = retain-All P (λ e. not (text_eq e.0 key)) live a

  pub remove_soonest-All : (live : AccessMap) → All P live → All P (remove_soonest live)
  unfolding remove_soonest
  remove_soonest-All [] a = tt
  remove_soonest-All (e ∷ live) a = remove_entry-All (soonest_from e live).0 (e ∷ live) a

  pub evict-All : (fuel : ℕ) (live : AccessMap) → All P live → All P (evict fuel live)
  unfolding evict
  evict-All zero live a = a
  evict-All (suc fuel) live a =
      let rest = evict-All fuel (remove_soonest live) (remove_soonest-All live a) in
      if_split (All P) (leb max_live_access (length live)) _ _ (λ y. rest) λ n. a

  pub insert_entry-All :
      (key : Text) (e : AccessEntry) (live : AccessMap)
      → P (key, e)
      → All P live
      → All P (insert_entry key e live)
  unfolding insert_entry
  insert_entry-All key e [] p a = (p, tt)
  insert_entry-All key e ((k, f) ∷ live) p a =
      let rest = insert_entry-All key e live p a.1 in
      if_split (All P) (text_eq k key) _ _ (λ y. (p, a.1)) λ n. (a.0, rest)

  find_entry-All :
      (key : Text) (live : AccessMap) (e : AccessEntry)
      → find_entry key live ≡ some e
      → All P live
      → P (key, e)
  unfolding find_entry
  find_entry-All key [] e f a = ground arith
  find_entry-All key ((k, x) ∷ live) e f a =
      go (text_eq k key) refl f λ f. find_entry-All key live e f a.1
    where
      go :
          (b : Bool)
          → text_eq k key ≡ b
          → (if b then some x else find_entry key live) ≡ some e
          → (find_entry key live ≡ some e → P (key, e))
          → P (key, e)
      go true y f rest = subst P (cc (text_eq_sound k key y, some-injective x e f)) a.0
      go false n f rest = rest f

module _ (digest : Text → Text) (token : Text) where
  abbrev AllIssued : History → AccessMap → Type 0
  AllIssued h = All (λ e. Issued digest h e.0 e.1)

  after-AllIssued : (h : History) → AllIssued h (after digest token h).access
  unfolding after take_place issue_access revoke_all_access resolve_access sweep
  after-AllIssued [] = tt
  after-AllIssued ((c, issue ttl label new) ∷ h) =
      let before = (after digest token h).access in
      let swept = sweep c.instant before in
      let Now = λ (e : Text × AccessEntry). Issued digest ((c, issue ttl label new) ∷ h) e.0 e.1 in
      let older =
        All-map (λ (e : Text × AccessEntry). Issued digest h e.0 e.1) Now swept (λ e i. inr i)
          (retain-All _ _ before (after-AllIssued h)) in
      insert_entry-All Now (digest new) (new_entry c ttl label) (evict (length swept) swept)
        (inl (refl, refl)) (evict-All Now (length swept) swept older)
  after-AllIssued ((c, revoke) ∷ h) = tt
  after-AllIssued ((c, replace grace new) ∷ h) = after-AllIssued h
  after-AllIssued ((c, commit) ∷ h) = after-AllIssued h
  after-AllIssued ((c, look_up presented) ∷ h) =
      retain-All _ (λ e. ltb c.instant e.1.expires) (after digest token h).access
        (after-AllIssued h)

  after-primary :
      (h : History)
      → (after digest token h).primary
        ≡ record { current = current_of token h; previous = previous_of token h }
  unfolding after take_place replace_primary commit_rotation
  after-primary [] = refl
  after-primary ((c, issue ttl label new) ∷ h) = after-primary h
  after-primary ((c, revoke) ∷ h) = after-primary h
  after-primary ((c, replace grace new) ∷ h) = rw (after-primary h)
  after-primary ((c, commit) ∷ h) = rw (after-primary h)
  after-primary ((c, look_up presented) ∷ h) = after-primary h

  -- Who is recognised: the current primary; the one before, in its grace; and an access token that was
  -- issued and neither revoked since nor run out.
  pub data Recognised (h h' : History) (now later : ℕ) (presented : Text)
      : Option Resolved → Type 0 where
    nobody : Recognised h h' now later presented none
    by_primary :
        presented ≡ current_of token h
        → Recognised h h' now later presented (some (of_kind primary))
    by_previous :
        (deadline : ℕ)
        → previous_of token h ≡ some (presented, deadline)
        → now < deadline
        → Recognised h h' now later presented
            (some (record { kind = primary; grace = true; expires_at = none }))
    by_access :
        (e : AccessEntry)
        → Issued digest h' (digest presented) e
        → later < e.expires
        → Recognised h h' now later presented (some (of_access e.expires_at))

  module _ (h h' : History) (now later : ℕ) (presented : Text) where
    Legitimate : Option Resolved → Type 0
    Legitimate = Recognised h h' now later presented

    access-Legitimate :
        (found : Option AccessEntry)
        → find_entry (digest presented) (sweep later (after digest token h').access) ≡ found
        → Legitimate (elim found [ none ↦ none | some e ↦ some (of_access e.expires_at) ])
    unfolding Legitimate sweep
    access-Legitimate none f = nobody
    access-Legitimate (some e) f =
        let live = (after digest token h').access in
        let There =
          λ (e : Text × AccessEntry). (ltb later e.1.expires ≡ true) × Issued digest h' e.0 e.1 in
        let there =
          find_entry-All There (digest presented) (sweep later live) e f
            (retain-passes _ _ live (after-AllIssued h')) in
        by_access e there.1 (ltb→lt later e.expires there.0)

    grace-Legitimate :
        (previous : Option (Text × ℕ)) (rest : Option Resolved)
        → previous_of token h ≡ previous
        → Legitimate rest
        → Legitimate (elim (grace_token now presented previous) [ some r ↦ some r | none ↦ rest ])
    unfolding Legitimate
    grace-Legitimate none rest p r = r
    grace-Legitimate (some (old, deadline)) rest p r =
        if_split {A = Option Resolved} (λ o. Legitimate (elim o [ some x ↦ some x | none ↦ rest ]))
          (ltb now deadline && constant_time_eq presented old) _ _
          (λ y.
            let same = (constant_time_eq_iff presented old).0 (ground arith) in
            by_previous deadline (rw same p) (ltb→lt now deadline (ground arith)))
          λ n. r

    primary-Legitimate :
        (rest : Option Resolved)
        → Legitimate rest
        → Legitimate (elim (resolve_primary now presented (after digest token h).primary) [
          | some r ↦ some r
          | none ↦ rest
        ])
    unfolding Legitimate resolve_primary
    primary-Legitimate rest r = rw (after-primary h) (
        if_split {A = Option Resolved} (λ o. Legitimate (elim o [ some x ↦ some x | none ↦ rest ]))
          (constant_time_eq presented (current_of token h)) _ _
          (λ y. by_primary ((constant_time_eq_iff presented (current_of token h)).0 y))
          λ n. grace-Legitimate (previous_of token h) rest refl r)

    current_recognised :
        presented ≡ current_of token h
        → resolve_primary now presented (after digest token h).primary ≡ some (of_kind primary)
    unfolding resolve_primary
    current_recognised e =
        rw (after-primary h, (constant_time_eq_iff presented (current_of token h)).1 e) refl

    recognised_by :
        (o : Option Resolved) (live : AccessMap) (next : AccessMap × Option Resolved)
        → Legitimate (elim o [ some r ↦ some r | none ↦ next.1 ])
        → Legitimate (or_access live next o).1
    recognised_by none live next l = l
    recognised_by (some r) live next l = l

    -- Whatever sections of the locks have taken place before the two reads of `resolve`, it recognises
    -- a token only as the current primary, as the primary before while its grace lasts, or as an access token
    -- that was issued, has not been revoked and has not run out; and the current primary always.
    pub resolve-Recognised :
        Recognised h h' now later presented
          (resolve digest now later presented
            (after digest token h).primary
            (after digest token h').access).1
        × (presented ≡ current_of token h
            → (resolve digest now later presented
                (after digest token h).primary
                (after digest token h').access).1
              ≡ some (of_kind primary))
    unfolding resolve resolve_access Legitimate
    resolve-Recognised = (
      recognised_by (resolve_primary now presented (after digest token h).primary)
          (after digest token h').access
          (resolve_access digest later presented (after digest token h').access)
          (primary-Legitimate
            (resolve_access digest later presented (after digest token h').access).1
            (access-Legitimate
              (find_entry (digest presented) (sweep later (after digest token h').access)) refl)),
      λ e. rw (current_recognised e) refl,
    )
