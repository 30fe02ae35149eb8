-- ===== src/Api/Tokens/Alive.antt =====
-- src/daemon/api/tokens.rs: how many access tokens are alive.
use asc_daemon.Prelude.{
  ℕ, zero, suc, ◌≤◌, not, Option, Text, [], ◌∷◌, text_eq, length, length-retain-le, Single, ltb,
  leb, if_split, arith,
}
use asc_daemon.Api.Tokens.{
  Clock, AccessEntry, AccessMap, sweep, remove_entry, soonest_from, remove_soonest, evict,
  new_entry, issue_access, max_live_access, resolve_access, revoke_all_access,
}
use asc_daemon.Api.Tokens.Sections.{
  issue, revoke, replace, commit, look_up, History, take_place, after,
}
use asc_daemon.Api.Tokens.Entries.{keys, keys-retain-Single, keys-insert-Single, length-insert}
use asc_daemon.Api.Tokens.Soonest.{length-evict}

keys-remove_soonest-Single :
    (live : AccessMap) → Single (keys live) → Single (keys (remove_soonest live))
unfolding remove_soonest remove_entry
keys-remove_soonest-Single [] s = tt
keys-remove_soonest-Single (e ∷ live) s =
    keys-retain-Single (λ x. not (text_eq x.0 (soonest_from e live).0)) (e ∷ live) s

keys-evict-Single :
    (fuel : ℕ) (live : AccessMap) → Single (keys live) → Single (keys (evict fuel live))
unfolding evict
keys-evict-Single zero live s = s
keys-evict-Single (suc fuel) live s =
    let rest = keys-evict-Single fuel (remove_soonest live) (keys-remove_soonest-Single live s) in
    if_split (λ l. Single (keys l)) (leb max_live_access (length live)) _ _ (λ y. rest) λ n. s

pub record Bounded (live : AccessMap) : Type 0 where
  pub few : length live ≤ 64
  pub single : Single (keys live)

sweep-Bounded : (now : ℕ) (live : AccessMap) → Bounded live → Bounded (sweep now live)
unfolding sweep
sweep-Bounded now live b = record {
  few =
      omega (arith, b.few, length-retain-le (λ (e : Text × AccessEntry). ltb now e.1.expires) live);
  single = keys-retain-Single (λ e. ltb now e.1.expires) live b.single;
}

module _ (digest : Text → Text) where
  issue_access-Bounded :
      (c : Clock) (ttl : Option ℕ) (label new : Text) (live : AccessMap)
      → Single (keys live)
      → Bounded (issue_access digest c ttl label new live).0
  unfolding issue_access sweep
  issue_access-Bounded c ttl label new live s =
      let swept = sweep c.instant live in
      let kept = evict (length swept) swept in
      let entry = new_entry c ttl label in
      record {
        few = omega (
          arith,
          length-insert (digest new) entry kept,
          length-evict (length swept) swept (omega arith),
        );
        single = keys-insert-Single (digest new) entry kept (
            keys-evict-Single (length swept) swept
              (keys-retain-Single (λ e. ltb c.instant e.1.expires) live s));
      }

  -- After any sections of the locks, at most 64 access tokens are alive, no two of one digest.
  pub after-Bounded : (token : Text) (h : History) → Bounded (after digest token h).access
  unfolding after take_place revoke_all_access resolve_access
  after-Bounded token [] = record { few = omega arith; single = tt }
  after-Bounded token ((c, issue ttl label new) ∷ h) =
      issue_access-Bounded c ttl label new (after digest token h).access
        (after-Bounded token h).single
  after-Bounded token ((c, revoke) ∷ h) = record { few = omega arith; single = tt }
  after-Bounded token ((c, replace grace new) ∷ h) = after-Bounded token h
  after-Bounded token ((c, commit) ∷ h) = after-Bounded token h
  after-Bounded token ((c, look_up presented) ∷ h) =
      sweep-Bounded c.instant (after digest token h).access (after-Bounded token h)
