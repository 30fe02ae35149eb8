-- ===== src/Api/Tokens/Room.antt =====
-- src/daemon/api/tokens.rs: how many access tokens the loop that makes room leaves.
use asc_daemon.Prelude.{
  ℕ, zero, suc, ◌+◌, ◌≤◌, ◌≡◌, refl, ap, Bool, true, false, not, Text, [], ◌∷◌, text_eq,
  text_eq_sound, length, member, Single, ◌⊎◌, inl, inr, leb, if_split, arith,
}
use asc_daemon.Api.Tokens.{
  AccessEntry, AccessMap, insert_entry, remove_entry, soonest_from, remove_soonest, evict,
  max_live_access,
}
use asc_daemon.Api.Tokens.Entries.{keys, keys-retain-Single, member-keys-retain}

nothing_to_remove :
    (k : Text) (live : AccessMap)
    → member k (keys live) ≡ false
    → length (remove_entry k live) ≡ length live
unfolding remove_entry
nothing_to_remove k [] h = refl
nothing_to_remove k (x ∷ live) h = ground (arith, h, nothing_to_remove k live)

one_at_most :
    (k : Text) (live : AccessMap)
    → Single (keys live)
    → length live ≤ length (remove_entry k live) + 1
unfolding remove_entry
one_at_most k [] s = omega arith
one_at_most k (x ∷ live) s = go (text_eq x.0 k) refl (one_at_most k live s.1)
  where
    go :
        (b : Bool)
        → text_eq x.0 k ≡ b
        → length live ≤ length (remove_entry k live) + 1
        → length (x ∷ live) ≤ length (remove_entry k (x ∷ live)) + 1
    go true y ih =
        let same : member k (keys live) ≡ false = rw (text_eq_sound x.0 k y) at s.0 in
        ground (arith, y, nothing_to_remove k live same)
    go false n ih = ground (arith, n, ih)

pub member-remove_soonest :
    (k : Text) (live : AccessMap)
    → member k (keys live) ≡ false
    → member k (keys (remove_soonest live)) ≡ false
unfolding remove_soonest remove_entry
member-remove_soonest k [] h = h
member-remove_soonest k (e ∷ live) h =
    member-keys-retain (λ x. not (text_eq x.0 (soonest_from e live).0)) k (e ∷ live) h

pub member-evict :
    (fuel : ℕ) (k : Text) (live : AccessMap)
    → member k (keys live) ≡ false
    → member k (keys (evict fuel live)) ≡ false
unfolding evict
member-evict zero k live h = h
member-evict (suc fuel) k live h =
    let rest = member-evict fuel k (remove_soonest live) (member-remove_soonest k live h) in
    if_split (λ l. member k (keys l) ≡ false) (leb max_live_access (length live)) _ _ (λ y. rest)
      λ n. h

remove_soonest-length :
    (live : AccessMap) → Single (keys live) → length live ≤ length (remove_soonest live) + 1
unfolding remove_soonest
remove_soonest-length [] s = omega arith
remove_soonest-length (e ∷ live) s = one_at_most (soonest_from e live).0 (e ∷ live) s

remove_soonest-Single :
    (live : AccessMap) → Single (keys live) → Single (keys (remove_soonest live))
unfolding remove_soonest remove_entry
remove_soonest-Single [] s = tt
remove_soonest-Single (e ∷ live) s =
    keys-retain-Single (λ x. not (text_eq x.0 (soonest_from e live).0)) (e ∷ live) s

-- Either nothing has to go, or 63 stay.
pub evict-length :
    (fuel : ℕ) (live : AccessMap)
    → Single (keys live)
    → (evict fuel live ≡ live) ⊎ (63 ≤ length (evict fuel live))
unfolding evict
evict-length zero live s = inl refl
evict-length (suc fuel) live s =
    if_split (λ l. (l ≡ live) ⊎ (63 ≤ length l)) (leb max_live_access (length live)) _ _
      (λ y. elim (evict-length fuel (remove_soonest live) (remove_soonest-Single live s)) [
        | inl e ↦
            let few : length live ≤ length (remove_soonest live) + 1 =
              remove_soonest-length live s in
            let same = ap length e in
            let full : 64 ≤ length live = ground (arith, y) in inr (omega (arith, few, same, full))
        | inr l ↦ inr l
      ])
      λ n. inl refl

pub length-insert-new :
    (key : Text) (e : AccessEntry) (live : AccessMap)
    → member key (keys live) ≡ false
    → length (insert_entry key e live) ≡ length live + 1
unfolding insert_entry
length-insert-new key e [] h = omega arith
length-insert-new key e ((j, f) ∷ live) h = ground (arith, h, length-insert-new key e live)
