-- ===== src/Api/Tokens/Entries.antt =====
-- src/daemon/api/tokens.rs: the keys of the map of the access tokens.
use asc_daemon.Prelude.{
  ◌≤◌, ◌+◌, ◌≡◌, refl, ap, Bool, true, false, ◌||◌, some, Text, List, [], ◌∷◌, text_eq,
  text_eq_sound, text_eq_refl, map, length, retain, Among, member, Single, ◌⊎◌, inl, inr, if_split,
  arith,
}
use asc_daemon.Api.Tokens.{AccessEntry, AccessMap, find_entry, insert_entry}

abbrev pub keys : AccessMap → List Text
keys = map (λ (e : Text × AccessEntry). e.0)

pub member-keys-retain :
    (p : Text × AccessEntry → Bool) (k : Text) (live : AccessMap)
    → member k (keys live) ≡ false
    → member k (keys (retain p live)) ≡ false
member-keys-retain p k [] h = refl
member-keys-retain p k (e ∷ live) h = ground (arith, member-keys-retain p k live)

pub keys-retain-Single :
    (p : Text × AccessEntry → Bool) (live : AccessMap)
    → Single (keys live)
    → Single (keys (retain p live))
keys-retain-Single p [] s = tt
keys-retain-Single p (e ∷ live) s =
    let rest = keys-retain-Single p live s.1 in
    if_split (λ l. Single (keys l)) (p e) _ _ (λ y. (member-keys-retain p e.0 live s.0, rest))
      λ n. rest

pub member-keys-insert :
    (k key : Text) (e : AccessEntry) (live : AccessMap)
    → member k (keys (insert_entry key e live)) ≡ (text_eq key k || member k (keys live))
unfolding insert_entry
member-keys-insert k key e [] = refl
member-keys-insert k key e ((j, f) ∷ live) =
    ground (arith, member-keys-insert k key e live, text_eq_sound j key)

pub keys-insert-Single :
    (key : Text) (e : AccessEntry) (live : AccessMap)
    → Single (keys live)
    → Single (keys (insert_entry key e live))
unfolding insert_entry
keys-insert-Single key e [] s = (refl, tt)
keys-insert-Single key e ((j, f) ∷ live) s =
    let rest = keys-insert-Single key e live s.1 in
    if_split (λ l. Single (keys l)) (text_eq j key) _ _
      (λ y. (rw (text_eq_sound j key y) at s.0, s.1))
      λ n.
        (ground (arith, member-keys-insert j key e live, text_eq_sound key j, text_eq_refl j), rest)

pub length-insert :
    (key : Text) (e : AccessEntry) (live : AccessMap)
    → length (insert_entry key e live) ≤ length live + 1
unfolding insert_entry
length-insert key e [] = omega arith
length-insert key e ((j, f) ∷ live) = ground (arith, length-insert key e live)

pub find_entry-insert :
    (key : Text) (e : AccessEntry) (live : AccessMap)
    → find_entry key (insert_entry key e live) ≡ some e
unfolding find_entry insert_entry
find_entry-insert key e [] = ground (arith, text_eq_refl key)
find_entry-insert key e ((k, f) ∷ live) =
    ground (arith, find_entry-insert key e live, text_eq_refl key)

pub one_more :
    (x f : Text × AccessEntry) (live : AccessMap) (Q : Type 0)
    → Among x live ⊎ Q
    → Among x (f ∷ live) ⊎ Q
one_more x f live Q (inl a) = inl (inr a)
one_more x f live Q (inr q) = inr q

pub Among-insert :
    (key : Text) (e : AccessEntry) (live : AccessMap) (x : Text × AccessEntry)
    → Among x live
    → Among x (insert_entry key e live) ⊎ (text_eq x.0 key ≡ true)
unfolding insert_entry
Among-insert key e [] x a = absurd a
Among-insert key e ((k, f) ∷ live) x (inl h) =
    if_split (λ l. Among x l ⊎ (text_eq x.0 key ≡ true)) (text_eq k key) _ _
      (λ y. inr (rw (ap (λ (z : Text × AccessEntry). z.0) h) y)) λ n. inl (inl h)
Among-insert key e ((k, f) ∷ live) x (inr a) =
    if_split (λ l. Among x l ⊎ (text_eq x.0 key ≡ true)) (text_eq k key) _ _ (λ y. inl (inr a))
      λ n.
        one_more x (k, f) (insert_entry key e live) (text_eq x.0 key ≡ true)
          (Among-insert key e live x a)
