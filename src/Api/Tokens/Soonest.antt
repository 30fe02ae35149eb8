-- ===== src/Api/Tokens/Soonest.antt =====
-- src/daemon/api/tokens.rs: the loop that makes room for a new access token.
use asc_daemon.Prelude.{
  ℕ, zero, suc, ◌≤◌, ◌<◌, ◌≡◌, refl, ap, Bool, true, false, not, Text, [], ◌∷◌, text_eq,
  text_eq_sound, text_eq_refl, length, retain, length-retain-le, All, All-map, Among, member,
  Single, ◌⊎◌, inl, inr, ltb, leb, if◌then◌else◌, if_split, arith,
}
use asc_daemon.Api.Tokens.{
  AccessEntry, AccessMap, remove_entry, soonest_from, remove_soonest, evict, max_live_access,
}
use asc_daemon.Api.Tokens.Recognised.{remove_soonest-All, evict-All}
use asc_daemon.Api.Tokens.Entries.{keys, keys-retain-Single}

pub skip_one :
    (x a b : Text × AccessEntry) (live : AccessMap) → Among x (a ∷ live) → Among x (a ∷ b ∷ live)
skip_one x a b live (inl e) = inl e
skip_one x a b live (inr m) = inr (inr m)

pub soonest_from-Among :
    (best : Text × AccessEntry) (live : AccessMap) → Among (soonest_from best live) (best ∷ live)
unfolding soonest_from
soonest_from-Among best [] = inl refl
soonest_from-Among best (e ∷ live) =
    if_split (λ b. Among (soonest_from b live) (best ∷ e ∷ live)) (ltb e.1.expires best.1.expires) _
      _ (λ y. inr (soonest_from-Among e live))
      λ n. skip_one (soonest_from best live) best e live (soonest_from-Among best live)

abbrev pub NoLater : Text × AccessEntry → AccessMap → Type 0
NoLater x = All (λ y. x.1.expires ≤ y.1.expires)

pub soonest_from-NoLater :
    (best : Text × AccessEntry) (live : AccessMap) → NoLater (soonest_from best live) (best ∷ live)
unfolding soonest_from
soonest_from-NoLater best [] = (omega arith, tt)
soonest_from-NoLater best (e ∷ live) =
    if_split (λ b. NoLater (soonest_from b live) (best ∷ e ∷ live)) (ltb e.1.expires best.1.expires)
      _ _ (λ y. let all = soonest_from-NoLater e live in (ground (arith, all.0), all))
      λ n. let all = soonest_from-NoLater best live in (all.0, (ground (arith, all.0), all.1))

pub Among-member :
    (m : Text × AccessEntry) (live : AccessMap) → Among m live → member m.0 (keys live) ≡ true
Among-member m [] a = absurd a
Among-member m (x ∷ live) (inl e) = rw e (ground (arith, text_eq_refl x.0))
Among-member m (x ∷ live) (inr a) = ground (arith, Among-member m live a)

pub no_other :
    (k : Text) (n : ℕ) (live : AccessMap)
    → member k (keys live) ≡ false
    → All (λ x. text_eq x.0 k ≡ true → x.1.expires ≤ n) live
no_other k n [] h = tt
no_other k n (x ∷ live) h = (λ e. ground arith, no_other k n live (ground arith))

-- an entry is known by its key
pub unique :
    (m : Text × AccessEntry) (live : AccessMap)
    → Single (keys live)
    → Among m live
    → All (λ x. text_eq x.0 m.0 ≡ true → x.1.expires ≤ m.1.expires) live
unique m [] s a = absurd a
unique m (x ∷ live) s (inl e) = (
  λ h. omega (arith, ap (λ (y : Text × AccessEntry). y.1.expires) e),
  no_other m.0 m.1.expires live (rw e s.0),
)
unique m (x ∷ live) s (inr a) =
    (λ h. ground (arith, Among-member m live a, text_eq_sound x.0 m.0 h), unique m live s.1 a)

-- An entry is kept, or none that are kept run out before it.
abbrev pub KeptOrSoonest : AccessMap → Text × AccessEntry → Type 0
KeptOrSoonest kept x = Among x kept ⊎ NoLater x kept

pub retain_or {ℓ} :
    (P : Text × AccessEntry → Type ℓ) (p : Text × AccessEntry → Bool) (live : AccessMap)
    → All P (retain p live)
    → All (λ x. p x ≡ false → P x) live
    → All P live
retain_or P p [] a b = tt
retain_or P p (x ∷ live) a b = go (p x) refl a λ c. retain_or P p live c b.1
  where
    go :
        (t : Bool)
        → p x ≡ t
        → All P (if t then x ∷ retain p live else retain p live)
        → (All P (retain p live) → All P live)
        → All P (x ∷ live)
    go true y a rest = (a.0, rest a.1)
    go false n a rest = (b.0 n, rest a)

pub all_kept : (live : AccessMap) → All (λ x. Among x live) live
all_kept [] = tt
all_kept (x ∷ live) = (
  inl refl,
  All-map (λ y. Among y live) (λ y. Among y (x ∷ live)) live (λ y a. inr a) (all_kept live),
)

pub NoLater-trans :
    (x m : Text × AccessEntry) (kept : AccessMap)
    → x.1.expires ≤ m.1.expires
    → NoLater m kept
    → NoLater x kept
NoLater-trans x m [] le a = tt
NoLater-trans x m (y ∷ kept) le a = (omega (arith, a.0), NoLater-trans x m kept le a.1)

-- those that make room for the rest
pub removed_soonest :
    (fuel : ℕ) (e : Text × AccessEntry) (live : AccessMap)
    → Single (keys (e ∷ live))
    → All
        (λ x.
          not (text_eq x.0 (soonest_from e live).0) ≡ false
          → KeptOrSoonest (evict fuel (remove_soonest (e ∷ live))) x)
        (e ∷ live)
removed_soonest fuel e live s =
    let m = soonest_from e live in
    let kept = evict fuel (remove_soonest (e ∷ live)) in
    let after : NoLater m kept =
      evict-All (λ y. m.1.expires ≤ y.1.expires) fuel (remove_soonest (e ∷ live))
        (remove_soonest-All (λ y. m.1.expires ≤ y.1.expires) (e ∷ live)
          (soonest_from-NoLater e live)) in
    All-map (λ x. text_eq x.0 m.0 ≡ true → x.1.expires ≤ m.1.expires)
      (λ x. not (text_eq x.0 m.0) ≡ false → KeptOrSoonest kept x) (e ∷ live)
      (λ x le p. inr (NoLater-trans x m kept (le (ground arith)) after))
      (unique m (e ∷ live) s (soonest_from-Among e live))

pub nothing_removed : (live : AccessMap) → All (KeptOrSoonest live) live
nothing_removed live =
    All-map (λ x. Among x live) (KeptOrSoonest live) live (λ x a. inl a) (all_kept live)

pub evict-KeptOrSoonest :
    (fuel : ℕ) (live : AccessMap) → Single (keys live) → All (KeptOrSoonest (evict fuel live)) live
unfolding evict remove_soonest remove_entry
evict-KeptOrSoonest fuel [] s = tt
evict-KeptOrSoonest zero (e ∷ live) s = nothing_removed (e ∷ live)
evict-KeptOrSoonest (suc fuel) (e ∷ live) s =
    let kept = evict fuel (remove_soonest (e ∷ live)) in
    let p = λ (x : Text × AccessEntry). not (text_eq x.0 (soonest_from e live).0) in
    if_split (λ kept. All (KeptOrSoonest kept) (e ∷ live)) (leb max_live_access (length (e ∷ live)))
      _ _
      (λ y.
        retain_or (KeptOrSoonest kept) p (e ∷ live)
          (evict-KeptOrSoonest fuel (remove_soonest (e ∷ live)) (keys-retain-Single p (e ∷ live) s))
          (removed_soonest fuel e live s))
      λ n. nothing_removed (e ∷ live)

-- each round removes one at least
pub length-remove :
    (k : Text) (live : AccessMap)
    → member k (keys live) ≡ true
    → length (remove_entry k live) < length live
unfolding remove_entry
length-remove k [] m = ground arith
length-remove k (x ∷ live) m = ground (
  arith,
  length-remove k live,
  length-retain-le (λ (e : Text × AccessEntry). not (text_eq e.0 k)) live,
)

pub length-remove_soonest :
    (e : Text × AccessEntry) (live : AccessMap)
    → length (remove_soonest (e ∷ live)) < length (e ∷ live)
unfolding remove_soonest
length-remove_soonest e live =
    length-remove (soonest_from e live).0 (e ∷ live)
      (Among-member (soonest_from e live) (e ∷ live) (soonest_from-Among e live))

pub length-evict :
    (fuel : ℕ) (live : AccessMap) → length live ≤ fuel → length (evict fuel live) < 64
unfolding evict
length-evict zero [] h = omega arith
length-evict (suc fuel) [] h = omega arith
length-evict zero (e ∷ live) h = absurd (omega arith)
length-evict (suc fuel) (e ∷ live) h =
    ground (arith, length-remove_soonest e live, length-evict fuel (remove_soonest (e ∷ live)))
