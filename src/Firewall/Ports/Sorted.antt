-- ===== src/Firewall/Ports/Sorted.antt =====
-- The order of the port ranges of a rule.
use asc_daemon.Prelude.{
  ◌≡◌, Bool, true, false, ◌&&◌, ◌||◌, List, [], ◌∷◌, arith, All, ltb, ◌==◌, if_split,
}
use asc_daemon.Firewall.Ports.{
  PortRange, range_leb, range_eq, insert_range, sort_ranges, dedup_after, dedup_ranges,
}

-- before another one in the order of `(from, to)`
abbrev pub range_ltb : PortRange → PortRange → Bool
range_ltb a b = ltb a.from b.from || (a.from == b.from && ltb a.to b.to)

module _ (test : PortRange → PortRange → Bool) where
  abbrev pub Ordered : List PortRange → Type 0
  Ordered [] = Unit
  Ordered (r ∷ l) = All (λ s. test r s ≡ true) l × Ordered l

pub All-imply :
    {P Q : PortRange → Type 0} (l : List PortRange)
    → ((r : PortRange) → P r → Q r)
    → All P l
    → All Q l
All-imply [] k a = tt
All-imply (r ∷ l) k a = (k r a.0, All-imply l k a.1)

module _ (P : PortRange → Type 0) where
  pub insert_range-All :
      (r : PortRange) (l : List PortRange) → P r → All P l → All P (insert_range r l)
  unfolding insert_range
  insert_range-All r [] p a = (p, tt)
  insert_range-All r (s ∷ l) p a =
      if_split (All P) (range_leb r s) _ _ (λ y. (p, a)) λ n. (a.0, insert_range-All r l p a.1)

  pub sort_ranges-All : (l : List PortRange) → All P l → All P (sort_ranges l)
  unfolding sort_ranges
  sort_ranges-All [] a = tt
  sort_ranges-All (r ∷ l) a = insert_range-All r (sort_ranges l) a.0 (sort_ranges-All l a.1)

  pub dedup_after-All : (s : PortRange) (l : List PortRange) → All P l → All P (dedup_after s l)
  unfolding dedup_after
  dedup_after-All s [] a = tt
  dedup_after-All s (t ∷ l) a =
      if_split (All P) (range_eq s t) _ _ (λ y. dedup_after-All s l a.1)
        λ n. (a.0, dedup_after-All t l a.1)

  pub dedup_ranges-All : (l : List PortRange) → All P l → All P (dedup_ranges l)
  unfolding dedup_ranges
  dedup_ranges-All [] a = tt
  dedup_ranges-All (r ∷ l) a = (a.0, dedup_after-All r l a.1)

leb_trans : (a b c : PortRange) → range_leb a b ≡ true → range_leb b c ≡ true → range_leb a c ≡ true
leb_trans a b c x y = ground arith

leb_total : (a b : PortRange) → range_leb a b ≡ false → range_leb b a ≡ true
leb_total a b x = ground arith

ltb_of_leb : (a b : PortRange) → range_leb a b ≡ true → range_eq a b ≡ false → range_ltb a b ≡ true
ltb_of_leb a b x y = ground arith

ltb_trans : (a b c : PortRange) → range_ltb a b ≡ true → range_leb b c ≡ true → range_ltb a c ≡ true
ltb_trans a b c x y = ground arith

insert_range-Ordered :
    (r : PortRange) (l : List PortRange)
    → Ordered range_leb l
    → Ordered range_leb (insert_range r l)
unfolding insert_range
insert_range-Ordered r [] o = (tt, tt)
insert_range-Ordered r (s ∷ l) o =
    if_split (Ordered range_leb) (range_leb r s) _ _
      (λ y. ((y, All-imply l (λ t le. leb_trans r s t y le) o.0), o))
      λ n. (
        insert_range-All (λ t. range_leb s t ≡ true) r l (leb_total r s n) o.0,
        insert_range-Ordered r l o.1,
      )

sort_ranges-Ordered : (l : List PortRange) → Ordered range_leb (sort_ranges l)
unfolding sort_ranges
sort_ranges-Ordered [] = tt
sort_ranges-Ordered (r ∷ l) = insert_range-Ordered r (sort_ranges l) (sort_ranges-Ordered l)

dedup_after-Ordered :
    (s : PortRange) (l : List PortRange)
    → Ordered range_leb (s ∷ l)
    → Ordered range_ltb (s ∷ dedup_after s l)
unfolding dedup_after
dedup_after-Ordered s [] o = (tt, tt)
dedup_after-Ordered s (t ∷ l) o =
    if_split (λ rest. Ordered range_ltb (s ∷ rest)) (range_eq s t) _ _
      (λ y. dedup_after-Ordered s l (o.0.1, o.1.1))
      λ n.
        let lt = ltb_of_leb s t o.0.0 n in
        (
          (
            lt,
            dedup_after-All (λ u. range_ltb s u ≡ true) t l
                (All-imply l (λ u le. ltb_trans s t u lt le) o.1.0),
          ),
          dedup_after-Ordered t l o.1,
        )

dedup_ranges-Ordered :
    (l : List PortRange) → Ordered range_leb l → Ordered range_ltb (dedup_ranges l)
unfolding dedup_ranges
dedup_ranges-Ordered [] o = tt
dedup_ranges-Ordered (r ∷ l) o = dedup_after-Ordered r l o

-- Sorted and without neighbours that are equal, the ranges are strictly increasing.
pub dedup_sorted-Ordered : (l : List PortRange) → Ordered range_ltb (dedup_ranges (sort_ranges l))
dedup_sorted-Ordered l = dedup_ranges-Ordered (sort_ranges l) (sort_ranges-Ordered l)
