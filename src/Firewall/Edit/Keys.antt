-- ===== src/Firewall/Edit/Keys.antt =====
-- Lists whose items have different keys, under the edits of src/daemon/firewall/mod.rs.
use asc_daemon.Prelude.{
  ◌+◌, ◌≤◌, ◌<◌, ◌==◌, ◌||◌, text_eq_sound, ◌≡◌, refl, Bool, true, false, not, Text, List, [], ◌∷◌,
  ◌++◌, arith, text_eq, text_eq_iff, if◌then◌else◌, length, length-append, length-retain-le, retain,
  Bool-cases, inl, inr,
}
use asc_daemon.Firewall.Edit.{has_key, replace_first, put, without}

module _ {A : Type 0} (key : A → Text) where
  -- No two items have the same key.
  abbrev pub Distinct : List A → Type 0
  Distinct [] = Unit
  Distinct (a ∷ l) = (has_key key (key a) l ≡ false) × Distinct l

  has_key-retain :
      (p : A → Bool) (k : Text) (l : List A)
      → has_key key k l ≡ false
      → has_key key k (retain p l) ≡ false
  unfolding has_key
  has_key-retain p k [] h = refl
  has_key-retain p k (a ∷ l) h = ground (arith, has_key-retain p k l)

  pub Distinct-retain : (p : A → Bool) (l : List A) → Distinct l → Distinct (retain p l)
  Distinct-retain p [] h = tt
  Distinct-retain p (a ∷ l) (h, d) = elim (Bool-cases (p a)) [
    | inl y ↦ rw y (has_key-retain p (key a) l h, Distinct-retain p l d)
    | inr n ↦ rw n (Distinct-retain p l d)
  ]

  has_key-replace_first :
      (k : Text) (a : A) (l : List A) → has_key key k (replace_first key a l) ≡ has_key key k l
  unfolding has_key replace_first
  has_key-replace_first k a [] = refl
  has_key-replace_first k a (b ∷ l) = ground (
    arith,
    has_key-replace_first k a l,
    text_eq_iff (key b) (key a),
    text_eq_iff (key a) k,
    text_eq_iff (key b) k,
  )

  replace_first-cons :
      (a b : A) (l : List A)
      → replace_first key a (b ∷ l)
        ≡ (if text_eq (key b) (key a) then a ∷ l else b ∷ replace_first key a l)
  unfolding replace_first
  replace_first-cons a b l = refl

  Distinct-replace_first : (a : A) (l : List A) → Distinct l → Distinct (replace_first key a l)
  Distinct-replace_first a [] h = unfold replace_first in tt
  Distinct-replace_first a (b ∷ l) (h, d) = elim (Bool-cases (text_eq (key b) (key a))) [
    | inl y ↦ rw (replace_first-cons, y) (rw (← text_eq_sound (key b) (key a) y) h, d)
    | inr n ↦ rw (replace_first-cons, n) (rw has_key-replace_first h, Distinct-replace_first a l d)
  ]

  has_key-snoc :
      (k : Text) (a : A) (l : List A)
      → text_eq (key a) k ≡ false
      → has_key key k l ≡ false
      → has_key key k (l ++ a ∷ []) ≡ false
  unfolding has_key
  has_key-snoc k a [] n h = rw n
  has_key-snoc k a (b ∷ l) n h = ground (arith, has_key-snoc k a l n)

  Distinct-snoc :
      (a : A) (l : List A) → has_key key (key a) l ≡ false → Distinct l → Distinct (l ++ a ∷ [])
  unfolding has_key
  Distinct-snoc a [] h d = (refl, tt)
  Distinct-snoc a (b ∷ l) h (hb, d) = (
    has_key-snoc (key b) a l
        (ground (arith, text_eq_iff (key b) (key a), text_eq_iff (key a) (key b))) hb,
    Distinct-snoc a l (ground arith) d,
  )

  pub Distinct-put : (a : A) (l : List A) → Distinct l → Distinct (put key a l)
  unfolding put
  Distinct-put a l d = elim (Bool-cases (has_key key (key a) l)) [
    | inl y ↦ rw y (Distinct-replace_first a l d)
    | inr n ↦ rw n (Distinct-snoc a l n d)
  ]

  length-replace_first : (a : A) (l : List A) → length (replace_first key a l) ≡ length l
  unfolding replace_first
  length-replace_first a [] = refl
  length-replace_first a (b ∷ l) = ground (arith, length-replace_first a l)

  pub length-put :
      (a : A) (l : List A)
      → length (put key a l) ≡ (if has_key key (key a) l then length l else length l + 1)
  unfolding put
  length-put a l = ground (arith, length-replace_first a l, length-append l (a ∷ []))

  pub Distinct-without : (k : Text) (l : List A) → Distinct l → Distinct (without key k l)
  unfolding without
  Distinct-without k l d = Distinct-retain _ l d

  pub length-without-le : (k : Text) (l : List A) → length (without key k l) ≤ length l
  unfolding without
  length-without-le k l = length-retain-le _ l

  -- The edited list has the new item under its key.
  has_key-append :
      (k : Text) (a : A) (l : List A)
      → has_key key k (l ++ a ∷ []) ≡ (text_eq (key a) k || has_key key k l)
  unfolding has_key
  has_key-append k a [] = ground arith
  has_key-append k a (b ∷ l) = ground (arith, has_key-append k a l)

  -- an item that is replaced had the key of the new one
  has_key_equal :
      (k k' : Text) (l : List A) → text_eq k k' ≡ true → has_key key k l ≡ has_key key k' l
  has_key_equal k k' l e = rw (text_eq_sound k k' e)

  pub has_key-put :
      (k : Text) (a : A) (l : List A)
      → has_key key k (put key a l) ≡ (text_eq (key a) k || has_key key k l)
  unfolding put
  has_key-put k a l =
      ground (arith, has_key-replace_first k a l, has_key-append k a l, has_key_equal (key a) k l)

  pub has_key-without : (k : Text) (l : List A) → has_key key k (without key k l) ≡ false
  unfolding without has_key
  has_key-without k [] = refl
  has_key-without k (a ∷ l) = ground (arith, has_key-without k l)

  length-without :
      (k : Text) (l : List A) → has_key key k l ≡ false → length (without key k l) ≡ length l
  unfolding without has_key
  length-without k [] e = refl
  length-without k (a ∷ l) e = ground (arith, length-without k l)

  length-without_lt :
      (k : Text) (l : List A) → has_key key k l ≡ true → length (without key k l) < length l
  unfolding without has_key
  length-without_lt k [] e = cc
  length-without_lt k (a ∷ l) e =
      ground (arith, length-without_lt k l, length-retain-le (λ a. not (text_eq (key a) k)) l)

  -- A removal makes the list shorter exactly if some item has the key.
  pub length-without_iff :
      (k : Text) (l : List A) → not (length (without key k l) == length l) ≡ has_key key k l
  length-without_iff k l = ground (arith, length-without k l, length-without_lt k l)
