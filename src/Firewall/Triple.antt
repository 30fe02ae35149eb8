-- ===== src/Firewall/Triple.antt =====
-- What a method of the firewall manager ensures: one rule for each way to build a method.
use asc_daemon.Prelude.{◌≡◌, refl, Bool, true, false, if◌then◌else◌}
use asc_daemon.Failure.{ModuleError, Result, ok, err}
use asc_daemon.Firewall.Host.{Host, World, Op, pure, raise, proceed, ◌>>=◌}

-- `Q` of the value and the world after a success, `E` of the world after an error
abbrev pub Ends :
    {h : Host} {A : Type 0}
    → (A → World h → Type 0)
    → (World h → Type 0)
    → Result A
    → World h
    → Type 0
Ends Q E (ok a) w = Q a w
Ends Q E (err e) w = E w

pub record Triple {h : Host} {A : Type 0} (P : World h → Type 0) (m : Op h A)
    (Q : A → World h → Type 0) (E : World h → Type 0) : Type 0 where
  pub at : (w : World h) → P w → Ends Q E (m w).0 (m w).1

module _ {h : Host} {A : Type 0} {P : World h → Type 0} {Q : A → World h → Type 0}
    {E : World h → Type 0} where
  pub Triple-pure : (a : A) → ((w : World h) → P w → Q a w) → Triple P (pure a) Q E
  unfolding pure
  Triple-pure a k = record { at = k }

  pub Triple-raise :
      (e : ModuleError) → ((w : World h) → P w → E w) → Triple P (raise {A = A} e) Q E
  unfolding raise
  Triple-raise e k = record { at = k }

  pub Triple-if :
      (b : Bool) (m n : Op h A)
      → (b ≡ true → Triple P m Q E)
      → (b ≡ false → Triple P n Q E)
      → Triple P (if b then m else n) Q E
  Triple-if true m n km kn = km refl
  Triple-if false m n km kn = kn refl

module _ {h : Host} {A B : Type 0} {R : A → World h → Type 0} {Q : B → World h → Type 0}
    {E : World h → Type 0} where
  proceed-Ends :
      (f : A → Op h B)
      → ((a : A) → Triple (R a) (f a) Q E)
      → (r : Result A) (w : World h) → Ends R E r w
      → Ends Q E (proceed r f w).0 (proceed r f w).1
  proceed-Ends f k (ok a) w x = (k a).at w x
  proceed-Ends f k (err e) w x = x

  pub Triple-bind :
      {P : World h → Type 0} (m : Op h A) (f : A → Op h B)
      → Triple P m R E
      → ((a : A) → Triple (R a) (f a) Q E)
      → Triple P (m >>= f) Q E
  unfolding ◌>>=◌
  Triple-bind m f t k = record { at = λ w p. proceed-Ends f k (m w).0 (m w).1 (t.at w p) }
