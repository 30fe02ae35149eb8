-- ===== src/Failure.antt =====
-- src/daemon/exec.rs: what an operation of the daemon returns, and the classes of its errors.
use asc_daemon.Prelude.{Bool, true, false, ◌≡◌, refl}

-- `ModuleError`, and the plain `anyhow` errors (`internal`).
pub data ModuleError : Type 0 where
  not_found invalid precondition internal : ModuleError

pub data Result {ℓ} (A : Type ℓ) : Type ℓ where
  ok : A → Result A
  err : ModuleError → Result A

abbrev pub is_err {ℓ} : {A : Type ℓ} → Result A → Bool
is_err (ok a) = false
is_err (err e) = true

abbrev pub guard : Bool → ModuleError → Result (Unit {0})
guard test e = elim test [ true ↦ ok tt | false ↦ err e ]

-- `?` after a value, and after a check
infixl 5 ◌>>=◌ ◌>>◌
abbrev pub ◌>>=◌ {ℓ κ} : {A : Type ℓ} {B : Type κ} → Result A → (A → Result B) → Result B
r >>= f = elim r [ ok a ↦ f a | err e ↦ err e ]

abbrev pub ◌>>◌ {ℓ} : {B : Type ℓ} → Result (Unit {0}) → Result B → Result B
r >> k = elim r [ ok _ ↦ k | err e ↦ err e ]

-- `P` of the value, where there is one.
abbrev pub Holds {ℓ κ} : {A : Type ℓ} → (A → Type κ) → Result A → Type κ
Holds P (ok a) = P a
Holds P (err e) = Unit

pub Holds-trivial {ℓ} : {A : Type ℓ} (r : Result A) → Holds (λ _. Unit {0}) r
Holds-trivial (ok a) = tt
Holds-trivial (err e) = tt

pub Holds-bind {ℓ κ} :
    {A B : Type ℓ} (P : A → Type κ) (Q : B → Type κ) (r : Result A) (f : A → Result B)
    → Holds P r
    → ((a : A) → P a → Holds Q (f a))
    → Holds Q (r >>= f)
Holds-bind P Q (ok a) f h k = k a h
Holds-bind P Q (err e) f h k = tt

pub Holds-guard {ℓ κ} :
    {B : Type ℓ} (Q : B → Type κ) (test : Bool) (e : ModuleError) (r : Result B)
    → (test ≡ true → Holds Q r)
    → Holds Q (guard test e >> r)
Holds-guard Q true e r k = k refl
Holds-guard Q false e r k = tt

pub Holds-check {ℓ κ} :
    {B : Type ℓ} (Q : B → Type κ) (check : Result (Unit {0})) (r : Result B)
    → (check ≡ ok tt → Holds Q r)
    → Holds Q (check >> r)
Holds-check Q (ok u) r k = k refl
Holds-check Q (err e) r k = tt

-- what is returned, with the equation for it
pub Holds-self {ℓ κ} :
    {A : Type ℓ} (P : A → Type κ) (r : Result A) → Holds P r → Holds (λ a. (r ≡ ok a) × P a) r
Holds-self P (ok a) h = (refl, h)
Holds-self P (err e) h = tt

pub Holds-map {ℓ κ} :
    {A : Type ℓ} (P Q : A → Type κ) (r : Result A) → ((a : A) → P a → Q a) → Holds P r → Holds Q r
Holds-map P Q (ok a) k h = k a h
Holds-map P Q (err e) k h = tt
