-- ===== src/Firewall/Edit/Keeps.antt =====
-- The rules by which a method of the manager keeps the limits of the stored model.
use asc_daemon.Prelude.{
  suc, Bool-cases, inl, inr, ◌≡◌, refl, Bool, true, false, Text, if◌then◌else◌,
}
use asc_daemon.Failure.{ModuleError, Result, ok, err, Holds}
use asc_daemon.Firewall.Host.{
  Host, Stored, missing, corrupt, holds, State, World, Op, pure, raise, lift, require, unix_now,
  new_id, attempt, modify, gets, try_to, proceed, ◌>>=◌, ◌>>◌,
}
use asc_daemon.Firewall.Files.{stored_state, set_aside, load_state, save_state}
use asc_daemon.Firewall.Edit.Bounds.{IsBounded}

module _ {h : Host} where
  abbrev pub Inv : World h → Type 0
  Inv w = IsBounded (stored_state w.state_file).model

-- A method that keeps the model within its limits, whether it succeeds or fails.
pub record Keeps {h : Host} {A : Type 0} (m : Op h A) : Type 0 where
  pub at : (w : World h) → Inv w → Inv (m w).1

module _ {h : Host} {A : Type 0} where
  -- state.json stays as it is
  pub Keeps-same : (m : Op h A) → ((w : World h) → (m w).1.state_file ≡ w.state_file) → Keeps m
  Keeps-same m e = record { at = λ w i. rw (e w) i }

  pub Keeps-pure : (a : A) → Keeps (pure {h = h} a)
  unfolding pure
  Keeps-pure a = record { at = λ w i. i }

  pub Keeps-raise : (e : ModuleError) → Keeps (raise {h = h} {A = A} e)
  unfolding raise
  Keeps-raise e = record { at = λ w i. i }

  pub Keeps-if : (b : Bool) (m n : Op h A) → Keeps m → Keeps n → Keeps (if b then m else n)
  Keeps-if true m n km kn = km
  Keeps-if false m n km kn = kn

  -- a step of which the rest uses nothing
  pub Keeps-bind :
      {B : Type 0} (m : Op h B) (f : B → Op h A)
      → Keeps m
      → ((b : B) → Keeps (f b))
      → Keeps (m >>= f)
  unfolding ◌>>=◌
  Keeps-bind {B} m f km kf = record { at = λ w i. go (m w).0 (m w).1 (km.at w i) }
    where
      go : (r : Result B) (w : World h) → Inv w → Inv (proceed r f w).1
      go (ok b) w i = (kf b).at w i
      go (err e) w i = i

  pub Keeps-lift :
      {B : Type 0} (P : B → Type 0) (r : Result B) (f : B → Op h A)
      → Holds P r
      → ((b : B) → P b → Keeps (f b))
      → Keeps (lift r >>= f)
  unfolding lift ◌>>=◌
  Keeps-lift P (ok b) f p kf = record { at = (kf b p).at }
  Keeps-lift P (err e) f p kf = record { at = λ w i. i }

  pub Keeps-require :
      (b : Bool) (e : ModuleError) (m : Op h A) → (b ≡ true → Keeps m) → Keeps (require b e >> m)
  unfolding require ◌>>=◌
  Keeps-require true e m k = record { at = (k refl).at }
  Keeps-require false e m k = record { at = λ w i. i }

  -- the state that is read is within the limits
  pub Keeps-load :
      (f : State → Op h A)
      → ((s : State) → IsBounded s.model → Keeps (f s))
      → Keeps (load_state >>= f)
  unfolding load_state modify gets pure ◌>>=◌
  Keeps-load f kf = record {
    at = λ w i. (kf (stored_state w.state_file) i).at _ (aside w.state_file i);
  }
    where
      aside :
          (f : Stored State)
          → IsBounded (stored_state f).model
          → IsBounded (stored_state (set_aside f)).model
      aside missing i = i
      aside corrupt i = i
      aside (holds s) i = i

module _ {h : Host} where
  attempt-Inv :
      (f : World h → World h) (w : World h)
      → Inv w
      → Inv (f (record w { step = suc w.step }))
      → Inv (attempt f w).1
  unfolding attempt
  attempt-Inv f w i j = elim (Bool-cases (h.fails w.step)) [
    | inl y ↦ rw (y, attempt) i
    | inr n ↦ rw (n, attempt) j
  ]

  pub Keeps-save : (s : State) → IsBounded s.model → Keeps (save_state {h = h} s)
  unfolding save_state
  Keeps-save s b = record { at = λ w i. attempt-Inv (λ w. record w { state_file = holds s }) w i b }

  -- a step that reads, or that changes something else
  pub Keeps-attempt :
      (f : World h → World h)
      → ((w : World h) → (f w).state_file ≡ w.state_file)
      → Keeps (attempt f)
  Keeps-attempt f e = record { at = λ w i. attempt-Inv f w i (rw e i) }

  pub Keeps-try :
      (f : World h → World h) → ((w : World h) → (f w).state_file ≡ w.state_file) → Keeps (try_to f)
  unfolding try_to
  Keeps-try f e = record {
    at = λ w i. elim (Bool-cases (h.fails w.step)) [
      | inl y ↦ rw (y, try_to) i
      | inr n ↦ rw (n, try_to, e) i
    ];
  }

  pub Keeps-modify :
      (f : World h → World h) → ((w : World h) → (f w).state_file ≡ w.state_file) → Keeps (modify f)
  unfolding modify
  Keeps-modify f e = record { at = λ w i. rw e i }

  pub Keeps-gets : {A : Type 0} (f : World h → A) → Keeps (gets f)
  unfolding gets
  Keeps-gets f = record { at = λ w i. i }

  pub Keeps-unix_now : Keeps (unix_now {h = h})
  unfolding unix_now
  Keeps-unix_now = record { at = λ w i. i }

  pub Keeps-new_id : (prefix : Text) → Keeps (new_id {h = h} prefix)
  unfolding new_id
  Keeps-new_id prefix = record { at = λ w i. i }
