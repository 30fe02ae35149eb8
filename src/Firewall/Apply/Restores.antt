-- ===== src/Firewall/Apply/Restores.antt =====
-- src/daemon/firewall/mod.rs: the rollback script, through all the steps of `apply` and `apply_raw`.
use asc_daemon.Firewall.Presets.{Facts}
use asc_daemon.Prelude.{ℕ, ◌≡◌, ◌≢◌, refl, Bool, true, false, Text}
use asc_daemon.Failure.{ModuleError}
use asc_daemon.Firewall.Model.{managed, raw}
use asc_daemon.Firewall.Host.{Host, State, World, Op, pure, gets, modify, require, unix_now, ◌>>=◌}
use asc_daemon.Firewall.Files.{stored_state, load_state, load_pending}
use asc_daemon.Firewall.Triple.{Ends, Triple, Triple-bind}
use asc_daemon.Firewall.Apply.{
  mode_eq, require_nft, require_no_pending, rollback_for, apply, apply_raw,
}
use asc_daemon.Firewall.Apply.Rollback.{
  Faithful, RestoresTable, RestoresRuleset, Awaits, Any, Triple-Any, rollback_for-RestoresTable,
  rollback_for-RestoresRuleset, overview-Awaits, submit-Awaits,
}

module _ {h : Host} where
  Triple-require :
      (P : World h → Type 0) (b : Bool) (e : ModuleError) → Triple P (require b e) (λ _. P) Any
  unfolding require
  Triple-require P true e = record { at = λ w p. p }
  Triple-require P false e = record { at = λ w p. tt }

  Triple-gets :
      {A : Type 0} (P : World h → Type 0) (f : World h → A) → Triple P (gets f) (λ _. P) Any
  unfolding gets
  Triple-gets P f = record { at = λ w p. p }

  -- what is known of no world in particular
  Triple-given :
      {A : Type 0} (P : Type 0) (m : Op h A) (Q : A → World h → Type 0)
      → (P → Triple Any m Q Any)
      → Triple (λ _. P) m Q Any
  Triple-given P m Q k = record { at = λ w p. (k p).at w tt }

  require_nft-Triple : (P : World h → Type 0) → Triple P require_nft (λ _. P) Any
  unfolding require_nft
  require_nft-Triple P = record { at = λ w p. (Triple-require P (h.installed w.machine) _).at w p }

  require_no_pending-Triple : (P : World h → Type 0) → Triple P require_no_pending (λ _. P) Any
  unfolding require_no_pending load_pending
  require_no_pending-Triple P = Triple-bind _ _ (Triple-gets P _) λ o. Triple-require P _ _

  module _ (m : h.Machine) where
    abbrev On : World h → Type 0
    On w = w.machine ≡ m

    load_state-On : Triple On load_state (λ _. On) Any
    unfolding load_state gets modify pure ◌>>=◌
    load_state-On = record { at = λ w e. e }

    unix_now-On : Triple On unix_now (λ _. On) Any
    unfolding unix_now
    unix_now-On = record { at = λ w e. e }

    abbrev OnTame : World h → Type 0
    OnTame w = (w.machine ≡ m) × (mode_eq (stored_state w.state_file).mode raw ≡ false)

    abbrev OnState : State → World h → Type 0
    OnState s w = (w.machine ≡ m) × (mode_eq s.mode raw ≡ false)

    load_state-OnTame : Triple OnTame load_state OnState Any
    unfolding load_state gets modify pure ◌>>=◌
    load_state-OnTame = record { at = λ w e. e }

    unix_now-OnState : (s : State) → Triple (OnState s) unix_now (λ _. OnState s) Any
    unfolding unix_now
    unix_now-OnState s = record { at = λ w e. e }

    rollback_for-OnState :
        Faithful h
        → (s : State)
        → Triple (OnState s) (rollback_for s managed) (λ back _. RestoresTable h m back) Any
    rollback_for-OnState f s = record {
      at = λ w (e, tame). (rollback_for-RestoresTable f s m tame).at w e;
    }

    apply-Awaits :
        Faithful h
        → (facts : Facts) (timeout : ℕ) (force : Bool) → timeout ≢ 0
        → Triple OnTame
            (apply facts timeout force)
            (λ _. Awaits managed timeout (RestoresTable h m))
            Any
    unfolding apply
    apply-Awaits f facts timeout force window = Triple-bind _ _ (Triple-require OnTame _ _) λ _.
        Triple-bind _ _ (require_nft-Triple OnTame) λ _.
          Triple-bind _ _ (require_no_pending-Triple OnTame) λ _.
            Triple-bind _ _ load_state-OnTame λ s. Triple-bind _ _ (Triple-gets (OnState s) _) λ cs.
              Triple-bind _ _ (Triple-require (OnState s) _ _) λ _.
                Triple-bind _ _ (unix_now-OnState s) λ now.
                  Triple-bind _ _ (rollback_for-OnState f _) λ back.
                    Triple-given (RestoresTable h m back) _ _ λ restores.
                      Triple-bind _ _ (Triple-Any Any _) λ _.
                        Triple-bind _ _ (Triple-Any Any _) λ _.
                          Triple-bind _ _ (Triple-Any Any _) λ _.
                            Triple-bind _ _
                              (submit-Awaits managed timeout (RestoresTable h m) _ _ window refl
                                restores)
                              λ _. overview-Awaits managed timeout (RestoresTable h m) facts

    apply_raw-Awaits :
        Faithful h
        → (facts : Facts) (text : Text) (ack_risk : Bool) (timeout : ℕ) → timeout ≢ 0
        → Triple On
            (apply_raw facts text ack_risk timeout)
            (λ _. Awaits raw timeout (RestoresRuleset h m))
            Any
    unfolding apply_raw
    apply_raw-Awaits f facts text ack_risk timeout window =
        Triple-bind _ _ (Triple-require On _ _) λ _. Triple-bind _ _ (Triple-require On _ _) λ _.
          Triple-bind _ _ (Triple-require On _ _) λ _. Triple-bind _ _ (Triple-require On _ _) λ _.
            Triple-bind _ _ (require_nft-Triple On) λ _.
              Triple-bind _ _ (require_no_pending-Triple On) λ _. Triple-bind _ _ load_state-On λ s.
                Triple-bind _ _ (rollback_for-RestoresRuleset f s m) λ back.
                  Triple-given (RestoresRuleset h m back) _ _ λ restores.
                    Triple-bind _ _ (Triple-Any Any _) λ _.
                      Triple-bind _ _
                        (submit-Awaits raw timeout (RestoresRuleset h m) _ _ window refl restores)
                        λ _. overview-Awaits raw timeout (RestoresRuleset h m) facts

-- Where nft lists faithfully: when `apply` with a window succeeds on a host that is not in RAW
-- mode, the change waits for confirmation in pending.json with a deadline `timeout` seconds after
-- its start, and its rollback script, from whatever ruleset nft loads it, brings back the managed
-- table, or its absence, as it was listed before `apply`.
pub apply_can_be_undone :
    {h : Host} (f : Faithful h) (facts : Facts) (timeout : ℕ) (force : Bool) (w : World h)
    → timeout ≢ 0
    → mode_eq (stored_state w.state_file).mode raw ≡ false
    → Ends
        (λ _. Awaits managed timeout (RestoresTable h w.machine))
        Any
        (apply facts timeout force w).0
        (apply facts timeout force w).1
apply_can_be_undone f facts timeout force w window tame =
    (apply-Awaits w.machine f facts timeout force window).at w (refl, tame)

-- The same of `apply_raw`, in every mode, and of the whole ruleset.
pub apply_raw_can_be_undone :
    {h : Host} (f : Faithful h) (facts : Facts) (text : Text) (ack_risk : Bool) (timeout : ℕ)
    (w : World h)
    → timeout ≢ 0
    → Ends
        (λ _. Awaits raw timeout (RestoresRuleset h w.machine))
        Any
        (apply_raw facts text ack_risk timeout w).0
        (apply_raw facts text ack_risk timeout w).1
apply_raw_can_be_undone f facts text ack_risk timeout w window =
    (apply_raw-Awaits w.machine f facts text ack_risk timeout window).at w refl
