-- ===== src/Firewall/Apply/Rollback.antt =====
-- The way back of a change: what `apply` and `apply_raw` save before the kernel gets the new rules.
use asc_daemon.Firewall.Presets.{Facts}
use asc_daemon.Prelude.{
  ap, sym, ◌∙◌, ℕ, ◌+◌, ◌≡◌, ◌≢◌, refl, false, Option, none, some, Text, arith, ◌==◌, Bool-cases,
  Option-cases, inl, inr,
}
use asc_daemon.Failure.{Result, ok, err, internal}
use asc_daemon.Firewall.Model.{Mode, managed, raw}
use asc_daemon.Firewall.Host.{
  Host, holds, State, Pending, World, Op, pure, raise, gets, lift, modify, attempt, unix_now,
  new_id, ◌>>=◌,
}
use asc_daemon.Firewall.Files.{
  load_state, save_pending, load_pending, clear_pending, nft_apply, nft_check, replace_script,
  remove_script,
}
use asc_daemon.Firewall.Triple.{Ends, Triple, Triple-bind, Triple-if}
use asc_daemon.Firewall.Apply.{
  Change, mode_eq, previous_table, flush_script, overview, rollback_for, arm, apply_or_clear,
  submit_pending, submit,
}

-- What the manager relies on of nft: a listed table that is put back is listed again as it was, a
-- removed table is listed no more, and a whole ruleset that is loaded again is listed as it was.
pub record Faithful (h : Host) : Type 0 where
  pub table_back :
      (m n m' : h.Machine) (t : Text)
      → h.list_table m ≡ some (some t)
      → h.load (replace_script t) n ≡ some m'
      → h.list_table m' ≡ some (some t)
  pub table_gone :
      (n m' : h.Machine) → h.load remove_script n ≡ some m' → h.list_table m' ≡ some none
  pub ruleset_back :
      (m n m' : h.Machine) (t : Text)
      → h.list_ruleset m ≡ some t
      → h.load (flush_script t) n ≡ some m'
      → h.list_ruleset m' ≡ some t

abbrev table_script : Option (Option Text) → Result Text
table_script none = err internal
table_script (some listed) = ok (previous_table listed)

abbrev ruleset_script : Option Text → Result Text
ruleset_script none = err internal
ruleset_script (some dump) = ok (flush_script dump)

module _ (h : Host) where
  -- From whatever ruleset the script is loaded, the managed table is then the one of `m`.
  abbrev pub RestoresTable : h.Machine → Text → Type 0
  RestoresTable m script =
      (n m' : h.Machine) → h.load script n ≡ some m' → h.list_table m' ≡ h.list_table m

  -- the same for the whole ruleset
  abbrev pub RestoresRuleset : h.Machine → Text → Type 0
  RestoresRuleset m script =
      (n m' : h.Machine) → h.load script n ≡ some m' → h.list_ruleset m' ≡ h.list_ruleset m

module _ {h : Host} where
  -- A change to `target` waits in `w` for its confirmation, with a way back of which `Back` holds.
  pub record Awaits (target : Mode) (timeout : ℕ) (Back : Text → Type 0) (w : World h)
      : Type 0 where
    pub change : Pending
    pub saved : w.pending_file ≡ holds change
    pub mode : change.target_mode ≡ target
    pub window : change.deadline_unix ≡ change.started_unix + timeout
    pub back : Back change.rollback

  abbrev pub Any : World h → Type 0
  Any w = Unit

  pub Triple-Any : {A : Type 0} (P : World h → Type 0) (m : Op h A) → Triple P m (λ _. Any) Any
  Triple-Any {A} P m = record { at = λ w p. go (m w).0 (m w).1 }
    where
      go : (r : Result A) (w : World h) → Ends (λ _. Any) Any r w
      go (ok a) w = tt
      go (err e) w = tt

  rollback_for-managed :
      (s : State) (w : World h)
      → mode_eq s.mode raw ≡ false
      → rollback_for s managed w ≡ (table_script (h.list_table w.machine), w)
  unfolding rollback_for mode_eq gets lift pure ◌>>=◌
  rollback_for-managed s w not_raw = ground arith

  rollback_for-raw :
      (s : State) (w : World h)
      → rollback_for s raw w ≡ (ruleset_script (h.list_ruleset w.machine), w)
  unfolding rollback_for mode_eq gets lift pure ◌>>=◌
  rollback_for-raw s w = ground arith

  table_script-RestoresTable :
      Faithful h
      → (m : h.Machine) (w : World h) (o : Option (Option Text)) → h.list_table m ≡ o
      → Ends (λ back _. RestoresTable h m back) Any (table_script o) w
  table_script-RestoresTable f m w none e = tt
  table_script-RestoresTable f m w (some none) e = λ n m' l. f.table_gone n m' l ∙ sym e
  table_script-RestoresTable f m w (some (some t)) e = λ n m' l. f.table_back m n m' t e l ∙ sym e

  ruleset_script-RestoresRuleset :
      Faithful h
      → (m : h.Machine) (w : World h) (o : Option Text) → h.list_ruleset m ≡ o
      → Ends (λ back _. RestoresRuleset h m back) Any (ruleset_script o) w
  ruleset_script-RestoresRuleset f m w none e = tt
  ruleset_script-RestoresRuleset f m w (some t) e = λ n m' l. f.ruleset_back m n m' t e l ∙ sym e

  pub rollback_for-RestoresTable :
      Faithful h
      → (s : State) (m : h.Machine) → mode_eq s.mode raw ≡ false
      → Triple (λ w. w.machine ≡ m) (rollback_for s managed) (λ back _. RestoresTable h m back) Any
  rollback_for-RestoresTable f s m not_raw = record {
    at = λ w e.
        rw (rollback_for-managed s w not_raw)
          (table_script-RestoresTable f m w _ (ap h.list_table (sym e)));
  }

  pub rollback_for-RestoresRuleset :
      Faithful h
      → (s : State) (m : h.Machine)
      → Triple (λ w. w.machine ≡ m) (rollback_for s raw) (λ back _. RestoresRuleset h m back) Any
  rollback_for-RestoresRuleset f s m = record {
    at = λ w e.
        rw (rollback_for-raw s w)
          (ruleset_script-RestoresRuleset f m w _ (ap h.list_ruleset (sym e)));
  }

  arm-Awaits :
      (target : Mode) (timeout : ℕ) (Back : Text → Type 0) (id : Text) (t : ℕ)
      → Triple (Awaits target timeout Back) (arm id t) (λ _. Awaits target timeout Back) Any
  unfolding arm modify
  arm-Awaits target timeout Back id t = record {
    at = λ w a. record {
      change = a.change;
      saved = a.saved;
      mode = a.mode;
      window = a.window;
      back = a.back;
    };
  }

  pub overview-Awaits :
      (target : Mode) (timeout : ℕ) (Back : Text → Type 0) (facts : Facts)
      → Triple (Awaits target timeout Back) (overview facts) (λ _. Awaits target timeout Back) Any
  unfolding overview load_state load_pending modify gets pure unix_now ◌>>=◌
  overview-Awaits target timeout Back facts = record {
    at = λ w a. record {
      change = a.change;
      saved = a.saved;
      mode = a.mode;
      window = a.window;
      back = a.back;
    };
  }

  apply_or_clear-some :
      (script : Text) (w : World h) (m : h.Machine)
      → h.load script w.machine ≡ some m
      → apply_or_clear script w ≡ (ok tt, record w { machine = m })
  unfolding apply_or_clear nft_apply modify
  apply_or_clear-some script w m e = ground (arith, e)

  apply_or_clear-none :
      (script : Text) (w : World h)
      → h.load script w.machine ≡ none
      → (apply_or_clear script w).0 ≡ err internal
  unfolding apply_or_clear nft_apply clear_pending raise ◌>>=◌
  apply_or_clear-none script w e = ground (arith, e)

  module _ (target : Mode) (timeout : ℕ) (Back : Text → Type 0) where
    apply_or_clear-Awaits :
        (script : Text)
        → Triple
            (Awaits target timeout Back)
            (apply_or_clear script)
            (λ _. Awaits target timeout Back)
            Any
    apply_or_clear-Awaits script = record {
      at = λ w a. elim (Option-cases (h.load script w.machine)) [
        | inl e ↦ rw (apply_or_clear-none script w e) tt
        | inr (m, e) ↦ rw (apply_or_clear-some script w m e) (record {
          change = a.change;
          saved = a.saved;
          mode = a.mode;
          window = a.window;
          back = a.back;
        })
      ];
    }

    save_pending-Awaits :
        (p : Pending)
        → p.target_mode ≡ target
        → p.deadline_unix ≡ p.started_unix + timeout
        → Back p.rollback
        → Triple Any (save_pending p) (λ _. Awaits target timeout Back) Any
    unfolding save_pending attempt
    save_pending-Awaits p mode window back = record {
      at = λ w _. elim (Bool-cases (h.fails w.step)) [
        | inl y ↦ rw (y, save_pending, attempt) tt
        | inr n ↦
            rw (n, save_pending, attempt)
              (record { change = p; saved = refl; mode = mode; window = window; back = back })
      ];
    }

    -- What `submit` leaves behind when it succeeds with a window.
    pub submit-Awaits :
        (s : State) (change : Change)
        → timeout ≢ 0
        → change.target_mode ≡ target
        → Back change.rollback
        → Triple Any (submit s change timeout) (λ _. Awaits target timeout Back) Any
    unfolding submit submit_pending
    submit-Awaits s change window mode back =
        Triple-bind _ _ (Triple-Any Any (nft_check change.script)) λ _.
          Triple-if (timeout == 0) _ _ (λ e. absurd (window (ground arith)))
            λ _. Triple-bind _ _ (Triple-Any Any unix_now) λ now.
              Triple-bind _ _ (Triple-Any Any (new_id _)) λ id.
                Triple-bind _ _ (save_pending-Awaits _ mode refl back) λ _.
                  Triple-bind _ _ (apply_or_clear-Awaits change.script)
                    λ _. arm-Awaits target timeout Back id _
