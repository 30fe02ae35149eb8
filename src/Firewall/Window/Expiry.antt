-- ===== src/Firewall/Window/Expiry.antt =====
-- src/daemon/firewall/mod.rs: `expire`, and `confirm` by the clock.
use asc_daemon.Firewall.Presets.{Facts}
use asc_daemon.Prelude.{
  ℕ, suc, ◌<◌, ◌≤◌, ◌≡◌, true, false, none, some, Text, [], arith, ◌≢◌, ◌⊎◌, inl, inr, text_eq_refl,
  text_eq_iff, codes, ltb, if◌then◌else◌,
}
use asc_daemon.Failure.{ok, err, is_err, internal, precondition}
use asc_daemon.Firewall.Model.{Mode}
use asc_daemon.Firewall.Host.{Host, missing, Pending, World, require, unix_now, raise, ◌>>=◌}
use asc_daemon.Firewall.Files.{
  stored_state, stored_pending, load_pending, nft_apply, clear_pending, load_state, save_state,
}
use asc_daemon.Firewall.Window.{
  names, confirm_in_time, rollback_locked, save_note, confirm, confirm_pending, confirm_late,
  expire, expire_pending,
}

abbrev pub mode_of : {h : Host} → World h → Mode
mode_of w = (stored_state w.state_file).mode

module _ {h : Host} (p : Pending) (why : Text) (w : World h) where
  -- A rollback that nft refuses keeps the change pending, and the kernel as it is.
  pub rollback_locked_refused :
      h.load p.rollback w.machine ≡ none → rollback_locked p why w ≡ (err internal, w)
  unfolding rollback_locked nft_apply ◌>>=◌
  rollback_locked_refused e = ground (arith, e)

  pub rollback_locked_done :
      (m : h.Machine)
      → h.load p.rollback w.machine ≡ some m
      → (is_err (rollback_locked p why w).0 ≡ false)
        × ((rollback_locked p why w).1.machine ≡ m)
        × ((rollback_locked p why w).1.ruleset_file ≡ w.ruleset_file)
        × (mode_of (rollback_locked p why w).1 ≡ mode_of w)
        × ((rollback_locked p why w).1.pending_file
            ≡ (if h.fails w.step then w.pending_file else missing))
  unfolding rollback_locked nft_apply clear_pending load_state save_state save_note ◌>>=◌
  rollback_locked_done m e = ground (arith, e)

module _ {h : Host} (facts : Facts) (w : World h) (p : Pending)
    (waiting : stored_pending w.pending_file ≡ some p) where
  -- At or after the deadline of the pending change, if nft accepts its rollback script, the timer
  -- loads that script and reports it; the boot ruleset and the confirmed mode stay, and the change is
  -- no longer pending unless the removal of its file fails.
  pub expire_rolls_back :
      (now : ℕ) (m : h.Machine)
      → p.deadline_unix ≤ now
      → h.load p.rollback w.machine ≡ some m
      → ((expire p.id now w).0 ≡ ok true)
        × ((expire p.id now w).1.machine ≡ m)
        × ((expire p.id now w).1.ruleset_file ≡ w.ruleset_file)
        × (mode_of (expire p.id now w).1 ≡ mode_of w)
        × ((expire p.id now w).1.pending_file
            ≡ (if h.fails w.step then w.pending_file else missing))
  unfolding expire expire_pending load_pending rollback_locked nft_apply clear_pending load_state
      save_state save_note ◌>>=◌
  expire_rolls_back now m late e = ground (arith, waiting, e, text_eq_refl p.id)

  -- While a change is pending, the timer does nothing before its deadline, or for another change.
  pub expire_early :
      (id : Text) (now : ℕ)
      → (id ≢ p.id) ⊎ (now < p.deadline_unix)
      → expire id now w ≡ (ok false, w)
  unfolding expire expire_pending load_pending ◌>>=◌
  expire_early id now (inl other) = ground (arith, waiting, text_eq_iff p.id id)
  expire_early id now (inr early) = ground (arith, waiting)

abbrev pub ticked : {h : Host} → World h → World h
ticked w = record w { step = suc w.step }

pub names_pending : (id : Text) (p : Pending) → (id ≡ []) ⊎ (id ≡ p.id) → names id p ≡ true
names_pending id p (inl e) = ground (arith, e)
names_pending id p (inr e) = ground (arith, e, text_eq_refl p.id)

pub confirm_late_err : {h : Host} (p : Pending) (w : World h) → is_err (confirm_late p w).0 ≡ true
unfolding confirm_late raise ◌>>=◌
confirm_late_err p w = ground arith

confirm_late_done :
    {h : Host} (p : Pending) (w : World h) (m : h.Machine)
    → h.load p.rollback w.machine ≡ some m
    → ((confirm_late p w).0 ≡ err precondition)
      × ((confirm_late p w).1.machine ≡ m)
      × ((confirm_late p w).1.ruleset_file ≡ w.ruleset_file)
      × (mode_of (confirm_late p w).1 ≡ mode_of w)
unfolding confirm_late ◌>>=◌
confirm_late_done p w m e =
    ground (arith, rollback_locked_done p (codes "was not confirmed in time") w m e)

module _ {h : Host} (facts : Facts) (w : World h) (p : Pending)
    (waiting : stored_pending w.pending_file ≡ some p) where
  -- A confirmation of another change is refused, and changes nothing.
  pub confirm_other : (id : Text) → names id p ≡ false → confirm id facts w ≡ (err precondition, w)
  unfolding confirm confirm_pending load_pending require ◌>>=◌
  confirm_other id other = ground (arith, waiting)

  -- `confirm`, once the pending change is the one that is meant, goes by the clock alone.
  pub confirm_by_clock :
      (id : Text)
      → names id p ≡ true
      → confirm id facts w ≡ (
          if ltb p.deadline_unix (h.now w.step)
          then confirm_late p (ticked w)
          else confirm_in_time facts p (ticked w))
  unfolding confirm confirm_pending load_pending unix_now require ◌>>=◌
  confirm_by_clock id named = ground (arith, waiting)

  -- If nft accepts the rollback script, a confirmation of the pending change, by its id or by no id,
  -- that comes after the deadline fails and rolls the change back: the kernel has what nft makes of
  -- that script, and the boot ruleset and the mode are as they were.
  pub confirm_after_deadline :
      (id : Text) (m : h.Machine)
      → p.deadline_unix < h.now w.step
      → h.load p.rollback w.machine ≡ some m
      → (id ≡ []) ⊎ (id ≡ p.id)
      → ((confirm id facts w).0 ≡ err precondition)
        × ((confirm id facts w).1.machine ≡ m)
        × ((confirm id facts w).1.ruleset_file ≡ w.ruleset_file)
        × (mode_of (confirm id facts w).1 ≡ mode_of w)
  confirm_after_deadline id m late e named =
      let r : ltb p.deadline_unix (h.now w.step) ≡ true = ground arith in
      rw (confirm_by_clock id (names_pending id p named), r) (confirm_late_done p (ticked w) m e)
