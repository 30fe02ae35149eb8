-- ===== src/Firewall/Window/Busy.antt =====
-- src/daemon/firewall/mod.rs: `require_no_pending` in the methods that start a change.
use asc_daemon.Firewall.Presets.{Facts}
use asc_daemon.Prelude.{ℕ, ◌≡◌, true, Bool, some, Text, arith}
use asc_daemon.Failure.{is_err}
use asc_daemon.Firewall.Host.{Host, Pending, World, Op, require, ◌>>=◌}
use asc_daemon.Firewall.Files.{stored_pending, load_pending}
use asc_daemon.Firewall.Apply.{apply, apply_raw, require_nft, require_no_pending}
use asc_daemon.Firewall.Window.{disable}

-- The operation fails and leaves the files, the kernel and the timers as they were.
abbrev pub Refuses : {h : Host} {A : Type 0} → Op h A → World h → Type 0
Refuses m w = (is_err (m w).0 ≡ true) × ((m w).1 ≡ w)

module _ {h : Host} (facts : Facts) (w : World h) {p : Pending}
    (waiting : stored_pending w.pending_file ≡ some p) where
  apply_busy : (timeout : ℕ) (force : Bool) → Refuses (apply facts timeout force) w
  unfolding apply require require_nft require_no_pending load_pending ◌>>=◌
  apply_busy timeout force = ground (arith, waiting)

  apply_raw_busy :
      (text : Text) (ack_risk : Bool) (timeout : ℕ)
      → Refuses (apply_raw facts text ack_risk timeout) w
  unfolding apply_raw require require_nft require_no_pending load_pending ◌>>=◌
  apply_raw_busy text ack_risk timeout = ground (arith, waiting)

  disable_busy : Refuses (disable facts) w
  unfolding disable require require_no_pending load_pending ◌>>=◌
  disable_busy = ground (arith, waiting)

-- While a change is pending, `apply`, `apply_raw` and `disable` fail on every argument, and change
-- no file, nothing in the kernel and no timer.
pub changes_wait :
    {h : Host} (facts : Facts) (w : World h) {p : Pending}
    → stored_pending w.pending_file ≡ some p
    → ((timeout : ℕ) (force : Bool) → Refuses (apply facts timeout force) w)
      × ((text : Text) (ack_risk : Bool) (timeout : ℕ)
          → Refuses (apply_raw facts text ack_risk timeout) w)
      × Refuses (disable facts) w
changes_wait facts w waiting =
    (apply_busy facts w waiting, apply_raw_busy facts w waiting, disable_busy facts w waiting)
