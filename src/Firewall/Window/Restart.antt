-- ===== src/Firewall/Window/Restart.antt =====
-- src/daemon/firewall/mod.rs: `recover`, when the daemon starts.
use asc_daemon.Firewall.Presets.{Facts}
use asc_daemon.Failure.{ok}
use asc_daemon.Prelude.{ℕ, ap, ◌∙◌, ◌<◌, ◌≤◌, ◌≡◌, true, none, some, Text, ◌∷◌, arith, codes}
use asc_daemon.Firewall.Model.{managed}
use asc_daemon.Firewall.Host.{Host, Pending, World, raise, gets, modify, pure, unix_now, ◌>>=◌}
use asc_daemon.Firewall.Files.{stored_pending, load_state, load_pending, nft_apply}
use asc_daemon.Firewall.Apply.{mode_eq, arm}
use asc_daemon.Firewall.Window.{recover, recover_pending, restore_table, logged, expire}
use asc_daemon.Firewall.Window.Expiry.{mode_of, ticked, rollback_locked_done, expire_rolls_back}

-- If a change is pending when the daemon starts at or after its deadline, and nft accepts its
-- rollback script, that script is loaded; the boot ruleset and the confirmed mode stay.
pub recover_rolls_back :
    {h : Host} (w : World h) (p : Pending) (m : h.Machine)
    → stored_pending w.pending_file ≡ some p
    → p.deadline_unix ≤ h.now w.step
    → h.load p.rollback w.machine ≡ some m
    → ((recover w).1.machine ≡ m)
      × ((recover w).1.ruleset_file ≡ w.ruleset_file)
      × (mode_of (recover w).1 ≡ mode_of w)
unfolding recover recover_pending load_pending unix_now logged gets ◌>>=◌
recover_rolls_back w p m waiting late e = ground (
  arith,
  waiting,
  rollback_locked_done p (codes "was not confirmed before a restart") (ticked w) m e,
)

recover_rearms :
    {h : Host} (w : World h) (p : Pending)
    → stored_pending w.pending_file ≡ some p
    → h.now w.step < p.deadline_unix
    → ((recover w).1.machine ≡ w.machine)
      × ((recover w).1.pending_file ≡ w.pending_file)
      × ((recover w).1.ruleset_file ≡ w.ruleset_file)
      × (mode_of (recover w).1 ≡ mode_of w)
      × ((recover w).1.timers ≡ (p.id, p.deadline_unix) ∷ w.timers)
unfolding recover recover_pending load_pending unix_now arm modify gets ◌>>=◌
recover_rearms w p waiting early = (
  ground (arith, waiting),
  ground (arith, waiting),
  ground (arith, waiting),
  ground (arith, waiting),
  ground (arith, waiting),
)

-- A restart of the daemon within the window leaves the kernel's rules and starts the change's timer for the same
-- deadline again. When that timer fires at or after the deadline, with any ruleset then in the kernel of which nft
-- accepts the change's rollback script, it loads that script and reports it; the boot ruleset and the confirmed mode
-- are those before the restart.
pub restart_keeps_window :
    {h : Host} (facts : Facts) (w : World h) (p : Pending) (n m : h.Machine) (now : ℕ)
    → stored_pending w.pending_file ≡ some p
    → h.now w.step < p.deadline_unix
    → p.deadline_unix ≤ now
    → h.load p.rollback n ≡ some m
    → ((recover w).1.machine ≡ w.machine)
      × ((recover w).1.timers ≡ (p.id, p.deadline_unix) ∷ w.timers)
      × ((expire p.id now (record ((recover w).1) { machine = n })).0 ≡ ok true)
      × ((expire p.id now (record ((recover w).1) { machine = n })).1.machine ≡ m)
      × ((expire p.id now (record ((recover w).1) { machine = n })).1.ruleset_file ≡ w.ruleset_file)
      × (mode_of (expire p.id now (record ((recover w).1) { machine = n })).1 ≡ mode_of w)
restart_keeps_window facts w p n m now waiting early late l =
    let (same, file, boot, mode, timers) = recover_rearms w p waiting early in
    let still = ap stored_pending file ∙ waiting in
    let done =
      expire_rolls_back facts (record ((recover w).1) { machine = n }) p still now m late l in
    (same, timers, done.0, done.1, done.2 ∙ boot, done.3 ∙ mode)

-- If nothing is pending, the firewall is in managed mode, nft lists the kernel's rules without the
-- managed table, and it accepts the boot ruleset, then the boot ruleset is loaded.
pub recover_restores :
    {h : Host} (w : World h) (script : Text) (m : h.Machine)
    → stored_pending w.pending_file ≡ none
    → mode_eq (mode_of w) managed ≡ true
    → h.installed w.machine ≡ true
    → h.list_table w.machine ≡ some none
    → w.ruleset_file ≡ some script
    → h.load script w.machine ≡ some m
    → (recover w).1.machine ≡ m
unfolding recover restore_table load_state load_pending nft_apply logged modify gets pure raise
    ◌>>=◌
recover_restores w script m none_waiting on there gone saved e =
    ground (arith, none_waiting, on, there, gone, saved, e)
