-- ===== src/Firewall/Window/Refused.antt =====
-- src/daemon/firewall/mod.rs: the checks at the start of `apply`.
use asc_daemon.Prelude.{
  ℕ, suc, ◌<◌, ◌≡◌, ◌≢◌, Bool, true, false, Text, List, ◌∷◌, none, arith, inl, inr, ◌⊎◌,
}
use asc_daemon.Failure.{err, invalid, is_err}
use asc_daemon.Firewall.Presets.{Facts}
use asc_daemon.Firewall.Model.{managed}
use asc_daemon.Firewall.Host.{
  Host, State, World, pure, raise, gets, modify, require, unix_now, new_id, ◌>>=◌,
}
use asc_daemon.Firewall.Files.{
  stored_state, stored_pending, load_state, load_pending, save_pending, clear_pending, nft_check,
  nft_apply,
}
use asc_daemon.Firewall.Apply.{
  Change, check_timeout, mode_eq, require_nft, require_no_pending, apply, apply_or_clear, arm,
  submit, submit_pending,
}

-- The kernel, the pending change, the boot ruleset and the timers are as they were.
abbrev pub Untouched : {h : Host} → World h → World h → Type 0
Untouched w w' =
    (w'.machine ≡ w.machine)
    × (w'.pending_file ≡ w.pending_file)
    × (w'.ruleset_file ≡ w.ruleset_file)
    × (w'.timers ≡ w.timers)

-- Unless the firewall is in managed mode already, `apply` without `force` is refused while another
-- firewall manager is active, whatever else holds, and touches nothing.
pub apply_refuses_conflicts :
    {h : Host} (facts : Facts) (timeout : ℕ) (w : World h) (c : Text) (cs : List Text)
    → mode_eq (stored_state w.state_file).mode managed ≡ false
    → h.detect_conflicts w.machine ≡ c ∷ cs
    → (is_err (apply facts timeout false w).0 ≡ true) × Untouched w (apply facts timeout false w).1
unfolding apply require require_nft require_no_pending load_pending load_state gets modify pure
    ◌>>=◌
apply_refuses_conflicts facts timeout w c cs other active = ground (arith, other, active)

-- A window of some seconds, but fewer than 15 or more than 600, is refused, and touches nothing.
pub apply_refuses_timeout :
    {h : Host} (facts : Facts) (timeout : ℕ) (force : Bool) (w : World h)
    → timeout ≢ 0
    → (timeout < 15) ⊎ (600 < timeout)
    → apply facts timeout force w ≡ (err invalid, w)
unfolding apply check_timeout require ◌>>=◌
apply_refuses_timeout facts timeout force w some_window (inl short) = ground arith
apply_refuses_timeout facts timeout force w some_window (inr long) = ground arith

-- Where nft refuses the script of a change, when it checks it or when it loads it, and no write
-- fails, `submit` with a window fails and leaves no pending change, no timer and the kernel's rules.
pub submit_refused :
    {h : Host} (s : State) (change : Change) (timeout : ℕ) (w : World h)
    → ((n : ℕ) → h.fails n ≡ false)
    → timeout ≢ 0
    → stored_pending w.pending_file ≡ none
    → (h.check change.script w.machine ≡ false) ⊎ (h.load change.script w.machine ≡ none)
    → (is_err (submit s change timeout w).0 ≡ true)
      × ((submit s change timeout w).1.machine ≡ w.machine)
      × (stored_pending (submit s change timeout w).1.pending_file ≡ none)
      × ((submit s change timeout w).1.timers ≡ w.timers)
unfolding submit submit_pending apply_or_clear nft_check nft_apply require raise unix_now new_id
    save_pending clear_pending arm modify ◌>>=◌
submit_refused s change timeout w healthy window free (inl bad) = ground (arith, bad, free)
submit_refused s change timeout w healthy window free (inr bad) = ground (
  arith,
  bad,
  free,
  healthy w.step,
  healthy (suc w.step),
  healthy (suc (suc w.step)),
  healthy (suc (suc (suc w.step))),
)
