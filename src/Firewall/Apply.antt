-- ===== src/Firewall/Apply.antt =====
-- src/daemon/firewall/mod.rs: putting a ruleset in force, with the window in which it is confirmed
-- or rolled back.
mod Parts
pub mod Rollback
pub mod Restores
pub mod Commit
pub use Parts.{
  Change, Overview, rolled_back_note, no_conflicts, view_pending, managed_change, raw_change,
  is_none, from_option, previous_table,
}
unfoldable pub use Parts.{check_timeout, mode_eq, replace_crlf, flush_script, drop_expired, differs}
use asc_daemon.Firewall.Presets.{Facts}
use asc_daemon.Firewall.Render.{render}
use asc_daemon.Prelude.{
  ℕ, zero, suc, ◌+◌, ◌-◌, Bool, true, false, ◌&&◌, ◌||◌, not, Option, none, some, Text, List, [],
  ◌∷◌, ◌++◌, codes, text_eq, if◌then◌else◌, leb, ltb, ◌==◌, is_empty, trim, byte_length, retain,
}
use asc_daemon.Failure.{Result, ok, err, internal, invalid, precondition}
use asc_daemon.Firewall.Model.{Mode, disabled, managed, raw, SetEntry, Model, expired}
use asc_daemon.Firewall.Host.{
  Host, holds, State, Pending, World, Op, pure, raise, gets, lift, modify, require, unix_now,
  new_id, ◌>>=◌, ◌>>◌,
}
use asc_daemon.Firewall.Files.{
  load_state, save_state, load_pending, save_pending, clear_pending, nft_apply, nft_check,
  save_ruleset, clear_ruleset, replace_script, remove_script, stored_state, stored_pending,
}

module _ {h : Host} where
  -- `overview_locked`
  unfoldable pub overview : Facts → Op h Overview
  overview facts = do
    state ← load_state
    now ← unix_now
    pending ← load_pending
    pure (record {
      mode = state.mode;
      changed = differs state.mode (render h.ip state.model facts 0) state;
      pending = view_pending now pending;
      last_error = state.last_error;
    })

  unfoldable pub require_nft : Op h (Unit {0})
  require_nft w = require (h.installed w.machine) precondition w

  unfoldable pub require_no_pending : Op h (Unit {0})
  require_no_pending = do pending ← load_pending; require (is_none pending) precondition

  unfoldable pub rollback_for : State → Mode → Op h Text
  rollback_for state target = do
    dump ← gets (λ w. from_option (h.list_ruleset w.machine))
    listed ← gets (λ w. from_option (h.list_table w.machine))
    if mode_eq target raw || mode_eq state.mode raw
        then (do text ← lift dump; pure (flush_script text))
        else (do table ← lift listed; pure (previous_table table))

  unfoldable pub commit_parts : State → Mode → Text → Text → Text → Op h (Unit {0})
  commit_parts state mode table fingerprint script = do
    now ← unix_now
    save_state (record state {
      mode = mode;
      applied_table = table;
      applied_fp = fingerprint;
      applied_unix = now;
      last_error = [];
    })
    save_ruleset script

  -- the timer thread: see `fire`
  unfoldable pub arm : Text → ℕ → Op h (Unit {0})
  arm id deadline = modify (λ w. record w { timers = (id, deadline) ∷ w.timers })

  -- `if let Err(err) = apply { clear_pending(); return Err(err) }`
  unfoldable pub apply_or_clear : Text → Op h (Unit {0})
  apply_or_clear script w = elim (nft_apply script w).0 [
    | ok _ ↦ nft_apply script w
    | err e ↦ (clear_pending >> raise e) (nft_apply script w).1
  ]

  unfoldable pub submit_pending : Change → ℕ → Op h (Unit {0})
  unfolding apply_or_clear
  submit_pending change timeout = do
    now ← unix_now
    id ← new_id (codes "c")
    let pending : Pending = record {
      id = id;
      started_unix = now;
      deadline_unix = now + timeout;
      target_mode = change.target_mode;
      script = change.script;
      table = change.table;
      fingerprint = change.fingerprint;
      rollback = change.rollback;
    }
    save_pending pending
    apply_or_clear change.script
    arm id (now + timeout)

  unfoldable pub submit_now : State → Change → Op h (Unit {0})
  submit_now state change = do
    nft_apply change.script
    commit_parts state change.target_mode change.table change.fingerprint change.script

  unfoldable pub submit : State → Change → ℕ → Op h (Unit {0})
  submit state change timeout = do
    nft_check change.script
    if timeout == 0 then submit_now state change else submit_pending change timeout

  abbrev competing_with : State → World h → List Text
  competing_with state w = if mode_eq state.mode managed then [] else h.detect_conflicts w.machine

  -- `(self.hooks.disable_conflicts)(&competing)?`, where there are any
  unfoldable pub stop_competing : List Text → Op h (Unit {0})
  stop_competing [] w = pure tt w
  stop_competing (c ∷ cs) w =
      let (done, m) = h.disable_conflicts (c ∷ cs) w.machine in
      require done internal (record w { machine = m })

  unfoldable pub apply : Facts → ℕ → Bool → Op h Overview
  apply facts timeout force = do
    require (check_timeout timeout) invalid
    require_nft
    require_no_pending
    loaded ← load_state
    competing ← gets (competing_with loaded)
    require (no_conflicts competing || force) precondition
    now ← unix_now
    let state = record loaded { model = drop_expired now loaded.model }
    rollback ← rollback_for state managed
    let change =
        managed_change (render h.ip state.model facts now) (render h.ip state.model facts 0)
          rollback
    nft_check change.script
    stop_competing competing
    save_state state
    submit state change timeout
    overview facts

  unfoldable pub apply_raw : Facts → Text → Bool → ℕ → Op h Overview
  apply_raw facts given ack_risk timeout = do
    require ack_risk precondition
    require (not (is_empty (trim given))) invalid
    require (leb (byte_length given) 1048576) invalid
    require (check_timeout timeout) invalid
    require_nft
    require_no_pending
    loaded ← load_state
    let text = replace_crlf given
    rollback ← rollback_for loaded raw
    let state = record loaded { raw_text = text }
    save_state state
    submit state (raw_change text rollback) timeout
    overview facts
