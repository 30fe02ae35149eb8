-- ===== src/Firewall/Window.antt =====
-- src/daemon/firewall/mod.rs: how the window after a change ends, switching off, and start-up.
pub mod Busy
pub mod Expiry
pub mod Steps
pub mod Limits
pub mod Outcome
pub mod Refused
pub mod Restart
pub mod Success
use asc_daemon.Firewall.Presets.{Facts}
use asc_daemon.Prelude.{
  ℕ, zero, suc, ◌≡◌, Bool, true, false, ◌&&◌, ◌||◌, not, Option, none, some, Text, List, [], ◌∷◌,
  codes, text_eq, if◌then◌else◌, leb, ltb, is_empty,
}
use asc_daemon.Failure.{Result, ok, err, precondition}
use asc_daemon.Firewall.Model.{disabled, managed}
use asc_daemon.Firewall.Host.{
  Host, State, Pending, World, Op, pure, raise, gets, modify, require, unix_now, ◌>>=◌, ◌>>◌,
}
use asc_daemon.Firewall.Files.{
  load_state, save_state, load_pending, clear_pending, nft_apply, clear_ruleset, remove_script,
}
use asc_daemon.Firewall.Apply.{
  Overview, mode_eq, rolled_back_note, overview, require_no_pending, commit_parts, arm,
}

abbrev not_confirmed : Text
not_confirmed = codes "was not confirmed in time"

-- an empty id names the change that is pending, whatever it is
abbrev pub names : Text → Pending → Bool
names id pending = is_empty id || text_eq id pending.id

-- whether the managed table is there; an error of nft counts as not
abbrev listed : Option (Option Text) → Bool
listed (some (some table)) = true
listed _ = false

abbrev time : Result ℕ → ℕ
time (ok t) = t
time (err _) = 0

module _ {h : Host} where
  -- `let _ = self.save_state(&state)`
  unfoldable pub save_note : State → Op h (Unit {0})
  save_note s w = (ok tt, (save_state s w).1)

  unfoldable pub rollback_locked : Pending → Text → Op h (Unit {0})
  rollback_locked pending why = do
    nft_apply pending.rollback
    clear_pending
    state ← load_state
    save_note (record state { last_error = rolled_back_note pending.id why })

  -- `confirm`, on the pending change when it is not the one that was named, or its window is over
  unfoldable pub confirm_late : Pending → Op h Overview
  confirm_late pending = do rollback_locked pending not_confirmed; raise precondition

  unfoldable pub confirm_in_time : Facts → Pending → Op h Overview
  confirm_in_time facts pending = do
    state ← load_state
    commit_parts state pending.target_mode pending.table pending.fingerprint pending.script
    clear_pending
    overview facts

  unfoldable pub confirm_pending : Text → Facts → Option Pending → Op h Overview
  confirm_pending id facts none = raise precondition
  confirm_pending id facts (some pending) = do
    require (names id pending) precondition
    now ← unix_now
    if ltb pending.deadline_unix now then confirm_late pending else confirm_in_time facts pending

  unfoldable pub confirm : Text → Facts → Op h Overview
  confirm id facts = do pending ← load_pending; confirm_pending id facts pending

  unfoldable pub roll_back_pending : Facts → Option Pending → Op h Overview
  roll_back_pending facts none = raise precondition
  roll_back_pending facts (some pending) = do
    rollback_locked pending (codes "was rolled back by request")
    overview facts

  unfoldable pub rollback : Facts → Op h Overview
  unfolding roll_back_pending
  rollback facts = do pending ← load_pending; roll_back_pending facts pending

  unfoldable pub expire_pending : Text → ℕ → Option Pending → Op h Bool
  expire_pending id now none = pure false
  expire_pending id now (some pending) =
      if not (text_eq pending.id id) || ltb now pending.deadline_unix
      then pure false
      else do rollback_locked pending not_confirmed; pure true

  unfoldable pub expire : Text → ℕ → Op h Bool
  expire id now = do pending ← load_pending; expire_pending id now pending

  -- the end of the timer thread: up to `attempts` calls of `expire`, until one succeeds
  unfoldable pub fire : ℕ → Text → Op h (Unit {0})
  fire zero id w = (ok tt, w)
  fire (suc attempts) id w =
      let (now, w₁) = unix_now w in
      let tried = expire id (time now) w₁ in
      elim tried.0 [ ok _ ↦ (ok tt, tried.1) | err _ ↦ fire attempts id tried.1 ]

  unfoldable pub disable : Facts → Op h Overview
  disable facts = do
    require_no_pending
    state ← load_state
    on ← gets (λ w. mode_eq state.mode managed && h.installed w.machine)
    if on then nft_apply remove_script else pure tt
    clear_ruleset
    save_state
        (record state { mode = disabled; applied_table = []; applied_fp = []; last_error = [] })
    overview facts

  -- the errors of `recover` are logged
  unfoldable pub logged : Op h (Unit {0}) → Op h (Unit {0})
  logged m w = (ok tt, (m w).1)

  unfoldable pub recover_pending : Pending → Op h (Unit {0})
  recover_pending pending = do
    now ← unix_now
    if leb pending.deadline_unix now
        then logged (rollback_locked pending (codes "was not confirmed before a restart"))
        else arm pending.id pending.deadline_unix

  unfoldable pub load_saved : Option Text → Op h (Unit {0})
  load_saved none = pure tt
  load_saved (some script) = logged (nft_apply script)

  unfoldable pub restore_table : Op h (Unit {0})
  unfolding load_saved
  restore_table = do
    state ← load_state
    wanted ← gets (λ w. mode_eq state.mode managed && h.installed w.machine)
    present ← gets (λ w. listed (h.list_table w.machine))
    saved ← gets (λ w. w.ruleset_file)
    if not wanted || present then pure tt else load_saved saved

  unfoldable pub recover_with : Option Pending → Op h (Unit {0})
  recover_with none = restore_table
  recover_with (some pending) = recover_pending pending

  unfoldable pub recover : Op h (Unit {0})
  unfolding recover_with
  recover = do pending ← load_pending; recover_with pending
