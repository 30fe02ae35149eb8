-- ===== src/Firewall/Tests/Witnesses.antt =====
-- The theorems on the firewall manager, at a change on the small host that waits for confirmation.
use asc_daemon.Prelude.{
  ◌++◌, ℕ, trim, byte_length, ◌≤◌, ◌≡◌, refl, Bool, true, false, none, some, Text, [], ◌∷◌, codes,
  arith, text_eq,
}
use asc_daemon.Failure.{is_err, ok}
use asc_daemon.Firewall.Model.{default_model, Mode, managed, raw, expired}
use asc_daemon.Firewall.Host.{
  Pending, World, missing, holds, ◌>>=◌, require, pure, gets, modify, lift, raise, unix_now, new_id,
  attempt, try_to,
}
use asc_daemon.Firewall.Presets.{presets}
use asc_daemon.Firewall.Render.{render}
use asc_daemon.Firewall.Files.{
  stored_state, table_line, unit_text, ruleset_path, default_state, replace_script, remove_script,
  load_state, save_state, load_pending, save_pending, clear_pending, nft_check, nft_apply,
  save_ruleset,
}
use asc_daemon.Firewall.Apply.{
  replace_crlf, Overview, apply, apply_raw, flush_script, check_timeout, require_nft,
  require_no_pending, mode_eq, rollback_for, stop_competing, submit, submit_pending, submit_now,
  apply_or_clear, arm, commit_parts, differs, drop_expired, overview,
}
use asc_daemon.Firewall.Window.{confirm, confirm_pending, confirm_in_time, expire, names, disable}
use asc_daemon.Firewall.Window.Busy.{Refuses, changes_wait}
use asc_daemon.Firewall.Apply.Commit.{Committed}
use asc_daemon.Firewall.Window.Success.{confirm_succeeds}
use asc_daemon.Firewall.Window.Outcome.{
  expiry_restores_table, expiry_restores_ruleset, confirm_commits,
}
use asc_daemon.Firewall.Tests.Toy.{host_facts, toy, toy-Faithful, start, Ruleset}

abbrev pub new_table : ℕ → Text
new_table now = render toy.ip default_model host_facts now

abbrev pub pending : Pending
pending = record {
  id = codes "c-3";
  started_unix = 102;
  deadline_unix = 162;
  target_mode = managed;
  script = table_line ++ new_table 100;
  table = new_table 100;
  fingerprint = new_table 0;
  rollback = codes "table inet asc\ndelete table inet asc\ntable inet asc { old }";
}

-- `start`, after an `apply` with a window of a minute
abbrev pub waiting : World toy
waiting = record start {
  state_file = holds default_state;
  pending_file = holds pending;
  machine = record { table = new_table 100; dump = codes "the old rules" };
  timers = (codes "c-3", 162) ∷ [];
  step = 6;
}

abbrev shown : Overview
shown = record {
  mode = Mode.disabled;
  changed = false;
  pending = some (codes "c-3", 57);
  last_error = [];
}

apply_waits : apply {h = toy} host_facts 60 false start ≡ (ok shown, waiting)
unfolding apply ◌>>=◌ require pure gets modify lift raise unix_now new_id attempt try_to
    check_timeout require_nft require_no_pending load_pending load_state mode_eq rollback_for
    nft_check nft_apply stop_competing save_state submit submit_pending submit_now apply_or_clear
    save_pending arm commit_parts differs drop_expired flush_script overview clear_pending
    remove_script replace_script save_ruleset text_eq expired
apply_waits = refl

-- the kernel's rules when the timer fires: another program has changed them
abbrev pub changed : Ruleset
changed = record { table = codes "table inet asc { other }"; dump = codes "other rules" }

abbrev pub rolled_back : Ruleset
rolled_back = record { table = codes "table inet asc { old }"; dump = codes "other rules" }

expiry_restores_table_example :
    ((expire (codes "c-3") 162 (record waiting { machine = changed })).0 ≡ ok true)
    × (toy.list_table (expire (codes "c-3") 162 (record waiting { machine = changed })).1.machine
        ≡ some (some (codes "table inet asc { old }")))
unfolding mode_eq
expiry_restores_table_example =
    expiry_restores_table toy-Faithful host_facts 60 false start pending changed rolled_back 162
      (λ e. absurd (omega arith)) refl apply_waits refl (omega arith) refl

-- `start`, after an `apply_raw` with a window of a minute
abbrev raw_pending : Pending
raw_pending = record {
  id = codes "c-2";
  started_unix = 101;
  deadline_unix = 161;
  target_mode = raw;
  script = codes "flush ruleset\nmine\n";
  table = codes "mine";
  fingerprint = codes "mine";
  rollback = codes "flush ruleset\nthe old rules\n";
}

abbrev raw_waiting : World toy
raw_waiting = record start {
  state_file = holds (record default_state { raw_text = codes "mine" });
  pending_file = holds raw_pending;
  machine = record { table = []; dump = codes "mine" };
  timers = (codes "c-2", 161) ∷ [];
  step = 5;
}

abbrev raw_shown : Overview
raw_shown = record {
  mode = Mode.disabled;
  changed = false;
  pending = some (codes "c-2", 57);
  last_error = [];
}

apply_raw_waits :
    apply_raw {h = toy} host_facts (codes "mine") true 60 start ≡ (ok raw_shown, raw_waiting)
unfolding apply_raw trim byte_length replace_crlf ◌>>=◌ require pure gets modify lift raise unix_now
    new_id attempt try_to check_timeout require_nft require_no_pending load_pending load_state
    mode_eq rollback_for nft_check nft_apply stop_competing save_state submit submit_pending
    submit_now apply_or_clear save_pending arm commit_parts differs drop_expired flush_script
    overview clear_pending remove_script replace_script save_ruleset text_eq expired
apply_raw_waits = refl

abbrev raw_rolled_back : Ruleset
raw_rolled_back = record { table = []; dump = codes "the old rules" }

expiry_restores_ruleset_example :
    ((expire (codes "c-2") 170 (record raw_waiting { machine = changed })).0 ≡ ok true)
    × (toy.list_ruleset
          (expire (codes "c-2") 170 (record raw_waiting { machine = changed })).1.machine
        ≡ some (codes "the old rules"))
expiry_restores_ruleset_example =
    expiry_restores_ruleset toy-Faithful host_facts (codes "mine") true 60 start raw_pending changed
      raw_rolled_back 170 (λ e. absurd (omega arith)) apply_raw_waits refl (omega arith) refl

-- `waiting`, after a confirmation
abbrev pub kept : World toy
kept = record waiting {
  state_file = holds (record default_state {
    mode = managed;
    applied_table = new_table 100;
    applied_fp = new_table 0;
    applied_unix = 107;
  });
  pending_file = missing;
  ruleset_file = some pending.script;
  unit_file = some (unit_text (codes "/usr/sbin/nft") ruleset_path);
  unit_enabled = true;
  step = 15;
}

abbrev kept_shown : Overview
kept_shown = record { mode = managed; changed = false; pending = none; last_error = [] }

confirm_keeps : confirm {h = toy} (codes "c-3") host_facts waiting ≡ (ok kept_shown, kept)
unfolding confirm render presets confirm_pending confirm_in_time ◌>>=◌ require pure gets modify lift
    raise unix_now new_id attempt try_to check_timeout require_nft require_no_pending load_pending
    load_state mode_eq rollback_for nft_check nft_apply stop_competing save_state submit
    submit_pending submit_now apply_or_clear save_pending arm commit_parts differs drop_expired
    flush_script overview clear_pending remove_script replace_script save_ruleset text_eq expired
confirm_keeps = refl

confirm_commits_example :
    (names (codes "c-3") pending ≡ true)
    × (106 ≤ 162)
    × Committed
        (stored_state waiting.state_file)
        managed
        pending.table
        (new_table 0)
        pending.script
        kept
    × (kept_shown.mode ≡ managed)
    × (kept_shown.last_error ≡ [])
confirm_commits_example =
    confirm_commits host_facts waiting pending (codes "c-3") refl confirm_keeps

changes_wait_example :
    ((timeout : ℕ) (force : Bool) → Refuses (apply {h = toy} host_facts timeout force) waiting)
    × ((text : Text) (ack_risk : Bool) (timeout : ℕ)
        → Refuses (apply_raw {h = toy} host_facts text ack_risk timeout) waiting)
    × Refuses (disable {h = toy} host_facts) waiting
changes_wait_example = changes_wait host_facts waiting refl

confirm_succeeds_example :
    (is_err (confirm (codes "c-3") host_facts waiting).0 ≡ false)
    × ((confirm (codes "c-3") host_facts waiting).1.machine ≡ waiting.machine)
    × ((confirm (codes "c-3") host_facts waiting).1.pending_file ≡ missing)
unfolding text_eq
confirm_succeeds_example =
    confirm_succeeds host_facts waiting pending (codes "c-3") (λ n. refl) refl refl (omega arith)
