-- ===== src/Firewall/Tests/Restarts.antt =====
-- The daemon starts again on the small host, and a script is refused there.
use asc_daemon.Prelude.{inr, ◌≡◌, refl, true, none, [], ◌∷◌, codes, arith}
use asc_daemon.Firewall.Model.{Mode, raw}
use asc_daemon.Firewall.Host.{World}
use asc_daemon.Firewall.Apply.{Change, mode_eq, submit}
use asc_daemon.Failure.{is_err, ok}
use asc_daemon.Firewall.Files.{default_state, stored_pending}
use asc_daemon.Firewall.Window.Refused.{submit_refused}
use asc_daemon.Firewall.Window.{recover, expire}
use asc_daemon.Firewall.Window.Expiry.{mode_of}
use asc_daemon.Firewall.Window.Restart.{recover_rolls_back, restart_keeps_window, recover_restores}
use asc_daemon.Firewall.Tests.Toy.{toy, host_facts, start, Ruleset}
use asc_daemon.Firewall.Tests.Witnesses.{new_table, waiting, pending, rolled_back, kept}

abbrev old_rules : Ruleset
old_rules = record rolled_back { dump = codes "the old rules" }

recover_rolls_back_example :
    ((recover (record waiting { step = 63 })).1.machine ≡ old_rules)
    × ((recover (record waiting { step = 63 })).1.ruleset_file ≡ none)
    × (mode_of (recover (record waiting { step = 63 })).1 ≡ Mode.disabled)
recover_rolls_back_example =
    recover_rolls_back (record waiting { step = 63 }) pending old_rules refl (omega arith) refl

abbrev restarted : World toy
restarted = (recover (record waiting { timers = [] })).1

restart_keeps_window_example :
    (restarted.machine ≡ waiting.machine)
    × (restarted.timers ≡ (codes "c-3", 162) ∷ [])
    × ((expire (codes "c-3") 162 (record restarted { machine = waiting.machine })).0 ≡ ok true)
    × ((expire (codes "c-3") 162 (record restarted { machine = waiting.machine })).1.machine
        ≡ old_rules)
    × ((expire (codes "c-3") 162 (record restarted { machine = waiting.machine })).1.ruleset_file
        ≡ none)
    × (mode_of (expire (codes "c-3") 162 (record restarted { machine = waiting.machine })).1
        ≡ Mode.disabled)
restart_keeps_window_example =
    restart_keeps_window host_facts (record waiting { timers = [] }) pending waiting.machine
      old_rules 162 refl (omega arith) (omega arith) refl

-- the machine after a boot that loaded no rules
abbrev bare : Ruleset
bare = record { table = []; dump = [] }

table_restored :
    (recover (record kept { machine = bare })).1.machine ≡ record bare { table = new_table 100 }
unfolding mode_eq
table_restored =
    recover_restores (record kept { machine = bare }) pending.script
      (record bare { table = new_table 100 }) refl refl refl refl refl refl

abbrev bad_change : Change
bad_change = record {
  target_mode = raw;
  table = [];
  script = codes "no rules";
  fingerprint = [];
  rollback = [];
}

submit_refused_example :
    (is_err (submit default_state bad_change 60 start).0 ≡ true)
    × ((submit default_state bad_change 60 start).1.machine ≡ start.machine)
    × (stored_pending (submit default_state bad_change 60 start).1.pending_file ≡ none)
    × ((submit default_state bad_change 60 start).1.timers ≡ [])
submit_refused_example =
    submit_refused default_state bad_change 60 start (λ n. refl) (λ e. absurd (omega arith)) refl
      (inr refl)
