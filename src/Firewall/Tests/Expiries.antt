-- ===== src/Firewall/Tests/Expiries.antt =====
-- The end of the window of the change that waits on the small host.
use asc_daemon.Prelude.{
  true, false, none, [], ◌∷◌, inl, ◌≡◌, refl, true, false, none, codes, arith, inr,
}
use asc_daemon.Failure.{is_err, invalid, err, ok, err, precondition}
use asc_daemon.Firewall.Model.{Mode}
use asc_daemon.Firewall.Host.{Host, World, missing, missing}
use asc_daemon.Firewall.Window.{confirm, expire}
use asc_daemon.Firewall.Window.Expiry.{
  mode_of, expire_rolls_back, expire_early, confirm_after_deadline,
}
use asc_daemon.Firewall.Apply.{mode_eq, apply}
use asc_daemon.Firewall.Window.Refused.{Untouched, apply_refuses_conflicts, apply_refuses_timeout}
use asc_daemon.Firewall.Tests.Toy.{host_facts, toy}
use asc_daemon.Firewall.Tests.Witnesses.{waiting, pending, rolled_back}

expire_rolls_back_example :
    ((expire (codes "c-3") 162 waiting).0 ≡ ok true)
    × ((expire (codes "c-3") 162 waiting).1.machine
        ≡ record rolled_back { dump = codes "the old rules" })
    × ((expire (codes "c-3") 162 waiting).1.ruleset_file ≡ none)
    × (mode_of (expire (codes "c-3") 162 waiting).1 ≡ Mode.disabled)
    × ((expire (codes "c-3") 162 waiting).1.pending_file ≡ missing)
expire_rolls_back_example =
    expire_rolls_back host_facts waiting pending refl 162
      (record rolled_back { dump = codes "the old rules" }) (omega arith) refl

early_timer_waits : expire (codes "c-3") 161 waiting ≡ (ok false, waiting)
early_timer_waits =
    expire_early host_facts waiting pending refl (codes "c-3") 161 (inr (omega arith))

confirm_after_deadline_example :
    ((confirm (codes "c-3") host_facts (record waiting { step = 63 })).0 ≡ err precondition)
    × ((confirm (codes "c-3") host_facts (record waiting { step = 63 })).1.machine
        ≡ record rolled_back { dump = codes "the old rules" })
    × ((confirm (codes "c-3") host_facts (record waiting { step = 63 })).1.ruleset_file ≡ none)
    × (mode_of (confirm (codes "c-3") host_facts (record waiting { step = 63 })).1 ≡ Mode.disabled)
confirm_after_deadline_example =
    confirm_after_deadline host_facts (record waiting { step = 63 }) pending refl (codes "c-3")
      (record rolled_back { dump = codes "the old rules" }) (omega arith) refl (inr refl)

-- the small host, with another firewall manager active
abbrev shared_host : Host
shared_host = record toy { detect_conflicts = λ m. codes "ufw" ∷ [] }

abbrev shared : World shared_host
shared = record {
  state_file = missing;
  pending_file = missing;
  ruleset_file = none;
  unit_file = none;
  unit_enabled = false;
  machine = rolled_back;
  timers = [];
  step = 0;
}

conflict_refused :
    (is_err (apply {h = shared_host} host_facts 60 false shared).0 ≡ true)
    × Untouched shared (apply host_facts 60 false shared).1
unfolding mode_eq
conflict_refused = apply_refuses_conflicts host_facts 60 shared (codes "ufw") [] refl refl

short_window_refused : apply {h = shared_host} host_facts 5 true shared ≡ (err invalid, shared)
short_window_refused =
    apply_refuses_timeout host_facts 5 true shared (λ e. absurd (omega arith)) (inl (omega arith))
