-- ===== src/Firewall/Window/Success.antt =====
-- src/daemon/firewall/mod.rs: `confirm`, step by step, where nothing fails.
use asc_daemon.Prelude.{ℕ, suc, ◌≤◌, ◌≡◌, refl, ◌∙◌, true, false, some, Text, arith, ltb}
use asc_daemon.Failure.{Result, ok, err, is_err}
use asc_daemon.Firewall.Presets.{Facts}
use asc_daemon.Firewall.Model.{Mode}
use asc_daemon.Firewall.Host.{
  Host, missing, State, Pending, World, Op, pure, gets, modify, unix_now, ◌>>=◌,
}
use asc_daemon.Firewall.Files.{
  stored_pending, load_state, load_pending, save_state, clear_pending, save_ruleset,
}
use asc_daemon.Firewall.Triple.{Ends, Triple, Triple-bind}
use asc_daemon.Firewall.Apply.{overview, commit_parts}
use asc_daemon.Firewall.Window.{names, confirm, confirm_in_time}
use asc_daemon.Firewall.Window.Expiry.{ticked, confirm_by_clock}

-- The operation succeeds, and leaves the kernel alone.
abbrev Passes : {h : Host} {A : Type 0} → Op h A → World h → Type 0
Passes m w = (is_err (m w).0 ≡ false) × ((m w).1.machine ≡ w.machine)

module _ {h : Host} (healthy : (n : ℕ) → h.fails n ≡ false) where
  save_ruleset-Passes : (script : Text) (w : World h) → Passes (save_ruleset script) w
  unfolding save_ruleset
  save_ruleset-Passes script w = ground (
    arith,
    healthy w.step,
    healthy (suc w.step),
    healthy (suc (suc w.step)),
    healthy (suc (suc (suc w.step))),
  )

  save_state-Passes : (s : State) (w : World h) → Passes (save_state s) w
  unfolding save_state
  save_state-Passes s w = ground (arith, healthy w.step)

  unix_now-Passes : (w : World h) → Passes unix_now w
  unfolding unix_now
  unix_now-Passes w = (refl, refl)

  load_state-Passes : (w : World h) → Passes load_state w
  unfolding load_state gets modify pure ◌>>=◌
  load_state-Passes w = (refl, refl)

  module _ (m : h.Machine) where
    abbrev On : World h → Type 0
    On w = w.machine ≡ m

    abbrev Never : World h → Type 0
    Never w = ⊥

    Ends-Passes :
        {A : Type 0} (r : Result A) (w : World h)
        → is_err r ≡ false
        → On w
        → Ends (λ _. On) Never r w
    Ends-Passes (ok a) w e on = on
    Ends-Passes (err _) w e on = cc

    Triple-Passes :
        {A : Type 0} (op : Op h A) → ((w : World h) → Passes op w) → Triple On op (λ _. On) Never
    Triple-Passes op k = record {
      at = λ w on. Ends-Passes (op w).0 (op w).1 (k w).0 ((k w).1 ∙ on);
    }

    commit_parts-total :
        (s : State) (mode : Mode) (table fingerprint script : Text)
        → Triple On (commit_parts s mode table fingerprint script) (λ _. On) Never
    unfolding commit_parts
    commit_parts-total s mode table fingerprint script =
        Triple-bind _ _ (Triple-Passes unix_now unix_now-Passes) λ now.
          Triple-bind _ _ (Triple-Passes _ (save_state-Passes _))
            λ _. Triple-Passes _ (save_ruleset-Passes script)

    abbrev Cleared : World h → Type 0
    Cleared w = (w.machine ≡ m) × (w.pending_file ≡ missing)

    clear_pending-total : Triple On clear_pending (λ _. Cleared) Never
    clear_pending-total = record {
      at = unfold clear_pending in λ w on. ground (arith, healthy w.step);
    }

    overview-total : (facts : Facts) → Triple Cleared (overview facts) (λ _. Cleared) Never
    unfolding overview load_state load_pending modify gets pure unix_now ◌>>=◌
    overview-total facts = record { at = λ w c. c }

    confirm_in_time-total :
        (facts : Facts) (p : Pending) → Triple On (confirm_in_time facts p) (λ _. Cleared) Never
    unfolding confirm_in_time
    confirm_in_time-total facts p =
        Triple-bind _ _ (Triple-Passes load_state load_state-Passes) λ s.
          Triple-bind _ _ (commit_parts-total s _ _ _ _)
            λ _. Triple-bind _ _ clear_pending-total λ _. overview-total facts

Ends-total :
    {h : Host} {A : Type 0} (Q : World h → Type 0) (r : Result A) (w : World h)
    → Ends (λ _. Q) (λ _. ⊥) r w
    → (is_err r ≡ false) × Q w
Ends-total Q (ok a) w e = (refl, e)
Ends-total Q (err _) w e = absurd e

-- Where no write and no command fails, a confirmation that names the pending change and comes no
-- later than its deadline succeeds; the kernel's rules stay, and the change is no longer pending.
pub confirm_succeeds :
    {h : Host} (facts : Facts) (w : World h) (p : Pending) (id : Text)
    → ((n : ℕ) → h.fails n ≡ false)
    → stored_pending w.pending_file ≡ some p
    → names id p ≡ true
    → h.now w.step ≤ p.deadline_unix
    → (is_err (confirm id facts w).0 ≡ false)
      × ((confirm id facts w).1.machine ≡ w.machine)
      × ((confirm id facts w).1.pending_file ≡ missing)
confirm_succeeds {h} facts w p id healthy waiting named early =
    let r : ltb p.deadline_unix (h.now w.step) ≡ false = ground arith in
    let (done, cleared) =
      Ends-total (Cleared {h = h} healthy w.machine) _ _
        ((confirm_in_time-total {h = h} healthy w.machine facts p).at (ticked w) refl) in
    rw (confirm_by_clock facts w p waiting id named, r) (done, cleared.0, cleared.1)
