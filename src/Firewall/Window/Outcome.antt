-- ===== src/Firewall/Window/Outcome.antt =====
-- src/daemon/firewall/mod.rs: from `apply` and `apply_raw` to `confirm` or `expire`.
use asc_daemon.Firewall.Presets.{Facts}
use asc_daemon.Prelude.{
  ℕ, ◌≤◌, ◌≡◌, ◌≢◌, refl, ap, ◌∙◌, Bool, true, false, some, Text, [], arith, inl, inr, ltb,
  Bool-cases,
}
use asc_daemon.Failure.{Result, ok, is_err}
use asc_daemon.Firewall.Model.{raw}
use asc_daemon.Firewall.Host.{
  Host, State, Pending, World, Op, Stored, holds, gets, modify, pure, ◌>>=◌,
}
use asc_daemon.Firewall.Files.{stored_pending, stored_state, load_state}
use asc_daemon.Firewall.Triple.{Ends, Triple, Triple-bind}
use asc_daemon.Firewall.Apply.{mode_eq, Overview, apply, apply_raw}
use asc_daemon.Firewall.Apply.Rollback.{Faithful, Any}
use asc_daemon.Firewall.Apply.Restores.{apply_can_be_undone, apply_raw_can_be_undone}
use asc_daemon.Firewall.Apply.Commit.{
  Committed, commit_parts-Committed, clear_pending-Committed, overview-Committed,
}
use asc_daemon.Firewall.Window.{names, confirm, confirm_in_time, expire}
use asc_daemon.Firewall.Window.Expiry.{
  mode_of, ticked, confirm_other, confirm_late_err, expire_rolls_back, confirm_by_clock,
}

-- what the state held before is what is loaded
load_state_lem :
    {h : Host} (file : Stored State)
    → Triple {h = h} (λ w. w.state_file ≡ file) load_state (λ s _. s ≡ stored_state file) Any
unfolding load_state gets modify pure ◌>>=◌
load_state_lem file = record { at = λ w e. ap stored_state e }

module _ {h : Host} (facts : Facts) (p : Pending) (file : Stored State) where
  -- what a confirmation commits
  abbrev Confirmed : World h → Type 0
  Confirmed = Committed (stored_state file) p.target_mode p.table p.fingerprint p.script

  confirm_in_time-Committed :
      Triple
        (λ w. w.state_file ≡ file)
        (confirm_in_time {h = h} facts p)
        (λ o w. Confirmed w × (o.mode ≡ p.target_mode) × (o.last_error ≡ []))
        Any
  unfolding confirm_in_time
  confirm_in_time-Committed = Triple-bind _ _ (load_state_lem file) λ s.
      let old = stored_state file in
      let commit = commit_parts-Committed old p.target_mode p.table p.fingerprint p.script in
      Triple-bind _ _ (record { at = λ w e. rw e (commit.at w tt) })
        λ _.
          Triple-bind _ _ (clear_pending-Committed old p.target_mode p.table p.fingerprint p.script)
            λ _. overview-Committed old p.target_mode p.table p.fingerprint facts p.script

saved_change :
    (f : Stored Pending) (c p : Pending) → f ≡ holds c → stored_pending f ≡ some p → c ≡ p
saved_change f c p e k = ground (arith, e, k)

-- A successful step, in a specification of its method.
Ends-at :
    {h : Host} {A : Type 0} (Q : A → World h → Type 0) (E : World h → Type 0) (m : Op h A)
    (w : World h) {a : A} {w' : World h}
    → m w ≡ (ok a, w')
    → Ends Q E (m w).0 (m w).1
    → Q a w'
Ends-at Q E m w e x = rw e at x

module _ {h : Host} (facts : Facts) (w : World h) (p : Pending) (id : Text)
    (waiting : stored_pending w.pending_file ≡ some p) where
  -- Only the change that is pending can be confirmed, and only up to its deadline.
  confirm_ok_in_time :
      {o : Overview} {w' : World h}
      → confirm id facts w ≡ (ok o, w')
      → (names id p ≡ true) × (h.now w.step ≤ p.deadline_unix)
  confirm_ok_in_time e = elim (Bool-cases (names id p)) [
    | inr n ↦ cc (e, confirm_other facts w p waiting id n)
    | inl y ↦ elim (Bool-cases (ltb p.deadline_unix (h.now w.step))) [
      | inr n ↦ (y, ground arith)
      | inl l ↦ cc (
        confirm_late_err p (ticked w),
        ap (λ (r : Result Overview × World h). is_err r.0)
            (rw (confirm_by_clock facts w p waiting id y, l) at e),
      )
    ]
  ]

-- A confirmation succeeds only if it names the pending change, by its id or by no id, and comes no
-- later than the deadline. Then the change is committed: state.json has the change's mode, table and fingerprint,
-- no error, and the model and the RAW text that it had; the change's script is the boot ruleset; and the overview
-- that is returned shows the change's mode and no error.
pub confirm_commits :
    {h : Host} (facts : Facts) (w : World h) (p : Pending) (id : Text) {o : Overview} {w' : World h}
    → stored_pending w.pending_file ≡ some p
    → confirm id facts w ≡ (ok o, w')
    → (names id p ≡ true)
      × (h.now w.step ≤ p.deadline_unix)
      × Committed (stored_state w.state_file) p.target_mode p.table p.fingerprint p.script w'
      × (o.mode ≡ p.target_mode)
      × (o.last_error ≡ [])
confirm_commits {h} facts w p id waiting e =
    let (named, early) = confirm_ok_in_time facts w p id waiting e in
    let r : ltb p.deadline_unix (h.now w.step) ≡ false = ground arith in
    let (c, m, no_error) =
      Ends-at _ _ (confirm_in_time facts p) (ticked w)
        (rw (confirm_by_clock facts w p waiting id named, r) at e)
        ((confirm_in_time-Committed facts p w.state_file).at (ticked w) refl) in
    (named, early, c, m, no_error)

-- On a host of which nft lists faithfully and that is not in RAW mode, let `apply` succeed with a
-- window, and let the timer fire at or after the deadline, with any ruleset `n` then in the kernel.
-- If nft accepts the rollback script, the timer reports that it rolled back, and the managed table
-- is listed, or is absent, as it was before `apply`.
pub expiry_restores_table :
    {h : Host} (f : Faithful h) (facts : Facts) (timeout : ℕ) (force : Bool) (w : World h)
    {o : Overview} {w' : World h} (p : Pending) (n m : h.Machine) (now : ℕ)
    → timeout ≢ 0
    → mode_eq (mode_of w) raw ≡ false
    → apply facts timeout force w ≡ (ok o, w')
    → stored_pending w'.pending_file ≡ some p
    → p.deadline_unix ≤ now
    → h.load p.rollback n ≡ some m
    → ((expire p.id now (record w' { machine = n })).0 ≡ ok true)
      × (h.list_table (expire p.id now (record w' { machine = n })).1.machine
          ≡ h.list_table w.machine)
expiry_restores_table {h} f facts timeout force w {w'} p n m now window tame e waiting late l =
    let a =
      Ends-at _ _ (apply facts timeout force) w e
        (apply_can_be_undone f facts timeout force w window tame) in
    let done = expire_rolls_back facts (record w' { machine = n }) p waiting now m late l in
    (
      done.0,
      ap h.list_table done.1
          ∙ a.back n m (rw (saved_change w'.pending_file a.change p a.saved waiting) l),
    )

-- On a host of which nft lists faithfully, in any mode, let `apply_raw` succeed with a window, and let
-- the timer fire at or after the deadline, with any ruleset `n` then in the kernel. If nft accepts the
-- rollback script, the timer reports that it rolled back, and the whole ruleset is listed as it was
-- before `apply_raw`.
pub expiry_restores_ruleset :
    {h : Host} (f : Faithful h) (facts : Facts) (text : Text) (ack_risk : Bool) (timeout : ℕ)
    (w : World h) {o : Overview} {w' : World h} (p : Pending) (n m : h.Machine) (now : ℕ)
    → timeout ≢ 0
    → apply_raw facts text ack_risk timeout w ≡ (ok o, w')
    → stored_pending w'.pending_file ≡ some p
    → p.deadline_unix ≤ now
    → h.load p.rollback n ≡ some m
    → ((expire p.id now (record w' { machine = n })).0 ≡ ok true)
      × (h.list_ruleset (expire p.id now (record w' { machine = n })).1.machine
          ≡ h.list_ruleset w.machine)
expiry_restores_ruleset {h} f facts text ack_risk timeout w {w'} p n m now window e waiting late l =
    let a =
      Ends-at _ _ (apply_raw facts text ack_risk timeout) w e
        (apply_raw_can_be_undone f facts text ack_risk timeout w window) in
    let done = expire_rolls_back facts (record w' { machine = n }) p waiting now m late l in
    (
      done.0,
      ap h.list_ruleset done.1
          ∙ a.back n m (rw (saved_change w'.pending_file a.change p a.saved waiting) l),
    )
