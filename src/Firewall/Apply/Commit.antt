-- ===== src/Firewall/Apply/Commit.antt =====
-- src/daemon/firewall/mod.rs: what `commit_parts` and the steps after it leave in the files.
use asc_daemon.Firewall.Presets.{Facts}
use asc_daemon.Prelude.{◌≡◌, refl, ap, ◌∙◌, some, Text, [], arith, inl, inr, Bool-cases}
use asc_daemon.Failure.{Result, ok, err}
use asc_daemon.Firewall.Model.{Mode}
use asc_daemon.Firewall.Host.{
  Host, Stored, holds, State, World, pure, gets, modify, attempt, try_to, unix_now, ◌>>=◌,
}
use asc_daemon.Firewall.Files.{
  stored_state, set_aside, load_state, save_state, load_pending, clear_pending, save_ruleset,
}
use asc_daemon.Firewall.Triple.{Ends, Triple, Triple-bind}
use asc_daemon.Firewall.Apply.{overview, commit_parts}
use asc_daemon.Firewall.Apply.Rollback.{Any, Triple-Any}

set_aside_held : (f : Stored State) (s : State) → f ≡ holds s → set_aside f ≡ f
set_aside_held f s e = rw e

stored_held : (f : Stored State) (s : State) → f ≡ holds s → stored_state f ≡ s
stored_held f s e = rw e

abbrev Committing : State → Mode → Text → Text → State → Type 0
Committing old mode table fingerprint s =
    (s.mode ≡ mode)
    × (s.applied_table ≡ table)
    × (s.applied_fp ≡ fingerprint)
    × (s.model ≡ old.model)
    × (s.raw_text ≡ old.raw_text)
    × (s.last_error ≡ [])

module _ {h : Host} (old : State) (mode : Mode) (table fingerprint : Text) where
  -- state.json holds the model and the RAW text of `old`, with the mode, the table and the fingerprint that were
  -- committed, and no error.
  pub record Recorded (w : World h) : Type 0 where
    pub state : State
    pub saved : w.state_file ≡ holds state
    pub mode_eq : state.mode ≡ mode
    pub table_eq : state.applied_table ≡ table
    pub fp_eq : state.applied_fp ≡ fingerprint
    pub model_eq : state.model ≡ old.model
    pub raw_eq : state.raw_text ≡ old.raw_text
    pub error_eq : state.last_error ≡ []

  -- `Recorded`, and `script` is loaded at the next boot.
  pub record Committed (script : Text) (w : World h) : Type 0 where
    pub recorded : Recorded w
    pub boot : w.ruleset_file ≡ some script

  save_state-Recorded :
      (s : State)
      → Committing old mode table fingerprint s
      → Triple Any (save_state s) (λ _. Recorded) Any
  save_state-Recorded s c = record {
    at = λ w _. elim (Bool-cases (h.fails w.step)) [
      | inl y ↦ unfold save_state attempt in rw (y, save_state, attempt) tt
      | inr n ↦
          unfold save_state attempt in
          rw (n, save_state, attempt)
            (record {
              state = s;
              saved = refl;
              mode_eq = c.0;
              table_eq = c.1;
              fp_eq = c.2;
              model_eq = c.3;
              raw_eq = c.4;
              error_eq = c.5;
            })
    ];
  }

  Recorded-same : (w w' : World h) → w'.state_file ≡ w.state_file → Recorded w → Recorded w'
  Recorded-same w w' e r = record {
    state = r.state;
    saved = e ∙ r.saved;
    mode_eq = r.mode_eq;
    table_eq = r.table_eq;
    fp_eq = r.fp_eq;
    model_eq = r.model_eq;
    raw_eq = r.raw_eq;
    error_eq = r.error_eq;
  }

  -- a successful `save_ruleset` wrote the script
  save_ruleset_ok :
      (script : Text) (w : World h)
      → ((save_ruleset script w).1.state_file ≡ w.state_file)
        × ((save_ruleset script w).0 ≡ ok tt → (save_ruleset script w).1.ruleset_file ≡ some script)
  unfolding save_ruleset
  save_ruleset_ok script w = (ground arith, ground arith)

  Ends-ok :
      (P : World h → Type 0) (r : Result (Unit {0})) (w : World h)
      → (r ≡ ok tt → P w)
      → Ends (λ _. P) Any r w
  Ends-ok P (ok tt) w k = k refl
  Ends-ok P (err e) w k = tt

  save_ruleset-Committed :
      (script : Text) → Triple Recorded (save_ruleset script) (λ _. Committed script) Any
  save_ruleset-Committed script = record {
    at = λ w r.
        let (same, boot) = save_ruleset_ok script w in
        Ends-ok (Committed script) _ _
          λ done. record { recorded = Recorded-same w _ same r; boot = boot done };
  }

  pub commit_parts-Committed :
      (script : Text)
      → Triple Any (commit_parts old mode table fingerprint script) (λ _. Committed script) Any
  unfolding commit_parts
  commit_parts-Committed script = Triple-bind _ _ (Triple-Any Any unix_now) λ now.
      Triple-bind _ _ (save_state-Recorded _ (refl, refl, refl, refl, refl, refl))
        λ _. save_ruleset-Committed script

  Committed-same :
      (script : Text) (w w' : World h)
      → w'.state_file ≡ w.state_file
      → w'.ruleset_file ≡ w.ruleset_file
      → Committed script w
      → Committed script w'
  Committed-same script w w' es er c = record {
    recorded = Recorded-same w w' es c.recorded;
    boot = er ∙ c.boot;
  }

  pub clear_pending-Committed :
      (script : Text) → Triple (Committed script) clear_pending (λ _. Committed script) Any
  unfolding clear_pending
  clear_pending-Committed script = record {
    at = λ w c. elim (Bool-cases (h.fails w.step)) [
      | inl y ↦ rw (y, clear_pending, try_to) (Committed-same script w _ refl refl c)
      | inr n ↦ rw (n, clear_pending, try_to) (Committed-same script w _ refl refl c)
    ];
  }

  pub overview-Committed :
      (facts : Facts) (script : Text)
      → Triple
          (Committed script)
          (overview facts)
          (λ o w. Committed script w × (o.mode ≡ mode) × (o.last_error ≡ []))
          Any
  unfolding overview load_state load_pending modify gets pure unix_now ◌>>=◌
  overview-Committed facts script = record {
    at = λ w c.
        let r = c.recorded in
        (
          Committed-same script w _ (set_aside_held w.state_file r.state r.saved) refl c,
          ap (λ (s : State). s.mode) (stored_held w.state_file r.state r.saved) ∙ r.mode_eq,
          ap (λ (s : State). s.last_error) (stored_held w.state_file r.state r.saved) ∙ r.error_eq,
        );
  }
