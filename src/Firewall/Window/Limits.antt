-- ===== src/Firewall/Window/Limits.antt =====
-- src/daemon/firewall/mod.rs: the stored model under the methods that apply, confirm and recover.
use asc_daemon.Firewall.Presets.{Facts}
use asc_daemon.Prelude.{
  ℕ, ◌==◌, ltb, leb, ◌||◌, text_eq, Bool, not, Option, none, some, Text, arith,
}
use asc_daemon.Firewall.Model.{Mode}
use asc_daemon.Firewall.Host.{Host, State, Pending, Op, raise, modify, ◌>>=◌}
use asc_daemon.Firewall.Files.{clear_pending, nft_apply, remove_script}
use asc_daemon.Firewall.Apply.{
  Change, overview, commit_parts, submit_pending, submit_now, submit, apply_or_clear, apply,
  apply_raw,
}
use asc_daemon.Firewall.Window.{
  save_note, rollback_locked, confirm, confirm_late, confirm_in_time, confirm_pending,
  roll_back_pending, rollback, expire_pending, expire, disable, logged, recover_pending, load_saved,
  restore_table, recover_with, recover,
}
use asc_daemon.Firewall.Edit.Bounds.{IsBounded}
use asc_daemon.Firewall.Edit.Keeps.{
  Keeps, Keeps-same, Keeps-pure, Keeps-raise, Keeps-if, Keeps-bind, Keeps-load, Keeps-save,
  Keeps-gets, Keeps-unix_now, Keeps-new_id,
}
use asc_daemon.Firewall.Window.Steps.{
  require-Keeps, nft_apply-Keeps, nft_check-Keeps, require_nft-Keeps, load_pending-Keeps,
  clear_pending-Keeps, save_pending-Keeps, arm-Keeps, save_ruleset-Keeps, clear_ruleset-Keeps,
  rollback_for-Keeps, stop_competing-Keeps, require_no_pending-Keeps, drop_expired-IsBounded,
}

ruleset same_rules = (
  Keeps-pure, Keeps-raise, Keeps-if, Keeps-bind, Keeps-save, Keeps-unix_now, Keeps-new_id,
  Keeps-gets, require-Keeps, nft_apply-Keeps, nft_check-Keeps, require_nft-Keeps,
  load_pending-Keeps, clear_pending-Keeps, save_pending-Keeps, arm-Keeps, save_ruleset-Keeps,
  clear_ruleset-Keeps, rollback_for-Keeps, stop_competing-Keeps, require_no_pending-Keeps,
)

module _ {h : Host} where
  overview-Keeps : (facts : Facts) → Keeps (overview {h = h} facts)
  unfolding overview
  overview-Keeps facts = Keeps-load _ λ s b. search same_rules

  -- `IsBounded` looks at the rules and the sets alone
  commit_parts-Keeps :
      (s : State) (mode : Mode) (table fingerprint script : Text)
      → IsBounded s.model
      → Keeps (commit_parts {h = h} s mode table fingerprint script)
  unfolding commit_parts
  commit_parts-Keeps s mode table fingerprint script b =
      Keeps-bind _ _ Keeps-unix_now
        λ now. Keeps-bind _ _ (Keeps-save _ b) λ _. save_ruleset-Keeps script

  submit_now-Keeps :
      (s : State) (change : Change) → IsBounded s.model → Keeps (submit_now {h = h} s change)
  unfolding submit_now
  submit_now-Keeps s change b =
      Keeps-bind _ _ (nft_apply-Keeps change.script)
        λ _. commit_parts-Keeps s change.target_mode change.table change.fingerprint change.script b

  apply_or_clear-Keeps : (script : Text) → Keeps (apply_or_clear {h = h} script)
  apply_or_clear-Keeps script =
      Keeps-same _
        (unfold apply_or_clear nft_apply clear_pending raise modify ◌>>=◌ in λ w. ground arith)

  submit_pending-Keeps :
      (change : Change) (timeout : ℕ) → Keeps (submit_pending {h = h} change timeout)
  unfolding submit_pending
  submit_pending-Keeps change timeout = Keeps-bind _ _ Keeps-unix_now λ now.
      Keeps-bind _ _ (Keeps-new_id _) λ id.
        Keeps-bind _ _ (save_pending-Keeps _)
          λ _. Keeps-bind _ _ (apply_or_clear-Keeps _) λ _. arm-Keeps _ _

  submit-Keeps :
      (s : State) (change : Change) (timeout : ℕ)
      → IsBounded s.model
      → Keeps (submit {h = h} s change timeout)
  unfolding submit
  submit-Keeps s change timeout b = Keeps-bind _ _ (nft_check-Keeps change.script) λ _.
      Keeps-if (timeout == 0) _ _ (submit_now-Keeps s change b)
        (submit_pending-Keeps change timeout)

  pub apply-Keeps :
      (facts : Facts) (timeout : ℕ) (force : Bool) → Keeps (apply {h = h} facts timeout force)
  unfolding apply
  apply-Keeps facts timeout force = Keeps-bind _ _ (require-Keeps _ _) λ _.
      Keeps-bind _ _ require_nft-Keeps λ _. Keeps-bind _ _ require_no_pending-Keeps λ _.
        Keeps-load _ λ s b. Keeps-bind _ _ (Keeps-gets _) λ cs.
          Keeps-bind _ _ (require-Keeps _ _) λ _. Keeps-bind _ _ Keeps-unix_now λ now.
            Keeps-bind _ _ (rollback_for-Keeps _ _) λ back.
              let b' = drop_expired-IsBounded now s.model b in
              Keeps-bind _ _ (nft_check-Keeps _) λ _. Keeps-bind _ _ (stop_competing-Keeps cs) λ _.
                Keeps-bind _ _ (Keeps-save _ b')
                  λ _. Keeps-bind _ _ (submit-Keeps _ _ timeout b') λ _. overview-Keeps facts

  pub apply_raw-Keeps :
      (facts : Facts) (text : Text) (ack_risk : Bool) (timeout : ℕ)
      → Keeps (apply_raw {h = h} facts text ack_risk timeout)
  unfolding apply_raw
  apply_raw-Keeps facts text ack_risk timeout = Keeps-bind _ _ (require-Keeps _ _) λ _.
      Keeps-bind _ _ (require-Keeps _ _) λ _. Keeps-bind _ _ (require-Keeps _ _) λ _.
        Keeps-bind _ _ (require-Keeps _ _) λ _. Keeps-bind _ _ require_nft-Keeps λ _.
          Keeps-bind _ _ require_no_pending-Keeps λ _. Keeps-load _ λ s b.
            Keeps-bind _ _ (rollback_for-Keeps _ _) λ back.
              Keeps-bind _ _ (Keeps-save _ b)
                λ _. Keeps-bind _ _ (submit-Keeps _ _ timeout b) λ _. overview-Keeps facts

  save_note-Keeps : (s : State) → IsBounded s.model → Keeps (save_note {h = h} s)
  unfolding save_note
  save_note-Keeps s b = record { at = (Keeps-save s b).at }

  rollback_locked-Keeps : (p : Pending) (why : Text) → Keeps (rollback_locked {h = h} p why)
  unfolding rollback_locked
  rollback_locked-Keeps p why =
      Keeps-bind _ _ (nft_apply-Keeps _)
        λ _. Keeps-bind _ _ clear_pending-Keeps λ _. Keeps-load _ λ s b. save_note-Keeps _ b

  confirm_pending-Keeps :
      (id : Text) (facts : Facts) (o : Option Pending) → Keeps (confirm_pending {h = h} id facts o)
  unfolding confirm_pending confirm_late confirm_in_time
  confirm_pending-Keeps id facts none = Keeps-raise _
  confirm_pending-Keeps id facts (some p) = Keeps-bind _ _ (require-Keeps _ _) λ _.
      Keeps-bind _ _ Keeps-unix_now λ now.
        Keeps-if (ltb p.deadline_unix now) _ _
          (Keeps-bind _ _ (rollback_locked-Keeps p _) λ _. Keeps-raise _)
          (Keeps-load _ λ s b.
            Keeps-bind _ _ (commit_parts-Keeps s p.target_mode p.table p.fingerprint p.script b)
              λ _. Keeps-bind _ _ clear_pending-Keeps λ _. overview-Keeps facts)

  pub confirm-Keeps : (id : Text) (facts : Facts) → Keeps (confirm {h = h} id facts)
  unfolding confirm
  confirm-Keeps id facts = Keeps-bind _ _ load_pending-Keeps (confirm_pending-Keeps id facts)

  roll_back_pending-Keeps :
      (facts : Facts) (o : Option Pending) → Keeps (roll_back_pending {h = h} facts o)
  unfolding roll_back_pending
  roll_back_pending-Keeps facts none = Keeps-raise _
  roll_back_pending-Keeps facts (some p) =
      Keeps-bind _ _ (rollback_locked-Keeps p _) λ _. overview-Keeps facts

  pub rollback-Keeps : (facts : Facts) → Keeps (rollback {h = h} facts)
  rollback-Keeps facts =
      unfold rollback in Keeps-bind _ _ load_pending-Keeps (roll_back_pending-Keeps facts)

  expire_pending-Keeps :
      (id : Text) (now : ℕ) (o : Option Pending) → Keeps (expire_pending {h = h} id now o)
  unfolding expire_pending
  expire_pending-Keeps id now none = Keeps-pure _
  expire_pending-Keeps id now (some p) =
      Keeps-if (not (text_eq p.id id) || ltb now p.deadline_unix) _ _ (Keeps-pure _)
        (Keeps-bind _ _ (rollback_locked-Keeps p _) λ _. Keeps-pure _)

  pub expire-Keeps : (id : Text) (now : ℕ) → Keeps (expire {h = h} id now)
  unfolding expire
  expire-Keeps id now = Keeps-bind _ _ load_pending-Keeps (expire_pending-Keeps id now)

  pub disable-Keeps : (facts : Facts) → Keeps (disable {h = h} facts)
  unfolding disable
  disable-Keeps facts = Keeps-bind _ _ require_no_pending-Keeps λ _. Keeps-load _ λ s b.
      Keeps-bind _ _ (Keeps-gets _) λ on.
        Keeps-bind _ _ (Keeps-if on _ _ (nft_apply-Keeps remove_script) (Keeps-pure _)) λ _.
          Keeps-bind _ _ clear_ruleset-Keeps
            λ _. Keeps-bind _ _ (Keeps-save _ b) λ _. overview-Keeps facts

  logged-Keeps : (m : Op h (Unit {0})) → Keeps m → Keeps (logged m)
  unfolding logged
  logged-Keeps m k = record { at = k.at }

  recover_pending-Keeps : (p : Pending) → Keeps (recover_pending {h = h} p)
  unfolding recover_pending
  recover_pending-Keeps p = Keeps-bind _ _ Keeps-unix_now λ now.
      Keeps-if (leb p.deadline_unix now) _ _ (logged-Keeps _ (rollback_locked-Keeps p _))
        (arm-Keeps _ _)

  load_saved-Keeps : (o : Option Text) → Keeps (load_saved {h = h} o)
  unfolding load_saved
  load_saved-Keeps none = Keeps-pure _
  load_saved-Keeps (some script) = logged-Keeps _ (nft_apply-Keeps script)

  restore_table-Keeps : Keeps (restore_table {h = h})
  restore_table-Keeps =
      unfold restore_table in
      Keeps-load _ λ s b. Keeps-bind _ _ (Keeps-gets _) λ wanted.
        Keeps-bind _ _ (Keeps-gets _) λ present.
          Keeps-bind _ _ (Keeps-gets _)
            λ saved. Keeps-if (not wanted || present) _ _ (Keeps-pure _) (load_saved-Keeps saved)

  recover_with-Keeps : (o : Option Pending) → Keeps (recover_with {h = h} o)
  unfolding recover_with
  recover_with-Keeps none = restore_table-Keeps
  recover_with-Keeps (some p) = recover_pending-Keeps p

  pub recover-Keeps : Keeps (recover {h = h})
  recover-Keeps = unfold recover in Keeps-bind _ _ load_pending-Keeps recover_with-Keeps
