-- ===== src/Firewall/Window/Steps.antt =====
-- The steps of the manager's methods that leave the stored model alone, or drop entries from it.
use native.Mathlib.Nat.{le_trans}
use asc_daemon.Prelude.{
  ℕ, refl, Bool, true, false, not, Text, List, [], ◌∷◌, arith, length-retain-le, retain,
}
use asc_daemon.Failure.{ModuleError}
use asc_daemon.Firewall.Model.{Mode, Model, SetEntry, expired}
use asc_daemon.Firewall.Host.{Host, State, Pending, pure, raise, gets, lift, modify, require, ◌>>=◌}
use asc_daemon.Firewall.Files.{
  load_pending, save_pending, clear_pending, nft_apply, nft_check, save_ruleset, clear_ruleset,
}
use asc_daemon.Firewall.Apply.{
  drop_expired, require_nft, require_no_pending, rollback_for, arm, stop_competing,
}
use asc_daemon.Firewall.Edit.{entry_value}
use asc_daemon.Firewall.Edit.Keys.{Distinct-retain}
use asc_daemon.Firewall.Edit.Bounds.{IsBounded, IsBoundedSet}
use asc_daemon.Firewall.Edit.Keeps.{Keeps, Keeps-same, Keeps-gets}

module _ {h : Host} where
  pub require-Keeps : (b : Bool) (e : ModuleError) → Keeps (require {h = h} b e)
  unfolding require
  require-Keeps true e = record { at = λ w i. i }
  require-Keeps false e = record { at = λ w i. i }

  pub nft_apply-Keeps : (script : Text) → Keeps (nft_apply {h = h} script)
  nft_apply-Keeps script = Keeps-same _ (unfold nft_apply raise modify in λ w. ground arith)

  pub nft_check-Keeps : (script : Text) → Keeps (nft_check {h = h} script)
  nft_check-Keeps script = Keeps-same _ (unfold nft_check require in λ w. ground arith)

  pub require_nft-Keeps : Keeps (require_nft {h = h})
  require_nft-Keeps = Keeps-same _ (unfold require_nft require in λ w. ground arith)

  pub load_pending-Keeps : Keeps (load_pending {h = h})
  unfolding load_pending
  load_pending-Keeps = Keeps-gets _

  pub clear_pending-Keeps : Keeps (clear_pending {h = h})
  clear_pending-Keeps = Keeps-same _ (unfold clear_pending in λ w. ground arith)

  pub save_pending-Keeps : (p : Pending) → Keeps (save_pending {h = h} p)
  save_pending-Keeps p = Keeps-same _ (unfold save_pending in λ w. ground arith)

  pub arm-Keeps : (id : Text) (t : ℕ) → Keeps (arm {h = h} id t)
  arm-Keeps id t = Keeps-same _ (unfold arm modify in λ w. refl)

  pub save_ruleset-Keeps : (script : Text) → Keeps (save_ruleset {h = h} script)
  save_ruleset-Keeps script = Keeps-same _ (unfold save_ruleset in λ w. ground arith)

  pub clear_ruleset-Keeps : Keeps (clear_ruleset {h = h})
  clear_ruleset-Keeps = Keeps-same _ (unfold clear_ruleset in λ w. ground arith)

  pub rollback_for-Keeps : (s : State) (target : Mode) → Keeps (rollback_for {h = h} s target)
  rollback_for-Keeps s target =
      Keeps-same _ (unfold rollback_for gets lift pure ◌>>=◌ in λ w. ground arith)

  pub stop_competing-Keeps : (cs : List Text) → Keeps (stop_competing {h = h} cs)
  stop_competing-Keeps [] = Keeps-same _ (unfold stop_competing pure in λ w. refl)
  stop_competing-Keeps (c ∷ cs) = Keeps-same _ (unfold stop_competing require in λ w. ground arith)

  pub require_no_pending-Keeps : Keeps (require_no_pending {h = h})
  require_no_pending-Keeps =
      Keeps-same _ (unfold require_no_pending load_pending require ◌>>=◌ in λ w. ground arith)

pub drop_expired-IsBounded : (now : ℕ) (m : Model) → IsBounded m → IsBounded (drop_expired now m)
unfolding drop_expired
drop_expired-IsBounded now m b = record {
  size = b.size;
  ids = b.ids;
  allowlist = alive m.sets.allowlist b.allowlist;
  blocklist = alive m.sets.blocklist b.blocklist;
}
  where
    alive :
        (l : List SetEntry) → IsBoundedSet l → IsBoundedSet (retain (λ e. not (expired e now)) l)
    alive l b = record {
      size = le_trans (length-retain-le (λ e. not (expired e now)) l) b.size;
      keys = Distinct-retain entry_value (λ e. not (expired e now)) l b.keys;
    }
