-- ===== src/Firewall/Runs.antt =====
-- Runs of the firewall manager: its methods, one after another under its lock, between which other
-- programs may change the kernel's rules.
use asc_daemon.Firewall.Presets.{Facts}
use asc_daemon.Prelude.{ℕ, Bool, Text, List, [], ◌∷◌}
use asc_daemon.Firewall.Model.{Settings, Rule, SetEntry, SetName}
use asc_daemon.Firewall.Host.{Host, World}
use asc_daemon.Firewall.Edit
use asc_daemon.Firewall.Edit.Bounds.{IsBounded}
use asc_daemon.Firewall.Edit.Keeps.{Inv}
use asc_daemon.Firewall.Edit.Sound.{
  update_settings-Keeps, upsert_rule-Keeps, remove_rule-Keeps, set_entries-Keeps, add_entry-Keeps,
  remove_entry-Keeps,
}
use asc_daemon.Firewall.Files.{stored_state}
use asc_daemon.Firewall.Apply
use asc_daemon.Firewall.Window
use asc_daemon.Firewall.Window.Limits.{
  apply-Keeps, apply_raw-Keeps, confirm-Keeps, rollback-Keeps, expire-Keeps, disable-Keeps,
  recover-Keeps,
}

module _ (h : Host) where
  pub data Event : Type 0 where
    update_settings : Settings → Bool → Event
    upsert_rule : Rule → Event
    remove_rule : Text → Event
    set_entries : SetName → List SetEntry → Event
    add_entry : SetName → SetEntry → Event
    remove_entry : SetName → Text → Event
    apply : Facts → ℕ → Bool → Event
    apply_raw : Facts → Text → Bool → ℕ → Event
    confirm : Text → Facts → Event
    rollback : Facts → Event
    expire : Text → ℕ → Event
    disable : Facts → Event
    recover : Event
    elsewhere : h.Machine → Event

module _ {h : Host} where
  -- The world after one event, whether the method succeeded or failed.
  unfoldable pub after : Event h → World h → World h
  after (update_settings settings force) w = (Edit.update_settings settings force w).1
  after (upsert_rule rule) w = (Edit.upsert_rule rule w).1
  after (remove_rule id) w = (Edit.remove_rule id w).1
  after (set_entries name entries) w = (Edit.set_entries name entries w).1
  after (add_entry name entry) w = (Edit.add_entry name entry w).1
  after (remove_entry name value) w = (Edit.remove_entry name value w).1
  after (apply facts timeout force) w = (Apply.apply facts timeout force w).1
  after (apply_raw facts text ack_risk timeout) w =
      (Apply.apply_raw facts text ack_risk timeout w).1
  after (confirm id facts) w = (Window.confirm id facts w).1
  after (rollback facts) w = (Window.rollback facts w).1
  after (expire id now) w = (Window.expire id now w).1
  after (disable facts) w = (Window.disable facts w).1
  after recover w = (Window.recover w).1
  after (elsewhere m) w = record w { machine = m }

  unfoldable pub after_all : List (Event h) → World h → World h
  unfolding after
  after_all [] w = w
  after_all (e ∷ events) w = after_all events (after e w)

  after-Inv : (e : Event h) (w : World h) → Inv w → Inv (after e w)
  unfolding after
  after-Inv (update_settings settings force) w i = (update_settings-Keeps settings force).at w i
  after-Inv (upsert_rule rule) w i = (upsert_rule-Keeps rule).at w i
  after-Inv (remove_rule id) w i = (remove_rule-Keeps id).at w i
  after-Inv (set_entries name entries) w i = (set_entries-Keeps name entries).at w i
  after-Inv (add_entry name entry) w i = (add_entry-Keeps name entry).at w i
  after-Inv (remove_entry name value) w i = (remove_entry-Keeps name value).at w i
  after-Inv (apply facts timeout force) w i = (apply-Keeps facts timeout force).at w i
  after-Inv (apply_raw facts text ack_risk timeout) w i =
      (apply_raw-Keeps facts text ack_risk timeout).at w i
  after-Inv (confirm id facts) w i = (confirm-Keeps id facts).at w i
  after-Inv (rollback facts) w i = (rollback-Keeps facts).at w i
  after-Inv (expire id now) w i = (expire-Keeps id now).at w i
  after-Inv (disable facts) w i = (disable-Keeps facts).at w i
  after-Inv recover w i = recover-Keeps.at w i
  after-Inv (elsewhere m) w i = i

-- After any sequence of calls of the manager and of changes by other programs, whatever writes fail
-- on the way, the stored model is within its limits if it was at the start: at most 500 rules with
-- different ids, and in each set at most 10,000 entries with different addresses.
pub runs_keep_limits :
    {h : Host} (events : List (Event h)) (w : World h)
    → IsBounded (stored_state w.state_file).model
    → IsBounded (stored_state (after_all events w).state_file).model
unfolding after_all
runs_keep_limits [] w i = i
runs_keep_limits (e ∷ events) w i = runs_keep_limits events (after e w) (after-Inv e w i)
