-- ===== src/Firewall/Edit/Sound.antt =====
-- src/daemon/firewall/mod.rs: the editing methods and the limits of the stored model.
use asc_daemon.Prelude.{◌≡◌, Bool, true, ◌||◌, Text, List, arith, leb, ltb, length, leb→le}
use native.Mathlib.Nat.{le_trans}
use asc_daemon.Failure.{Holds-trivial}
use asc_daemon.Firewall.Model.{Settings, Rule, SetEntry, SetName, max_rules, max_set_entries}
use asc_daemon.Firewall.Host.{Host, State}
use asc_daemon.Firewall.Edit.{
  update_settings, upsert_rule, remove_rule, set_entries, add_entry, remove_entry, has_key, put,
  without, with_rules, rule_id, entry_value,
}
use asc_daemon.Firewall.Edit.Keys.{Distinct-put, Distinct-without, length-put, length-without-le}
use asc_daemon.Firewall.Edit.Bounds.{
  IsBounded, IsBoundedSet, IsBounded-with_set, IsBounded-with_rules, IsBounded-with_settings,
  IsBounded-get_set, normalize_entries-IsBoundedSet,
}
use asc_daemon.Firewall.Edit.Keeps.{
  Keeps, Keeps-pure, Keeps-if, Keeps-bind, Keeps-lift, Keeps-require, Keeps-load, Keeps-save,
  Keeps-new_id,
}

ruleset keeps_rules = (Keeps-pure, Keeps-if, Keeps-bind, Keeps-save, Keeps-new_id)

put_rule-IsBounded :
    (r : Rule) (s : State)
    → (has_key rule_id r.id s.model.rules || ltb (length s.model.rules) max_rules) ≡ true
    → IsBounded s.model
    → IsBounded (with_rules (put rule_id r s.model.rules) s).model
put_rule-IsBounded r s room b =
    IsBounded-with_rules _ s (ground (arith, length-put rule_id r s.model.rules, b.size))
      (Distinct-put rule_id r s.model.rules b.ids) b

without_rule-IsBounded :
    (id : Text) (s : State)
    → IsBounded s.model
    → IsBounded (with_rules (without rule_id id s.model.rules) s).model
without_rule-IsBounded id s b =
    IsBounded-with_rules _ s (le_trans (length-without-le rule_id id s.model.rules) b.size)
      (Distinct-without rule_id id s.model.rules b.ids) b

put_entry-IsBoundedSet :
    (e : SetEntry) (l : List SetEntry)
    → IsBoundedSet l
    → leb (length (put entry_value e l)) max_set_entries ≡ true
    → IsBoundedSet (put entry_value e l)
put_entry-IsBoundedSet e l b room = record {
  size = leb→le _ _ room;
  keys = Distinct-put entry_value e l b.keys;
}

without_entry-IsBoundedSet :
    (value : Text) (l : List SetEntry) → IsBoundedSet l → IsBoundedSet (without entry_value value l)
without_entry-IsBoundedSet value l b = record {
  size = le_trans (length-without-le entry_value value l) b.size;
  keys = Distinct-without entry_value value l b.keys;
}

module _ {h : Host} where
  pub update_settings-Keeps :
      (settings : Settings) (force : Bool) → Keeps (update_settings {h = h} settings force)
  unfolding update_settings
  update_settings-Keeps settings force =
      Keeps-lift (λ _. Unit {0}) _ _ (Holds-trivial _)
        λ _ _.
          Keeps-load _ λ s b. Keeps-require _ _ _ λ _. search (keeps_rules, IsBounded-with_settings)

  pub upsert_rule-Keeps : (rule : Rule) → Keeps (upsert_rule {h = h} rule)
  unfolding upsert_rule
  upsert_rule-Keeps rule = Keeps-require _ _ _ λ _.
      Keeps-lift (λ _. Unit {0}) _ _ (Holds-trivial _)
        λ n _. Keeps-load _ λ s b. Keeps-bind _ _ (search keeps_rules) λ r.
          Keeps-require _ _ _
            λ room. Keeps-bind _ _ (Keeps-save _ (put_rule-IsBounded r s room b)) λ _. Keeps-pure r

  pub remove_rule-Keeps : (id : Text) → Keeps (remove_rule {h = h} id)
  unfolding remove_rule
  remove_rule-Keeps id = Keeps-load _ λ s b.
      Keeps-bind _ _ (Keeps-if _ _ _ (Keeps-save _ (without_rule-IsBounded id s b)) (Keeps-pure tt))
        λ _. Keeps-pure _

  pub set_entries-Keeps :
      (name : SetName) (entries : List SetEntry) → Keeps (set_entries {h = h} name entries)
  unfolding set_entries
  set_entries-Keeps name entries =
      Keeps-lift IsBoundedSet _ _ (normalize_entries-IsBoundedSet h.ip entries) λ l fits.
        Keeps-load _ λ s b.
          Keeps-bind _ _ (Keeps-save _ (IsBounded-with_set name l s fits b)) λ _. Keeps-pure l

  pub add_entry-Keeps : (name : SetName) (entry : SetEntry) → Keeps (add_entry {h = h} name entry)
  unfolding add_entry
  add_entry-Keeps name entry =
      Keeps-lift (λ _. Unit {0}) _ _ (Holds-trivial _)
        λ e _. Keeps-load _ λ s b. Keeps-require _ _ _ λ room.
          let fits = put_entry-IsBoundedSet e _ (IsBounded-get_set name s.model b) room in
          Keeps-bind _ _ (Keeps-save _ (IsBounded-with_set name _ s fits b)) λ _. Keeps-pure _

  pub remove_entry-Keeps : (name : SetName) (value : Text) → Keeps (remove_entry {h = h} name value)
  unfolding remove_entry
  remove_entry-Keeps name value =
      Keeps-lift (λ _. Unit {0}) _ _ (Holds-trivial _)
        λ net _. Keeps-load _ λ s b.
          let fits = without_entry-IsBoundedSet _ _ (IsBounded-get_set name s.model b) in
          Keeps-bind _ _
            (Keeps-if _ _ _ (Keeps-save _ (IsBounded-with_set name _ s fits b)) (Keeps-pure tt))
            λ _. Keeps-pure _
