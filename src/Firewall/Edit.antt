-- ===== src/Firewall/Edit.antt =====
-- src/daemon/firewall/mod.rs: the operations that edit the stored model and touch no rule in force.
pub mod Keys
pub mod Bounds
pub mod Keeps
pub mod Sound
pub mod Effects
pub mod Stored
use asc_daemon.Prelude.{
  ℕ, Bool, true, false, ◌&&◌, ◌||◌, not, Option, none, some, Text, List, [], ◌∷◌, ◌++◌, codes,
  text_eq, if◌then◌else◌, leb, ltb, ◌==◌, length, is_empty, retain, any,
}
use asc_daemon.Failure.{ModuleError, Result, ok, err, invalid, precondition}
use asc_daemon.Net.{IpText, parse_net, show_net}
use asc_daemon.Firewall.Model.{
  Settings, Rule, SetEntry, SetName, get_set, put_set, Model, validate_presets, text_mem,
  critical_presets, normalize_rule, is_preset, normalize_entry, max_rules, max_set_entries,
}
use asc_daemon.Firewall.Host.{
  Host, State, World, Op, pure, raise, lift, require, new_id, ◌>>=◌, ◌>>◌,
}
use asc_daemon.Firewall.Files.{load_state, save_state}

-- `map_err(invalid)`
abbrev pub as_invalid {ℓ} : {A : Type ℓ} → Result A → Result A
as_invalid (ok a) = ok a
as_invalid (err _) = err invalid

-- the critical presets that `new` switches off and `old` does not
unfoldable pub newly_off : List Text → List Text → List Text
unfolding text_mem
newly_off old new = retain (λ p. not (text_mem p old) && text_mem p critical_presets) new

-- `iter_mut().find(…)`, and `push` where there is none: lists of things with a key
module _ {A : Type 0} (key : A → Text) where
  unfoldable pub has_key : Text → List A → Bool
  unfolding text_eq
  has_key k l = any (λ a. text_eq (key a) k) l

  unfoldable pub replace_first : A → List A → List A
  unfolding text_eq
  replace_first a [] = []
  replace_first a (b ∷ l) = if text_eq (key b) (key a) then a ∷ l else b ∷ replace_first a l

  unfoldable pub put : A → List A → List A
  unfolding has_key replace_first
  put a l = if has_key (key a) l then replace_first a l else l ++ a ∷ []

  unfoldable pub without : Text → List A → List A
  unfolding text_eq
  without k l = retain (λ a. not (text_eq (key a) k)) l

abbrev pub rule_id : Rule → Text
rule_id r = r.id

abbrev pub entry_value : SetEntry → Text
entry_value e = e.value

abbrev pub with_rules : List Rule → State → State
with_rules rules s = record s { model = record (s.model) { rules = rules } }

abbrev pub with_set : SetName → List SetEntry → State → State
with_set name l s = record s { model = record (s.model) { sets = put_set name l s.model.sets } }

abbrev pub with_settings : Settings → State → State
with_settings settings s = record s { model = record (s.model) { settings = settings } }

-- `normalize_entries`
normalize_into : IpText → List SetEntry → List SetEntry → Result (List SetEntry)
unfolding normalize_entry put
normalize_into ip done [] = ok done
normalize_into ip done (e ∷ rest) = elim (normalize_entry ip e) [
  | err _ ↦ err invalid
  | ok e' ↦ normalize_into ip (put entry_value e' done) rest
]

unfoldable pub normalize_entries : IpText → List SetEntry → Result (List SetEntry)
unfolding normalize_into
normalize_entries ip entries =
    if ltb max_set_entries (length entries) then err invalid else normalize_into ip [] entries

module _ {h : Host} where
  unfoldable pub update_settings : Settings → Bool → Op h Settings
  update_settings settings force = do
    lift (as_invalid (validate_presets settings.disabled_presets))
    state ← load_state
    let off = newly_off state.model.settings.disabled_presets settings.disabled_presets
    require (leb (length off) 0 || force) precondition
    save_state (with_settings settings state)
    pure settings

  -- the id that is drawn where the rule has none
  abbrev with_id : Rule → Op h Rule
  with_id rule =
      if is_empty rule.id
      then (do id ← new_id (codes "r"); pure (record rule { id = id }))
      else pure rule

  unfoldable pub upsert_rule : Rule → Op h Rule
  upsert_rule rule = do
    require (not (is_preset rule)) invalid
    normal ← lift (as_invalid (normalize_rule h.ip rule))
    state ← load_state
    named ← with_id normal
    require (has_key rule_id named.id state.model.rules || ltb (length state.model.rules) max_rules)
        invalid
    save_state (with_rules (put rule_id named state.model.rules) state)
    pure named

  unfoldable pub remove_rule : Text → Op h Bool
  remove_rule id = do
    state ← load_state
    let rules = without rule_id id state.model.rules
    let removed = not (length rules == length state.model.rules)
    if removed then save_state (with_rules rules state) else pure tt
    pure removed

  unfoldable pub set_entries : SetName → List SetEntry → Op h (List SetEntry)
  set_entries name entries = do
    normal ← lift (normalize_entries h.ip entries)
    state ← load_state
    save_state (with_set name normal state)
    pure normal

  unfoldable pub add_entry : SetName → SetEntry → Op h (List SetEntry)
  add_entry name entry = do
    normal ← lift (as_invalid (normalize_entry h.ip entry))
    state ← load_state
    let l = put entry_value normal (get_set name state.model.sets)
    require (leb (length l) max_set_entries) invalid
    save_state (with_set name l state)
    pure l

  unfoldable pub remove_entry : SetName → Text → Op h Bool
  remove_entry name value = do
    net ← lift (as_invalid (parse_net h.ip value))
    state ← load_state
    let l = without entry_value (show_net h.ip net) (get_set name state.model.sets)
    let removed = not (length l == length (get_set name state.model.sets))
    if removed then save_state (with_set name l state) else pure tt
    pure removed
