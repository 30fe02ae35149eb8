-- ===== src/Firewall/Edit/Effects.antt =====
-- What the editing methods do to the stored model.
use asc_daemon.Prelude.{
  ◌==◌, if◌then◌else◌, ◌≡◌, ap, inl, inr, Bool, true, false, not, ◌&&◌, Text, List, [], ◌∷◌, arith,
  leb, length, retain, Bool-cases, text_eq, text_eq_sound,
}
use asc_daemon.Failure.{ok}
use asc_daemon.Firewall.Model.{Settings, Rule, text_mem, critical_presets, preset_enabled}
use asc_daemon.Firewall.Host.{
  Host, World, lift, pure, gets, modify, require, attempt, new_id, ◌>>=◌,
}
use asc_daemon.Firewall.Files.{stored_state, load_state, save_state}
use asc_daemon.Firewall.Edit.{
  newly_off, update_settings, upsert_rule, remove_rule, has_key, put, without, rule_id,
}
use asc_daemon.Firewall.Edit.Keys.{has_key-without, length-without_iff}

-- Nothing is retained of a list where the test fails on each member.
retain_none :
    (q : Text → Bool) (p : Text) (l : List Text)
    → leb (length (retain q l)) 0 ≡ true
    → text_mem p l ≡ true
    → q p ≡ false
unfolding text_mem
retain_none q p [] h m = cc
retain_none q p (x ∷ l) h m = elim (Bool-cases (q x)) [
  | inl y ↦ absurd (ground arith)
  | inr n ↦ elim (Bool-cases (text_eq x p)) [
    | inl e ↦ rw (← text_eq_sound x p e) n
    | inr d ↦ retain_none q p l (rw n at h) (ground arith)
  ]
]

module _ {h : Host} (settings : Settings) (w : World h) {s : Settings} {w' : World h} where
  update_settings_ok :
      update_settings settings false w ≡ (ok s, w')
      → (s ≡ settings)
        × (leb
              (length (
                newly_off
                  (stored_state w.state_file).model.settings.disabled_presets
                  settings.disabled_presets))
              0
            ≡ true)
  unfolding update_settings load_state save_state attempt require lift pure gets modify ◌>>=◌
  update_settings_ok e = ground (arith, e)

-- Without `force`, settings that are accepted switch off no critical preset (`ssh`, `api`) that was
-- enabled in the stored settings.
pub critical_presets_stay :
    {h : Host} (settings : Settings) (w : World h) (preset : Text) {s : Settings} {w' : World h}
    → update_settings settings false w ≡ (ok s, w')
    → text_mem preset critical_presets ≡ true
    → preset_enabled (stored_state w.state_file).model.settings preset ≡ true
    → preset_enabled s preset ≡ true
unfolding preset_enabled newly_off
critical_presets_stay settings w preset e critical on =
    let old = (stored_state w.state_file).model.settings.disabled_presets in
    let (same, none_off) = update_settings_ok settings w e in
    elim (Bool-cases (text_mem preset settings.disabled_presets)) [
      | inr n ↦ rw same (rw n)
      | inl y ↦ absurd (
          ground (
            arith,
            on,
            critical,
            retain_none (λ p. not (text_mem p old) && text_mem p critical_presets) preset
                settings.disabled_presets none_off y,
          ))
    ]

abbrev pub rules_of : {h : Host} → World h → List Rule
rules_of w = (stored_state w.state_file).model.rules

module _ {h : Host} (id : Text) (w : World h) {removed : Bool} {w' : World h} where
  remove_rule_ok :
      remove_rule id w ≡ (ok removed, w')
      → (removed ≡ not (length (without rule_id id (rules_of w)) == length (rules_of w)))
        × (rules_of w' ≡ (if removed then without rule_id id (rules_of w) else rules_of w))
  unfolding remove_rule load_state save_state attempt require lift pure gets modify ◌>>=◌
  remove_rule_ok e = ground (arith, e)

module _ {h : Host} (rule : Rule) (w : World h) {r : Rule} {w' : World h} where
  pub upsert_rule_ok : upsert_rule rule w ≡ (ok r, w') → rules_of w' ≡ put rule_id r (rules_of w)
  unfolding upsert_rule load_state save_state attempt require lift pure gets modify new_id ◌>>=◌
  upsert_rule_ok e = ground (arith, e)

-- After a removal that succeeds no stored rule has the id; the result says whether one had it.
pub remove_rule_removes :
    {h : Host} (id : Text) (w : World h) {removed : Bool} {w' : World h}
    → remove_rule id w ≡ (ok removed, w')
    → (has_key rule_id id (rules_of w') ≡ false) × (removed ≡ has_key rule_id id (rules_of w))
remove_rule_removes id w e =
    let (shorter, rest) = remove_rule_ok id w e in
    ground (
      arith,
      shorter,
      ap (has_key rule_id id) rest,
      has_key-without rule_id id (rules_of w),
      length-without_iff rule_id id (rules_of w),
    )
