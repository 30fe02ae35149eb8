-- ===== src/Firewall/Edit/Stored.antt =====
-- src/daemon/firewall/mod.rs: the stored rules after `upsert_rule`, as a map from ids to rules.
use asc_daemon.Prelude.{
  ◌≡◌, refl, ap, ◌∙◌, true, false, Option, none, some, Text, List, [], ◌∷◌, ◌++◌, text_eq,
  text_eq_sound, text_eq_refl, is_empty, if◌then◌else◌, if_split, arith,
}
use asc_daemon.Failure.{Result, ok, err}
use asc_daemon.Firewall.Model.{Rule, normalize_rule}
use asc_daemon.Firewall.Host.{
  Host, World, lift, pure, gets, modify, require, attempt, new_id, ◌>>=◌,
}
use asc_daemon.Firewall.Files.{stored_state, load_state, save_state}
use asc_daemon.Firewall.Edit.{upsert_rule, has_key, replace_first, put, rule_id}
use asc_daemon.Firewall.Edit.Effects.{rules_of, upsert_rule_ok}

-- the rule with an id, as a map has it
unfoldable pub rule_with : Text → List Rule → Option Rule
rule_with id [] = none
rule_with id (r ∷ rules) = if text_eq r.id id then some r else rule_with id rules

rule_with-replace_first :
    (id : Text) (r : Rule) (rules : List Rule)
    → has_key rule_id r.id rules ≡ true
    → rule_with id (replace_first rule_id r rules)
      ≡ (if text_eq r.id id then some r else rule_with id rules)
unfolding rule_with replace_first has_key
rule_with-replace_first id r [] h = ground (arith, h)
rule_with-replace_first id r (q ∷ rules) h = ground (
  arith,
  h,
  rule_with-replace_first id r rules,
  text_eq_sound q.id r.id,
  text_eq_sound q.id id,
  text_eq_sound r.id id,
  text_eq_refl id,
)

rule_with-append :
    (id : Text) (r : Rule) (rules : List Rule)
    → has_key rule_id r.id rules ≡ false
    → rule_with id (rules ++ r ∷ []) ≡ (if text_eq r.id id then some r else rule_with id rules)
unfolding rule_with has_key
rule_with-append id r [] h = refl
rule_with-append id r (q ∷ rules) h = ground (
  arith,
  h,
  rule_with-append id r rules,
  text_eq_sound q.id id,
  text_eq_sound r.id id,
  text_eq_refl id,
)

rule_with-put :
    (id : Text) (r : Rule) (rules : List Rule)
    → rule_with id (put rule_id r rules) ≡ (if text_eq r.id id then some r else rule_with id rules)
unfolding put
rule_with-put id r rules =
    if_split (λ l. rule_with id l ≡ (if text_eq r.id id then some r else rule_with id rules))
      (has_key rule_id r.id rules) _ _ (λ y. rule_with-replace_first id r rules y)
      λ n. rule_with-append id r rules n

-- `q` is `n`, under the id of `n` if it has one.
abbrev pub IsNamed : Rule → Rule → Type 0
IsNamed n q = (q ≡ record n { id = q.id }) × (is_empty n.id ≡ false → q.id ≡ n.id)

module _ {h : Host} (rule : Rule) (w : World h) {r : Rule} {w' : World h} where
  upsert_rule_canonical :
      upsert_rule rule w ≡ (ok r, w')
      → (x : Result Rule) → normalize_rule h.ip rule ≡ x
      → (n : Rule) × (normalize_rule h.ip rule ≡ ok n) × IsNamed n r
  unfolding upsert_rule load_state save_state attempt require lift pure gets modify new_id ◌>>=◌
  upsert_rule_canonical e (ok n) k =
      (n, k, (ground (arith, e, k), λ some_id. ground (arith, e, k, some_id)))
  upsert_rule_canonical e (err x) k = ground (arith, e, k)

  upsert_rule_frame :
      upsert_rule rule w ≡ (ok r, w')
      → ((stored_state w'.state_file).model
          ≡ record ((stored_state w.state_file).model) { rules = rules_of w' })
        × (w'.machine ≡ w.machine)
        × (w'.pending_file ≡ w.pending_file)
  unfolding upsert_rule load_state save_state attempt require lift pure gets modify new_id ◌>>=◌
  upsert_rule_frame e = (ground (arith, e), ground (arith, e), ground (arith, e))

-- When an upsert succeeds, the rule that it returns is the canonical form of the one that is given, under its id if it
-- has one. Under that id the stored rules have it, whatever they had, and under every other id what they had; the
-- settings, the sets, the kernel's rules and the pending change stay.
pub upsert_rule_lem :
    {h : Host} (rule : Rule) (w : World h) {r : Rule} {w' : World h}
    → upsert_rule rule w ≡ (ok r, w')
    → ((n : Rule) × (normalize_rule h.ip rule ≡ ok n) × IsNamed n r)
      × ((id : Text)
          → rule_with id (rules_of w')
            ≡ (if text_eq r.id id then some r else rule_with id (rules_of w)))
      × ((stored_state w'.state_file).model
          ≡ record ((stored_state w.state_file).model) { rules = rules_of w' })
      × (w'.machine ≡ w.machine)
      × (w'.pending_file ≡ w.pending_file)
upsert_rule_lem {h} rule w {r} e = (
  upsert_rule_canonical rule w e (normalize_rule h.ip rule) refl,
  λ id. ap (rule_with id) (upsert_rule_ok rule w e) ∙ rule_with-put id r (rules_of w),
  (upsert_rule_frame rule w e).0,
  (upsert_rule_frame rule w e).1,
  (upsert_rule_frame rule w e).2,
)
