-- ===== src/Firewall/Edit/Bounds.antt =====
-- src/daemon/firewall/mod.rs: the limits and the keys of the stored model.
use asc_daemon.Prelude.{ℕ, ◌+◌, ◌≤◌, List, [], ◌∷◌, arith, ltb, length, Bool-cases, inl, inr}
use asc_daemon.Failure.{Result, ok, err, invalid, Holds}
use asc_daemon.Net.{IpText}
use asc_daemon.Firewall.Model.{
  SetEntry, SetName, allow, block, Settings, Rule, get_set, Model, normalize_entry, max_rules,
  max_set_entries,
}
use asc_daemon.Firewall.Host.{missing, State}
use asc_daemon.Firewall.Files.{stored_state}
use asc_daemon.Firewall.Edit.{
  put, rule_id, entry_value, with_rules, with_set, with_settings, normalize_into, normalize_entries,
}
use asc_daemon.Firewall.Edit.Keys.{Distinct, Distinct-put, length-put}

-- A set within its limit, each address once.
pub record IsBoundedSet (l : List SetEntry) : Type 0 where
  pub size : length l ≤ max_set_entries
  pub keys : Distinct entry_value l

-- The rules and both sets within their limits, each id and each address once.
pub record IsBounded (m : Model) : Type 0 where
  pub size : length m.rules ≤ max_rules
  pub ids : Distinct rule_id m.rules
  pub allowlist : IsBoundedSet m.sets.allowlist
  pub blocklist : IsBoundedSet m.sets.blocklist

pub IsBounded-default : IsBounded (stored_state missing).model
IsBounded-default = record {
  size = omega arith;
  ids = tt;
  allowlist = record { size = omega arith; keys = tt };
  blocklist = record { size = omega arith; keys = tt };
}

pub IsBounded-with_set :
    (name : SetName) (l : List SetEntry) (s : State)
    → IsBoundedSet l
    → IsBounded s.model
    → IsBounded (with_set name l s).model
IsBounded-with_set allow l s b g = record {
  size = g.size;
  ids = g.ids;
  allowlist = b;
  blocklist = g.blocklist;
}
IsBounded-with_set block l s b g = record {
  size = g.size;
  ids = g.ids;
  allowlist = g.allowlist;
  blocklist = b;
}

pub IsBounded-with_rules :
    (l : List Rule) (s : State)
    → length l ≤ max_rules
    → Distinct rule_id l
    → IsBounded s.model
    → IsBounded (with_rules l s).model
IsBounded-with_rules l s b d g = record {
  size = b;
  ids = d;
  allowlist = g.allowlist;
  blocklist = g.blocklist;
}

pub IsBounded-with_settings :
    (settings : Settings) (s : State)
    → IsBounded s.model
    → IsBounded (with_settings settings s).model
IsBounded-with_settings settings s g = record {
  size = g.size;
  ids = g.ids;
  allowlist = g.allowlist;
  blocklist = g.blocklist;
}

pub IsBounded-get_set :
    (name : SetName) (m : Model) → IsBounded m → IsBoundedSet (get_set name m.sets)
IsBounded-get_set allow m g = g.allowlist
IsBounded-get_set block m g = g.blocklist

-- What `normalize_into` makes of a list with different keys and of `n` more entries.
abbrev Fits : ℕ → List SetEntry → Type 0
Fits n l = Distinct entry_value l × (length l ≤ n)

Fits-weaken : (n k : ℕ) (r : Result (List SetEntry)) → n ≤ k → Holds (Fits n) r → Holds (Fits k) r
Fits-weaken n k (ok l) h f = (f.0, omega arith)
Fits-weaken n k (err e) h f = tt

normalize_into-Fits :
    (ip : IpText) (done rest : List SetEntry)
    → Distinct entry_value done
    → Holds (Fits (length done + length rest)) (normalize_into ip done rest)
unfolding normalize_into
normalize_into-Fits ip done [] d = (d, omega arith)
normalize_into-Fits ip done (x ∷ rest) d =
    go
      (λ e.
        normalize_into-Fits ip (put entry_value e done) rest (Distinct-put entry_value e done d))
      (normalize_entry ip x)
  where
    go :
        ((e : SetEntry)
          → Holds
              (Fits (length (put entry_value e done) + length rest))
              (normalize_into ip (put entry_value e done) rest))
        → (r : Result SetEntry)
        → Holds (Fits (length done + length (x ∷ rest))) (elim r [
          | err _ ↦ err invalid
          | ok e' ↦ normalize_into ip (put entry_value e' done) rest
        ])
    go ih (err _) = tt
    go ih (ok e) = Fits-weaken _ _ _ (ground (arith, length-put entry_value e done)) (ih e)

Fits-IsBoundedSet :
    (n : ℕ) (r : Result (List SetEntry))
    → n ≤ max_set_entries
    → Holds (Fits n) r
    → Holds IsBoundedSet r
Fits-IsBoundedSet n (ok l) h f = record { size = omega arith; keys = f.0 }
Fits-IsBoundedSet n (err e) h f = tt

pub normalize_entries-IsBoundedSet :
    (ip : IpText) (entries : List SetEntry) → Holds IsBoundedSet (normalize_entries ip entries)
unfolding normalize_entries
normalize_entries-IsBoundedSet ip entries =
    elim (Bool-cases (ltb max_set_entries (length entries))) [
      | inl y ↦ rw y tt
      | inr n ↦ rw n (
          Fits-IsBoundedSet (length entries) _ (ground arith)
            (Fits-weaken _ _ _ (omega arith) (normalize_into-Fits ip [] entries tt)))
    ]
