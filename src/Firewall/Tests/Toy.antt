-- ===== src/Firewall/Tests/Toy.antt =====
-- A small host: of a ruleset it keeps the text of the managed table and the text of the whole.
use asc_daemon.Prelude.{
  ℕ, ◌+◌, ◌≡◌, refl, sym, ap, ◌∙◌, true, false, Option, none, some, Text, [], ◌∷◌, ◌++◌, codes,
  ◌==◌, if◌then◌else◌,
}
use asc_daemon.Firewall.Presets.{Facts}
use asc_daemon.Net.Toy.{toy_ip}
use asc_daemon.Firewall.Host.{Host, missing, World}
use asc_daemon.Firewall.Files.{replace_script, remove_script, table_line}
use asc_daemon.Firewall.Apply.{flush_script}
use asc_daemon.Firewall.Apply.Rollback.{Faithful}

abbrev strip : Text → Text → Option Text
strip [] s = some s
strip (p ∷ prefix) [] = none
strip (p ∷ prefix) (c ∷ s) = let rest = strip prefix s in if p == c then rest else none

abbrev drop_last : Text → Text
drop_last [] = []
drop_last (c ∷ []) = []
drop_last (c ∷ d ∷ s) = c ∷ drop_last (d ∷ s)

drop_last-++ : (s : Text) (c : ℕ) → drop_last (s ++ c ∷ []) ≡ s
drop_last-++ [] c = refl
drop_last-++ (a ∷ []) c = refl
drop_last-++ (a ∷ b ∷ s) c = rw (drop_last-++ (b ∷ s) c) refl

pub record Ruleset : Type 0 where
  pub table : Text
  pub dump : Text

abbrev load_flush : Option Text → Option Ruleset
load_flush none = none
load_flush (some text) = some (record { table = []; dump = drop_last text })

abbrev load_table : Ruleset → Option Text → Option Ruleset → Option Ruleset
load_table m none other = other
load_table m (some table) other = some (record m { table = table })

abbrev load_script : Text → Ruleset → Option Ruleset
load_script script m =
    load_table m (strip table_line script) (load_flush (strip (codes "flush ruleset\n") script))

abbrev listed_table : Text → Option Text
listed_table [] = none
listed_table (c ∷ s) = some (c ∷ s)

abbrev pub toy : Host
toy = record {
  Machine = Ruleset;
  ip = toy_ip;
  installed = λ m. true;
  nft_path = codes "/usr/sbin/nft";
  check = λ script m. true;
  load = load_script;
  list_table = λ m. some (listed_table m.table);
  list_ruleset = λ m. some m.dump;
  detect_conflicts = λ m. [];
  disable_conflicts = λ names m. (true, m);
  now = λ step. 100 + step;
  fails = λ step. false;
  fresh = λ prefix step. prefix ++ b'-' ∷ (48 + step) ∷ [];
  unit_dir = true;
}

abbrev pub host_facts : Facts
host_facts = record { ssh_ports = 22 ∷ []; api_port = none; web_installed = false }

abbrev pub start : World toy
start = record {
  state_file = missing;
  pending_file = missing;
  ruleset_file = none;
  unit_file = none;
  unit_enabled = false;
  machine = record { table = codes "table inet asc { old }"; dump = codes "the old rules" };
  timers = [];
  step = 0;
}

loaded : (a b : Ruleset) → some a ≡ some b → a ≡ b
loaded a b e = cc

listed_some : (table t : Text) → some (listed_table table) ≡ some (some t) → table ≡ t
listed_some [] t e = cc
listed_some (c ∷ s) t e = cc

toy_table_back :
    (m n m' : Ruleset) (t : Text)
    → some (listed_table m.table) ≡ some (some t)
    → load_script (replace_script t) n ≡ some m'
    → some (listed_table m'.table) ≡ some (some t)
unfolding replace_script
toy_table_back m n m' t e l =
    ap (λ (r : Ruleset). some (listed_table r.table)) (sym (loaded (record n { table = t }) m' l))
    ∙ rw (listed_some m.table t e) at e

toy_table_gone :
    (n m' : Ruleset)
    → load_script remove_script n ≡ some m'
    → some (listed_table m'.table) ≡ some none
unfolding remove_script
toy_table_gone n m' l =
    ap (λ (r : Ruleset). some (listed_table r.table)) (sym (loaded (record n { table = [] }) m' l))

toy_ruleset_back :
    (m n m' : Ruleset) (t : Text)
    → some m.dump ≡ some t
    → load_script (flush_script t) n ≡ some m'
    → some m'.dump ≡ some t
unfolding flush_script
toy_ruleset_back m n m' t e l =
    ap (λ (r : Ruleset). some r.dump)
      (sym (loaded (record { table = []; dump = drop_last (t ++ 10 ∷ []) }) m' l))
    ∙ ap some (drop_last-++ t 10)

pub toy-Faithful : Faithful toy
toy-Faithful = record {
  table_back = toy_table_back;
  table_gone = toy_table_gone;
  ruleset_back = toy_ruleset_back;
}
