-- ===== src/Firewall/Tests/Edits.antt =====
-- Edits of the stored model on the small host.
use asc_daemon.Prelude.{
  All, ◌≡◌, refl, true, false, if◌then◌else◌, Text, some, none, List, [], ◌∷◌, codes, text_eq,
}
use asc_daemon.Failure.{ok}
use asc_daemon.Firewall.Model.{
  Action, Protocol, Scope, Settings, Rule, SetEntry, default_settings, text_mem, preset_enabled,
  validate_presets, is_preset, normalize_rule,
}
use asc_daemon.Firewall.Host.{World, holds, ◌>>=◌, require, pure, gets, modify, lift, attempt}
use asc_daemon.Firewall.Files.{default_state, stored_state, load_state, save_state}
use asc_daemon.Firewall.Edit.{
  update_settings, upsert_rule, remove_rule, newly_off, has_key, put, without, rule_id,
}
use asc_daemon.Firewall.Edit.Bounds.{IsBounded, IsBounded-default}
use asc_daemon.Firewall.Edit.Effects.{rules_of, critical_presets_stay, remove_rule_removes}
use asc_daemon.Firewall.Edit.Stored.{rule_with, IsNamed, upsert_rule_lem}
use asc_daemon.Firewall.Ports.{parse_ports}
use asc_daemon.Firewall.Ports.Sorted.{Ordered, range_ltb}
use asc_daemon.Firewall.Ports.Valid.{IsValid, parse_ports_canonical}
use asc_daemon.Firewall.Runs.{Event, after_all, runs_keep_limits}
use asc_daemon.Firewall.Tests.Toy.{host_facts, toy, start}

abbrev no_web : Settings
no_web = record default_settings { disabled_presets = codes "web" ∷ [] }

abbrev web_off : World toy
web_off = record start {
  state_file =
      holds (record default_state { model = record (default_state.model) { settings = no_web } });
  step = 1;
}

web_goes_off : update_settings {h = toy} no_web false start ≡ (ok no_web, web_off)
unfolding update_settings validate_presets newly_off text_mem text_eq load_state save_state attempt
    require lift pure gets modify ◌>>=◌
web_goes_off = refl

ssh_stays : preset_enabled no_web (codes "ssh") ≡ true
unfolding text_mem text_eq preset_enabled
ssh_stays = critical_presets_stay no_web start (codes "ssh") web_goes_off refl refl

abbrev web_rule : Rule
web_rule = record {
  id = codes "web1";
  enabled = true;
  action = Action.accept;
  protocol = Protocol.tcp;
  ports = codes "443,80" ∷ [];
  sources = [];
  scope = Scope.host;
  comment = codes " web ";
  managed_by = [];
}

abbrev stored_rule : Rule
stored_rule = record web_rule {
  ports = codes "80" ∷ codes "443" ∷ [];
  comment = codes "web";
  managed_by = codes "user";
}

abbrev one_rule : World toy
one_rule = record start {
  state_file =
      holds (record default_state {
        model = record (default_state.model) { rules = stored_rule ∷ [] };
      });
  step = 1;
}

rule_goes_in : upsert_rule {h = toy} web_rule start ≡ (ok stored_rule, one_rule)
unfolding upsert_rule is_preset normalize_rule put text_eq load_state save_state attempt require
    lift pure gets modify ◌>>=◌
rule_goes_in = refl

upsert_rule_lem_example :
    ((n : Rule) × (normalize_rule toy.ip web_rule ≡ ok n) × IsNamed n stored_rule)
    × ((id : Text)
        → rule_with id (rules_of one_rule)
          ≡ (if text_eq stored_rule.id id then some stored_rule else rule_with id (rules_of start)))
    × ((stored_state one_rule.state_file).model
        ≡ record ((stored_state start.state_file).model) { rules = rules_of one_rule })
    × (one_rule.machine ≡ start.machine)
    × (one_rule.pending_file ≡ start.pending_file)
upsert_rule_lem_example = upsert_rule_lem web_rule start rule_goes_in

abbrev no_rule : World toy
no_rule = record start { state_file = holds default_state; step = 2 }

rule_goes_out : remove_rule {h = toy} (codes "web1") one_rule ≡ (ok true, no_rule)
unfolding remove_rule without text_eq load_state save_state attempt require lift pure gets modify
    ◌>>=◌
rule_goes_out = refl

rule_removed :
    (has_key rule_id (codes "web1") (rules_of no_rule) ≡ false)
    × (true ≡ has_key rule_id (codes "web1") (rules_of one_rule))
rule_removed = remove_rule_removes (codes "web1") one_rule rule_goes_out

abbrev two_entries : List SetEntry
two_entries =
    record { value = codes "48"; expires_unix = none; comment = [] }
    ∷ record { value = codes "48"; expires_unix = some 7; comment = [] }
    ∷ []

runs_keep_limits_example :
    IsBounded
      (stored_state
        (after_all {h = toy}
          (Event.upsert_rule web_rule ∷ Event.apply host_facts 60 false ∷ Event.recover ∷ [])
          start).state_file).model
runs_keep_limits_example =
    runs_keep_limits
      (Event.upsert_rule web_rule ∷ Event.apply host_facts 60 false ∷ Event.recover ∷ []) start
      IsBounded-default

three_ports :
    parse_ports (codes "443, 80-81" ∷ codes "80-81" ∷ [])
    ≡ ok (record { from = 80; to = 81 } ∷ record { from = 443; to = 443 } ∷ [])
unfolding parse_ports
three_ports = refl

parse_ports_canonical_example :
    All IsValid (record { from = 80; to = 81 } ∷ record { from = 443; to = 443 } ∷ [])
    × Ordered range_ltb (record { from = 80; to = 81 } ∷ record { from = 443; to = 443 } ∷ [])
parse_ports_canonical_example =
    parse_ports_canonical (codes "443, 80-81" ∷ codes "80-81" ∷ []) three_ports
