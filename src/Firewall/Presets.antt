-- ===== src/Firewall/Presets.antt =====
-- src/daemon/firewall/host.rs: the rules that the daemon adds on its own.
use asc_daemon.Prelude.{
  ℕ, Bool, true, Option, none, some, Text, List, [], ◌∷◌, ◌++◌, codes, map, not, ◌||◌,
  if◌then◌else◌, show_uint,
}
use asc_daemon.Firewall.Model.{
  Settings, Rule, Action, Protocol, Scope, preset_enabled, sort_texts, dedup_texts,
}

pub record Facts : Type 0 where
  pub ssh_ports : List ℕ
  pub api_port : Option ℕ
  pub web_installed : Bool

abbrev no_port : List ℕ → Bool
no_port [] = true
no_port (_ ∷ _) = Bool.false

-- the closure `add`, less the ports that it adds nothing for
preset_rule : Text → Protocol → List ℕ → Text → Rule
unfolding sort_texts dedup_texts show_uint
preset_rule name protocol ports comment = record {
  id = codes "preset-" ++ name;
  enabled = true;
  action = Action.accept;
  protocol = protocol;
  ports = dedup_texts (sort_texts (map show_uint ports));
  sources = [];
  scope = Scope.host;
  comment = comment;
  managed_by = codes "preset:" ++ name;
}

add_preset : Settings → Text → Protocol → List ℕ → Text → List Rule
unfolding preset_rule preset_enabled
add_preset settings name protocol ports comment =
    if no_port ports || not (preset_enabled settings name)
    then []
    else preset_rule name protocol ports comment ∷ []

abbrev api_ports : Option ℕ → List ℕ
api_ports none = []
api_ports (some port) = port ∷ []

unfoldable pub presets : Facts → Settings → List Rule
unfolding add_preset
presets facts settings =
    add_preset settings (codes "ssh") Protocol.tcp facts.ssh_ports (codes "SSH (preset)")
    ++ add_preset settings (codes "api") Protocol.tcp (api_ports facts.api_port)
        (codes "asc daemon API (preset)")
    ++ (if facts.web_installed
        then add_preset settings (codes "web") Protocol.tcp (80 ∷ 443 ∷ [])
            (codes "HTTP/HTTPS (preset)")
        else [])
