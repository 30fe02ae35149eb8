-- ===== src/Firewall/Model.antt =====
-- src/daemon/firewall/model.rs: the settings, the rules and the IP sets, and their validation.
mod Choices
pub use Choices.*
unfoldable pub use Choices.{
  takes_ports, parse_policy, parse_action, parse_protocol, parse_scope, parse_set_name,
}
use asc_daemon.Prelude.{
  ℕ, ◌≡◌, Bool, true, false, ◌&&◌, ◌||◌, not, Option, none, some, Text, List, [], ◌∷◌, ◌++◌, leb,
  ltb, ◌==◌, if◌then◌else◌, length, any, map, trim, is_empty, text_eq, byte_length, is_alphanumeric,
  codes,
}
use asc_daemon.Failure.{Result, ok, err, internal, ◌>>=◌, ◌>>◌, guard}
use asc_daemon.Net.{IpText, parse_net, show_net}
use asc_daemon.Firewall.Ports.{parse_ports, show_range}

abbrev pub max_rules : ℕ
max_rules = 500

abbrev pub max_set_entries : ℕ
max_set_entries = 10_000

abbrev pub max_comment : ℕ
max_comment = 120

abbrev pub max_id : ℕ
max_id = 40

abbrev pub critical_presets : List Text
critical_presets = codes "ssh" ∷ codes "api" ∷ []

abbrev pub all_presets : List Text
all_presets = codes "ssh" ∷ codes "api" ∷ codes "web" ∷ []

pub record Settings : Type 0 where
  pub input_policy : Policy
  pub allow_icmp : Bool
  pub ipv6 : Bool
  pub protect_docker : Bool
  pub disabled_presets : List Text

abbrev pub default_settings : Settings
default_settings = record {
  input_policy = Policy.drop;
  allow_icmp = true;
  ipv6 = true;
  protect_docker = false;
  disabled_presets = [];
}

unfoldable pub text_mem : Text → List Text → Bool
unfolding text_eq
text_mem t l = any (λ p. text_eq p t) l

-- `Settings::validate`
unfoldable pub validate_presets : List Text → Result (Unit {0})
unfolding text_mem
validate_presets [] = ok tt
validate_presets (p ∷ ps) = do guard (text_mem p all_presets) internal; validate_presets ps

unfoldable pub preset_enabled : Settings → Text → Bool
unfolding text_mem
preset_enabled s name = not (text_mem name s.disabled_presets)

pub record Rule : Type 0 where
  pub id : Text
  pub enabled : Bool
  pub action : Action
  pub protocol : Protocol
  pub ports : List Text
  pub sources : List Text
  pub scope : Scope
  pub comment : Text
  pub managed_by : Text

-- `char::is_control`
abbrev is_control : ℕ → Bool
is_control c = ltb c 32 || (leb 127 c && leb c 159)

abbrev breaks_string : ℕ → Bool
breaks_string c = is_control c || c == b'"' || c == 92 || c == 39

unfoldable pub clean_comment : Text → Result Text
unfolding trim
clean_comment comment = do
  guard (leb (length (trim comment)) max_comment) internal
  guard (not (any breaks_string (trim comment))) internal
  ok (trim comment)

is_set_name : Text → Bool
unfolding text_eq
is_set_name name = text_eq name (codes "allowlist") || text_eq name (codes "blocklist")

canonical_net : IpText → Text → Result Text
unfolding parse_net show_net
canonical_net ip s = do net ← parse_net ip s; ok (show_net ip net)

-- the cases of `normalize_source` on the trimmed text: empty, `@name`, an address or network
canonical_source : IpText → Text → Result Text
unfolding is_set_name canonical_net
canonical_source ip [] = err internal
canonical_source ip (c ∷ name) =
    if c == b'@'
    then if is_set_name name then ok (c ∷ name) else err internal
    else canonical_net ip (c ∷ name)

unfoldable pub normalize_source : IpText → Text → Result Text
unfolding trim canonical_source
normalize_source ip source = canonical_source ip (trim source)

unfoldable pub normalize_sources : IpText → List Text → Result (List Text)
unfolding normalize_source
normalize_sources ip [] = ok []
normalize_sources ip (s ∷ sources) = do
  source ← normalize_source ip s
  rest ← normalize_sources ip sources
  ok (source ∷ rest)

-- the order of `String`: by bytes, which for UTF-8 is by code points
unfoldable pub text_leb : Text → Text → Bool
text_leb [] t = true
text_leb (a ∷ s) [] = false
text_leb (a ∷ s) (b ∷ t) = ltb a b || (a == b && text_leb s t)

insert_text : Text → List Text → List Text
unfolding text_leb
insert_text s [] = s ∷ []
insert_text s (t ∷ rest) = if text_leb s t then s ∷ t ∷ rest else t ∷ insert_text s rest

-- `sort`
unfoldable pub sort_texts : List Text → List Text
unfolding insert_text
sort_texts [] = []
sort_texts (s ∷ rest) = insert_text s (sort_texts rest)

dedup_text_after : Text → List Text → List Text
unfolding text_eq
dedup_text_after s [] = []
dedup_text_after s (t ∷ rest) =
    let same = dedup_text_after s rest in
    let other = t ∷ dedup_text_after t rest in if text_eq s t then same else other

-- `dedup`
unfoldable pub dedup_texts : List Text → List Text
unfolding dedup_text_after
dedup_texts [] = []
dedup_texts (s ∷ rest) = s ∷ dedup_text_after s rest

unfoldable pub valid_id : Text → Bool
unfolding byte_length is_alphanumeric
valid_id id =
    leb (byte_length id) max_id
    && not (any (λ c. not (is_alphanumeric c || c == b'-' || c == b'_')) id)

abbrev no_ports : List Text → Bool
no_ports [] = true
no_ports (_ ∷ _) = false

-- `Rule::normalize`
unfoldable pub normalize_rule : IpText → Rule → Result Rule
unfolding valid_id clean_comment takes_ports parse_ports show_range normalize_sources sort_texts
    dedup_texts
normalize_rule ip rule = do
  guard (valid_id rule.id) internal
  comment ← clean_comment rule.comment
  guard (takes_ports rule.protocol || no_ports rule.ports) internal
  ranges ← parse_ports rule.ports
  sources ← normalize_sources ip rule.sources
  ok (record rule {
    comment = comment;
    ports = map show_range ranges;
    sources = dedup_texts (sort_texts sources);
    managed_by = if is_empty rule.managed_by then codes "user" else rule.managed_by;
  })

unfoldable pub starts_with : Text → Text → Bool
starts_with [] s = true
starts_with (p ∷ prefix) [] = false
starts_with (p ∷ prefix) (c ∷ s) = p == c && starts_with prefix s

unfoldable pub is_preset : Rule → Bool
unfolding starts_with
is_preset rule = starts_with (codes "preset:") rule.managed_by

pub record SetEntry : Type 0 where
  pub value : Text
  pub expires_unix : Option ℕ
  pub comment : Text

-- `SetEntry::normalize`
unfoldable pub normalize_entry : IpText → SetEntry → Result SetEntry
unfolding parse_net show_net clean_comment
normalize_entry ip e = do
  net ← parse_net ip e.value
  comment ← clean_comment e.comment
  ok (record e { value = show_net ip net; comment = comment })

unfoldable pub expired : SetEntry → ℕ → Bool
expired e now = elim e.expires_unix [ none ↦ false | some t ↦ leb t now ]

pub record IpSets : Type 0 where
  pub allowlist : List SetEntry
  pub blocklist : List SetEntry

-- `IpSets::get_mut`, read and written
abbrev pub get_set : SetName → IpSets → List SetEntry
get_set allow s = s.allowlist
get_set block s = s.blocklist

abbrev pub put_set : SetName → List SetEntry → IpSets → IpSets
put_set allow l s = record s { allowlist = l }
put_set block l s = record s { blocklist = l }

pub record Model : Type 0 where
  pub settings : Settings
  pub rules : List Rule
  pub sets : IpSets

abbrev pub default_model : Model
default_model = record {
  settings = default_settings;
  rules = [];
  sets = record { allowlist = []; blocklist = [] };
}
