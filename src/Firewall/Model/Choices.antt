-- ===== src/Firewall/Model/Choices.antt =====
-- src/daemon/firewall/model.rs: the enumerations and how an operator's word selects a value.
use asc_daemon.Prelude.{
  Bool, true, false, ◌||◌, Text, map, text_eq, trim, to_lower, codes, if◌then◌else◌,
}
use asc_daemon.Failure.{Result, ok, err, internal}

pub data Mode : Type 0 where
  disabled managed raw : Mode

pub data Policy : Type 0 where
  accept drop : Policy

pub data Action : Type 0 where
  accept drop reject : Action

pub data Protocol : Type 0 where
  tcp udp any_protocol icmp : Protocol

pub data Scope : Type 0 where
  host docker both : Scope

pub data SetName : Type 0 where
  allow block : SetName

-- `value.trim().to_ascii_lowercase()`
word : Text → Text
unfolding trim to_lower
word value = map to_lower (trim value)

unfoldable pub parse_policy : Text → Result Policy
unfolding word text_eq
parse_policy value =
    if text_eq (word value) (codes "accept")
    then ok Policy.accept
    else if text_eq (word value) (codes "drop")
    then ok Policy.drop
    else err internal

unfoldable pub parse_action : Text → Result Action
unfolding word text_eq
parse_action value =
    if text_eq (word value) (codes "accept") || text_eq (word value) (codes "allow")
    then ok Action.accept
    else if text_eq (word value) (codes "drop") || text_eq (word value) (codes "deny")
    then ok Action.drop
    else if text_eq (word value) (codes "reject")
    then ok reject
    else err internal

unfoldable pub parse_protocol : Text → Result Protocol
unfolding word text_eq
parse_protocol value =
    if text_eq (word value) (codes "tcp")
    then ok tcp
    else if text_eq (word value) (codes "udp")
    then ok udp
    else if text_eq (word value) (codes "any") || text_eq (word value) (codes "")
    then ok any_protocol
    else if text_eq (word value) (codes "icmp")
    then ok icmp
    else err internal

unfoldable pub takes_ports : Protocol → Bool
takes_ports tcp = true
takes_ports udp = true
takes_ports _ = false

unfoldable pub parse_scope : Text → Result Scope
unfolding word text_eq
parse_scope value =
    if text_eq (word value) (codes "host") || text_eq (word value) (codes "")
    then ok host
    else if text_eq (word value) (codes "docker")
    then ok docker
    else if text_eq (word value) (codes "both")
    then ok both
    else err internal

unfoldable pub parse_set_name : Text → Result SetName
unfolding word text_eq
parse_set_name value =
    if text_eq (word value) (codes "allowlist") || text_eq (word value) (codes "allow")
    then ok allow
    else if text_eq (word value) (codes "blocklist") || text_eq (word value) (codes "block")
    then ok block
    else err internal

-- `Scope::host`, `Scope::docker`
abbrev pub host_scope : Scope → Bool
host_scope docker = false
host_scope _ = true

abbrev pub docker_scope : Scope → Bool
docker_scope host = false
docker_scope _ = true
