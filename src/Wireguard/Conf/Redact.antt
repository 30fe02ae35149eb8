-- ===== src/Wireguard/Conf/Redact.antt =====
-- src/daemon/wireguard/conf.rs: `redact`, the text of a file with the secrets hidden.
use asc_daemon.Prelude.{
  ◌-◌, Bool, ◌&&◌, ◌||◌, not, Option, none, some, Text, [], ◌++◌, codes, text_eq, trim, trim_start,
  split_once, to_lower, map, length, take, lines, text_lines, strip_prefix, is_prefix,
  if◌then◌else◌,
}

abbrev pub secret_keys : Text → Bool
unfolding text_eq
secret_keys key = text_eq key (codes "privatekey") || text_eq key (codes "presharedkey")

abbrev pub hidden_value : Text
hidden_value = codes "(hidden)"

-- a line whose body has a key, or none
abbrev pub redact_key : Text → Text → Text → Text → Option (Text × Text) → Text
redact_key line prefix body trimmed none = line
redact_key line prefix body trimmed (some (key, value)) =
    if not (is_prefix (codes "#") trimmed) && secret_keys (map to_lower (trim key))
    then prefix ++ (take (length body - length trimmed) body ++ (trim key ++ codes " = (hidden)"))
    else line

abbrev pub redact_body : Text → Text → Text → Text
redact_body line prefix body =
    redact_key line prefix body (trim_start body) (split_once b'=' (trim_start body))

abbrev pub redact_parts : Text → Option Text → Text
redact_parts line none = redact_body line [] line
redact_parts line (some rest) = redact_body line (codes "#asc:off") rest

unfoldable pub redact_line : Text → Text
redact_line line = redact_parts line (strip_prefix (codes "#asc:off") line)

unfoldable pub redact : Text → Text
unfolding lines redact_line text_lines
redact text = lines (map redact_line (text_lines text))
