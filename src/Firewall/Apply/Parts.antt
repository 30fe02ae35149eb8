-- ===== src/Firewall/Apply/Parts.antt =====
-- src/daemon/firewall/mod.rs: `Change`, `Overview`, and the pure parts of `apply` and of `overview`.
use asc_daemon.Prelude.{
  ℕ, ◌-◌, Bool, true, false, ◌&&◌, ◌||◌, not, Option, none, some, Text, List, [], ◌∷◌, ◌++◌, codes,
  text_eq, if◌then◌else◌, leb, ◌==◌, retain,
}
use asc_daemon.Failure.{Result, ok, err, internal}
use asc_daemon.Firewall.Model.{Mode, disabled, managed, raw, SetEntry, Model, expired}
use asc_daemon.Firewall.Host.{State, Pending}
use asc_daemon.Firewall.Files.{replace_script, remove_script}

-- `check_timeout`
unfoldable pub check_timeout : ℕ → Bool
check_timeout seconds = seconds == 0 || (leb 15 seconds && leb seconds 600)

unfoldable pub mode_eq : Mode → Mode → Bool
mode_eq disabled disabled = true
mode_eq managed managed = true
mode_eq raw raw = true
mode_eq _ _ = false

-- `text.replace("\r\n", "\n")`
unfoldable pub replace_crlf : Text → Text
replace_crlf [] = []
replace_crlf (c ∷ []) = c ∷ []
replace_crlf (c ∷ d ∷ s) =
    let pair = 10 ∷ replace_crlf s in
    let one = c ∷ replace_crlf (d ∷ s) in if c == 13 && d == 10 then pair else one

unfoldable pub flush_script : Text → Text
flush_script text = codes "flush ruleset\n" ++ text ++ 10 ∷ []

-- `Change`
pub record Change : Type 0 where
  pub target_mode : Mode
  pub table : Text
  pub script : Text
  pub fingerprint : Text
  pub rollback : Text

abbrev not_expired : ℕ → SetEntry → Bool
not_expired now e = not (expired e now)

-- the loop over the two sets at the start of `apply`
unfoldable pub drop_expired : ℕ → Model → Model
drop_expired now m = record m {
  sets = record {
    allowlist = retain (not_expired now) m.sets.allowlist;
    blocklist = retain (not_expired now) m.sets.blocklist;
  };
}

abbrev pub rolled_back_note : Text → Text → Text
rolled_back_note id why = codes "the firewall change " ++ id ++ codes " " ++ why

abbrev pub no_conflicts : List Text → Bool
no_conflicts [] = true
no_conflicts (_ ∷ _) = false

-- what `overview` returns, less the counters, the presets and nft's version
pub record Overview : Type 0 where
  pub mode : Mode
  pub changed : Bool
  pub pending : Option (Text × ℕ)
  pub last_error : Text

abbrev pub view_pending : ℕ → Option Pending → Option (Text × ℕ)
view_pending now none = none
view_pending now (some p) = some (p.id, p.deadline_unix - now)

-- `changed`: the proposed ruleset is not the one that was confirmed
unfoldable pub differs : Mode → Text → State → Bool
differs disabled proposed s = false
differs managed proposed s = not (text_eq proposed s.applied_fp)
differs raw proposed s = not (text_eq s.raw_text s.applied_fp)

abbrev pub managed_change : Text → Text → Text → Change
managed_change table fingerprint rollback = record {
  target_mode = managed;
  table = table;
  script = replace_script table;
  fingerprint = fingerprint;
  rollback = rollback;
}

abbrev pub raw_change : Text → Text → Change
raw_change text rollback = record {
  target_mode = raw;
  table = text;
  script = flush_script text;
  fingerprint = text;
  rollback = rollback;
}

abbrev pub is_none : Option Pending → Bool
is_none none = true
is_none (some _) = false

abbrev pub from_option : {A : Type 0} → Option A → Result A
from_option none = err internal
from_option (some a) = ok a

abbrev pub previous_table : Option Text → Text
previous_table none = remove_script
previous_table (some table) = replace_script table
