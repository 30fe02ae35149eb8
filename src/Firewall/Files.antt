-- ===== src/Firewall/Files.antt =====
-- src/daemon/firewall/mod.rs, the state files and nft, and persist.rs, the ruleset loaded at boot.
use asc_daemon.Prelude.{
  Bool, true, false, Option, none, some, Text, [], ◌∷◌, ◌++◌, codes, text_eq, if◌then◌else◌, lines,
}
use asc_daemon.Failure.{internal, precondition}
use asc_daemon.Firewall.Model.{Mode, default_model}
use asc_daemon.Firewall.Host.{
  Host, Stored, missing, corrupt, holds, State, Pending, Op, pure, raise, gets, modify, require,
  attempt, try_to, ◌>>=◌, ◌>>◌,
}

abbrev pub default_state : State
default_state = record {
  mode = Mode.disabled;
  model = default_model;
  raw_text = [];
  applied_table = [];
  applied_fp = [];
  applied_unix = 0;
  last_error = [];
}

-- the value of state.json, and of pending.json
abbrev pub stored_state : Stored State → State
stored_state (holds s) = s
stored_state _ = default_state

abbrev pub stored_pending : Stored Pending → Option Pending
stored_pending (holds p) = some p
stored_pending _ = none

-- an unreadable state.json is renamed, and so no longer there
abbrev pub set_aside : Stored State → Stored State
set_aside corrupt = missing
set_aside s = s

-- `unit_text`
abbrev pub ruleset_path : Text
ruleset_path = codes "/etc/asc/firewall/ruleset.nft"

unfoldable pub unit_text : Text → Text → Text
unfolding lines
unit_text nft script_path = lines (
    codes "# Added by asc-daemon (firewall): loads the confirmed ruleset at boot."
    ∷ codes "[Unit]"
    ∷ codes "Description=ASC firewall (nftables table inet asc)"
    ∷ codes "Documentation=https://docs.adminservice.cloud/firewall"
    ∷ codes "DefaultDependencies=no"
    ∷ codes "After=local-fs.target nftables.service"
    ∷ codes "Before=network-pre.target"
    ∷ codes "Wants=network-pre.target"
    ∷ (codes "ConditionPathExists=" ++ script_path)
    ∷ []
    ∷ codes "[Service]"
    ∷ codes "Type=oneshot"
    ∷ codes "RemainAfterExit=yes"
    ∷ (codes "ExecStart=" ++ nft ++ codes " -f " ++ script_path)
    ∷ []
    ∷ codes "[Install]"
    ∷ codes "WantedBy=sysinit.target"
    ∷ [])

abbrev pub table_line : Text
table_line = codes "table inet asc\ndelete table inet asc\n"

-- `render::replace_script`, `render::remove_script`
unfoldable pub replace_script : Text → Text
replace_script table = table_line ++ table

unfoldable pub remove_script : Text
remove_script = table_line

abbrev same_unit : Text → Option Text → Bool
same_unit nft none = false
same_unit nft (some text) = text_eq text (unit_text nft ruleset_path)

abbrev has_unit : Bool → Option Text → Bool
has_unit unit_dir none = false
has_unit unit_dir (some _) = unit_dir

module _ {h : Host} where
  unfoldable pub load_state : Op h State
  unfolding ◌>>=◌ modify
  load_state = do
    s ← gets (λ w. stored_state w.state_file)
    modify (λ w. record w { state_file = set_aside w.state_file })
    pure s

  unfoldable pub save_state : State → Op h (Unit {0})
  unfolding attempt
  save_state s = attempt (λ w. record w { state_file = holds s })

  unfoldable pub load_pending : Op h (Option Pending)
  unfolding gets
  load_pending = gets (λ w. stored_pending w.pending_file)

  unfoldable pub save_pending : Pending → Op h (Unit {0})
  unfolding attempt
  save_pending p = attempt (λ w. record w { pending_file = holds p })

  -- `let _ = remove_file(…)`
  unfoldable pub clear_pending : Op h (Unit {0})
  unfolding try_to
  clear_pending = try_to (λ w. record w { pending_file = missing })

  -- `nft.apply`: one script is one transaction
  unfoldable pub nft_apply : Text → Op h (Unit {0})
  nft_apply script w = elim (h.load script w.machine) [
    | none ↦ raise internal w
    | some m ↦ modify (λ w. record w { machine = m }) w
  ]

  -- the error of `nft.check` is reported as a precondition
  unfoldable pub nft_check : Text → Op h (Unit {0})
  unfolding require
  nft_check script w = require (h.check script w.machine) precondition w

  install_unit : Op h (Unit {0})
  unfolding ◌>>=◌ attempt
  install_unit = do
    attempt (λ w. record w { unit_file = some (unit_text h.nft_path ruleset_path) })
    attempt (λ w. w)

  enable_unit : Op h (Unit {0})
  unfolding ◌>>=◌ attempt install_unit
  enable_unit = do
    same ← gets (λ w. same_unit h.nft_path w.unit_file)
    if same then pure tt else install_unit
    attempt (λ w. record w { unit_enabled = true })

  -- `persist::save_ruleset`
  unfoldable pub save_ruleset : Text → Op h (Unit {0})
  unfolding ◌>>=◌ attempt enable_unit
  save_ruleset script = do
    attempt (λ w. record w { ruleset_file = some script })
    if h.unit_dir then enable_unit else pure tt

  remove_unit : Op h (Unit {0})
  unfolding ◌>>=◌ attempt try_to
  remove_unit = do
    try_to (λ w. record w { unit_enabled = false })
    attempt (λ w. record w { unit_file = none })

  -- `persist::clear_ruleset`
  unfoldable pub clear_ruleset : Op h (Unit {0})
  unfolding ◌>>=◌ attempt remove_unit
  clear_ruleset = do
    present ← gets (λ w. has_unit h.unit_dir w.unit_file)
    if present then remove_unit else pure tt
    attempt (λ w. record w { ruleset_file = none })
