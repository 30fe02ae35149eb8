-- ===== src/Firewall/Host.antt =====
-- What the firewall manager of src/daemon/firewall/mod.rs finds around it: nftables and the other
-- firewall managers of the machine, the clock, the files, and operations that may fail part way.
use asc_daemon.Prelude.{ℕ, suc, Bool, true, false, Option, Text, List}
use asc_daemon.Failure.{ModuleError, Result, ok, err, internal}
use asc_daemon.Net.{IpText}
use asc_daemon.Firewall.Model.{Mode, Model}

-- Parameters of the model. `Machine` is the state of the kernel's ruleset and of the competing
-- managers; `load` is `nft -f` (`none` when nft refuses the script), `check` is `nft -c -f`. The
-- number that `now`, `fails` and `fresh` take counts the readings of the clock, the writes and the
-- ids of a run: `fails` says which writes and `systemctl` calls fail, and `now` need not be monotone.
pub record Host : Type 1 where
  pub Machine : Type 0
  pub ip : IpText
  pub installed : Machine → Bool
  pub nft_path : Text
  pub check : Text → Machine → Bool
  pub load : Text → Machine → Option Machine
  pub list_table : Machine → Option (Option Text)
  pub list_ruleset : Machine → Option Text
  pub detect_conflicts : Machine → List Text
  pub disable_conflicts : List Text → Machine → Bool × Machine
  pub now : ℕ → ℕ
  pub fails : ℕ → Bool
  pub fresh : Text → ℕ → Text
  pub unit_dir : Bool

-- A JSON file: not there (or not to be read), not to be parsed, or with a value.
pub data Stored (A : Type 0) : Type 0 where
  missing corrupt : Stored A
  holds : A → Stored A

-- `State`
pub record State : Type 0 where
  pub mode : Mode
  pub model : Model
  pub raw_text : Text
  pub applied_table : Text
  pub applied_fp : Text
  pub applied_unix : ℕ
  pub last_error : Text

-- `Pending`
pub record Pending : Type 0 where
  pub id : Text
  pub started_unix : ℕ
  pub deadline_unix : ℕ
  pub target_mode : Mode
  pub script : Text
  pub table : Text
  pub fingerprint : Text
  pub rollback : Text

module _ (h : Host) where
  -- The files under `Paths`, the machine, and the rollback timers that were started.
  pub record World : Type 0 where
    pub state_file : Stored State
    pub pending_file : Stored Pending
    pub ruleset_file : Option Text
    pub unit_file : Option Text
    pub unit_enabled : Bool
    pub machine : h.Machine
    pub timers : List (Text × ℕ)
    pub step : ℕ

  -- A method under the manager's lock. What it did before an error stays done.
  abbrev pub Op : Type 0 → Type 0
  Op A = World → Result A × World

module _ {h : Host} {A : Type 0} where
  unfoldable pub pure : A → Op h A
  pure a w = (ok a, w)

  unfoldable pub raise : ModuleError → Op h A
  raise e w = (err e, w)

  unfoldable pub gets : (World h → A) → Op h A
  gets f w = (ok (f w), w)

  unfoldable pub lift : Result A → Op h A
  lift r w = (r, w)

module _ {h : Host} {A B : Type 0} where
  abbrev pub proceed : Result A → (A → Op h B) → Op h B
  proceed (ok a) f w = f a w
  proceed (err e) f w = (err e, w)

  infixl 5 ◌>>=◌ ◌>>◌
  unfoldable pub ◌>>=◌ : Op h A → (A → Op h B) → Op h B
  unfolding pure raise gets lift
  ◌>>=◌ m f w = let (r, w') = m w in proceed r f w'

  abbrev pub ◌>>◌ : Op h A → Op h B → Op h B
  m >> k = m >>= λ _. k

module _ {h : Host} where
  unfoldable pub modify : (World h → World h) → Op h (Unit {0})
  modify f w = (ok tt, f w)

  unfoldable pub require : Bool → ModuleError → Op h (Unit {0})
  require true e w = (ok tt, w)
  require false e w = (err e, w)

  -- `unix_now()`
  unfoldable pub unix_now : Op h ℕ
  unix_now w = (ok (h.now w.step), record w { step = suc w.step })

  -- `new_id(prefix)`
  unfoldable pub new_id : Text → Op h Text
  new_id prefix w = (ok (h.fresh prefix w.step), record w { step = suc w.step })

  -- a write or a command that fails, or changes the world
  unfoldable pub attempt : (World h → World h) → Op h (Unit {0})
  attempt f w =
      let w' = record w { step = suc w.step } in
      elim (h.fails w.step) [ true ↦ (err internal, w') | false ↦ (ok tt, f w') ]

  -- the same where the code ignores the failure (`let _ = …`)
  unfoldable pub try_to : (World h → World h) → Op h (Unit {0})
  try_to f w =
      let w' = record w { step = suc w.step } in
      elim (h.fails w.step) [ true ↦ (ok tt, w') | false ↦ (ok tt, f w') ]
