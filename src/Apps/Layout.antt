-- ===== src/Apps/Layout.antt =====
-- src/daemon/apps/layout.rs: `migrate`, which may be refused by the file system, or die, at each of its calls.
pub mod Kept
pub mod Interrupted
pub mod Completed
pub mod Finished
use asc_daemon.Prelude.{
  ℕ, ◌+◌, Bool, true, false, ◌&&◌, ◌||◌, not, Option, none, some, Text, List, [], ◌∷◌,
  if◌then◌else◌,
}

-- what is there of one app: the files' contents, and which directories and leftovers
pub record AppDir : Type 0 where
  pub legacy_meta : Option Text
  pub legacy_settings : Option Text
  pub meta : Option Text
  pub settings : Option Text
  pub state_dir : Bool
  pub config_dir : Bool
  pub config_tmp : Bool
  pub config_other : Bool
  pub meta_tmp : Bool

abbrev pub exists_file : Option Text → Bool
exists_file none = false
exists_file (some raw) = true

-- what becomes of a call of the file system: it is made, it is refused, or the process dies before it
pub data Fate : Type 0 where
  made refused dies : Fate

pub record Run : Type 0 where
  pub dir : AppDir
  pub step : ℕ

pub data Ending {ℓ} (A : Type ℓ) : Type ℓ where
  returned : A → Ending A
  failed died : Ending A

-- a part of `migrate`, under the fates of the calls
abbrev pub M : Type 0 → Type 0
M A = (ℕ → Fate) → Run → Ending A × Run

abbrev pub go_on : {A B : Type 0} → (A → M B) → (ℕ → Fate) → Ending A × Run → Ending B × Run
go_on f fates (returned a, r) = f a fates r
go_on f fates (failed, r) = (failed, r)
go_on f fates (died, r) = (died, r)

infixl 5 ◌>>=◌ ◌>>◌
abbrev pub ◌>>=◌ : {A B : Type 0} → M A → (A → M B) → M B
◌>>=◌ m f fates r = go_on f fates (m fates r)

abbrev pub ◌>>◌ : {B : Type 0} → M (Unit {0}) → M B → M B
m >> k = m >>= λ _. k

abbrev pub pure : {A : Type 0} → A → M A
pure a fates r = (returned a, r)

abbrev pub read : {A : Type 0} → (AppDir → A) → M A
read f fates r = (returned (f r.dir), r)

-- a call that the file system can carry out if `possible`
abbrev pub by_fate : Fate → Bool → AppDir → Run → Ending (Unit {0}) × Run
by_fate made true d r = (returned tt, record { dir = d; step = r.step + 1 })
by_fate made false d r = (failed, record r { step = r.step + 1 })
by_fate refused possible d r = (failed, record r { step = r.step + 1 })
by_fate dies possible d r = (died, r)

abbrev pub call : (AppDir → Bool) → (AppDir → AppDir) → M (Unit {0})
call possible f fates r = by_fate (fates r.step) (possible r.dir) (f r.dir) r

-- `let _ =`
abbrev pub ignored : Ending (Unit {0}) × Run → Ending (Unit {0}) × Run
ignored (returned u, r) = (returned u, r)
ignored (failed, r) = (returned tt, r)
ignored (died, r) = (died, r)

abbrev pub ignore : M (Unit {0}) → M (Unit {0})
ignore m fates r = ignored (m fates r)

-- `ensure_state_dir`
unfoldable pub ensure_state_dir : M (Unit {0})
ensure_state_dir = do
  there ← read (λ d. d.state_dir)
  if there then pure tt else call (λ d. true) (λ d. record d { state_dir = true })

-- the move of `settings.json`
unfoldable pub move_settings : M (Unit {0})
move_settings = do
  wanted ← read (λ d. exists_file d.legacy_settings && not (exists_file d.settings))
  if wanted
      then call (λ d. d.state_dir)
          (λ d. record d { settings = d.legacy_settings; legacy_settings = none })
      else pure tt

-- the leftovers; `remove_dir` is for an empty directory
abbrev pub config_is_empty : AppDir → Bool
config_is_empty d =
    d.config_dir && not (exists_file d.legacy_settings || d.config_tmp || d.config_other)

abbrev pub remove_config_tmp : M (Unit {0})
remove_config_tmp = ignore (call (λ d. d.config_tmp) λ d. record d { config_tmp = false })

abbrev pub remove_config : M (Unit {0})
remove_config = ignore (call config_is_empty λ d. record d { config_dir = false })

abbrev pub remove_meta_tmp : M (Unit {0})
remove_meta_tmp = ignore (call (λ d. d.meta_tmp) λ d. record d { meta_tmp = false })

unfoldable pub remove_leftovers : M (Unit {0})
remove_leftovers = do remove_config_tmp; remove_config; remove_meta_tmp

-- the move of `meta.json`
unfoldable pub move_meta : M (Unit {0})
move_meta =
    call (λ d. d.state_dir && exists_file d.legacy_meta)
      (λ d. record d { meta = d.legacy_meta; legacy_meta = none })

-- `migrate`
unfoldable pub migrate : M Bool
unfolding ensure_state_dir move_settings remove_leftovers move_meta
migrate = do
  nothing_to_move ← read (λ d. not (exists_file d.legacy_meta) || exists_file d.meta)
  if nothing_to_move
      then pure false
      else do ensure_state_dir; move_settings; remove_leftovers; move_meta; pure true

-- what `AppMeta::load` and `SettingValues::load` of `settings_dir` read
unfoldable pub loaded_meta : AppDir → Option Text
loaded_meta d =
    if not (exists_file d.meta) && exists_file d.legacy_meta then d.legacy_meta else d.meta

unfoldable pub loaded_settings : AppDir → Option Text
loaded_settings d =
    if not (exists_file d.settings) && exists_file d.legacy_settings
    then d.legacy_settings
    else d.settings

-- one call of `migrate` after the other, each with its fates
unfoldable pub migrate_each : List (ℕ → Fate) → AppDir → AppDir
unfolding migrate
migrate_each [] d = d
migrate_each (fates ∷ runs) d =
    migrate_each runs (migrate fates (record { dir = d; step = 0 })).1.dir
