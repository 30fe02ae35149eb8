-- ===== src/Apps/Layout/Completed.antt =====
-- src/daemon/apps/layout.rs: a migration whose calls are all made.
use mathlib.Core.Path.{subst}
use asc_daemon.Prelude.{
  ℕ, ◌+◌, ◌≡◌, refl, sym, ap, ◌∙◌, Bool, true, false, ◌&&◌, ◌||◌, not, none, some, Text, if_split,
  arith,
}
use asc_daemon.Apps.Layout.{
  AppDir, exists_file, Fate, made, Run, returned, M, ◌>>◌, pure, by_fate, call, go_on, ignored,
  ignore, ensure_state_dir, move_settings, remove_config_tmp, remove_config, remove_meta_tmp,
  config_is_empty, remove_leftovers, move_meta, migrate,
}

abbrev pub all_made : ℕ → Fate
all_made n = made

-- a part that returns, from a directory with `P` in one with `Q`
abbrev Returns : (AppDir → Type 0) → {A : Type 0} → M A → (AppDir → Type 0) → Type 0
Returns P {A} m Q =
    (r : Run) → P r.dir → (a : A) × (r' : Run) × (m all_made r ≡ (returned a, r')) × Q r'.dir

Returns-then :
    (P Q R : AppDir → Type 0) {A : Type 0} (m : M (Unit {0})) (k : M A)
    → Returns P m Q
    → Returns Q k R
    → Returns P (m >> k) R
Returns-then P Q R m k f g r p =
    let (u, r', e, q) = f r p in
    let (a, r'', e', q') = g r' q in (a, r'', ap (go_on (λ u. k) all_made) e ∙ e', q')

-- the metadata is in its old place
abbrev Legacy : Text → AppDir → Type 0
Legacy raw d = d.legacy_meta ≡ some raw

abbrev Ready : Text → AppDir → Type 0
Ready raw d = (d.legacy_meta ≡ some raw) × (d.state_dir ≡ true)

abbrev pub Moved : Text → AppDir → Type 0
Moved raw d = (d.legacy_meta ≡ none) × (d.meta ≡ some raw)

possible_call :
    (P Q : AppDir → Type 0) (possible : AppDir → Bool) (f : AppDir → AppDir)
    → ((d : AppDir) → P d → possible d ≡ true)
    → ((d : AppDir) → P d → Q (f d))
    → Returns P (call possible f) Q
possible_call P Q possible f can leads r p =
    (tt, record { dir = f r.dir; step = r.step + 1 }, rw (can r.dir p) refl, leads r.dir p)

ignored_call :
    (P : AppDir → Type 0) (possible : AppDir → Bool) (f : AppDir → AppDir)
    → ((d : AppDir) → P d → P (f d))
    → Returns P (ignore (call possible f)) P
ignored_call P possible f leads r p = go (possible r.dir)
  where
    go :
        (b : Bool)
        → (a : Unit {0}) × (r' : Run) × (ignored (by_fate made b (f r.dir) r) ≡ (returned a, r'))
          × P r'.dir
    go true = (tt, record { dir = f r.dir; step = r.step + 1 }, refl, leads r.dir p)
    go false = (tt, record r { step = r.step + 1 }, refl, p)

-- `migrate` from a call on
abbrev from_meta : M Bool
from_meta = move_meta >> pure true

abbrev from_leftovers : M Bool
from_leftovers = remove_leftovers >> from_meta

abbrev from_settings : M Bool
from_settings = move_settings >> from_leftovers

module _ (raw : Text) where
  ensure_state_dir-Returns : Returns (Legacy raw) ensure_state_dir (Ready raw)
  unfolding ensure_state_dir
  ensure_state_dir-Returns r p =
      if_split {A = M (Unit {0})}
        (λ m. (a : Unit {0}) × (r' : Run) × (m all_made r ≡ (returned a, r')) × Ready raw r'.dir)
        r.dir.state_dir _ _ (λ y. (tt, r, refl, (p, y)))
        λ n. (
          tt,
          record { dir = record r.dir { state_dir = true }; step = r.step + 1 },
          refl,
          (p, refl),
        )

  move_settings-Returns : Returns (Ready raw) move_settings (Ready raw)
  unfolding move_settings
  move_settings-Returns r p =
      if_split {A = M (Unit {0})}
        (λ m. (a : Unit {0}) × (r' : Run) × (m all_made r ≡ (returned a, r')) × Ready raw r'.dir)
        (exists_file r.dir.legacy_settings && not (exists_file r.dir.settings)) _ _
        (λ y.
          possible_call (Ready raw) (Ready raw) (λ d. d.state_dir)
            (λ d. record d { settings = d.legacy_settings; legacy_settings = none }) (λ d q. q.1)
            (λ d q. q) r p)
        λ n. (tt, r, refl, p)

  remove_leftovers-Returns : Returns (Ready raw) remove_leftovers (Ready raw)
  unfolding remove_leftovers
  remove_leftovers-Returns =
      Returns-then (Ready raw) (Ready raw) (Ready raw) remove_config_tmp
        (remove_config >> remove_meta_tmp)
        (ignored_call (Ready raw) (λ d. d.config_tmp) (λ d. record d { config_tmp = false })
          λ d q. q)
        (Returns-then (Ready raw) (Ready raw) (Ready raw) remove_config remove_meta_tmp
          (ignored_call (Ready raw) config_is_empty (λ d. record d { config_dir = false }) λ d q. q)
          (ignored_call (Ready raw) (λ d. d.meta_tmp) (λ d. record d { meta_tmp = false })
            λ d q. q))

  move_meta-Returns : Returns (Ready raw) move_meta (Moved raw)
  unfolding move_meta
  move_meta-Returns =
      possible_call (Ready raw) (Moved raw) (λ d. d.state_dir && exists_file d.legacy_meta)
        (λ d. record d { meta = d.legacy_meta; legacy_meta = none }) (λ d q. rw (q.0, q.1) refl)
        λ d q. (refl, q.0)

  all_parts-Returns : Returns (Legacy raw) (ensure_state_dir >> from_settings) (Moved raw)
  all_parts-Returns =
      Returns-then (Legacy raw) (Ready raw) (Moved raw) ensure_state_dir from_settings
        ensure_state_dir-Returns
        (Returns-then (Ready raw) (Ready raw) (Moved raw) move_settings from_leftovers
          move_settings-Returns
          (Returns-then (Ready raw) (Ready raw) (Moved raw) remove_leftovers from_meta
            remove_leftovers-Returns
            (Returns-then (Ready raw) (Moved raw) (Moved raw) move_meta (pure true)
              move_meta-Returns λ r p. (true, r, refl, p))))

  pub migrate-Moved :
      (r : Run) → Legacy raw r.dir → r.dir.meta ≡ none → Moved raw (migrate all_made r).1.dir
  unfolding migrate
  migrate-Moved r p m =
      if_split {A = M Bool} (λ k. Moved raw (k all_made r).1.dir)
        (not (exists_file r.dir.legacy_meta) || exists_file r.dir.meta) _ _
        (λ y. ground (arith, p, m, y))
        λ n. let (a, r', e, q) = all_parts-Returns r p in subst (λ x. Moved raw x.1.dir) (sym e) q
