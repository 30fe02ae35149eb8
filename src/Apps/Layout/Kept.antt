-- ===== src/Apps/Layout/Kept.antt =====
-- src/daemon/apps/layout.rs: what the calls of `migrate` before the last keep.
use asc_daemon.Prelude.{
  ℕ, ◌≡◌, refl, ◌∙◌, Bool, true, false, ◌&&◌, not, Option, none, some, Text, if_split, arith,
}
use asc_daemon.Apps.Layout.{
  AppDir, exists_file, Fate, made, refused, dies, Run, Ending, returned, failed, died, M, ◌>>◌,
  pure, by_fate, call, go_on, ignored, ignore, ensure_state_dir, move_settings, remove_config_tmp,
  remove_config, remove_meta_tmp, config_is_empty, remove_leftovers, move_meta, loaded_settings,
}

-- as it was for its readers, with both places of the metadata untouched
pub record Early (d d' : AppDir) : Type 0 where
  pub legacy_meta : d'.legacy_meta ≡ d.legacy_meta
  pub meta : d'.meta ≡ d.meta
  pub settings : loaded_settings d' ≡ loaded_settings d
  pub other : d'.config_other ≡ d.config_other

Early-trans : (a b c : AppDir) → Early a b → Early b c → Early a c
Early-trans a b c h k = record {
  legacy_meta = k.legacy_meta ∙ h.legacy_meta;
  meta = k.meta ∙ h.meta;
  settings = k.settings ∙ h.settings;
  other = k.other ∙ h.other;
}

by_fate-Early :
    (fate : Fate) (possible : Bool) (d : AppDir) (r : Run)
    → (possible ≡ true → Early r.dir d)
    → Early r.dir (by_fate fate possible d r).1.dir
by_fate-Early made true d r h = h refl
by_fate-Early made false d r h = record {
  legacy_meta = refl;
  meta = refl;
  settings = refl;
  other = refl;
}
by_fate-Early refused possible d r h = record {
  legacy_meta = refl;
  meta = refl;
  settings = refl;
  other = refl;
}
by_fate-Early dies possible d r h = record {
  legacy_meta = refl;
  meta = refl;
  settings = refl;
  other = refl;
}

pub Early-refl : (d : AppDir) → Early d d
Early-refl d = record { legacy_meta = refl; meta = refl; settings = refl; other = refl }

-- whatever the fates are
abbrev Keeps : M (Unit {0}) → Type 0
Keeps m = (fates : ℕ → Fate) (r : Run) → Early r.dir (m fates r).1.dir

ensure_state_dir-Keeps : Keeps ensure_state_dir
unfolding ensure_state_dir loaded_settings
ensure_state_dir-Keeps fates r =
    if_split {A = M (Unit {0})} (λ m. Early r.dir (m fates r).1.dir) r.dir.state_dir _ _
      (λ y. Early-refl r.dir)
      λ n.
        by_fate-Early (fates r.step) true (record r.dir { state_dir = true }) r
          λ y. record { legacy_meta = refl; meta = refl; settings = refl; other = refl }

move_settings-Keeps : Keeps move_settings
unfolding move_settings loaded_settings
move_settings-Keeps fates r =
    if_split {A = M (Unit {0})} (λ m. Early r.dir (m fates r).1.dir)
      (exists_file r.dir.legacy_settings && not (exists_file r.dir.settings)) _ _
      (λ y.
        by_fate-Early (fates r.step) r.dir.state_dir
          (record r.dir { settings = r.dir.legacy_settings; legacy_settings = none }) r
          λ p. record {
            legacy_meta = refl;
            meta = refl;
            settings = ground (arith, y);
            other = refl;
          })
      λ n. Early-refl r.dir

ignored-Early :
    (d : AppDir) (e : Ending (Unit {0}) × Run) → Early d e.1.dir → Early d (ignored e).1.dir
ignored-Early d (returned u, r) h = h
ignored-Early d (failed, r) h = h
ignored-Early d (died, r) h = h

-- removing a leftover changes nothing that is read
leftover-Keeps :
    (possible : AppDir → Bool) (f : AppDir → AppDir)
    → ((d : AppDir) → Early d (f d))
    → Keeps (ignore (call possible f))
leftover-Keeps possible f e fates r =
    ignored-Early r.dir (call possible f fates r)
      (by_fate-Early (fates r.step) (possible r.dir) (f r.dir) r (λ y. e r.dir))

next_part :
    (d : AppDir) (k : M (Unit {0})) (fates : ℕ → Fate) (e : Ending (Unit {0}) × Run)
    → Early d e.1.dir
    → Keeps k
    → Early d (go_on (λ (u : Unit {0}). k) fates e).1.dir
next_part d k fates (returned u, r) h keeps =
    Early-trans d r.dir (k fates r).1.dir h (keeps fates r)
next_part d k fates (failed, r) h keeps = h
next_part d k fates (died, r) h keeps = h

Keeps-then : (m k : M (Unit {0})) → Keeps m → Keeps k → Keeps (m >> k)
Keeps-then m k h i fates r = next_part r.dir k fates (m fates r) (h fates r) i

remove_leftovers-Keeps : Keeps remove_leftovers
unfolding remove_leftovers loaded_settings
remove_leftovers-Keeps =
    Keeps-then remove_config_tmp (remove_config >> remove_meta_tmp)
      (leftover-Keeps (λ d. d.config_tmp) (λ d. record d { config_tmp = false })
        λ d. record { legacy_meta = refl; meta = refl; settings = refl; other = refl })
      (Keeps-then remove_config remove_meta_tmp
        (leftover-Keeps config_is_empty (λ d. record d { config_dir = false })
          λ d. record { legacy_meta = refl; meta = refl; settings = refl; other = refl })
        (leftover-Keeps (λ d. d.meta_tmp) (λ d. record d { meta_tmp = false })
          λ d. record { legacy_meta = refl; meta = refl; settings = refl; other = refl }))

-- a last part of `migrate`, begun in a directory whose readers find what they found in `d`
abbrev pub Finishes : AppDir → (AppDir → Type 0) → {A : Type 0} → M A → Type 0
Finishes d Q m = (fates : ℕ → Fate) (r : Run) → Early d r.dir → Q (m fates r).1.dir

module _ (d : AppDir) (Q : AppDir → Type 0) (weak : (d' : AppDir) → Early d d' → Q d') where
  rest_part :
      {A : Type 0} (k : M A) (fates : ℕ → Fate) (e : Ending (Unit {0}) × Run)
      → Early d e.1.dir
      → Finishes d Q k
      → Q (go_on (λ (u : Unit {0}). k) fates e).1.dir
  rest_part k fates (returned u, r) h f = f fates r h
  rest_part k fates (failed, r) h f = weak r.dir h
  rest_part k fates (died, r) h f = weak r.dir h

  Finishes-then :
      {A : Type 0} (m : M (Unit {0})) (k : M A) → Keeps m → Finishes d Q k → Finishes d Q (m >> k)
  Finishes-then m k keeps f fates r h =
      rest_part k fates (m fates r) (Early-trans d r.dir (m fates r).1.dir h (keeps fates r)) f

  -- `migrate` where there is something to move, by what its last part does
  pub all_parts-Finishes :
      Finishes d Q (move_meta >> pure true)
      → Finishes d Q
          (ensure_state_dir >> (move_settings >> (remove_leftovers >> (move_meta >> pure true))))
  all_parts-Finishes last = Finishes-then ensure_state_dir _ ensure_state_dir-Keeps (
      Finishes-then move_settings _ move_settings-Keeps
        (Finishes-then remove_leftovers _ remove_leftovers-Keeps last))

-- `pure` keeps the directory
pub go_on-pure :
    (fates : ℕ → Fate) (e : Ending (Unit {0}) × Run)
    → (go_on (λ (u : Unit {0}). pure true) fates e).1.dir ≡ e.1.dir
go_on-pure fates (returned u, r) = refl
go_on-pure fates (failed, r) = refl
go_on-pure fates (died, r) = refl

pub no_file : (f : Option Text) → exists_file f ≡ false → f ≡ none
no_file none h = refl
no_file (some raw) h = ground (arith, h)
