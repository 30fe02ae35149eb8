-- ===== src/Apps/Layout/Interrupted.antt =====
-- src/daemon/apps/layout.rs: migrations that are interrupted at any call.
use mathlib.Core.Path.{subst}
use asc_daemon.Prelude.{
  ℕ, ◌≡◌, refl, sym, ◌∙◌, Bool, true, false, ◌&&◌, ◌||◌, not, none, List, [], ◌∷◌, if_split, arith,
}
use asc_daemon.Apps.Layout.{
  AppDir, exists_file, Fate, made, refused, dies, Run, M, ◌>>◌, pure, by_fate, move_meta, migrate,
  loaded_meta, loaded_settings, migrate_each,
}
use asc_daemon.Apps.Layout.Kept.{
  Early, Early-refl, Finishes, all_parts-Finishes, go_on-pure, no_file,
}

-- What the readers find, and what else is in `config/`, is as it was.
pub record SameApp (d d' : AppDir) : Type 0 where
  pub meta : loaded_meta d' ≡ loaded_meta d
  pub settings : loaded_settings d' ≡ loaded_settings d
  pub other : d'.config_other ≡ d.config_other

Early-SameApp : (d d' : AppDir) → Early d d' → SameApp d d'
unfolding loaded_meta
Early-SameApp d d' e = record {
  meta = cc (e.legacy_meta, e.meta);
  settings = e.settings;
  other = e.other;
}

abbrev with_moved_meta : AppDir → AppDir
with_moved_meta d = record d { meta = d.legacy_meta; legacy_meta = none }

-- the last move, where there is no new metadata before
moved-SameApp :
    (d : AppDir) (r : Run) (fate : Fate) (possible : Bool)
    → d.meta ≡ none
    → Early d r.dir
    → SameApp d (by_fate fate possible (with_moved_meta r.dir) r).1.dir
unfolding loaded_meta loaded_settings
moved-SameApp d r made true m h = record {
  meta = ground (arith, m, h.legacy_meta);
  settings = h.settings;
  other = h.other;
}
moved-SameApp d r made false m h = Early-SameApp d r.dir h
moved-SameApp d r refused possible m h = Early-SameApp d r.dir h
moved-SameApp d r dies possible m h = Early-SameApp d r.dir h

move_meta-Finishes : (d : AppDir) → d.meta ≡ none → Finishes d (SameApp d) (move_meta >> pure true)
unfolding move_meta
move_meta-Finishes d m fates r h =
    subst (SameApp d) (sym (go_on-pure fates (move_meta fates r)))
      (moved-SameApp d r (fates r.step) (r.dir.state_dir && exists_file r.dir.legacy_meta) m h)

SameApp-refl : (d : AppDir) → SameApp d d
SameApp-refl d = record { meta = refl; settings = refl; other = refl }

migrate-SameApp : (fates : ℕ → Fate) (r : Run) → SameApp r.dir (migrate fates r).1.dir
unfolding migrate
migrate-SameApp fates r =
    if_split {A = M Bool} (λ m. SameApp r.dir (m fates r).1.dir)
      (not (exists_file r.dir.legacy_meta) || exists_file r.dir.meta) _ _ (λ y. SameApp-refl r.dir)
      λ n.
        all_parts-Finishes r.dir (SameApp r.dir) (Early-SameApp r.dir)
          (move_meta-Finishes r.dir (no_file r.dir.meta (ground (arith, n)))) fates r
          (Early-refl r.dir)

SameApp-trans : (a b c : AppDir) → SameApp a b → SameApp b c → SameApp a c
SameApp-trans a b c h k = record {
  meta = k.meta ∙ h.meta;
  settings = k.settings ∙ h.settings;
  other = k.other ∙ h.other;
}

-- Whatever becomes of each of their calls, the migrations of an app, one after the other, leave what its readers find
-- of its metadata and its settings, and what else there is in `config/`.
pub migrate_each-SameApp : (runs : List (ℕ → Fate)) (d : AppDir) → SameApp d (migrate_each runs d)
unfolding migrate_each
migrate_each-SameApp [] d = SameApp-refl d
migrate_each-SameApp (fates ∷ runs) d =
    let d' = (migrate fates (record { dir = d; step = 0 })).1.dir in
    SameApp-trans d d' (migrate_each runs d') (migrate-SameApp fates (record { dir = d; step = 0 }))
      (migrate_each-SameApp runs d')
