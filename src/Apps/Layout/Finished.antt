-- ===== src/Apps/Layout/Finished.antt =====
-- src/daemon/apps/layout.rs: an undisturbed migration after interrupted ones.
use mathlib.Core.Path.{subst}
use asc_daemon.Prelude.{
  ℕ, ◌≡◌, ◌⊎◌, inl, inr, refl, sym, ◌∙◌, Bool, true, false, ◌&&◌, ◌||◌, not, none, some, Text, List,
  [], ◌∷◌, ◌++◌, if_split, arith,
}
use asc_daemon.Apps.Layout.{
  AppDir, exists_file, Fate, made, refused, dies, Run, M, ◌>>◌, pure, by_fate, move_meta, migrate,
  migrate_each,
}
use asc_daemon.Apps.Layout.Kept.{Early, Early-refl, Finishes, all_parts-Finishes, go_on-pure}
use asc_daemon.Apps.Layout.Interrupted.{SameApp, migrate_each-SameApp}
use asc_daemon.Apps.Layout.Completed.{all_made, Moved, migrate-Moved}

abbrev Waits : Text → AppDir → Type 0
Waits raw d = (d.legacy_meta ≡ some raw) × (d.meta ≡ none)

-- the metadata is in one place, the old or the new
abbrev Placed : Text → AppDir → Type 0
Placed raw d = Waits raw d ⊎ Moved raw d

module _ (raw : Text) where
  Early-Placed : (d : AppDir) → Waits raw d → (d' : AppDir) → Early d d' → Placed raw d'
  Early-Placed d w d' e = inl (e.legacy_meta ∙ w.0, e.meta ∙ w.1)

  moved-Placed :
      (d : AppDir) (r : Run) (fate : Fate) (possible : Bool)
      → Waits raw d
      → Early d r.dir
      → Placed raw
          (by_fate fate possible
            (record r.dir { meta = r.dir.legacy_meta; legacy_meta = none })
            r).1.dir
  moved-Placed d r made true w h = inr (refl, h.legacy_meta ∙ w.0)
  moved-Placed d r made false w h = Early-Placed d w r.dir h
  moved-Placed d r refused possible w h = Early-Placed d w r.dir h
  moved-Placed d r dies possible w h = Early-Placed d w r.dir h

  move_meta-Placed : (d : AppDir) → Waits raw d → Finishes d (Placed raw) (move_meta >> pure true)
  unfolding move_meta
  move_meta-Placed d w fates r h =
      subst (Placed raw) (sym (go_on-pure fates (move_meta fates r)))
        (moved-Placed d r (fates r.step) (r.dir.state_dir && exists_file r.dir.legacy_meta) w h)

  -- there is nothing to move any more
  migrate-again : (fates : ℕ → Fate) (r : Run) → Moved raw r.dir → (migrate fates r).1.dir ≡ r.dir
  unfolding migrate
  migrate-again fates r w =
      if_split {A = M Bool} (λ m. (m fates r).1.dir ≡ r.dir)
        (not (exists_file r.dir.legacy_meta) || exists_file r.dir.meta) _ _ (λ y. refl)
        λ n. ground (arith, w.0, w.1, n)

  migrate-Placed :
      (fates : ℕ → Fate) (r : Run) → Placed raw r.dir → Placed raw (migrate fates r).1.dir
  unfolding migrate
  migrate-Placed fates r (inl w) =
      if_split {A = M Bool} (λ m. Placed raw (m fates r).1.dir)
        (not (exists_file r.dir.legacy_meta) || exists_file r.dir.meta) _ _ (λ y. inl w)
        λ n.
          all_parts-Finishes r.dir (Placed raw) (Early-Placed r.dir w) (move_meta-Placed r.dir w)
            fates r (Early-refl r.dir)
  migrate-Placed fates r (inr w) = subst (Placed raw) (sym (migrate-again fates r w)) (inr w)

  undisturbed : (d : AppDir) → Placed raw d → Moved raw (migrate_each (all_made ∷ []) d)
  unfolding migrate_each
  undisturbed d (inl w) = migrate-Moved raw (record { dir = d; step = 0 }) w.0 w.1
  undisturbed d (inr w) =
      subst (Moved raw) (sym (migrate-again all_made (record { dir = d; step = 0 }) w)) w

  migrate_each-Moved :
      (runs : List (ℕ → Fate)) (d : AppDir)
      → Placed raw d
      → Moved raw (migrate_each (runs ++ all_made ∷ []) d)
  unfolding migrate_each
  migrate_each-Moved [] d p = undisturbed d p
  migrate_each-Moved (fates ∷ runs) d p =
      migrate_each-Moved runs (migrate fates (record { dir = d; step = 0 })).1.dir
        (migrate-Placed fates (record { dir = d; step = 0 }) p)

-- Where the metadata of an app is in its old place only, whatever interrupts its migrations, it is in the new place
-- only after one more in which every call is made; and the readers of the app find in the end what they found at
-- the start.
pub migrate_each_lem :
    (runs : List (ℕ → Fate)) (d : AppDir) (raw : Text)
    → d.legacy_meta ≡ some raw
    → d.meta ≡ none
    → Moved raw (migrate_each (runs ++ all_made ∷ []) d)
      × SameApp d (migrate_each (runs ++ all_made ∷ []) d)
migrate_each_lem runs d raw h m =
    (migrate_each-Moved raw runs d (inl (h, m)), migrate_each-SameApp (runs ++ all_made ∷ []) d)
