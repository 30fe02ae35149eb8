-- ===== src/Apps/Tests.antt =====
-- The migration of an app at work.
use asc_daemon.Prelude.{
  ℕ, ◌≡◌, refl, ltb, true, false, none, some, List, [], ◌∷◌, ◌++◌, codes, if◌then◌else◌,
}
use asc_daemon.Apps.Layout.{AppDir, Fate, made, refused, dies, migrate_each}
use asc_daemon.Apps.Layout.Completed.{all_made, Moved}
use asc_daemon.Apps.Layout.Finished.{migrate_each_lem}
use asc_daemon.Apps.Layout.Interrupted.{SameApp, migrate_each-SameApp}

abbrev legacy_app : AppDir
legacy_app = record {
  legacy_meta = some (codes "meta");
  legacy_settings = some (codes "settings");
  meta = none;
  settings = none;
  state_dir = false;
  config_dir = true;
  config_tmp = true;
  config_other = false;
  meta_tmp = false;
}

-- the process dies at its third call, after the settings were moved; the move of the metadata is refused; nothing fails
abbrev runs : List (ℕ → Fate)
runs =
    (λ n. if ltb n 2 then made else dies)
    ∷ (λ n. if ltb n 3 then made else refused)
    ∷ (λ n. made)
    ∷ []

moved_after_all : migrate_each runs legacy_app ≡ record legacy_app {
  legacy_meta = none;
  legacy_settings = none;
  meta = some (codes "meta");
  settings = some (codes "settings");
  state_dir = true;
  config_dir = false;
  config_tmp = false;
}
unfolding migrate_each
moved_after_all = refl

migrate_each-SameApp_example : SameApp legacy_app (migrate_each runs legacy_app)
migrate_each-SameApp_example = migrate_each-SameApp runs legacy_app

migrate_each_lem_example :
    Moved (codes "meta") (migrate_each (runs ++ all_made ∷ []) legacy_app)
    × SameApp legacy_app (migrate_each (runs ++ all_made ∷ []) legacy_app)
migrate_each_lem_example = migrate_each_lem runs legacy_app (codes "meta") refl refl
