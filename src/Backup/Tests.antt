-- ===== src/Backup/Tests.antt =====
-- Patterns, a directory and archives at work.
use asc_daemon.Prelude.{◌≡◌, ◌↔◌, refl, true, false, Text, [], ◌∷◌, codes, retain}
use asc_daemon.Backup.Glob.{matches_glob}
use asc_daemon.Backup.Glob.Language.{tokens, Denotes, matches_glob_iff}
use asc_daemon.Backup.Walk.{Entries, file, symlink, dir, none_left, entry, append_tree}
use asc_daemon.Backup.Walk.Pruning.{wanted, tree_files, append_tree-filter}
use asc_daemon.Backup.Storage.{belongs_to}
use asc_daemon.Backup.Storage.Owner.{belongs_to_unique}

logs_below : matches_glob (codes "**/*.log") (codes "a/b/c.log") ≡ true
unfolding matches_glob
logs_below = refl

matches_glob_iff_example :
    (matches_glob (codes "**/*.log") (codes "a/b/c.log") ≡ true)
    ↔ Denotes (tokens (codes "**/*.log")) (codes "a/b/c.log")
matches_glob_iff_example = matches_glob_iff (codes "**/*.log") (codes "a/b/c.log")

-- the stars take a slash that follows them, so that the name before it need not end
whole_names_only : matches_glob (codes "**/cache") (codes "mycache") ≡ true
unfolding matches_glob
whole_names_only = refl

abbrev app_files : Entries
app_files =
    entry (dir (codes "cache") (entry (file (codes "x")) none_left))
      (entry (file (codes "config")) (entry (symlink (codes "link")) none_left))

append_tree-filter_example :
    append_tree [] (codes "app/cache" ∷ []) (codes "app") app_files
    ≡ retain (wanted [] (codes "app/cache" ∷ [])) (tree_files (codes "app") app_files)
append_tree-filter_example = append_tree-filter [] (codes "app/cache" ∷ []) (codes "app") app_files

cache_left_out :
    append_tree [] (codes "app/cache" ∷ []) (codes "app") app_files ≡ codes "app/config" ∷ []
unfolding append_tree
cache_left_out = refl

abbrev archive : Text
archive = codes "web-1-1700000000.tar.gz"

of_web_1 : belongs_to archive (codes "web-1") ≡ true
unfolding belongs_to
of_web_1 = refl

belongs_to_unique_example : codes "web-1" ≡ codes "web-1"
belongs_to_unique_example =
    belongs_to_unique archive (codes "web-1") (codes "web-1") of_web_1 of_web_1

not_of_web : belongs_to archive (codes "web") ≡ false
unfolding belongs_to
not_of_web = refl
