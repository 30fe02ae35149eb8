-- ===== src/Backup/Walk/Pruning.antt =====
-- src/daemon/backup/mod.rs: the walk that leaves out excluded directories, against the filter that
-- looks at every file.
use mathlib.Core.List.{append_assoc}
use asc_daemon.Prelude.{
  ◌≡◌, refl, ap, sym, inl, inr, Bool, true, ◌&&◌, ◌||◌, not, Text, List, [], ◌∷◌, ◌++◌, arith, any,
  map, retain, Bool-cases,
}
use asc_daemon.Backup.Glob.{Bytes, ancestors, matches_glob, matches_any}
use asc_daemon.Backup.Walk.{
  utf8, utf8_char, selects, Entry, file, symlink, dir, Entries, none_left, entry, below,
  no_patterns, append_file, append_entry, append_tree,
}

retain-append : (p : Text → Bool) (a b : List Text) → retain p (a ++ b) ≡ retain p a ++ retain p b
retain-append p [] b = refl
retain-append p (x ∷ a) b = ground (arith, retain-append p a b)

any-map :
    (f : Bytes → Bool) (g : Bytes → Bytes) (l : List Bytes) → any f (map g l) ≡ any (λ a. f (g a)) l
any-map f g [] = refl
any-map f g (a ∷ l) = ap (λ b. f (g a) || b) (any-map f g l)

-- A path and its ancestors are ancestors of what is below it.
any-ancestors_below :
    (f : Bytes → Bool) (x y : Bytes)
    → (f x || any f (ancestors x)) ≡ true
    → any f (ancestors (x ++ b'/' ∷ y)) ≡ true
unfolding ancestors
any-ancestors_below f [] y h = ground (arith, h)
any-ancestors_below f (c ∷ x) y h =
    let ih = any-ancestors_below (λ a. f (c ∷ a)) x y in
    ground (
      arith,
      h,
      any-map f (λ a. c ∷ a) (ancestors x),
      any-map f (λ a. c ∷ a) (ancestors (x ++ b'/' ∷ y)),
      ih,
    )

utf8-append : (s t : Text) → utf8 (s ++ t) ≡ utf8 s ++ utf8 t
unfolding utf8
utf8-append [] t = refl
utf8-append (c ∷ s) t = rw (utf8-append s t) (sym (append_assoc (utf8_char c) (utf8 s) (utf8 t)))

any_weaken :
    (f g : Bytes → Bool) (l : List Bytes)
    → ((a : Bytes) → f a ≡ true → g a ≡ true)
    → any f l ≡ true
    → any g l ≡ true
any_weaken f g [] k h = cc
any_weaken f g (a ∷ l) k h = elim (Bool-cases (f a)) [
  | inl y ↦ rw (k a y) refl
  | inr n ↦ ground (arith, any_weaken f g l k (rw n at h))
]

-- What selects a directory selects everything below it.
selects-below :
    (patterns : List Text) (rel name : Text)
    → selects patterns rel ≡ true
    → selects patterns (below rel name) ≡ true
unfolding selects matches_any
selects-below patterns rel name h = rw (utf8-append rel (b'/' ∷ name)) (
    any_weaken _ _ (map utf8 patterns)
      (λ p y. ground (arith, any-ancestors_below (λ a. matches_glob p a) (utf8 rel) (utf8 name) y))
      h)

-- all the files, by the names that the archive would have for them; a link is no file
mutual
  pub entry_files : Text → Entry → List Text
  entry_files prefix (file name) = below prefix name ∷ []
  entry_files prefix (symlink name) = []
  entry_files prefix (dir name entries) = tree_files (below prefix name) entries

  pub tree_files : Text → Entries → List Text
  tree_files prefix none_left = []
  tree_files prefix (entry e entries) = entry_files prefix e ++ tree_files prefix entries

module _ (include exclude : List Text) where
  -- what a file is in the archive for: no pattern excludes it, and one includes it if there is any
  abbrev pub wanted : Text → Bool
  wanted rel = not (selects exclude rel) && (no_patterns include || selects include rel)

  mutual
    unfolding entry_files

    entry_files_excluded :
        (prefix : Text) (e : Entry)
        → selects exclude prefix ≡ true
        → retain wanted (entry_files prefix e) ≡ []
    entry_files_excluded prefix (file name) h = ground (arith, selects-below exclude prefix name h)
    entry_files_excluded prefix (symlink name) h = refl
    entry_files_excluded prefix (dir name entries) h =
        tree_files_excluded (below prefix name) entries (selects-below exclude prefix name h)

    tree_files_excluded :
        (prefix : Text) (es : Entries)
        → selects exclude prefix ≡ true
        → retain wanted (tree_files prefix es) ≡ []
    tree_files_excluded prefix none_left h = refl
    tree_files_excluded prefix (entry e es) h =
        rw
          (
            retain-append wanted (entry_files prefix e) (tree_files prefix es),
            entry_files_excluded prefix e h,
          )
          (tree_files_excluded prefix es h)

  mutual
    unfolding append_entry append_file selects entry_files

    append_entry-wanted :
        (prefix : Text) (e : Entry)
        → append_entry include exclude prefix e ≡ retain wanted (entry_files prefix e)
    append_entry-wanted prefix (file name) = ground arith
    append_entry-wanted prefix (symlink name) = refl
    append_entry-wanted prefix (dir name entries) =
        elim (Bool-cases (selects exclude (below prefix name))) [
          | inl y ↦ rw y (sym (tree_files_excluded (below prefix name) entries y))
          | inr n ↦ rw n (append_tree-wanted (below prefix name) entries)
        ]

    append_tree-wanted :
        (prefix : Text) (es : Entries)
        → append_tree include exclude prefix es ≡ retain wanted (tree_files prefix es)
    append_tree-wanted prefix none_left = refl
    append_tree-wanted prefix (entry e es) =
        rw (append_entry-wanted prefix e, append_tree-wanted prefix es)
          (sym (retain-append wanted _ _))

-- The walk, which does not enter a directory that the patterns exclude, archives exactly the files
-- that no pattern excludes by their own name or by that of a directory above them and that, where
-- there are patterns to include, one of these includes in the same way.
pub append_tree-filter :
    (include exclude : List Text) (prefix : Text) (entries : Entries)
    → append_tree include exclude prefix entries
      ≡ retain (wanted include exclude) (tree_files prefix entries)
append_tree-filter = append_tree-wanted
