-- ===== src/Backup/Walk.antt =====
-- src/daemon/backup/mod.rs: `append_tree` and `append_file`, which files go into the archive.
pub mod Pruning
use asc_daemon.Prelude.{
  ℕ, ◌+◌, ◌-◌, ◌/◌, ◌%◌, Bool, true, false, ◌||◌, not, Text, List, [], ◌∷◌, ◌++◌, if◌then◌else◌,
  ltb, map,
}
use asc_daemon.Backup.Glob.{Bytes, matches_any}

-- UTF-8
unfoldable pub utf8_char : ℕ → Bytes
utf8_char c =
    if ltb c 128
    then c ∷ []
    else if ltb c 2048
    then (192 + c / 64) ∷ (128 + c % 64) ∷ []
    else if ltb c 65536
    then (224 + c / 4096) ∷ (128 + c / 64 % 64) ∷ (128 + c % 64) ∷ []
    else (240 + c / 262144) ∷ (128 + c / 4096 % 64) ∷ (128 + c / 64 % 64) ∷ (128 + c % 64) ∷ []

-- `as_bytes`
unfoldable pub utf8 : Text → Bytes
unfolding utf8_char
utf8 [] = []
utf8 (c ∷ s) = utf8_char c ++ utf8 s

-- `glob::matches_any`
unfoldable pub selects : List Text → Text → Bool
unfolding matches_any utf8
selects patterns rel = matches_any (map utf8 patterns) (utf8 rel)

-- A directory as `read_dir` lists it.
mutual
  pub data Entry : Type 0 where
    file symlink : Text → Entry
    dir : Text → Entries → Entry

  pub data Entries : Type 0 where
    none_left : Entries
    entry : Entry → Entries → Entries

-- the name of an entry as the archive has it
abbrev pub below : Text → Text → Text
below prefix name = prefix ++ b'/' ∷ name

abbrev pub no_patterns : List Text → Bool
no_patterns [] = true
no_patterns (_ ∷ _) = false

module _ (include exclude : List Text) where
  -- the files that are added; the archive has their names in this order
  unfoldable pub append_file : List Text → Text → List Text
  unfolding selects
  append_file excluded rel =
      if selects excluded rel || not (no_patterns include || selects include rel)
      then []
      else rel ∷ []

  unfoldable mutual
    unfolding selects append_file

    pub append_entry : Text → Entry → List Text
    append_entry prefix (file name) =
        if selects exclude (below prefix name) then [] else append_file [] (below prefix name)
    append_entry prefix (symlink name) = []
    append_entry prefix (dir name entries) =
        let inside = append_tree (below prefix name) entries in
        if selects exclude (below prefix name) then [] else inside

    pub append_tree : Text → Entries → List Text
    append_tree prefix none_left = []
    append_tree prefix (entry e entries) = append_entry prefix e ++ append_tree prefix entries
