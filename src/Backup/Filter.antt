-- ===== src/Backup/Filter.antt =====
-- src/daemon/backup/mod.rs: `BackupFilter`, the patterns that a caller gives for one backup.
use asc_daemon.Prelude.{
  ℕ, Bool, false, ◌||◌, not, Text, List, [], ◌∷◌, codes, text_eq, if◌then◌else◌, ltb, ◌==◌,
  is_empty, trim, split, contains, byte_length, length, retain, any, map, reverse,
}
use asc_daemon.Failure.{Result, ok, internal, ◌>>=◌, ◌>>◌, guard}

abbrev max_patterns : ℕ
max_patterns = 64

abbrev max_pattern_len : ℕ
max_pattern_len = 512

pub record BackupFilter : Type 0 where
  pub include : List Text
  pub exclude : List Text

unfoldable pub drop_slashes : Text → Text
drop_slashes [] = []
drop_slashes (c ∷ s) = if c == b'/' then drop_slashes s else c ∷ s

-- `trim_end_matches('/')`
unfoldable pub trim_slashes : Text → Text
unfolding drop_slashes
trim_slashes s = reverse (drop_slashes (reverse s))

abbrev pub starts_slash : Text → Bool
starts_slash [] = false
starts_slash (c ∷ _) = c == b'/'

-- the pattern leads out of the app directory
unfoldable pub leads_out : Text → Bool
unfolding contains split text_eq
leads_out p =
    starts_slash p || contains 92 p || any (λ seg. text_eq seg (codes "..")) (split b'/' p)

check_patterns : List Text → Result (Unit {0})
unfolding byte_length leads_out
check_patterns [] = ok tt
check_patterns (p ∷ patterns) = do
  guard (not (ltb max_pattern_len (byte_length p))) internal
  guard (not (leads_out p)) internal
  check_patterns patterns

unfoldable pub normalize_patterns : List Text → Result (List Text)
unfolding trim_slashes trim check_patterns
normalize_patterns raw =
    let patterns = retain (λ p. not (is_empty p)) (map (λ p. trim_slashes (trim p)) raw) in
    guard (not (ltb max_patterns (length patterns))) internal
    >> check_patterns patterns
    >> ok patterns

-- `BackupFilter::new`
unfoldable pub new_filter : List Text → List Text → Result BackupFilter
unfolding normalize_patterns
new_filter include exclude = do
  i ← normalize_patterns include
  e ← normalize_patterns exclude
  ok (record { include = i; exclude = e })
