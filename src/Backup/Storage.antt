-- ===== src/Backup/Storage.antt =====
-- src/daemon/backup/storage.rs: the names of archives, and the storages that keep them; and
-- `validate_backup_name` and `prune` of src/daemon/backup/mod.rs.
pub mod Owner
use asc_daemon.Prelude.{
  ℕ, ◌-◌, Bool, true, false, ◌&&◌, ◌||◌, not, Option, none, some, Text, List, [], ◌∷◌, ◌++◌, codes,
  ◌==◌, if◌then◌else◌, ltb, is_digit, any, is_empty, contains, length, map, reverse, parse_uint,
}
use asc_daemon.Failure.{Result, ok, err, internal, is_err}

-- `strip_prefix`
unfoldable pub strip_prefix : Text → Text → Option Text
strip_prefix [] s = some s
strip_prefix (p ∷ prefix) [] = none
strip_prefix (p ∷ prefix) (c ∷ s) =
    let rest = strip_prefix prefix s in if c == p then rest else none

-- `strip_suffix`
unfoldable pub strip_suffix : Text → Text → Option Text
unfolding strip_prefix
strip_suffix suffix s = elim (strip_prefix (reverse suffix) (reverse s)) [
  | none ↦ none
  | some rest ↦ some (reverse rest)
]

abbrev pub archive_suffix : Text
archive_suffix = codes ".tar.gz"

abbrev pub all_digits : Text → Bool
all_digits [] = true
all_digits (c ∷ s) = is_digit c && all_digits s

abbrev pub stamp : Option Text → Bool
stamp none = false
stamp (some ts) = not (is_empty ts) && all_digits ts

abbrev pub after_dash : Option Text → Option Text
after_dash none = none
after_dash (some rest) = strip_prefix (b'-' ∷ []) rest

abbrev pub before_suffix : Option Text → Option Text
before_suffix none = none
before_suffix (some rest) = strip_suffix archive_suffix rest

unfoldable pub belongs_to : Text → Text → Bool
unfolding strip_prefix strip_suffix
belongs_to name app_id = stamp (before_suffix (after_dash (strip_prefix app_id name)))

unfoldable pub validate_backup_name : Text → Text → Result (Unit {0})
unfolding belongs_to contains
validate_backup_name app_id name =
    if contains b'/' name || contains 92 name || not (belongs_to name app_id)
    then err internal
    else ok tt

-- A storage by what it lists, oldest first, and by how it removes one archive.
module _ {S : Type 0} (list_of : Text → S → Result (List Text))
    (remove : Text → S → Result (Unit {0}) × S) where
  abbrev report : Result (Unit {0}) → Text → List Text → List Text
  report (ok _) name rest = name ∷ rest
  report (err _) name rest = rest

  -- the loop over the first `n` objects
  unfoldable pub remove_first : ℕ → List Text → S → List Text × S
  remove_first n [] s = ([], s)
  remove_first n (name ∷ names) s =
      let (done, s') = remove name s in
      let (removed, s'') = remove_first (n - 1) names s' in
      if ltb 0 n then (report done name removed, s'') else ([], s)

  unfoldable pub prune : Text → ℕ → S → Result (List Text) × S
  unfolding remove_first
  prune app_id keep s = elim (list_of app_id s) [
    | err e ↦ (err e, s)
    | ok names ↦ let (removed, s') = remove_first (length names - keep) names s in (ok removed, s')
  ]
