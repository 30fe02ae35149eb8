-- ===== src/Files/Scope.antt =====
-- src/daemon/files/scope.rs: `AppScope`, the roots that the files of one app are confined to.
-- `std::fs::canonicalize` stands for the file system: an argument.
pub mod Confined
use asc_daemon.Prelude.{
  Bool, true, false, ◌||◌, ◌&&◌, not, Text, List, [], ◌∷◌, ◌++◌, reverse, text_eq, any,
  if◌then◌else◌,
}
use asc_daemon.Files.Error.{FileResult, done, failed, outside_scope, io, ◌>>=◌}
use asc_daemon.Files.Path.{PathBuf}

-- what `canonicalize` answers: the real path, an error of kind `NotFound`, or another error
pub data Lookup : Type 0 where
  real : PathBuf → Lookup
  absent broken : Lookup

unfoldable pub path_eq : PathBuf → PathBuf → Bool
unfolding text_eq
path_eq [] [] = true
path_eq (c ∷ p) (d ∷ q) = text_eq c d && path_eq p q
path_eq _ _ = false

-- `Path::starts_with`, by components
unfoldable pub starts_with : PathBuf → PathBuf → Bool
unfolding text_eq
starts_with p [] = true
starts_with [] (d ∷ q) = false
starts_with (c ∷ p) (d ∷ q) = text_eq c d && starts_with p q

pub record AppScope : Type 0 where
  pub roots : List PathBuf

-- the loop of `AppScope::new`
unfoldable pub real_roots :
    (PathBuf → Lookup) → List PathBuf → List PathBuf → FileResult (List PathBuf)
unfolding path_eq
real_roots canonicalize found [] = done found
real_roots canonicalize found (root ∷ rest) = elim (canonicalize root) [
  | real r ↦ real_roots canonicalize (if any (path_eq r) found then found else found ++ r ∷ []) rest
  | absent ↦ failed io
  | broken ↦ failed io
]

-- `AppScope::new`
unfoldable pub new_scope : (PathBuf → Lookup) → List PathBuf → FileResult AppScope
unfolding real_roots
new_scope canonicalize roots =
    real_roots canonicalize [] roots >>= λ found. done (record { roots = found })

-- `contains`
unfoldable pub in_scope : AppScope → PathBuf → Bool
unfolding path_eq starts_with
in_scope scope p = any (λ root. path_eq p root || starts_with p root) scope.roots

-- `canonicalize_existing_prefix` of a path given from its last component up
unfoldable pub existing_prefix : (PathBuf → Lookup) → PathBuf → FileResult PathBuf
existing_prefix canonicalize [] = elim (canonicalize []) [
  | real r ↦ done r
  | absent ↦ failed io
  | broken ↦ failed io
]
existing_prefix canonicalize (name ∷ above) =
    let parent = existing_prefix canonicalize above in
    elim (canonicalize (reverse (name ∷ above))) [
      | real r ↦ done r
      | absent ↦ parent >>= λ p. done (p ++ name ∷ [])
      | broken ↦ failed io
    ]

-- `resolve`
unfoldable pub resolve : (PathBuf → Lookup) → AppScope → PathBuf → FileResult PathBuf
unfolding existing_prefix in_scope
resolve canonicalize scope safe = existing_prefix canonicalize (reverse safe) >>= λ p.
    if in_scope scope p then done p else failed outside_scope
