-- ===== src/Files/Path.antt =====
-- src/daemon/files/path.rs: `SafePath`. A path is the list of its components, from the root; what
-- `Path::components` makes of a text is of Rust's standard library.
pub mod Normal
pub mod Reparse
use asc_daemon.Prelude.{
  ℕ, Bool, true, false, ◌&&◌, ◌||◌, not, Option, none, some, Text, List, [], ◌∷◌, ◌++◌, codes,
  text_eq, if◌then◌else◌, ltb, ◌==◌, is_empty, split, contains, byte_length, retain,
}
use asc_daemon.Files.Error.{FileResult, done, failed, invalid_path, ◌>>=◌}

abbrev pub max_path_bytes : ℕ
max_path_bytes = 4096

abbrev pub max_component_bytes : ℕ
max_component_bytes = 255

abbrev pub dot : Text
dot = codes "."

abbrev pub dot_dot : Text
dot_dot = codes ".."

abbrev pub PathBuf : Type 0
PathBuf = List Text

-- `Path::components` of an absolute path, less the root: neither empty components nor `.` count
unfoldable pub components : Text → List Text
unfolding split text_eq
components raw = retain (λ c. not (is_empty c || text_eq c dot)) (split b'/' raw)

-- the loop over the components
unfoldable pub push_all : PathBuf → List Text → FileResult PathBuf
unfolding text_eq byte_length
push_all normalized [] = done normalized
push_all normalized (c ∷ rest) =
    let pushed = push_all (normalized ++ c ∷ []) rest in
    if text_eq c dot_dot
    then failed invalid_path
    else if ltb max_component_bytes (byte_length c)
    then failed invalid_path
    else pushed

abbrev pub is_absolute : Text → Bool
is_absolute [] = false
is_absolute (c ∷ _) = c == b'/'

-- `SafePath::parse`
unfoldable pub parse_path : Text → FileResult PathBuf
unfolding byte_length contains components push_all
parse_path raw =
    if not (is_absolute raw)
    then failed invalid_path
    else if ltb max_path_bytes (byte_length raw)
    then failed invalid_path
    else if contains 0 raw
    then failed invalid_path
    else push_all [] (components raw)

-- `SafePath::child`
unfoldable pub child : PathBuf → Text → FileResult PathBuf
unfolding text_eq contains byte_length
child p name =
    if is_empty name || text_eq name dot || text_eq name dot_dot
    then failed invalid_path
    else if contains b'/' name || contains 0 name
    then failed invalid_path
    else if ltb max_component_bytes (byte_length name)
    then failed invalid_path
    else done (p ++ name ∷ [])

-- `SafePath::parent`; the root has none
unfoldable pub parent : PathBuf → Option PathBuf
parent [] = none
parent (c ∷ []) = some []
parent (c ∷ d ∷ p) = elim (parent (d ∷ p)) [ none ↦ none | some q ↦ some (c ∷ q) ]

unfoldable pub show_from : PathBuf → Text
show_from [] = []
show_from (c ∷ p) = b'/' ∷ c ++ show_from p

-- `Display`
unfoldable pub show_path : PathBuf → Text
unfolding show_from
show_path [] = b'/' ∷ []
show_path (c ∷ p) = show_from (c ∷ p)
