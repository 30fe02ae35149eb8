-- ===== src/Backup/Glob.antt =====
-- src/daemon/backup/glob.rs: which files a pattern excludes from a backup. Patterns and paths are
-- lists of bytes, as in `match_bytes`.
pub mod Language
use asc_daemon.Prelude.{
  ℕ, Bool, true, false, ◌&&◌, ◌||◌, not, List, [], ◌∷◌, ◌==◌, if◌then◌else◌, any, map,
}

abbrev pub Bytes : Type 0
Bytes = List ℕ

-- `(0..=path.len()).any(|i| f(&path[i..]))`
unfoldable pub any_suffix : (Bytes → Bool) → Bytes → Bool
any_suffix f [] = f []
any_suffix f (c ∷ s) = f (c ∷ s) || any_suffix f s

-- the same, as far as the bytes before `i` are no slashes
unfoldable pub any_in_segment : (Bytes → Bool) → Bytes → Bool
any_in_segment f [] = f []
any_in_segment f (c ∷ s) = f (c ∷ s) || (not (c == b'/') && any_in_segment f s)

-- the first byte passes the test, and the others pass `f`
abbrev pub head_and : (ℕ → Bool) → (Bytes → Bool) → Bytes → Bool
head_and test f [] = false
head_and test f (c ∷ s) = test c && f s

abbrev pub no_slash : ℕ → Bool
no_slash c = not (c == b'/')

abbrev pub is_nil : Bytes → Bool
is_nil [] = true
is_nil (_ ∷ _) = false

-- a first byte that is no star: `?`, or itself
abbrev pub plain : ℕ → ℕ → Bool
plain p c = if p == b'?' then no_slash c else c == p

unfoldable pub match_bytes : Bytes → Bytes → Bool
unfolding any_suffix any_in_segment
match_bytes [] path = is_nil path
match_bytes (p ∷ []) path =
    let rest = match_bytes [] in
    if p == b'*' then any_in_segment rest path else head_and (plain p) rest path
match_bytes (p ∷ q ∷ []) path =
    let deep = match_bytes [] in
    let rest = match_bytes (q ∷ []) in
    if p == b'*'
    then if q == b'*' then any_suffix deep path else any_in_segment rest path
    else head_and (plain p) rest path
match_bytes (p ∷ q ∷ r ∷ pattern) path =
    let below = match_bytes pattern in
    let deep = match_bytes (r ∷ pattern) in
    let rest = match_bytes (q ∷ r ∷ pattern) in
    if p == b'*'
    then if q == b'*'
      then if r == b'/' then any_suffix below path else any_suffix deep path
      else any_in_segment rest path
    else head_and (plain p) rest path

-- `matches`
unfoldable pub matches_glob : Bytes → Bytes → Bool
unfolding match_bytes
matches_glob pattern path = match_bytes pattern path

-- the prefixes of the path that end before a slash: its ancestor directories
unfoldable pub ancestors : Bytes → List Bytes
ancestors [] = []
ancestors (c ∷ s) =
    let longer = map (λ a. c ∷ a) (ancestors s) in if c == b'/' then [] ∷ longer else longer

unfoldable pub matches_any : List Bytes → Bytes → Bool
unfolding matches_glob ancestors
matches_any patterns path =
    any (λ p. matches_glob p path || any (λ a. matches_glob p a) (ancestors path)) patterns
