-- ===== src/Files/Path/Normal.antt =====
-- src/daemon/files/path.rs: the components of a path that is accepted, and its text read again.
use mathlib.Core.List.{append_assoc, append-nil}
use asc_daemon.Prelude.{
  ℕ, ◌+◌, ◌≤◌, ◌≡◌, refl, sym, ◌∙◌, Bool, false, ◌||◌, not, Text, List, [], ◌∷◌, ◌++◌, text_eq,
  if_split, arith, ltb, ◌==◌, All, is_empty, split, contains, byte_length, byte_length-append,
  char_bytes, onto_first, retain,
}
use asc_daemon.Files.Error.{FileResult, done, failed}
use asc_daemon.Files.Path.{
  PathBuf, dot, dot_dot, max_component_bytes, components, push_all, show_from, show_path,
}

-- a name in a directory: not empty, `.` or `..`, without slashes and NULs, and not too long
pub record IsName (c : Text) : Type 0 where
  pub something : is_empty c ≡ false
  pub no_dot : text_eq c dot ≡ false
  pub no_dots : text_eq c dot_dot ≡ false
  pub no_slash : contains b'/' c ≡ false
  pub no_nul : contains 0 c ≡ false
  pub short : byte_length c ≤ max_component_bytes

abbrev pub Lacks : ℕ → Text → Type 0
Lacks x c = contains x c ≡ false

onto_first-Lacks :
    (x d : ℕ) (l : List Text) → (d == x) ≡ false → All (Lacks x) l → All (Lacks x) (onto_first d l)
unfolding contains
onto_first-Lacks x d [] n a = (ground arith, tt)
onto_first-Lacks x d (c ∷ l) n a = (ground arith, a.1)

-- what the whole has not, no part has
pub split-Lacks : (x sep : ℕ) (s : Text) → Lacks x s → All (Lacks x) (split sep s)
unfolding split contains
split-Lacks x sep [] h = (refl, tt)
split-Lacks x sep (d ∷ s) h =
    let rest = split-Lacks x sep s (ground arith) in
    if_split (All (Lacks x)) (d == sep) _ _ (λ y. (refl, rest))
      λ n. onto_first-Lacks x d (split sep s) (ground arith) rest

-- no part has the separator
pub split-Lacks_sep : (sep : ℕ) (s : Text) → All (Lacks sep) (split sep s)
unfolding split contains
split-Lacks_sep sep [] = (refl, tt)
split-Lacks_sep sep (d ∷ s) =
    if_split (All (Lacks sep)) (d == sep) _ _ (λ y. (refl, split-Lacks_sep sep s))
      λ n. onto_first-Lacks sep d (split sep s) n (split-Lacks_sep sep s)

-- the bytes of a path, a slash before each component
abbrev pub weight : PathBuf → ℕ
weight [] = 0
weight (c ∷ p) = 1 + byte_length c + weight p

onto_first-weight :
    (d : ℕ) (l : PathBuf) → 1 ≤ weight l → weight (onto_first d l) ≡ char_bytes d + weight l
unfolding byte_length
onto_first-weight d [] h = absurd (omega arith)
onto_first-weight d (c ∷ l) h = omega arith

split-weight : (s : Text) → weight (split b'/' s) ≡ 1 + byte_length s
unfolding split byte_length
split-weight [] = refl
split-weight (d ∷ s) =
    if_split (λ l. weight l ≡ 1 + (char_bytes d + byte_length s)) (d == b'/') _ _
      (λ y.
        let e : d ≡ b'/' = ground arith in
        rw e (unfold char_bytes in omega (arith, split-weight s)))
      λ n.
        omega (
          arith,
          onto_first-weight d (split b'/' s) (omega (arith, split-weight s)),
          split-weight s,
        )

retain-weight : (p : Text → Bool) (l : PathBuf) → weight (retain p l) ≤ weight l
retain-weight p [] = omega arith
retain-weight p (c ∷ l) = ground (arith, retain-weight p l)

pub show_from-weight : (p : PathBuf) → byte_length (show_from p) ≡ weight p
unfolding show_from byte_length char_bytes
show_from-weight [] = refl
show_from-weight (c ∷ p) = omega (arith, byte_length-append c (show_from p), show_from-weight p)

pub show_path-weight : (p : PathBuf) (n : ℕ) → weight p ≤ n → 1 ≤ n → byte_length (show_path p) ≤ n
unfolding show_path byte_length char_bytes
show_path-weight [] n h one = omega arith
show_path-weight (c ∷ p) n h one = omega (arith, show_from-weight (c ∷ p))

pub components-weight : (s : Text) → weight (components (b'/' ∷ s)) ≤ byte_length (b'/' ∷ s)
unfolding components split byte_length char_bytes
components-weight s =
    omega
      (arith, retain-weight (λ c. not (is_empty c || text_eq c dot)) (split b'/' s), split-weight s)

-- what the loop checks of a component
abbrev pub Pushed : Text → Type 0
Pushed c = (text_eq c dot_dot ≡ false) × (byte_length c ≤ max_component_bytes)

abbrev pub PushedAll : PathBuf → PathBuf → FileResult PathBuf → Type 0
PushedAll p l (done q) = (q ≡ p ++ l) × All Pushed l
PushedAll p l (failed e) = Unit

append_snoc : (p l : PathBuf) (c : Text) → (p ++ c ∷ []) ++ l ≡ p ++ c ∷ l
append_snoc p l c = append_assoc p (c ∷ []) l

pub push_all-PushedAll : (p l : PathBuf) → PushedAll p l (push_all p l)
unfolding push_all
push_all-PushedAll p [] = (sym (append-nil p), tt)
push_all-PushedAll p (c ∷ l) =
    if_split (PushedAll p (c ∷ l)) (text_eq c dot_dot) _ _ (λ y. tt)
      λ n.
        if_split (PushedAll p (c ∷ l)) (ltb max_component_bytes (byte_length c)) _ _ (λ y. tt)
          λ short.
            one (n, ground arith) (push_all (p ++ c ∷ []) l) (push_all-PushedAll (p ++ c ∷ []) l)
  where
    one : Pushed c → (r : FileResult PathBuf) → PushedAll (p ++ c ∷ []) l r → PushedAll p (c ∷ l) r
    one ok (failed e) h = tt
    one ok (done q) h = (h.0 ∙ append_snoc p l c, (ok, h.1))

pub push_all-done : (p l : PathBuf) → All IsName l → push_all p l ≡ done (p ++ l)
unfolding push_all
push_all-done p [] a = rw append-nil refl
push_all-done p (c ∷ l) a =
    rw (← append_snoc p l c)
      (ground (arith, push_all-done (p ++ c ∷ []) l a.1, a.0.no_dots, a.0.short))
