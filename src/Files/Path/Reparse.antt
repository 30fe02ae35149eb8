-- ===== src/Files/Path/Reparse.antt =====
-- src/daemon/files/path.rs: what `SafePath::parse` and `SafePath::child` accept, and reading a shown path.
use asc_daemon.Prelude.{
  ◌↔◌, ℕ, ◌≤◌, ◌≡◌, refl, ap, Bool, true, false, ◌||◌, not, some, Text, List, [], ◌∷◌, ◌++◌,
  text_eq, if_split, arith, ltb, ◌==◌, All, is_empty, split, contains, byte_length, char_bytes,
  retain,
}
use asc_daemon.Files.Error.{FileResult, done, failed}
use asc_daemon.Files.Path.{
  PathBuf, dot, dot_dot, max_path_bytes, max_component_bytes, components, push_all, parse_path,
  child, parent, show_from, show_path,
}
use asc_daemon.Files.Path.Normal.{
  IsName, Lacks, split-Lacks, split-Lacks_sep, weight, show_path-weight, components-weight, Pushed,
  PushedAll, push_all-PushedAll, push_all-done,
}

-- what of a path that was accepted
pub record Normal (p : PathBuf) : Type 0 where
  pub names : All IsName p
  pub fits : byte_length (show_path p) ≤ max_path_bytes

abbrev NormalIfDone : FileResult PathBuf → Type 0
NormalIfDone (done p) = Normal p
NormalIfDone (failed e) = Unit

abbrev keep : Text → Bool
keep c = not (is_empty c || text_eq c dot)

name_parts : (c : Text) → keep c ≡ true → Lacks b'/' c → Lacks 0 c → Pushed c → IsName c
name_parts c k s n p =
    let e : (is_empty c ≡ false) × (text_eq c dot ≡ false) = ground arith in
    record { something = e.0; no_dot = e.1; no_dots = p.0; no_slash = s; no_nul = n; short = p.1 }

retain-IsName :
    (l : List Text)
    → All (Lacks b'/') l
    → All (Lacks 0) l
    → All Pushed (retain keep l)
    → All IsName (retain keep l)
retain-IsName [] s n p = tt
retain-IsName (c ∷ l) s n p =
    let rest = retain-IsName l s.1 n.1 in
    if_split (λ r. All Pushed r → All IsName r) (keep c) _ _
      (λ k q. (name_parts c k s.0 n.0 q.0, rest q.1)) (λ d. rest) p

components-done :
    (s : Text) (r : FileResult PathBuf)
    → byte_length (b'/' ∷ s) ≤ max_path_bytes
    → Lacks 0 (b'/' ∷ s)
    → PushedAll [] (components (b'/' ∷ s)) r
    → NormalIfDone r
unfolding components contains
components-done s (failed e) short nul h = tt
components-done s (done p) short nul h = record {
  names = rw h.0 (
      retain-IsName (split b'/' (b'/' ∷ s)) (split-Lacks_sep b'/' (b'/' ∷ s))
        (split-Lacks 0 b'/' (b'/' ∷ s) nul) h.1);
  fits =
      show_path-weight p max_path_bytes (omega (arith, ap weight h.0, components-weight s))
        (omega arith);
}

push_all-Normal :
    (c : ℕ) (s : Text)
    → c ≡ b'/'
    → byte_length (c ∷ s) ≤ max_path_bytes
    → Lacks 0 (c ∷ s)
    → NormalIfDone (push_all [] (components (c ∷ s)))
push_all-Normal c s e = rw e λ short nul.
    components-done s (push_all [] (components (b'/' ∷ s))) short nul
      (push_all-PushedAll [] (components (b'/' ∷ s)))

parse_path-Normal : (raw : Text) → NormalIfDone (parse_path raw)
unfolding parse_path
parse_path-Normal [] = tt
parse_path-Normal (c ∷ s) =
    if_split NormalIfDone (not (c == b'/')) _ _ (λ y. tt)
      λ slash.
        if_split NormalIfDone (ltb max_path_bytes (byte_length (c ∷ s))) _ _ (λ y. tt)
          λ short.
            if_split NormalIfDone (contains 0 (c ∷ s)) _ _ (λ y. tt)
              λ nul. push_all-Normal c s (ground arith) (ground arith) nul

-- the text of names, split again
split-append :
    (c s : Text) (l : PathBuf) → Lacks b'/' c → split b'/' s ≡ [] ∷ l → split b'/' (c ++ s) ≡ c ∷ l
unfolding split contains
split-append [] s l lacks e = e
split-append (d ∷ c) s l lacks e = ground (arith, split-append c s l (ground arith) e)

split-show_from : (p : PathBuf) → All IsName p → split b'/' (show_from p) ≡ [] ∷ p
unfolding split show_from
split-show_from [] a = refl
split-show_from (c ∷ p) a =
    rw (split-append c (show_from p) p a.0.no_slash (split-show_from p a.1)) refl

retain-keep : (p : PathBuf) → All IsName p → retain keep p ≡ p
retain-keep [] a = refl
retain-keep (c ∷ p) a = ground (arith, retain-keep p a.1, a.0.something, a.0.no_dot)

contains-append : (x : ℕ) (s t : Text) → Lacks x s → Lacks x t → Lacks x (s ++ t)
unfolding contains
contains-append x [] t h k = k
contains-append x (c ∷ s) t h k = ground (arith, contains-append x s t (ground arith) k)

show_from-Lacks : (p : PathBuf) → All IsName p → Lacks 0 (show_from p)
unfolding show_from contains
show_from-Lacks [] a = refl
show_from-Lacks (c ∷ p) a = contains-append 0 c (show_from p) a.0.no_nul (show_from-Lacks p a.1)

parse_path-done : (p : PathBuf) → Normal p → parse_path (show_path p) ≡ done p
unfolding show_path parse_path components
parse_path-done [] n = unfold push_all split byte_length char_bytes contains text_eq in refl
parse_path-done (c ∷ p) n = ground (
  arith,
  n.fits,
  show_from-Lacks (c ∷ p) n.names,
  split-show_from (c ∷ p) n.names,
  retain-keep (c ∷ p) n.names,
  push_all-done [] (c ∷ p) n.names,
)

-- Where a text is accepted, each component of the path is a name: not empty, `.` or `..`, without a slash or a NUL,
-- of 255 bytes at most; and the path is shown in 4096 bytes at most, as a text that is read as the same path.
pub parse_path-show_path :
    (raw : Text) (p : PathBuf)
    → parse_path raw ≡ done p
    → Normal p × (parse_path (show_path p) ≡ done p)
parse_path-show_path raw p e =
    let n : NormalIfDone (done p) = rw e at (parse_path-Normal raw) in (n, parse_path-done p n)

parent-snoc : (p : PathBuf) (name : Text) → parent (p ++ name ∷ []) ≡ some p
unfolding parent
parent-snoc [] name = refl
parent-snoc (c ∷ []) name = refl
parent-snoc (c ∷ d ∷ p) name = rw (parent-snoc (d ∷ p) name) refl

child_of : (p : PathBuf) (name : Text) → IsName name → child p name ≡ done (p ++ name ∷ [])
unfolding child
child_of p name n = ground (arith, n.something, n.no_dot, n.no_dots, n.no_slash, n.no_nul, n.short)

NameIfDone : PathBuf → Text → FileResult PathBuf → Type 0
NameIfDone p name (done q) = IsName name × (q ≡ p ++ name ∷ [])
NameIfDone p name (failed e) = Unit

child-NameIfDone : (p : PathBuf) (name : Text) → NameIfDone p name (child p name)
unfolding child NameIfDone
child-NameIfDone p name =
    if_split (NameIfDone p name) (is_empty name || text_eq name dot || text_eq name dot_dot) _ _
      (λ y. tt)
      λ a.
        if_split (NameIfDone p name) (contains b'/' name || contains 0 name) _ _ (λ y. tt)
          λ b.
            if_split (NameIfDone p name) (ltb max_component_bytes (byte_length name)) _ _ (λ y. tt)
              λ c. (
                record {
                  something = ground arith;
                  no_dot = ground arith;
                  no_dots = ground arith;
                  no_slash = ground arith;
                  no_nul = ground arith;
                  short = ground arith;
                },
                refl,
              )

-- A child is made exactly of the names, as the path with the name behind it; and the path it was made of is its parent.
pub child-parent :
    (p q : PathBuf) (name : Text)
    → ((child p name ≡ done q) ↔ (IsName name × (q ≡ p ++ name ∷ [])))
      × (parent (p ++ name ∷ []) ≡ some p)
child-parent p q name = ((made, λ h. rw h.1 (child_of p name h.0)), parent-snoc p name)
  where
    made : child p name ≡ done q → IsName name × (q ≡ p ++ name ∷ [])
    made e =
        unfold NameIfDone in
        let n : NameIfDone p name (done q) = rw e at (child-NameIfDone p name) in n
