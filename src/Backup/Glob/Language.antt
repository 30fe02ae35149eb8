-- ===== src/Backup/Glob/Language.antt =====
-- src/daemon/backup/glob.rs against the language of a pattern.
use mathlib.Core.Path.{fun_ext}
use asc_daemon.Prelude.{
  ℕ, ◌≡◌, refl, sym, ap, ◌∙◌, ◌↔◌, inl, inr, Bool, true, List, [], ◌∷◌, ◌++◌, ◌==◌, if◌then◌else◌,
  arith, All, Bool-cases,
}
use asc_daemon.Backup.Glob.{
  Bytes, any_suffix, any_in_segment, head_and, no_slash, is_nil, plain, match_bytes, matches_glob,
}

-- What a pattern is made of.
pub data Token : Type 0 where
  globstar star one : Token
  exactly : ℕ → Token

abbrev pub plain_token : ℕ → Token
plain_token p = if p == b'?' then one else exactly p

-- A slash after two stars belongs to them.
unfoldable pub tokens : Bytes → List Token
tokens [] = []
tokens (p ∷ []) = (if p == b'*' then star else plain_token p) ∷ []
tokens (p ∷ q ∷ []) =
    let rest = tokens (q ∷ []) in
    if p == b'*' then (if q == b'*' then globstar ∷ [] else star ∷ rest) else plain_token p ∷ rest
tokens (p ∷ q ∷ r ∷ pattern) =
    let below = globstar ∷ tokens pattern in
    let deep = globstar ∷ tokens (r ∷ pattern) in
    let rest = tokens (q ∷ r ∷ pattern) in
    if p == b'*'
    then if q == b'*' then if r == b'/' then below else deep else star ∷ rest
    else plain_token p ∷ rest

abbrev pub NoSlash : ℕ → Type 0
NoSlash c = no_slash c ≡ true

-- The paths of a pattern: two stars stand for any bytes, one star for bytes that are no slashes, a
-- question mark for one of these.
abbrev pub Denotes : List Token → Bytes → Type 0
Denotes [] s = s ≡ []
Denotes (globstar ∷ ts) s = (a : Bytes) × (r : Bytes) × (s ≡ a ++ r) × Denotes ts r
Denotes (star ∷ ts) s = (a : Bytes) × (r : Bytes) × (s ≡ a ++ r) × All NoSlash a × Denotes ts r
Denotes (one ∷ ts) s = (c : ℕ) × (r : Bytes) × (s ≡ c ∷ r) × NoSlash c × Denotes ts r
Denotes (exactly p ∷ ts) s = (r : Bytes) × (s ≡ p ∷ r) × Denotes ts r

-- the tokens, matched the way that the code does
unfoldable run : List Token → Bytes → Bool
unfolding any_suffix any_in_segment
run [] = is_nil
run (globstar ∷ ts) = any_suffix (run ts)
run (star ∷ ts) = any_in_segment (run ts)
run (one ∷ ts) = head_and no_slash (run ts)
run (exactly p ∷ ts) = head_and (λ c. c == p) (run ts)

run_plain :
    (p : ℕ) (ts : List Token) (s : Bytes)
    → run (plain_token p ∷ ts) s ≡ head_and (plain p) (run ts) s
unfolding run
run_plain p ts [] = ground arith
run_plain p ts (c ∷ s) = ground arith

-- one step on three bytes, by what matches the rest of the pattern in each case
unfoldable branch : ℕ → ℕ → ℕ → (Bytes → Bool) → (Bytes → Bool) → (Bytes → Bool) → Bytes → Bool
branch p q r below deep rest s =
    if p == b'*'
    then if q == b'*'
      then if r == b'/' then any_suffix below s else any_suffix deep s
      else any_in_segment rest s
    else head_and (plain p) rest s

branch-run :
    (p q r : ℕ) (below deep rest : List Token) (s : Bytes)
    → branch p q r (run below) (run deep) (run rest) s
      ≡ run
          (if p == b'*'
            then if q == b'*'
              then if r == b'/' then globstar ∷ below else globstar ∷ deep
              else star ∷ rest
            else plain_token p ∷ rest)
          s
unfolding branch run
branch-run p q r below deep rest s = ground (arith, run_plain p rest s)

branch-cong :
    (p q r : ℕ) {f f' g g' k k' : Bytes → Bool} (s : Bytes)
    → f ≡ f'
    → g ≡ g'
    → k ≡ k'
    → branch p q r f g k s ≡ branch p q r f' g' k' s
branch-cong p q r s a b c = cc (a, b, c)

match-run : (p s : Bytes) → match_bytes p s ≡ run (tokens p) s
unfolding match_bytes tokens branch
match-run [] s = unfold run in refl
match-run (p ∷ []) s = unfold run in ground (arith, run_plain p [] s)
match-run (p ∷ q ∷ []) s =
    branch-cong p q 0 s (fun_ext (match-run [])) (fun_ext (match-run []))
      (fun_ext (match-run (q ∷ [])))
    ∙ branch-run p q 0 [] [] (tokens (q ∷ [])) s
match-run (p ∷ q ∷ r ∷ pattern) s =
    branch-cong p q r s (fun_ext (match-run pattern)) (fun_ext (match-run (r ∷ pattern)))
      (fun_ext (match-run (q ∷ r ∷ pattern)))
    ∙ branch-run p q r (tokens pattern) (tokens (r ∷ pattern)) (tokens (q ∷ r ∷ pattern)) s

-- `f` holds of what is left after some bytes, all of which satisfy `P`
abbrev After : (ℕ → Type 0) → (Bytes → Type 0) → Bytes → Type 0
After P Q s = (a : Bytes) × (r : Bytes) × (s ≡ a ++ r) × All P a × Q r

any_suffix_to :
    (f : Bytes → Bool) (s : Bytes)
    → any_suffix f s ≡ true
    → (a : Bytes) × (r : Bytes) × (s ≡ a ++ r) × (f r ≡ true)
unfolding any_suffix
any_suffix_to f [] h = ([], [], refl, h)
any_suffix_to f (c ∷ s) h = elim (Bool-cases (f (c ∷ s))) [
  | inl y ↦ ([], c ∷ s, refl, y)
  | inr n ↦ let (a, r, e, k) = any_suffix_to f s (rw n at h) in (c ∷ a, r, ap (λ t. c ∷ t) e, k)
]

any_suffix_from : (f : Bytes → Bool) (a r : Bytes) → f r ≡ true → any_suffix f (a ++ r) ≡ true
unfolding any_suffix
any_suffix_from f [] [] h = h
any_suffix_from f [] (c ∷ r) h = rw h refl
any_suffix_from f (c ∷ a) r h = ground (arith, any_suffix_from f a r h)

any_in_segment_to :
    (f : Bytes → Bool) (s : Bytes)
    → any_in_segment f s ≡ true
    → (a : Bytes) × (r : Bytes) × (s ≡ a ++ r) × All NoSlash a × (f r ≡ true)
unfolding any_in_segment
any_in_segment_to f [] h = ([], [], refl, tt, h)
any_in_segment_to f (c ∷ s) h = elim (Bool-cases (f (c ∷ s))) [
  | inl y ↦ ([], c ∷ s, refl, tt, y)
  | inr n ↦
      let (a, r, e, free, k) = any_in_segment_to f s (ground arith) in
      (c ∷ a, r, ap (λ t. c ∷ t) e, (ground arith, free), k)
]

any_in_segment_from :
    (f : Bytes → Bool) (a r : Bytes) → All NoSlash a → f r ≡ true → any_in_segment f (a ++ r) ≡ true
unfolding any_in_segment
any_in_segment_from f [] [] free h = h
any_in_segment_from f [] (c ∷ r) free h = rw h refl
any_in_segment_from f (c ∷ a) r free h = ground (arith, any_in_segment_from f a r free.1 h)

run_to : (ts : List Token) (s : Bytes) → run ts s ≡ true → Denotes ts s
unfolding run
run_to [] [] h = refl
run_to [] (c ∷ s) h = cc
run_to (globstar ∷ ts) s h =
    let (a, r, e, k) = any_suffix_to (run ts) s h in (a, r, e, run_to ts r k)
run_to (star ∷ ts) s h =
    let (a, r, e, free, k) = any_in_segment_to (run ts) s h in (a, r, e, free, run_to ts r k)
run_to (one ∷ ts) [] h = cc
run_to (one ∷ ts) (c ∷ s) h = (c, s, refl, ground arith, run_to ts s (ground arith))
run_to (exactly p ∷ ts) [] h = cc
run_to (exactly p ∷ ts) (c ∷ s) h =
    let e : c ≡ p = ground arith in (s, ap (λ x. x ∷ s) e, run_to ts s (ground arith))

run_from : (ts : List Token) (s : Bytes) → Denotes ts s → run ts s ≡ true
unfolding run
run_from [] s d = rw d refl
run_from (globstar ∷ ts) s (a, r, e, k) = rw e (any_suffix_from (run ts) a r (run_from ts r k))
run_from (star ∷ ts) s (a, r, e, free, k) =
    rw e (any_in_segment_from (run ts) a r free (run_from ts r k))
run_from (one ∷ ts) s (c, r, e, free, k) = rw e (ground (arith, run_from ts r k))
run_from (exactly p ∷ ts) s (r, e, k) = rw e (ground (arith, run_from ts r k))

-- A pattern matches exactly the paths of its language.
pub matches_glob_iff :
    (pattern path : Bytes) → (matches_glob pattern path ≡ true) ↔ Denotes (tokens pattern) path
unfolding matches_glob
matches_glob_iff pattern path = (
  λ h. run_to (tokens pattern) path (sym (match-run pattern path) ∙ h),
  λ d. match-run pattern path ∙ run_from (tokens pattern) path d,
)
