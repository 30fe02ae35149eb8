-- ===== src/Files/Scope/Confined.antt =====
-- src/daemon/files/scope.rs: a path that `AppScope::resolve` returns.
use mathlib.Core.Path.{subst}
use mathlib.Core.List.{append_assoc, reverse-cons, reverse-reverse, append-nil}
use asc_daemon.Prelude.{
  ◌≡◌, refl, sym, ap, ◌∙◌, inl, inr, true, ◌||◌, Text, List, [], ◌∷◌, ◌++◌, reverse, text_eq_sound,
  any, All, Among, All-append, Bool-cases, if◌then◌else◌, arith, if_split,
}
use asc_daemon.Files.Error.{FileResult, done, failed, outside_scope, io, ◌>>=◌}
use asc_daemon.Files.Path.{PathBuf}
use asc_daemon.Files.Scope.{
  Lookup, real, absent, broken, path_eq, starts_with, AppScope, real_roots, new_scope, in_scope,
  existing_prefix, resolve,
}

path_eq_sound : (p q : PathBuf) → path_eq p q ≡ true → p ≡ q
unfolding path_eq
path_eq_sound [] [] h = refl
path_eq_sound [] (d ∷ q) h = ground arith
path_eq_sound (c ∷ p) [] h = ground arith
path_eq_sound (c ∷ p) (d ∷ q) h = ground (arith, text_eq_sound c d, path_eq_sound p q)

starts_with_sound :
    (p root : PathBuf) → starts_with p root ≡ true → (tail : PathBuf) × (p ≡ root ++ tail)
unfolding starts_with
starts_with_sound p [] h = (p, refl)
starts_with_sound [] (d ∷ q) h = ground arith
starts_with_sound (c ∷ p) (d ∷ q) h =
    let rest = starts_with_sound p q (ground arith) in
    (rest.0, ground (arith, text_eq_sound c d, rest.1))

-- Every root of `found` is where one of `roots` really is.
abbrev RealOf : (PathBuf → Lookup) → List PathBuf → PathBuf → Type 0
RealOf fs roots r = (root : PathBuf) × (Among root roots × (fs root ≡ real r))

abbrev RealIfDone : (PathBuf → Lookup) → List PathBuf → FileResult (List PathBuf) → Type 0
RealIfDone fs roots (done found) = All (RealOf fs roots) found
RealIfDone fs roots (failed e) = Unit

real_roots-RealIfDone :
    (fs : PathBuf → Lookup) (roots found rest : List PathBuf)
    → ((root : PathBuf) → Among root rest → Among root roots)
    → All (RealOf fs roots) found
    → RealIfDone fs roots (real_roots fs found rest)
unfolding real_roots
real_roots-RealIfDone fs roots found [] within ok = ok
real_roots-RealIfDone fs roots found (root ∷ rest) within ok =
    go (λ next. real_roots-RealIfDone fs roots next rest (λ other m. within other (inr m)))
      (fs root) refl
  where
    go :
        ((next : List PathBuf)
          → All (RealOf fs roots) next
          → RealIfDone fs roots (real_roots fs next rest))
        → (l : Lookup) → fs root ≡ l
        → RealIfDone fs roots (elim l [
          | real r ↦ real_roots fs (if any (path_eq r) found then found else found ++ r ∷ []) rest
          | absent ↦ failed io
          | broken ↦ failed io
        ])
    go ih (real r) e = ih (if any (path_eq r) found then found else found ++ r ∷ []) (
        if_split (All (RealOf fs roots)) (any (path_eq r) found) _ _ (λ y. ok)
          λ n.
            All-append (RealOf fs roots) found (r ∷ []) ok
              ((root, (within root (inl refl), e)), tt))
    go ih absent e = tt
    go ih broken e = tt

-- No path further down than `p`, on the way through `tail`, is found.
abbrev AbsentBelow : (PathBuf → Lookup) → PathBuf → PathBuf → Type 0
AbsentBelow fs p [] = Unit
AbsentBelow fs p (name ∷ tail) =
    (fs (p ++ name ∷ []) ≡ absent) × AbsentBelow fs (p ++ name ∷ []) tail

AbsentBelow-snoc :
    (fs : PathBuf → Lookup) (p tail : PathBuf) (name : Text)
    → AbsentBelow fs p tail
    → fs ((p ++ tail) ++ name ∷ []) ≡ absent
    → AbsentBelow fs p (tail ++ name ∷ [])
AbsentBelow-snoc fs p [] name a e = (rw (ap (λ q. fs (q ++ name ∷ [])) (append-nil p)) at e, tt)
AbsentBelow-snoc fs p (n ∷ tail) name a e =
    (a.0, AbsentBelow-snoc fs (p ++ n ∷ []) tail name a.1 (rw (append_assoc p (n ∷ []) tail) e))

-- `q` is where `p` leads: its deepest ancestor that is found, where that really is, and the rest as it is written.
pub record LeadsTo (fs : PathBuf → Lookup) (p q : PathBuf) : Type 0 where
  pub ancestor : PathBuf
  pub place : PathBuf
  pub tail : PathBuf
  pub splits : p ≡ ancestor ++ tail
  pub resolved : fs ancestor ≡ real place
  pub appended : q ≡ place ++ tail
  pub deepest : AbsentBelow fs ancestor tail

abbrev LeadsIfDone : (PathBuf → Lookup) → PathBuf → FileResult PathBuf → Type 0
LeadsIfDone fs p (done q) = LeadsTo fs p q
LeadsIfDone fs p (failed e) = Unit

direct : (fs : PathBuf → Lookup) (p r : PathBuf) → fs p ≡ real r → LeadsTo fs p r
direct fs p r e = record {
  ancestor = p;
  place = r;
  tail = [];
  splits = sym (append-nil p);
  resolved = e;
  appended = sym (append-nil r);
  deepest = tt;
}

through_parent :
    (fs : PathBuf → Lookup) (p : PathBuf) (name : Text) (r : FileResult PathBuf)
    → fs (p ++ name ∷ []) ≡ absent
    → LeadsIfDone fs p r
    → LeadsIfDone fs (p ++ name ∷ []) (r >>= λ q. done (q ++ name ∷ []))
through_parent fs p name (failed e) a h = tt
through_parent fs p name (done q) a h = record {
  ancestor = h.ancestor;
  place = h.place;
  tail = h.tail ++ name ∷ [];
  splits =
      ap (λ (s : PathBuf). s ++ name ∷ []) h.splits ∙ append_assoc h.ancestor h.tail (name ∷ []);
  resolved = h.resolved;
  appended =
      ap (λ (s : PathBuf). s ++ name ∷ []) h.appended ∙ append_assoc h.place h.tail (name ∷ []);
  deepest = AbsentBelow-snoc fs h.ancestor h.tail name h.deepest (rw (← h.splits) a);
}

existing_prefix-LeadsTo :
    (fs : PathBuf → Lookup) (above : PathBuf)
    → LeadsIfDone fs (reverse above) (existing_prefix fs above)
unfolding existing_prefix
existing_prefix-LeadsTo fs [] = go (fs []) refl
  where
    go :
        (l : Lookup)
        → fs [] ≡ l
        → LeadsIfDone fs [] (elim l [ real r ↦ done r | absent ↦ failed io | broken ↦ failed io ])
    go (real r) e = direct fs [] r e
    go absent e = tt
    go broken e = tt
existing_prefix-LeadsTo fs (name ∷ above) =
    go (existing_prefix-LeadsTo fs above) (fs (reverse (name ∷ above))) refl
  where
    go :
        LeadsIfDone fs (reverse above) (existing_prefix fs above)
        → (l : Lookup) → fs (reverse (name ∷ above)) ≡ l
        → LeadsIfDone fs (reverse (name ∷ above)) (elim l [
          | real r ↦ done r
          | absent ↦ existing_prefix fs above >>= λ p. done (p ++ name ∷ [])
          | broken ↦ failed io
        ])
    go ih (real r) e = direct fs (reverse (name ∷ above)) r e
    go ih absent e =
        subst (λ p. LeadsIfDone fs p (existing_prefix fs above >>= λ q. done (q ++ name ∷ [])))
          (sym (reverse-cons name above))
          (through_parent fs (reverse above) name (existing_prefix fs above)
            (subst (λ p. fs p ≡ absent) (reverse-cons name above) e) ih)
    go ih broken e = tt

-- in one of the roots, or below it
abbrev Inside : List PathBuf → PathBuf → Type 0
Inside roots q = (root tail : PathBuf) × (Among root roots × (q ≡ root ++ tail))

in_roots-Inside :
    (roots : List PathBuf) (q : PathBuf)
    → any (λ root. path_eq q root || starts_with q root) roots ≡ true
    → Inside roots q
in_roots-Inside [] q h = absurd (ground arith)
in_roots-Inside (root ∷ roots) q h = elim (Bool-cases (path_eq q root)) [
  | inl same ↦ (root, [], (inl refl, path_eq_sound q root same ∙ sym (append-nil root)))
  | inr other ↦ elim (Bool-cases (starts_with q root)) [
    | inl below ↦ let t = starts_with_sound q root below in (root, t.0, (inl refl, t.1))
    | inr apart ↦
        let rest = in_roots-Inside roots q (ground arith) in
        (rest.0, rest.1, (inr rest.2.0, rest.2.1))
  ]
]

All-Among : (P : PathBuf → Type 0) (l : List PathBuf) (p : PathBuf) → All P l → Among p l → P p
All-Among P [] p a m = absurd m
All-Among P (q ∷ l) p a (inl e) = subst P (sym e) a.0
All-Among P (q ∷ l) p a (inr m) = All-Among P l p a.1 m

-- where one of `given` really is, or below it
pub record Confined (fs : PathBuf → Lookup) (given : List PathBuf) (q : PathBuf) : Type 0 where
  pub root : PathBuf
  pub place : PathBuf
  pub tail : PathBuf
  pub among : Among root given
  pub resolved : fs root ≡ real place
  pub below : q ≡ place ++ tail

Inside-Confined :
    (fs : PathBuf → Lookup) (given roots : List PathBuf) (q : PathBuf)
    → All (RealOf fs given) roots
    → Inside roots q
    → Confined fs given q
Inside-Confined fs given roots q a i =
    let r = All-Among (RealOf fs given) roots i.0 a i.2.0 in
    record { root = r.0; place = i.0; tail = i.1; among = r.1.0; resolved = r.1.1; below = i.2.1 }

new_scope-All :
    (fs : PathBuf → Lookup) (given : List PathBuf) (scope : AppScope)
    → new_scope fs given ≡ done scope
    → All (RealOf fs given) scope.roots
unfolding new_scope
new_scope-All fs given scope e =
    go (real_roots fs [] given) (real_roots-RealIfDone fs given [] given (λ root m. m) tt) e
  where
    go :
        (r : FileResult (List PathBuf))
        → RealIfDone fs given r
        → (r >>= λ found. done (record { roots = found })) ≡ done scope
        → All (RealOf fs given) scope.roots
    go (failed e) h k = ground arith
    go (done found) h k = subst (All (RealOf fs given)) (cc k) h

resolve-cases :
    (fs : PathBuf → Lookup) (scope : AppScope) (q : PathBuf) (r : FileResult PathBuf)
    → (r >>= λ p. if in_scope scope p then done p else failed outside_scope) ≡ done q
    → (r ≡ done q) × (in_scope scope q ≡ true)
resolve-cases fs scope q (failed e) k = ground arith
resolve-cases fs scope q (done p) k = elim (Bool-cases (in_scope scope p)) [
  | inl y ↦ ground arith
  | inr n ↦ ground arith
]

-- A path that a scope resolves is at or below the place where one of the roots that the scope was made of really is;
-- and it is the real place of the path's deepest ancestor for which `canonicalize` has an answer, with the rest of the
-- path as it is written, of which `canonicalize` finds nothing, as it does of a link that leads nowhere.
pub new_scope-resolve :
    (fs : PathBuf → Lookup) (given : List PathBuf) (scope : AppScope) (p q : PathBuf)
    → new_scope fs given ≡ done scope
    → resolve fs scope p ≡ done q
    → Confined fs given q × LeadsTo fs p q
unfolding resolve in_scope
new_scope-resolve fs given scope p q made e =
    let c = resolve-cases fs scope q (existing_prefix fs (reverse p)) e in
    (
      Inside-Confined fs given scope.roots q (new_scope-All fs given scope made)
          (in_roots-Inside scope.roots q c.1),
      subst (λ r. LeadsTo fs r q) (reverse-reverse p)
          (subst (LeadsIfDone fs (reverse (reverse p))) c.0
            (existing_prefix-LeadsTo fs (reverse p))),
    )
