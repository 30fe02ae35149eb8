-- ===== src/Scheduler/Jobs/CameFrom.antt =====
-- src/daemon/scheduler/jobs.rs: the jobs of `JobStore::replace_managed`, by the jobs that came in and those before.
use asc_daemon.Prelude.{
  ℕ, ◌≢◌, ◌≡◌, refl, ap, Bool, true, false, Option, none, some, Text, List, [], ◌∷◌, map, retain,
  Among, inl, inr, ◌⊎◌, text_eq, text_eq_sound, text_eq_refl, if◌then◌else◌,
}
use asc_daemon.Scheduler.Job.{Job}
use asc_daemon.Scheduler.Jobs.{find_job}
use asc_daemon.Scheduler.Jobs.Managed.{is_managed, stamp_with, stamp_job}
use asc_daemon.Scheduler.Jobs.Stamped.{claimed_by}
use asc_daemon.Scheduler.Jobs.Histories.{NotOf}

abbrev pub Pairwise : {A B : Type 0} → (A → B → Type 0) → List A → List B → Type 0
Pairwise R [] [] = Unit
Pairwise R (a ∷ l) (b ∷ m) = R a b × Pairwise R l m
Pairwise R [] (b ∷ m) = ⊥
Pairwise R (a ∷ l) [] = ⊥

-- `k` is `j`, as managed by `by`, with the time of creation of the job of `by` that had its id, or that of the call
-- where there was none.
pub record CameFrom (now : ℕ) (by : Text) (before : List Job) (j k : Job) : Type 0 where
  pub same :
      k ≡ record j { managed_by = some by; created_at = k.created_at; updated_at = k.updated_at }
  pub created :
      (NotOf by j.id before × (k.created_at ≡ now))
      ⊎ ((p : Job) × Among p before
          × (is_managed by p ≡ true)
          × (p.id ≡ j.id)
          × (k.created_at ≡ p.created_at))

-- what `find_job` finds
Found : Text → Text → List Job → Option Job → Type 0
Found by id before none = NotOf by id before
Found by id before (some p) = Among p before × (is_managed by p ≡ true) × (p.id ≡ id)

Found-cons :
    (by id : Text) (i : Job) (before : List Job) (o : Option Job)
    → (is_managed by i ≡ true → i.id ≢ id)
    → Found by id before o
    → Found by id (i ∷ before) o
unfolding Found
Found-cons by id i before none n f = (n, f)
Found-cons by id i before (some p) n f = (inr f.0, f.1, f.2)

find_job-Found :
    (by id : Text) (before : List Job)
    → Found by id before (find_job id (retain (is_managed by) before))
unfolding Found find_job
find_job-Found by id [] = tt
find_job-Found by id (i ∷ before) =
    go (is_managed by i) refl (text_eq i.id id) refl (find_job-Found by id before)
  where
    go :
        (b : Bool)
        → is_managed by i ≡ b
        → (t : Bool) → text_eq i.id id ≡ t
        → Found by id before (find_job id (retain (is_managed by) before))
        → Found by id (i ∷ before) (
            find_job id
              (if b then i ∷ retain (is_managed by) before else retain (is_managed by) before))
    go true y true e f = rw e (inl refl, y, text_eq_sound i.id id e)
    go true y false e f = rw e (
        Found-cons by id i before (find_job id (retain (is_managed by) before))
          (λ h same. let t = text_eq_refl id in cc (e, ap (λ t. text_eq t id) same, t)) f)
    go false n t e f =
        Found-cons by id i before (find_job id (retain (is_managed by) before))
          (λ h same. cc (h, n)) f

stamp_with-CameFrom :
    (now : ℕ) (by : Text) (before : List Job) (j : Job) (o : Option Job)
    → Found by j.id before o
    → CameFrom now by before j (stamp_with now (claimed_by by j) o)
unfolding Found stamp_with
stamp_with-CameFrom now by before j none f = record { same = refl; created = inl (f, refl) }
stamp_with-CameFrom now by before j (some p) f = record {
  same = refl;
  created = inr (p, f.0, f.1, f.2, refl);
}

pub stamped-CameFrom :
    (now : ℕ) (by : Text) (before incoming : List Job)
    → Pairwise
        (CameFrom now by before)
        incoming
        (map (stamp_job now (retain (is_managed by) before)) (map (claimed_by by) incoming))
unfolding stamp_job
stamped-CameFrom now by before [] = tt
stamped-CameFrom now by before (j ∷ incoming) = (
  stamp_with-CameFrom now by before j (find_job j.id (retain (is_managed by) before))
      (find_job-Found by j.id before),
  stamped-CameFrom now by before incoming,
)
