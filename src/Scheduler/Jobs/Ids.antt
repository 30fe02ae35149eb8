-- ===== src/Scheduler/Jobs/Ids.antt =====
-- src/daemon/scheduler/jobs.rs: lists of jobs by their ids.
use asc_daemon.Prelude.{
  ◌≡◌, refl, ◌∙◌, Bool, true, false, Option, none, some, Text, List, [], ◌∷◌, ◌++◌, any, retain,
  All, text_eq, text_eq_sound, text_eq_refl, text_eq_sym, if_split, arith,
}
use asc_daemon.Scheduler.Job.{Job}
use asc_daemon.Scheduler.Jobs.{find_job, put_job}
use asc_daemon.Scheduler.Jobs.Managed.{has_id, has_duplicate}

-- No two jobs have one id.
unfoldable pub Distinct : List Job → Type 0
unfolding has_id
Distinct [] = Unit
Distinct (j ∷ jobs) = (has_id j.id jobs ≡ false) × Distinct jobs

pub has_id-append :
    (id : Text) (a b : List Job)
    → has_id id a ≡ false
    → has_id id b ≡ false
    → has_id id (a ++ b) ≡ false
unfolding has_id
has_id-append id [] b h k = k
has_id-append id (j ∷ a) b h k = ground (arith, has_id-append id a b (ground arith) k)

pub has_id-retain :
    (id : Text) (p : Job → Bool) (jobs : List Job)
    → has_id id jobs ≡ false
    → has_id id (retain p jobs) ≡ false
unfolding has_id
has_id-retain id p [] h = refl
has_id-retain id p (j ∷ jobs) h =
    let rest = has_id-retain id p jobs (ground arith) in
    if_split (λ l. has_id id l ≡ false) (p j) _ _ (λ y. ground arith) λ n. rest

pub has_id-put_job :
    (id : Text) (job : Job) (jobs : List Job) → has_id id (put_job job jobs) ≡ has_id id jobs
unfolding has_id put_job
has_id-put_job id job [] = refl
has_id-put_job id job (j ∷ jobs) =
    if_split (λ l. has_id id l ≡ has_id id (j ∷ jobs)) (text_eq j.id job.id) _ _
      (λ y. ground (arith, text_eq_sound j.id job.id))
      λ n. ground (arith, has_id-put_job id job jobs)

pub retain-Distinct : (p : Job → Bool) (jobs : List Job) → Distinct jobs → Distinct (retain p jobs)
unfolding Distinct
retain-Distinct p [] d = tt
retain-Distinct p (j ∷ jobs) d =
    let rest = retain-Distinct p jobs d.1 in
    if_split Distinct (p j) _ _ (λ y. (has_id-retain j.id p jobs d.0, rest)) λ n. rest

pub put_job-Distinct : (job : Job) (jobs : List Job) → Distinct jobs → Distinct (put_job job jobs)
unfolding Distinct put_job
put_job-Distinct job [] d = tt
put_job-Distinct job (j ∷ jobs) d =
    let rest = put_job-Distinct job jobs d.1 in
    if_split Distinct (text_eq j.id job.id) _ _ (λ y. (rw (← text_eq_sound j.id job.id y) d.0, d.1))
      λ n. (has_id-put_job j.id job jobs ∙ d.0, rest)

pub append-Distinct :
    (a b : List Job)
    → Distinct a
    → Distinct b
    → All (λ (j : Job). has_id j.id b ≡ false) a
    → Distinct (a ++ b)
unfolding Distinct
append-Distinct [] b da db apart = db
append-Distinct (j ∷ a) b da db apart =
    (has_id-append j.id a b da.0 apart.0, append-Distinct a b da.1 db apart.1)

-- no job of `a` has the id of one of `b`
abbrev pub Apart : List Job → List Job → Type 0
Apart a b = All (λ (j : Job). has_id j.id b ≡ false) a

Apart-cons : (a b : List Job) (job : Job) → has_id job.id a ≡ false → Apart a b → Apart a (job ∷ b)
unfolding has_id
Apart-cons [] b job h k = tt
Apart-cons (j ∷ a) b job h k =
    (ground (arith, k.0, text_eq_sym j.id job.id), Apart-cons a b job (ground arith) k.1)

Apart-nil : (a : List Job) → Apart a []
unfolding has_id
Apart-nil [] = tt
Apart-nil (j ∷ a) = (refl, Apart-nil a)

pub Apart-sym : (a b : List Job) → Apart b a → Apart a b
Apart-sym a [] h = Apart-nil a
Apart-sym a (j ∷ b) h = Apart-cons a b j h.0 (Apart-sym a b h.1)

-- what is found, and where nothing is
pub find_job-none : (id : Text) (jobs : List Job) → find_job id jobs ≡ none → has_id id jobs ≡ false
unfolding find_job has_id
find_job-none id [] e = refl
find_job-none id (j ∷ jobs) e = ground (arith, find_job-none id jobs)

abbrev pub Found : (Job → Type 0) → Text → Option Job → Type 0
Found P id none = Unit
Found P id (some j) = P j × (j.id ≡ id)

pub find_job-Found :
    (P : Job → Type 0) (id : Text) (jobs : List Job) → All P jobs → Found P id (find_job id jobs)
unfolding find_job
find_job-Found P id [] a = tt
find_job-Found P id (j ∷ jobs) a =
    let rest = find_job-Found P id jobs a.1 in
    if_split (Found P id) (text_eq j.id id) _ _ (λ y. (a.0, text_eq_sound j.id id y)) λ n. rest

pub put_job-All :
    (P : Job → Type 0) (job : Job) (jobs : List Job) → P job → All P jobs → All P (put_job job jobs)
unfolding put_job
put_job-All P job [] new a = tt
put_job-All P job (j ∷ jobs) new a =
    let rest = put_job-All P job jobs new a.1 in
    if_split (All P) (text_eq j.id job.id) _ _ (λ y. (new, a.1)) λ n. (a.0, rest)

-- an id that was seen does not come again
has_duplicate-seen :
    (seen : List Text) (jobs : List Job) (id : Text)
    → has_duplicate seen jobs ≡ false
    → any (text_eq id) seen ≡ true
    → has_id id jobs ≡ false
unfolding has_duplicate has_id
has_duplicate-seen seen [] id h k = refl
has_duplicate-seen seen (j ∷ jobs) id h k =
    ground (arith, has_duplicate-seen (j.id ∷ seen) jobs id, text_eq_sound j.id id)

pub has_duplicate-Distinct :
    (seen : List Text) (jobs : List Job) → has_duplicate seen jobs ≡ false → Distinct jobs
unfolding has_duplicate Distinct
has_duplicate-Distinct seen [] h = tt
has_duplicate-Distinct seen (j ∷ jobs) h = (
  has_duplicate-seen (j.id ∷ seen) jobs j.id (ground arith) (ground (arith, text_eq_refl j.id)),
  has_duplicate-Distinct (j.id ∷ seen) jobs (ground arith),
)
