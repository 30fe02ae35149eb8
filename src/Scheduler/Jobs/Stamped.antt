-- ===== src/Scheduler/Jobs/Stamped.antt =====
-- src/daemon/scheduler/jobs.rs: the jobs that `JobStore::replace_managed` takes over.
use asc_daemon.Prelude.{
  ℕ, ◌≡◌, refl, ap, ◌∙◌, Bool, true, false, not, Option, none, some, Text, List, [], ◌∷◌, map,
  retain, All, text_eq_refl, arith,
}
use asc_daemon.Failure.{ok, internal, guard, Holds, Holds-bind, Holds-guard, Holds-check}
use asc_daemon.Scheduler.Job.{Job, validate}
use asc_daemon.Scheduler.Jobs.{find_job}
use asc_daemon.Scheduler.Jobs.Ids.{Apart, Distinct, has_duplicate-Distinct}
use asc_daemon.Scheduler.Jobs.Managed.{
  claim_jobs, is_managed, stamp_with, stamp_job, stamp_jobs, has_id, has_duplicate,
}

abbrev pub IsValid : Job → Type 0
IsValid j = validate j ≡ ok tt

-- validity does not depend on the times
pub dated_IsValid :
    (j : Job) (created updated : ℕ)
    → IsValid j
    → IsValid (record j { created_at = created; updated_at = updated })
unfolding validate
dated_IsValid j created updated v = v

pub switched_IsValid :
    (j : Job) (enabled : Bool) (updated : ℕ)
    → IsValid j
    → IsValid (record j { enabled = enabled; updated_at = updated })
unfolding validate
switched_IsValid j enabled updated v = v

abbrev pub claimed_by : Text → Job → Job
claimed_by by j = record j { managed_by = some by }

claim_jobs-All :
    (by : Text) (jobs : List Job)
    → Holds
        (λ claimed. (claimed ≡ map (claimed_by by) jobs) × All IsValid claimed)
        (claim_jobs by jobs)
unfolding claim_jobs
claim_jobs-All by [] = (refl, tt)
claim_jobs-All by (j ∷ jobs) =
    let mine = claimed_by by j in
    Holds-check _ (validate mine) _ λ v.
      Holds-bind (λ claimed. (claimed ≡ map (claimed_by by) jobs) × All IsValid claimed) _
        (claim_jobs by jobs) _ (claim_jobs-All by jobs)
        λ claimed h. (ap (λ l. mine ∷ l) h.0, (v, h.1))

stamp_jobs-Apart :
    (now : ℕ) (managed kept jobs : List Job)
    → Holds
        (λ stamped. (stamped ≡ map (stamp_job now managed) jobs) × Apart jobs kept)
        (stamp_jobs now managed kept jobs)
unfolding stamp_jobs
stamp_jobs-Apart now managed kept [] = (refl, tt)
stamp_jobs-Apart now managed kept (j ∷ jobs) =
    Holds-guard _ (not (has_id j.id kept)) internal _ λ n.
      Holds-bind (λ stamped. (stamped ≡ map (stamp_job now managed) jobs) × Apart jobs kept) _
        (stamp_jobs now managed kept jobs) _ (stamp_jobs-Apart now managed kept jobs)
        λ stamped h. (ap (λ l. stamp_job now managed j ∷ l) h.0, (ground arith, h.1))

-- The times are set, and nothing else.
pub stamp_with-fields :
    (now : ℕ) (j : Job) (o : Option Job)
    → (created updated : ℕ) × (stamp_with now j o
        ≡ record j { created_at = created; updated_at = updated })
unfolding stamp_with
stamp_with-fields now j none = (now, now, refl)
stamp_with-fields now j (some previous) = (previous.created_at, _, refl)

stamp_job-All :
    (P : Job → Type 0)
    → ((j : Job) (created updated : ℕ)
        → P j
        → P (record j { created_at = created; updated_at = updated }))
    → (now : ℕ) (managed jobs : List Job) → All P jobs
    → All P (map (stamp_job now managed) jobs)
unfolding stamp_job
stamp_job-All P keeps now managed [] a = tt
stamp_job-All P keeps now managed (j ∷ jobs) a =
    let s = stamp_with-fields now j (find_job j.id managed) in
    (rw s.2 (keeps j s.0 s.1 a.0), stamp_job-All P keeps now managed jobs a.1)

dated_managed :
    (by : Text) (j : Job) (created updated : ℕ)
    → is_managed by j ≡ true
    → is_managed by (record j { created_at = created; updated_at = updated }) ≡ true
unfolding is_managed
dated_managed by j created updated h = h

claimed_by-All :
    (by : Text) (jobs : List Job)
    → All (λ (j : Job). is_managed by j ≡ true) (map (claimed_by by) jobs)
unfolding is_managed
claimed_by-All by [] = tt
claimed_by-All by (j ∷ jobs) = (text_eq_refl by, claimed_by-All by jobs)

-- What is known of the jobs that `replace_managed` puts behind those it keeps.
pub record Taken (now : ℕ) (by : Text) (jobs incoming stamped : List Job) : Type 0 where
  pub from_incoming :
      stamped ≡ map (stamp_job now (retain (is_managed by) jobs)) (map (claimed_by by) incoming)
  pub valid : All IsValid stamped
  pub managed : All (λ (j : Job). is_managed by j ≡ true) stamped
  pub apart : Apart stamped (retain (λ j. not (is_managed by j)) jobs)
  pub distinct : Distinct stamped

pub stamp_jobs-Taken :
    (now : ℕ) (by : Text) (jobs incoming claimed stamped : List Job)
    → claim_jobs by incoming ≡ ok claimed
    → stamp_jobs now
        (retain (is_managed by) jobs)
        (retain (λ j. not (is_managed by j)) jobs)
        claimed
      ≡ ok stamped
    → guard (not (has_duplicate [] stamped)) internal ≡ ok tt
    → Taken now by jobs incoming stamped
stamp_jobs-Taken now by jobs incoming claimed stamped c t g =
    let mine = retain (is_managed by) jobs in
    let kept = retain (λ j. not (is_managed by j)) jobs in
    let taken = rw c at (claim_jobs-All by incoming) in
    let put = rw t at (stamp_jobs-Apart now mine kept claimed) in
    record {
      from_incoming = put.0 ∙ ap (map (stamp_job now mine)) taken.0;
      valid = rw put.0 (stamp_job-All IsValid dated_IsValid now mine claimed taken.1);
      managed = rw put.0 (
          stamp_job-All _ (dated_managed by) now mine claimed
            (rw taken.0 (claimed_by-All by incoming)));
      apart = rw put.0 (stamp_job-All _ (λ j created updated h. h) now mine claimed put.1);
      distinct = has_duplicate-Distinct [] stamped (go (has_duplicate [] stamped) g);
    }
  where
    go : (b : Bool) → guard (not b) internal ≡ ok tt → b ≡ false
    go true e = ground arith
    go false e = refl
