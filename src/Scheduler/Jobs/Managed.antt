-- ===== src/Scheduler/Jobs/Managed.antt =====
-- src/daemon/scheduler/jobs.rs: the parts of `JobStore::replace_managed`.
use asc_daemon.Prelude.{
  ℕ, Bool, false, ◌||◌, not, Option, none, some, Text, List, [], ◌∷◌, map, any, retain, text_eq,
  if◌then◌else◌,
}
use asc_daemon.Failure.{Result, ok, internal, guard, ◌>>=◌, ◌>>◌}
use asc_daemon.Scheduler.Job.{Job, validate}
use asc_daemon.Scheduler.Jobs.{Runs, find_job, drop_runs}
use asc_daemon.Scheduler.Jobs.Same.{job_eq, option_eq}

-- `managed_by.as_deref() == Some(by)`
unfoldable pub is_managed : Text → Job → Bool
unfolding text_eq
is_managed by job = option_eq text_eq job.managed_by (some by)

-- the loop that takes the incoming jobs over, and validates them
unfoldable pub claim_jobs : Text → List Job → Result (List Job)
unfolding validate
claim_jobs by [] = ok []
claim_jobs by (j ∷ jobs) =
    let mine : Job = record j { managed_by = some by } in
    let rest = claim_jobs by jobs in validate mine >> (rest >>= λ claimed. ok (mine ∷ claimed))

-- the times of a job that comes in, and that may be there already
unfoldable pub stamp_with : ℕ → Job → Option Job → Job
unfolding job_eq
stamp_with now job none = record job { created_at = now; updated_at = now }
stamp_with now job (some previous) =
    let dated : Job = record job { created_at = previous.created_at } in
    record dated { updated_at = if job_eq previous dated then previous.updated_at else now }

unfoldable pub stamp_job : ℕ → List Job → Job → Job
unfolding find_job stamp_with
stamp_job now managed job = stamp_with now job (find_job job.id managed)

unfoldable pub has_id : Text → List Job → Bool
unfolding text_eq
has_id id jobs = any (λ (j : Job). text_eq j.id id) jobs

-- the loop that refuses ids of the jobs that are kept
unfoldable pub stamp_jobs : ℕ → List Job → List Job → List Job → Result (List Job)
unfolding has_id stamp_job
stamp_jobs now managed kept [] = ok []
stamp_jobs now managed kept (j ∷ jobs) =
    let rest = stamp_jobs now managed kept jobs in
    guard (not (has_id j.id kept)) internal
    >> (rest >>= λ stamped. ok (stamp_job now managed j ∷ stamped))

-- the test for an id that was seen before
unfoldable pub has_duplicate : List Text → List Job → Bool
unfolding text_eq
has_duplicate seen [] = false
has_duplicate seen (j ∷ jobs) = any (text_eq j.id) seen || has_duplicate (j.id ∷ seen) jobs

-- the ids of the managed jobs that are gone
unfoldable pub dropped_ids : List Job → List Job → List Text
unfolding has_id
dropped_ids managed incoming =
    map (λ (m : Job). m.id) (retain (λ (m : Job). not (has_id m.id incoming)) managed)

unfoldable pub drop_all : List Text → Runs → Runs
unfolding drop_runs
drop_all [] runs = runs
drop_all (id ∷ ids) runs = drop_all ids (drop_runs id runs)
