-- ===== src/Scheduler/Jobs.antt =====
-- src/daemon/scheduler/jobs.rs: `JobStore`, the two files of a daemon's jobs and of their runs. A file is replaced
-- whole by a rename, so a write that fails leaves the file as it was.
pub mod Same
pub mod Managed
pub mod Replace
pub mod History
pub mod Triple
pub mod Ids
pub mod Stamped
pub mod Sound
pub mod Requests
pub mod Histories
pub mod CameFrom
pub mod Managing
pub mod Upserted
mod Tests
use asc_daemon.Prelude.{
  ℕ, zero, suc, ◌+◌, ◌-◌, min, Bool, true, false, ◌&&◌, ◌||◌, not, Option, none, some, Text, List,
  [], ◌∷◌, ◌++◌, map, reverse, any, retain, length, text_eq, is_empty, trim, ltb, leb, ◌==◌,
  if◌then◌else◌,
}
use asc_daemon.Failure.{Result, ok, err, internal, guard}
use asc_daemon.Scheduler.Job.{
  Job, validate, RunStatus, running, succeeded, failed, RunTrigger, RunRecord, Outcome, truncate,
  max_output, max_runs_per_job,
}
use asc_daemon.Scheduler.Jobs.Same.{job_eq, option_eq}

-- `RunsFile`: the runs of each job, by its id
abbrev pub Runs : Type 0
Runs = List (Text × List RunRecord)

pub record Disk : Type 0 where
  pub jobs_file : List Job
  pub runs_file : Runs

-- which calls of the file system fail, in one operation; a file that is not to be parsed is one that cannot be read
pub record Faults : Type 0 where
  pub lock_fails : Bool
  pub read_jobs_fails : Bool
  pub write_jobs_fails : Bool
  pub read_runs_fails : Bool
  pub write_runs_fails : Bool

-- an operation on the files: what it returns, and what it leaves
abbrev pub Op : Type 0 → Type 0
Op A = Faults → Disk → Result A × Disk

abbrev pub and_then :
    {A B : Type 0} → Result A × Disk → (A → Disk → Result B × Disk) → Result B × Disk
and_then (ok a, d) k = k a d
and_then (err e, d) k = (err e, d)

infixl 5 ◌>>=◌ ◌>>◌
abbrev pub ◌>>=◌ : {A B : Type 0} → Op A → (A → Op B) → Op B
(m >>= k) f d = and_then (m f d) λ a. k a f

abbrev pub ◌>>◌ : {B : Type 0} → Op (Unit {0}) → Op B → Op B
(m >> k) f d = and_then (m f d) λ _. k f

abbrev pub give : {A : Type 0} → A → Op A
give a f d = (ok a, d)

abbrev pub lift : {A : Type 0} → Result A → Op A
lift r f d = (r, d)

-- `with_context` on an `Option`
abbrev pub or_missing : {A : Type 0} → Option A → Result A
or_missing none = err internal
or_missing (some a) = ok a

abbrev pub failing : Bool → Op (Unit {0})
failing fails f d = (guard (not fails) internal, d)

abbrev pub lock : Op (Unit {0})
lock f = failing f.lock_fails f

-- `load_jobs`, `save_jobs`, and the same of the runs
abbrev pub load_jobs : Op (List Job)
load_jobs f d = if f.read_jobs_fails then (err internal, d) else (ok d.jobs_file, d)

abbrev pub save_jobs : List Job → Op (Unit {0})
save_jobs jobs f d =
    if f.write_jobs_fails then (err internal, d) else (ok tt, record d { jobs_file = jobs })

abbrev pub load_runs : Op Runs
load_runs f d = if f.read_runs_fails then (err internal, d) else (ok d.runs_file, d)

abbrev pub save_runs : Runs → Op (Unit {0})
save_runs runs f d =
    if f.write_runs_fails then (err internal, d) else (ok tt, record d { runs_file = runs })

-- `iter().find(|j| j.id == id)`
unfoldable pub find_job : Text → List Job → Option Job
unfolding text_eq
find_job id [] = none
find_job id (j ∷ jobs) = let rest = find_job id jobs in if text_eq j.id id then some j else rest

-- `*iter_mut().find(…) = job`
unfoldable pub put_job : Job → List Job → List Job
unfolding text_eq
put_job job [] = []
put_job job (j ∷ jobs) =
    let rest = put_job job jobs in if text_eq j.id job.id then job ∷ jobs else j ∷ rest

-- `list`, `get`
unfoldable pub list_jobs : Op (List Job)
list_jobs = lock >> load_jobs

unfoldable pub get_job : Text → Op (Option Job)
unfolding list_jobs find_job
get_job id = do jobs ← list_jobs; give (find_job id jobs)

-- the job as `upsert` keeps it, and the list with it
unfoldable pub upsert_into : ℕ → Job → List Job → Option Job → Result (Job × List Job)
unfolding put_job text_eq
upsert_into now job jobs none =
    let new : Job = record job { updated_at = now; created_at = now } in ok (new, jobs ++ new ∷ [])
upsert_into now job jobs (some existing) =
    let new : Job = record job { updated_at = now; created_at = existing.created_at } in
    if option_eq text_eq existing.managed_by job.managed_by
    then ok (new, put_job new jobs)
    else err internal

-- `upsert`
unfoldable pub upsert : ℕ → Job → Op Job
unfolding validate find_job upsert_into
upsert now job = do
  lift (validate job)
  lock
  jobs ← load_jobs
  (new, all) ← lift (upsert_into now job jobs (find_job job.id jobs))
  save_jobs all
  give new

unfoldable pub has_runs : Text → Runs → Bool
unfolding text_eq
has_runs id runs = any (λ (r : Text × List RunRecord). text_eq r.0 id) runs

-- `runs.remove(id)`
unfoldable pub drop_runs : Text → Runs → Runs
unfolding text_eq
drop_runs id runs = retain (λ (r : Text × List RunRecord). not (text_eq r.0 id)) runs

unfoldable pub remove_runs : Text → Runs → Op Bool
unfolding has_runs drop_runs
remove_runs id runs =
    if has_runs id runs then save_runs (drop_runs id runs) >> give true else give true

-- `remove`
unfoldable pub remove : Text → Op Bool
unfolding text_eq remove_runs
remove id = do
  lock
  jobs ← load_jobs
  let left = retain (λ (j : Job). not (text_eq j.id id)) jobs
  if length left == length jobs
      then give false
      else save_jobs left >> (load_runs >>= remove_runs id)

-- `set_enabled`
unfoldable pub set_enabled : ℕ → Text → Bool → Op Job
unfolding find_job put_job
set_enabled now id enabled = do
  lock
  jobs ← load_jobs
  job ← lift (or_missing (find_job id jobs))
  let updated : Job = record job { enabled = enabled; updated_at = now }
  save_jobs (put_job updated jobs)
  give updated
