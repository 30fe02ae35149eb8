-- ===== src/Scheduler/Jobs/History.antt =====
-- src/daemon/scheduler/jobs.rs: the runs of `JobStore`.
use asc_daemon.Prelude.{
  ℕ, ◌-◌, min, Option, none, some, Text, List, [], ◌∷◌, ◌++◌, reverse, length, take, drop, text_eq,
  ltb, ◌==◌, if◌then◌else◌,
}
use asc_daemon.Scheduler.Job.{
  running, succeeded, failed, RunTrigger, RunRecord, Outcome, truncate, max_output,
  max_runs_per_job,
}
use asc_daemon.Scheduler.Jobs.{
  Op, ◌>>=◌, ◌>>◌, give, lift, or_missing, lock, load_runs, save_runs, Runs,
}

-- `runs.get(id).unwrap_or_default()`
unfoldable pub runs_in : Text → Runs → List RunRecord
unfolding text_eq
runs_in id [] = []
runs_in id (r ∷ runs) = let rest = runs_in id runs in if text_eq r.0 id then r.1 else rest

-- the entry of the map, made where it is missing
unfoldable pub put_runs : Text → List RunRecord → Runs → Runs
unfolding text_eq
put_runs id list [] = (id, list) ∷ []
put_runs id list (r ∷ runs) =
    let rest = put_runs id list runs in if text_eq r.0 id then (r.0, list) ∷ runs else r ∷ rest

-- `clamp(1, MAX_RUNS_PER_JOB)`
abbrev pub clamp_limit : ℕ → ℕ
clamp_limit limit = if limit == 0 then 1 else min limit max_runs_per_job

-- `runs`
unfoldable pub list_runs : Text → ℕ → Op (List RunRecord)
unfolding runs_in
list_runs id limit = do
  lock
  runs ← load_runs
  give (take (clamp_limit limit) (reverse (runs_in id runs)))

unfoldable pub last : List RunRecord → Option RunRecord
last [] = none
last (r ∷ []) = some r
last (r ∷ s ∷ list) = last (s ∷ list)

unfoldable pub last_of_all : Runs → List (Text × RunRecord)
unfolding last
last_of_all [] = []
last_of_all (r ∷ runs) =
    let rest = last_of_all runs in elim (last r.1) [ none ↦ rest | some run ↦ (r.0, run) ∷ rest ]

-- `last_runs`
unfoldable pub last_runs : Op (List (Text × RunRecord))
unfolding last_of_all
last_runs = do lock; runs ← load_runs; give (last_of_all runs)

-- `push`, and `drain` of the excess
unfoldable pub push_run : RunRecord → List RunRecord → List RunRecord
push_run run list =
    let pushed = list ++ run ∷ [] in
    if ltb max_runs_per_job (length pushed)
    then drop (length pushed - max_runs_per_job) pushed
    else pushed

-- `begin_run`, with the id that `new_id` gives
unfoldable pub begin_run : ℕ → Text → Text → RunTrigger → Op RunRecord
unfolding runs_in put_runs push_run
begin_run now new_id id trigger = do
  let run : RunRecord = record {
    id = new_id;
    trigger = trigger;
    status = running;
    started_at = now;
    finished_at = none;
    error = [];
    output = [];
    http_status = none;
  }
  lock
  runs ← load_runs
  save_runs (put_runs id (push_run run (runs_in id runs)) runs)
  give run

unfoldable pub find_run : Text → List RunRecord → Option RunRecord
unfolding text_eq
find_run id [] = none
find_run id (r ∷ list) = let rest = find_run id list in if text_eq r.id id then some r else rest

unfoldable pub put_run : RunRecord → List RunRecord → List RunRecord
unfolding text_eq
put_run run [] = []
put_run run (r ∷ list) =
    let rest = put_run run list in if text_eq r.id run.id then run ∷ list else r ∷ rest

-- the record of a run that ended
unfoldable pub finished : ℕ → Outcome → RunRecord → RunRecord
unfolding truncate
finished now outcome run = record run {
  status = if outcome.success then succeeded else failed;
  finished_at = some now;
  error = truncate outcome.error max_output;
  output = truncate outcome.output max_output;
  http_status = outcome.http_status;
}

-- `finish_run`
unfoldable pub finish_run : ℕ → Text → Text → Outcome → Op RunRecord
unfolding runs_in put_runs find_run put_run finished
finish_run now id run_id outcome = do
  lock
  runs ← load_runs
  run ← lift (or_missing (find_run run_id (runs_in id runs)))
  save_runs (put_runs id (put_run (finished now outcome run) (runs_in id runs)) runs)
  give (finished now outcome run)
