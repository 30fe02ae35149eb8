-- ===== src/Scheduler/Jobs/Replace.antt =====
-- src/daemon/scheduler/jobs.rs: `JobStore::replace_managed`.
use asc_daemon.Prelude.{ℕ, not, Text, List, [], ◌∷◌, ◌++◌, retain, is_empty, trim}
use asc_daemon.Failure.{internal, guard}
use asc_daemon.Scheduler.Job.{Job}
use asc_daemon.Scheduler.Jobs.{
  Op, ◌>>=◌, ◌>>◌, give, lift, lock, load_jobs, save_jobs, load_runs, save_runs,
}
use asc_daemon.Scheduler.Jobs.Managed.{
  is_managed, claim_jobs, stamp_jobs, has_duplicate, dropped_ids, drop_all,
}

unfoldable pub save_dropped : List Text → Op (Unit {0})
unfolding drop_all
save_dropped [] = give tt
save_dropped (id ∷ ids) = load_runs >>= λ runs. save_runs (drop_all (id ∷ ids) runs)

-- the part of `replace_managed` after `load_jobs`
unfoldable pub replace_in : ℕ → Text → List Job → List Job → Op (List Job)
unfolding is_managed stamp_jobs has_duplicate dropped_ids save_dropped
replace_in now by claimed jobs = do
  let managed = retain (is_managed by) jobs
  let kept = retain (λ j. not (is_managed by j)) jobs
  stamped ← lift (stamp_jobs now managed kept claimed)
  lift (guard (not (has_duplicate [] stamped)) internal)
  save_jobs (kept ++ stamped)
  save_dropped (dropped_ids managed stamped)
  give stamped

-- `replace_managed`
unfoldable pub replace_managed : ℕ → Text → List Job → Op (List Job)
unfolding trim claim_jobs replace_in
replace_managed now by incoming = do
  lift (guard (not (is_empty (trim by))) internal)
  claimed ← lift (claim_jobs by incoming)
  lock
  jobs ← load_jobs
  replace_in now by claimed jobs
