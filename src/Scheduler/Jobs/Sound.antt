-- ===== src/Scheduler/Jobs/Sound.antt =====
-- src/daemon/scheduler/jobs.rs: the jobs that each operation of `JobStore` leaves are valid, with ids of their own.
use mathlib.Core.Path.{subst}
use asc_daemon.Prelude.{
  ℕ, ◌≤◌, ◌≡◌, refl, Bool, true, false, not, Option, none, some, Text, List, [], ◌∷◌, ◌++◌, retain,
  retain-All, All, All-append, text_eq, if_split, arith, length, ◌==◌,
}
use asc_daemon.Failure.{Result, ok, err, internal, guard}
use asc_daemon.Scheduler.Job.{max_runs_per_job, Job, validate, RunRecord}
use asc_daemon.Scheduler.Jobs.{
  Disk, Op, give, Runs, find_job, or_missing, put_job, upsert_into, upsert, remove_runs, remove,
  set_enabled, has_runs, drop_runs,
}
use asc_daemon.Scheduler.Jobs.Same.{option_eq}
use asc_daemon.Scheduler.Jobs.Ids.{
  Distinct, Apart-sym, append-Distinct, put_job-Distinct, retain-Distinct, Found, find_job-Found,
  put_job-All, find_job-none,
}
use asc_daemon.Scheduler.Jobs.Managed.{
  is_managed, claim_jobs, stamp_jobs, has_id, has_duplicate, dropped_ids, drop_all,
}
use asc_daemon.Scheduler.Jobs.Stamped.{
  IsValid, dated_IsValid, switched_IsValid, Taken, stamp_jobs-Taken,
}
use asc_daemon.Scheduler.Jobs.Replace.{save_dropped, replace_in, replace_managed}
use asc_daemon.Scheduler.Jobs.Triple.{
  Triple, Post, Triple-then, Triple-if, give_lem, after_check, after_lift, after_lock,
  after_load_jobs, after_load_runs, after_save_jobs, after_save_runs,
}

pub record Sound (jobs : List Job) : Type 0 where
  pub distinct : Distinct jobs
  pub valid : All IsValid jobs

-- No job has more than 50 runs.
abbrev pub Bounded : Runs → Type 0
Bounded runs = All (λ (r : Text × List RunRecord). length r.1 ≤ max_runs_per_job) runs

abbrev pub SoundDisk : Disk → Type 0
SoundDisk d = Sound d.jobs_file × Bounded d.runs_file

abbrev pub Keeps : {A : Type 0} → Op A → Type 0
Keeps m = Triple SoundDisk (λ _. SoundDisk) SoundDisk m

abbrev SoundIfOk : Result (Job × List Job) → Type 0
SoundIfOk (ok (j, jobs)) = Sound jobs
SoundIfOk (err e) = Unit

upsert_into-Sound :
    (now : ℕ) (job : Job) (jobs : List Job) (o : Option Job)
    → IsValid job
    → Sound jobs
    → find_job job.id jobs ≡ o
    → SoundIfOk (upsert_into now job jobs o)
unfolding upsert_into
upsert_into-Sound now job jobs none v s e =
    let new : Job = record job { updated_at = now; created_at = now } in
    record {
      distinct =
          append-Distinct jobs (new ∷ []) s.distinct (unfold Distinct has_id in (refl, tt))
            (Apart-sym jobs (new ∷ []) (find_job-none job.id jobs e, tt));
      valid = All-append IsValid jobs (new ∷ []) s.valid (dated_IsValid job now now v, tt);
    }
upsert_into-Sound now job jobs (some existing) v s e =
    let new : Job = record job { updated_at = now; created_at = existing.created_at } in
    if_split SoundIfOk (option_eq text_eq existing.managed_by job.managed_by) _ _
      (λ y. record {
        distinct = put_job-Distinct new jobs s.distinct;
        valid = put_job-All IsValid new jobs (dated_IsValid job existing.created_at now v) s.valid;
      })
      λ n. tt

Sound-retain : (p : Job → Bool) (jobs : List Job) → Sound jobs → Sound (retain p jobs)
Sound-retain p jobs s = record {
  distinct = retain-Distinct p jobs s.distinct;
  valid = retain-All IsValid p jobs s.valid;
}

drop_runs-Bounded : (id : Text) (runs : Runs) → Bounded runs → Bounded (drop_runs id runs)
unfolding drop_runs
drop_runs-Bounded id runs b =
    retain-All (λ (r : Text × List RunRecord). length r.1 ≤ max_runs_per_job) _ runs b

or_missing-IsValid :
    (id : Text) (o : Option Job) (j : Job) → Found IsValid id o → or_missing o ≡ ok j → IsValid j
or_missing-IsValid id none j h e = ground arith
or_missing-IsValid id (some k) j h e = subst IsValid (result_value e) h.0
  where
    result_value : ◌≡◌ {A = Result Job} (ok k) (ok j) → k ≡ j
    result_value p = cc p

Sound-append :
    (now : ℕ) (by : Text) (jobs incoming stamped : List Job)
    → Sound jobs
    → Taken now by jobs incoming stamped
    → Sound (retain (λ j. not (is_managed by j)) jobs ++ stamped)
Sound-append now by jobs incoming stamped s t =
    let k = Sound-retain (λ j. not (is_managed by j)) jobs s in
    record {
      distinct = append-Distinct _ stamped k.distinct t.distinct (Apart-sym _ stamped t.apart);
      valid = All-append IsValid _ stamped k.valid t.valid;
    }

drop_all-Bounded : (ids : List Text) (runs : Runs) → Bounded runs → Bounded (drop_all ids runs)
unfolding drop_all
drop_all-Bounded [] runs b = b
drop_all-Bounded (id ∷ ids) runs b =
    drop_all-Bounded ids (drop_runs id runs) (drop_runs-Bounded id runs b)

-- The operations, each from sound files to sound files, whatever fails.
pub keep_lem : {B : Type 0} (b : B) → Keeps (give b)
keep_lem b = give_lem SoundDisk _ SoundDisk b λ d s. s

pub upsert-Keeps : (now : ℕ) (job : Job) → Keeps (upsert now job)
unfolding upsert
upsert-Keeps now job =
    after_check SoundDisk _ SoundDisk (λ d s. s) (validate job) _
      λ v.
        after_lock SoundDisk _ SoundDisk (λ d s. s) _
          (after_load_jobs SoundDisk _ SoundDisk (λ d s. s) _
            λ jobs.
              after_lift _ _ SoundDisk (λ d s. s.0)
                (upsert_into now job jobs (find_job job.id jobs)) _
                λ new e.
                  after_save_jobs _ _ SoundDisk (λ d s. s.0) SoundDisk new.1 _
                    (λ d s. (
                      rw e at (
                          upsert_into-Sound now job jobs (find_job job.id jobs) v (rw s.1 s.0.0)
                            refl),
                      s.0.1,
                    ))
                    (keep_lem new.0))

remove_runs-Keeps : (id : Text) (runs : Runs) → Bounded runs → Keeps (remove_runs id runs)
unfolding remove_runs
remove_runs-Keeps id runs b =
    Triple-if SoundDisk _ SoundDisk (has_runs id runs) _ _
      (λ y.
        after_save_runs SoundDisk _ SoundDisk (λ d s. s) SoundDisk (drop_runs id runs) _
          (λ d s. (s.0, drop_runs-Bounded id runs b)) (keep_lem true))
      λ n. keep_lem true

pub remove-Keeps : (id : Text) → Keeps (remove id)
unfolding remove
remove-Keeps id =
    after_lock SoundDisk _ SoundDisk (λ d s. s) _
      (after_load_jobs SoundDisk _ SoundDisk (λ d s. s) _
        λ jobs.
          let left = retain (λ (j : Job). not (text_eq j.id id)) jobs in
          Triple-if _ _ SoundDisk (length left == length jobs) _ _
            (λ y. give_lem _ _ _ false λ d s. s.0)
            λ n.
              after_save_jobs _ _ SoundDisk (λ d s. s.0) SoundDisk left _
                (λ d s. (Sound-retain _ jobs (rw s.1 s.0.0), s.0.1))
                (after_load_runs SoundDisk _ SoundDisk (λ d s. s) (remove_runs id)
                  λ runs. record {
                    run = λ f d s. (remove_runs-Keeps id runs (rw s.1 s.0.1)).run f d s.0;
                  }))

pub set_enabled-Keeps : (now : ℕ) (id : Text) (enabled : Bool) → Keeps (set_enabled now id enabled)
unfolding set_enabled
set_enabled-Keeps now id enabled =
    after_lock SoundDisk _ SoundDisk (λ d s. s) _
      (after_load_jobs SoundDisk _ SoundDisk (λ d s. s) _
        λ jobs.
          after_lift _ _ SoundDisk (λ d s. s.0) (or_missing (find_job id jobs)) _
            λ job e.
              let new : Job = record job { enabled = enabled; updated_at = now } in
              after_save_jobs _ _ SoundDisk (λ d s. s.0) SoundDisk (put_job new jobs) _
                (λ d s.
                  let was =
                    or_missing-IsValid id (find_job id jobs) job
                      (find_job-Found IsValid id jobs (rw s.1 s.0.0.valid)) e in
                  (
                    record {
                      distinct = put_job-Distinct new jobs (rw s.1 s.0.0.distinct);
                      valid =
                          put_job-All IsValid new jobs (switched_IsValid job enabled now was)
                            (rw s.1 s.0.0.valid);
                    },
                    s.0.1,
                  ))
                (keep_lem new))

save_dropped-Keeps : (ids : List Text) → Keeps (save_dropped ids)
unfolding save_dropped
save_dropped-Keeps [] = keep_lem tt
save_dropped-Keeps (id ∷ ids) =
    after_load_runs SoundDisk _ SoundDisk (λ d s. s) _
      λ runs. record {
        run = λ f d s.
            if_split (Post (λ _. SoundDisk) SoundDisk) f.write_runs_fails _ _ (λ y. s.0)
              λ n. (s.0.0, drop_all-Bounded (id ∷ ids) runs (rw s.1 s.0.1));
      }

pub replace_managed-Keeps :
    (now : ℕ) (by : Text) (incoming : List Job) → Keeps (replace_managed now by incoming)
unfolding replace_managed replace_in
replace_managed-Keeps now by incoming =
    after_check SoundDisk _ SoundDisk (λ d s. s) _ _
      λ some_name.
        after_lift SoundDisk _ SoundDisk (λ d s. s) (claim_jobs by incoming) _
          λ claimed c.
            after_lock SoundDisk _ SoundDisk (λ d s. s) _
              (after_load_jobs SoundDisk _ SoundDisk (λ d s. s) _
                λ jobs.
                  let kept = retain (λ j. not (is_managed by j)) jobs in
                  let managed = retain (is_managed by) jobs in
                  after_lift _ _ SoundDisk (λ d s. s.0) (stamp_jobs now managed kept claimed) _
                    λ stamped t.
                      after_check _ _ SoundDisk (λ d s. s.0)
                        (guard (not (has_duplicate [] stamped)) internal) _
                        λ single.
                          let taken =
                            stamp_jobs-Taken now by jobs incoming claimed stamped c t single in
                          after_save_jobs _ _ SoundDisk (λ d s. s.0) SoundDisk (kept ++ stamped) _
                            (λ d s. (
                              Sound-append now by jobs incoming stamped (rw s.1 s.0.0) taken,
                              s.0.1,
                            ))
                            (Triple-then SoundDisk SoundDisk _ SoundDisk _ _
                              (save_dropped-Keeps (dropped_ids managed stamped))
                              (keep_lem stamped)))
