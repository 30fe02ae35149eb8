-- ===== src/Scheduler/Jobs/Requests.antt =====
-- src/daemon/scheduler/jobs.rs: any sequence of operations on the job store.
use asc_daemon.Prelude.{
  ℕ, zero, suc, ◌-◌, ◌≤◌, ◌≡◌, refl, Bool, Text, List, [], ◌∷◌, ◌++◌, length, drop, text_eq, ltb,
  if_split, arith,
}
use asc_daemon.Failure.{Result, ok, err}
use asc_daemon.Scheduler.Job.{max_runs_per_job, Job, RunTrigger, RunRecord, Outcome}
use asc_daemon.Scheduler.Jobs.{Disk, Faults, Op, Runs, or_missing, upsert, remove, set_enabled}
use asc_daemon.Scheduler.Jobs.Replace.{replace_managed}
use asc_daemon.Scheduler.Jobs.History.{
  runs_in, put_runs, push_run, begin_run, find_run, put_run, finished, finish_run,
}
use asc_daemon.Scheduler.Jobs.Triple.{
  Post, after_lift, after_lock, after_load_runs, after_save_runs,
}
use asc_daemon.Scheduler.Jobs.Sound.{
  Bounded, SoundDisk, Keeps, keep_lem, upsert-Keeps, remove-Keeps, set_enabled-Keeps,
  replace_managed-Keeps,
}

length-drop : (n : ℕ) (xs : List RunRecord) → length (drop n xs) ≡ length xs - n
length-drop zero xs = omega arith
length-drop (suc n) [] = omega arith
length-drop (suc n) (x ∷ xs) = omega (arith, length-drop n xs)

length-push_run :
    (run : RunRecord) (list : List RunRecord) → length (push_run run list) ≤ max_runs_per_job
unfolding push_run
length-push_run run list =
    let pushed = list ++ run ∷ [] in
    if_split (λ (l : List RunRecord). length l ≤ max_runs_per_job)
      (ltb max_runs_per_job (length pushed)) _ _
      (λ y. omega (arith, length-drop (length pushed - max_runs_per_job) pushed)) λ n. ground arith

length-put_run : (run : RunRecord) (list : List RunRecord) → length (put_run run list) ≡ length list
unfolding put_run
length-put_run run [] = refl
length-put_run run (r ∷ list) =
    if_split (λ (l : List RunRecord). length l ≡ suc (length list)) (text_eq r.id run.id) _ _
      (λ y. refl) λ n. omega (arith, length-put_run run list)

runs_in-Bounded :
    (id : Text) (runs : Runs) → Bounded runs → length (runs_in id runs) ≤ max_runs_per_job
unfolding runs_in
runs_in-Bounded id [] b = omega arith
runs_in-Bounded id (r ∷ runs) b =
    if_split (λ (l : List RunRecord). length l ≤ max_runs_per_job) (text_eq r.0 id) _ _ (λ y. b.0)
      λ n. runs_in-Bounded id runs b.1

put_runs-Bounded :
    (id : Text) (list : List RunRecord) (runs : Runs)
    → length list ≤ max_runs_per_job
    → Bounded runs
    → Bounded (put_runs id list runs)
unfolding put_runs
put_runs-Bounded id list [] short b = (short, tt)
put_runs-Bounded id list (r ∷ runs) short b =
    if_split Bounded (text_eq r.0 id) _ _ (λ y. (short, b.1))
      λ n. (b.0, put_runs-Bounded id list runs short b.1)

begin_run-Keeps :
    (now : ℕ) (new_id id : Text) (trigger : RunTrigger) → Keeps (begin_run now new_id id trigger)
unfolding begin_run
begin_run-Keeps now new_id id trigger =
    after_lock SoundDisk _ SoundDisk (λ d s. s) _
      (after_load_runs SoundDisk _ SoundDisk (λ d s. s) _
        λ runs.
          after_save_runs _ _ SoundDisk (λ d s. s.0) SoundDisk _ _
            (λ d s. (
              s.0.0,
              put_runs-Bounded id _ runs (length-push_run _ (runs_in id runs)) (rw s.1 s.0.1),
            ))
            (keep_lem _))

finish_run-Keeps :
    (now : ℕ) (id run_id : Text) (outcome : Outcome) → Keeps (finish_run now id run_id outcome)
unfolding finish_run
finish_run-Keeps now id run_id outcome =
    after_lock SoundDisk _ SoundDisk (λ d s. s) _
      (after_load_runs SoundDisk _ SoundDisk (λ d s. s) _
        λ runs.
          after_lift _ _ SoundDisk (λ d s. s.0) (or_missing (find_run run_id (runs_in id runs))) _
            λ run e.
              after_save_runs _ _ SoundDisk (λ d s. s.0) SoundDisk _ _
                (λ d s. (
                  s.0.0,
                  put_runs-Bounded id (put_run (finished now outcome run) (runs_in id runs)) runs
                      (omega (
                        arith,
                        length-put_run (finished now outcome run) (runs_in id runs),
                        runs_in-Bounded id runs (rw s.1 s.0.1),
                      ))
                      (rw s.1 s.0.1),
                ))
                (keep_lem _))

-- A call of the store, with the time and the id that it finds.
pub data Request : Type 0 where
  upsert_job : (now : ℕ) (job : Job) → Request
  remove_job : (id : Text) → Request
  enable_job : (now : ℕ) (id : Text) (enabled : Bool) → Request
  replace_jobs : (now : ℕ) (by : Text) (incoming : List Job) → Request
  begin_job : (now : ℕ) (new_id id : Text) (trigger : RunTrigger) → Request
  finish_job : (now : ℕ) (id run_id : Text) (outcome : Outcome) → Request

-- The files after a call, which `f` disturbs. The lock makes one call follow another.
unfoldable pub serve : Request → Faults → Disk → Disk
unfolding upsert remove set_enabled replace_managed begin_run finish_run
serve (upsert_job now job) f d = (upsert now job f d).1
serve (remove_job id) f d = (remove id f d).1
serve (enable_job now id enabled) f d = (set_enabled now id enabled f d).1
serve (replace_jobs now by incoming) f d = (replace_managed now by incoming f d).1
serve (begin_job now new_id id trigger) f d = (begin_run now new_id id trigger f d).1
serve (finish_job now id run_id outcome) f d = (finish_run now id run_id outcome f d).1

unfoldable pub serve_all : List (Request × Faults) → Disk → Disk
unfolding serve
serve_all [] d = d
serve_all (r ∷ rest) d = serve_all rest (serve r.0 r.1 d)

kept_disk :
    {A : Type 0} (m : Op A) → Keeps m → (f : Faults) (d : Disk) → SoundDisk d → SoundDisk (m f d).1
kept_disk {A} m k f d s = go (m f d) (k.run f d s)
  where
    go : (r : Result A × Disk) → Post (λ _. SoundDisk) SoundDisk r → SoundDisk r.1
    go (ok a, d) h = h
    go (err e, d) h = h

serve-SoundDisk : (r : Request) (f : Faults) (d : Disk) → SoundDisk d → SoundDisk (serve r f d)
unfolding serve
serve-SoundDisk (upsert_job now job) = kept_disk _ (upsert-Keeps now job)
serve-SoundDisk (remove_job id) = kept_disk _ (remove-Keeps id)
serve-SoundDisk (enable_job now id enabled) = kept_disk _ (set_enabled-Keeps now id enabled)
serve-SoundDisk (replace_jobs now by incoming) = kept_disk _ (replace_managed-Keeps now by incoming)
serve-SoundDisk (begin_job now new_id id trigger) =
    kept_disk _ (begin_run-Keeps now new_id id trigger)
serve-SoundDisk (finish_job now id run_id outcome) =
    kept_disk _ (finish_run-Keeps now id run_id outcome)

-- After any sequence of calls of the store, of which any call of the file system may have failed, all jobs are valid
-- and have ids of their own, and no job has more than 50 runs, where that was so before.
pub serve_all-SoundDisk :
    (calls : List (Request × Faults)) (d : Disk) → SoundDisk d → SoundDisk (serve_all calls d)
unfolding serve_all
serve_all-SoundDisk [] d s = s
serve_all-SoundDisk (c ∷ calls) d s =
    serve_all-SoundDisk calls (serve c.0 c.1 d) (serve-SoundDisk c.0 c.1 d s)
