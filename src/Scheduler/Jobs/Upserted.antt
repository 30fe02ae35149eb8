-- ===== src/Scheduler/Jobs/Upserted.antt =====
-- src/daemon/scheduler/jobs.rs: what `JobStore::upsert` does to the two files.
use asc_daemon.Prelude.{
  ℕ, ◌≡◌, refl, sym, ap, inl, inr, Bool, true, Option, none, some, Text, List, [], ◌∷◌, ◌++◌,
  text_eq, text_eq_sound, text_eq_refl, text_eq_sym, if◌then◌else◌, if_split, arith, Bool-cases,
}
use asc_daemon.Failure.{Result, ok, err}
use asc_daemon.Scheduler.Job.{Job, validate}
use asc_daemon.Scheduler.Jobs.{Disk, Faults, find_job, put_job, upsert_into, upsert}
use asc_daemon.Scheduler.Jobs.Same.{option_eq}
use asc_daemon.Scheduler.Jobs.Triple.{
  Triple, Post, give_lem, after_check, after_lift, after_lock, after_load_jobs_at, after_save_jobs,
}

find_job-append :
    (id : Text) (jobs : List Job) (new : Job)
    → find_job new.id jobs ≡ none
    → find_job id (jobs ++ new ∷ []) ≡ (if text_eq new.id id then some new else find_job id jobs)
unfolding find_job
find_job-append id [] new e = refl
find_job-append id (j ∷ jobs) new e = ground (
  arith,
  find_job-append id jobs new,
  text_eq_sound new.id id,
  text_eq_sound j.id id,
  text_eq_refl id,
)

find_job-put_job :
    (id : Text) (jobs : List Job) (new existing : Job)
    → find_job new.id jobs ≡ some existing
    → find_job id (put_job new jobs) ≡ (if text_eq new.id id then some new else find_job id jobs)
unfolding find_job put_job
find_job-put_job id [] new existing e = ground arith
find_job-put_job id (j ∷ jobs) new existing e = elim (Bool-cases (text_eq j.id new.id)) [
  | inl y ↦ rw y (ground (arith, text_eq_sound j.id new.id y))
  | inr n ↦ rw n (
      ground (
        arith,
        find_job-put_job id jobs new existing (ground arith),
        text_eq_sound new.id id,
        text_eq_sound j.id id,
        text_eq_refl id,
        text_eq_sym j.id new.id,
      ))
]

-- the time of creation, and whether the job is of the same manager
abbrev pub created : ℕ → Option Job → ℕ
created now none = now
created now (some existing) = existing.created_at

abbrev pub same_manager : Job → Option Job → Bool
same_manager job none = true
same_manager job (some existing) = option_eq text_eq existing.managed_by job.managed_by

-- The job that is put in the place of the one with its id.
pub record Upserted (now : ℕ) (job : Job) (before : Disk) (new : Job) (after : Disk) : Type 0 where
  pub fields :
      new
      ≡ record job { updated_at = now; created_at = created now (find_job job.id before.jobs_file) }
  pub owned : same_manager job (find_job job.id before.jobs_file) ≡ true
  pub lookup :
      (id : Text)
      → find_job id after.jobs_file
        ≡ (if text_eq job.id id then some new else find_job id before.jobs_file)
  pub runs : after.runs_file ≡ before.runs_file

record Into (now : ℕ) (job : Job) (jobs : List Job) (o : Option Job) (r : Job × List Job)
    : Type 0 where
  fields : r.0 ≡ record job { updated_at = now; created_at = created now o }
  owned : same_manager job o ≡ true
  lookup :
      (id : Text) → find_job id r.1 ≡ (if text_eq job.id id then some r.0 else find_job id jobs)

IntoIfOk :
    (now : ℕ) (job : Job) (jobs : List Job) (o : Option Job) → Result (Job × List Job) → Type 0
IntoIfOk now job jobs o (ok r) = Into now job jobs o r
IntoIfOk now job jobs o (err e) = Unit

upsert_into-Into :
    (now : ℕ) (job : Job) (jobs : List Job) (o : Option Job)
    → find_job job.id jobs ≡ o
    → IntoIfOk now job jobs o (upsert_into now job jobs o)
unfolding upsert_into IntoIfOk
upsert_into-Into now job jobs none e = record {
  fields = refl;
  owned = refl;
  lookup = λ id. find_job-append id jobs (record job { updated_at = now; created_at = now }) e;
}
upsert_into-Into now job jobs (some existing) e =
    if_split (IntoIfOk now job jobs (some existing))
      (option_eq text_eq existing.managed_by job.managed_by) _ _
      (λ y. record {
        fields = refl;
        owned = y;
        lookup = λ id.
            find_job-put_job id jobs
              (record job { updated_at = now; created_at = existing.created_at }) existing e;
      })
      λ n. tt

IntoIfOk-Into :
    (now : ℕ) (job : Job) (jobs : List Job) (o : Option Job) (new : Job × List Job)
    → IntoIfOk now job jobs o (ok new)
    → Into now job jobs o new
unfolding IntoIfOk
IntoIfOk-Into now job jobs o new i = i

module _ (now : ℕ) (job : Job) (before : Disk) where
  abbrev Start : Disk → Type 0
  Start d = d ≡ before

  upsert_Triple : Triple Start (Upserted now job before) Start (upsert now job)
  unfolding upsert
  upsert_Triple =
      let jobs = before.jobs_file in
      after_check Start _ Start (λ d s. s) (validate job) _
        λ v.
          after_lock Start _ Start (λ d s. s) _
            (after_load_jobs_at Start _ Start (λ d s. s) jobs _
              (λ d s. ap (λ (d : Disk). d.jobs_file) (sym s))
              (after_lift Start _ Start (λ d s. s) (upsert_into now job jobs (find_job job.id jobs))
                _
                λ new e.
                  let i =
                    IntoIfOk-Into now job jobs (find_job job.id jobs) new
                      (rw e at (upsert_into-Into now job jobs (find_job job.id jobs) refl)) in
                  after_save_jobs Start _ Start (λ d s. s) (Upserted now job before new.0) new.1 _
                    (λ d s. record {
                      fields = i.fields;
                      owned = i.owned;
                      lookup = i.lookup;
                      runs = ap (λ (d : Disk). d.runs_file) s;
                    })
                    (give_lem _ _ _ new.0 λ d s. s)))

-- Where `upsert` succeeds, the store has the job under its id from then on, with the time of the call and with the
-- time of creation of the job that had the id before, if there was one, which has the same manager; under every other id it has what it had, and
-- the histories stay. Where it fails, nothing is written.
pub upsert_lem :
    (now : ℕ) (job : Job) (f : Faults) (d : Disk)
    → Post (Upserted now job d) (λ after. after ≡ d) (upsert now job f d)
upsert_lem now job f d = (upsert_Triple now job d).run f d refl
