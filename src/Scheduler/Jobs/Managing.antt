-- ===== src/Scheduler/Jobs/Managing.antt =====
-- src/daemon/scheduler/jobs.rs: what `JobStore::replace_managed` does to the two files.
use mathlib.Core.Path.{subst}
use asc_daemon.Prelude.{
  ℕ, ◌≡◌, refl, sym, ap, ◌∙◌, ◌⊎◌, inl, inr, Bool, true, false, not, is_empty, trim, Text, List, [],
  ◌∷◌, ◌++◌, retain, All, if_split, arith,
}
use asc_daemon.Failure.{ok, internal, guard}
use asc_daemon.Scheduler.Job.{Job}
use asc_daemon.Scheduler.Jobs.{Disk, Faults}
use asc_daemon.Scheduler.Jobs.Managed.{
  is_managed, claim_jobs, stamp_jobs, has_duplicate, dropped_ids, drop_all,
}
use asc_daemon.Scheduler.Jobs.Replace.{save_dropped, replace_in, replace_managed}
use asc_daemon.Scheduler.Jobs.Stamped.{Taken, stamp_jobs-Taken}
use asc_daemon.Scheduler.Jobs.Histories.{Histories, drop_all-Histories}
use asc_daemon.Scheduler.Jobs.CameFrom.{Pairwise, CameFrom, stamped-CameFrom}
use asc_daemon.Scheduler.Jobs.Triple.{
  Triple, Post, Triple-then, give_lem, after_check, after_lift, after_lock, after_load_jobs_at,
  after_load_runs, after_save_jobs,
}

module _ (p : Job → Bool) where
  -- those with `p` from behind those without
  retain_back :
      (jobs back : List Job)
      → All (λ j. p j ≡ true) back
      → retain p (retain (λ j. not (p j)) jobs ++ back) ≡ back
  retain_back [] [] a = refl
  retain_back [] (j ∷ back) a = rw a.0 (ap (λ l. j ∷ l) (retain_back [] back a.1))
  retain_back (j ∷ jobs) back a =
      if_split (λ l. retain p (l ++ back) ≡ back) (not (p j)) _ _
        (λ n. let e : p j ≡ false = ground arith in rw e (retain_back jobs back a))
        λ y. retain_back jobs back a

  retain_front :
      (jobs back : List Job)
      → All (λ j. p j ≡ true) back
      → retain (λ j. not (p j)) (retain (λ j. not (p j)) jobs ++ back)
        ≡ retain (λ j. not (p j)) jobs
  retain_front [] [] a = refl
  retain_front [] (j ∷ back) a = rw a.0 (retain_front [] back a.1)
  retain_front (j ∷ jobs) back a =
      if_split (λ l. retain (λ j. not (p j)) (l ++ back) ≡ l) (not (p j)) _ _
        (λ n.
          let e : p j ≡ false = ground arith in rw e (ap (λ l. j ∷ l) (retain_front jobs back a)))
        λ y. retain_front jobs back a

-- Jobs of other managers are as they were, in their order, and those of `by` are `stamped`.
pub record Replaced (now : ℕ) (by : Text) (incoming : List Job) (before after : Disk)
    (stamped : List Job) : Type 0 where
  pub others :
      retain (λ j. not (is_managed by j)) after.jobs_file
      ≡ retain (λ j. not (is_managed by j)) before.jobs_file
  pub managed : retain (is_managed by) after.jobs_file ≡ stamped
  pub taken : Taken now by before.jobs_file incoming stamped
  pub came_from : Pairwise (CameFrom now by before.jobs_file) incoming stamped

-- the histories of the managed jobs that are gone
abbrev dropped_from : Text → Disk → List Job → List Text
dropped_from by before stamped = dropped_ids (retain (is_managed by) before.jobs_file) stamped

abbrev pub AfterReplace : ℕ → Text → List Job → Disk → List Job → Disk → Type 0
AfterReplace now by incoming before stamped after =
    Replaced now by incoming before after stamped
    × Histories by before.jobs_file stamped before.runs_file after.runs_file

-- nothing was written, or all but the histories
abbrev pub AfterFailure : ℕ → Text → List Job → Disk → Disk → Type 0
AfterFailure now by incoming before after =
    (after ≡ before)
    ⊎ ((stamped : List Job) × Replaced now by incoming before after stamped
        × (after.runs_file ≡ before.runs_file))

module _ (now : ℕ) (by : Text) (incoming : List Job) (before : Disk) where
  abbrev Start : Disk → Type 0
  Start d = d ≡ before

  abbrev Saved : List Job → Disk → Type 0
  Saved stamped d = Replaced now by incoming before d stamped × (d.runs_file ≡ before.runs_file)

  abbrev Failed : Disk → Type 0
  Failed = AfterFailure now by incoming before

  save_dropped_lem :
      (stamped : List Job)
      → Triple
          (Saved stamped)
          (λ (_ : Unit {0}) d.
            Replaced now by incoming before d stamped
            × (d.runs_file ≡ drop_all (dropped_from by before stamped) before.runs_file))
          Failed
          (save_dropped (dropped_from by before stamped))
  unfolding save_dropped drop_all
  save_dropped_lem stamped = go (dropped_from by before stamped)
    where
      go :
          (ids : List Text)
          → Triple
              (Saved stamped)
              (λ (_ : Unit {0}) d.
                Replaced now by incoming before d stamped
                × (d.runs_file ≡ drop_all ids before.runs_file))
              Failed
              (save_dropped ids)
      go [] = give_lem _ _ _ tt λ d s. s
      go (id ∷ ids) =
          after_load_runs (Saved stamped) _ Failed (λ d s. inr (stamped, s.0, s.1)) _
            λ runs. record {
              run = λ f d s.
                  if_split
                    (Post
                      (λ (_ : Unit {0}) d.
                        Replaced now by incoming before d stamped
                        × (d.runs_file ≡ drop_all (id ∷ ids) before.runs_file))
                      Failed)
                    f.write_runs_fails _ _ (λ y. inr (stamped, s.0.0, s.0.1))
                    λ n. (
                      record {
                        others = s.0.0.others;
                        managed = s.0.0.managed;
                        taken = s.0.0.taken;
                        came_from = s.0.0.came_from;
                      },
                      ap (drop_all (id ∷ ids)) (s.1 ∙ s.0.1),
                    );
            }

  save_lem :
      (stamped : List Job)
      → Taken now by before.jobs_file incoming stamped
      → (d : Disk) → Start d
      → Saved stamped
          (record d { jobs_file = retain (λ j. not (is_managed by j)) before.jobs_file ++ stamped })
  save_lem stamped t d s = (
    record {
      others = retain_front (is_managed by) before.jobs_file stamped t.managed;
      managed = retain_back (is_managed by) before.jobs_file stamped t.managed;
      taken = t;
      came_from =
          subst (Pairwise (CameFrom now by before.jobs_file) incoming) (sym t.from_incoming)
            (stamped-CameFrom now by before.jobs_file incoming);
    },
    ap (λ (d : Disk). d.runs_file) s,
  )

  replace_in_Triple :
      (claimed : List Job)
      → claim_jobs by incoming ≡ ok claimed
      → Triple Start
          (AfterReplace now by incoming before)
          Failed
          (replace_in now by claimed before.jobs_file)
  unfolding replace_in
  replace_in_Triple claimed c =
      let kept = retain (λ j. not (is_managed by j)) before.jobs_file in
      let managed = retain (is_managed by) before.jobs_file in
      after_lift Start _ Failed (λ d s. inl s) (stamp_jobs now managed kept claimed) _
        λ stamped t.
          after_check Start _ Failed (λ d s. inl s)
            (guard (not (has_duplicate [] stamped)) internal) _
            λ single.
              after_save_jobs Start _ Failed (λ d s. inl s) (Saved stamped) (kept ++ stamped) _
                (save_lem stamped
                  (stamp_jobs-Taken now by before.jobs_file incoming claimed stamped c t single))
                (Triple-then _ _ _ Failed _ _ (save_dropped_lem stamped) (
                  give_lem _ _ _ stamped λ d s. (
                    s.0,
                    drop_all-Histories by stamped before.jobs_file before.runs_file d.runs_file s.1,
                  )))

  replace_managed_Triple :
      Triple Start (AfterReplace now by incoming before) Failed (replace_managed now by incoming)
  unfolding replace_managed
  replace_managed_Triple =
      after_check Start _ Failed (λ d s. inl s) (guard (not (is_empty (trim by))) internal) _
        λ some_name.
          after_lift Start _ Failed (λ d s. inl s) (claim_jobs by incoming) _
            λ claimed c.
              after_lock Start _ Failed (λ d s. inl s) _
                (after_load_jobs_at Start _ Failed (λ d s. inl s) before.jobs_file
                  (replace_in now by claimed) (λ d s. ap (λ (d : Disk). d.jobs_file) (sym s))
                  (replace_in_Triple claimed c))

-- When `replace_managed` succeeds, it returns the incoming jobs, valid, with ids of their own that no job of another
-- manager has, as managed by the caller, each with the time of creation of the caller's job that had its id, if there
-- was one, and that of the call otherwise; they are the caller's jobs from then on, the jobs of others stay as they
-- are, in their order. The history of a job of the caller is gone if no job that came in has its id; the histories of
-- the jobs that came in, and those under ids that no job of the caller had, stay. When it fails, either nothing was
-- written, or only the histories were not.
pub replace_managed_lem :
    (now : ℕ) (by : Text) (incoming : List Job) (f : Faults) (d : Disk)
    → Post
        (AfterReplace now by incoming d)
        (AfterFailure now by incoming d)
        (replace_managed now by incoming f d)
replace_managed_lem now by incoming f d = (replace_managed_Triple now by incoming d).run f d refl
