-- ===== src/Scheduler/Jobs/Triple.antt =====
-- src/daemon/scheduler/jobs.rs: what an operation on the two files leaves, and what it returns.
use mathlib.Core.Path.{subst}
use asc_daemon.Prelude.{Bool, true, false, List, ◌≡◌, refl, if◌then◌else◌, if_split}
use asc_daemon.Failure.{Result, ok, err}
use asc_daemon.Scheduler.Job.{Job}
use asc_daemon.Scheduler.Jobs.{
  Disk, Faults, Op, and_then, ◌>>=◌, ◌>>◌, give, lift, failing, lock, load_jobs, save_jobs,
  load_runs, save_runs, Runs,
}

-- `Q` of a value and of the files with it, `E` of the files after an error
abbrev pub Post : {A : Type 0} → (A → Disk → Type 0) → (Disk → Type 0) → Result A × Disk → Type 0
Post Q E (ok a, d) = Q a d
Post Q E (err e, d) = E d

pub record Triple {A : Type 0} (P : Disk → Type 0) (Q : A → Disk → Type 0) (E : Disk → Type 0)
    (m : Op A) : Type 0 where
  pub run : (f : Faults) (d : Disk) → P d → Post Q E (m f d)

abbrev pub Entails : (Disk → Type 0) → (Disk → Type 0) → Type 0
Entails P Q = (d : Disk) → P d → Q d

pub Triple-then :
    {B : Type 0} (P Q : Disk → Type 0) (R : B → Disk → Type 0) (E : Disk → Type 0)
    (m : Op (Unit {0})) (k : Op B)
    → Triple P (λ _. Q) E m
    → Triple Q R E k
    → Triple P R E (m >> k)
Triple-then P Q R E m k first next = record { run = λ f d p. go f (m f d) (first.run f d p) }
  where
    go :
        (f : Faults) (r : Result (Unit {0}) × Disk)
        → Post (λ _. Q) E r
        → Post R E (and_then r λ _. k f)
    go f (ok u, d) q = next.run f d q
    go f (err e, d) q = q

pub give_lem :
    {A : Type 0} (P : Disk → Type 0) (Q : A → Disk → Type 0) (E : Disk → Type 0) (a : A)
    → Entails P (Q a)
    → Triple P Q E (give a)
give_lem P Q E a h = record { run = λ f d p. h d p }

-- a conditional
pub Triple-if :
    {A : Type 0} (P : Disk → Type 0) (Q : A → Disk → Type 0) (E : Disk → Type 0) (b : Bool)
    (m n : Op A)
    → (b ≡ true → Triple P Q E m)
    → (b ≡ false → Triple P Q E n)
    → Triple P Q E (if b then m else n)
Triple-if P Q E true m n then_m else_n = then_m refl
Triple-if P Q E false m n then_m else_n = else_n refl

-- The first step of an operation, before the rest of it.
module _ {B : Type 0} (P : Disk → Type 0) (R : B → Disk → Type 0) (E : Disk → Type 0)
    (out : Entails P E) where
  pub after_lift :
      {A : Type 0} (r : Result A) (k : A → Op B)
      → ((a : A) → r ≡ ok a → Triple P R E (k a))
      → Triple P R E (lift r >>= k)
  after_lift (ok a) k next = record { run = λ f d p. (next a refl).run f d p }
  after_lift (err e) k next = record { run = λ f d p. out d p }

  pub after_check :
      (r : Result (Unit {0})) (m : Op B) → (r ≡ ok tt → Triple P R E m) → Triple P R E (lift r >> m)
  after_check (ok a) m next = record { run = λ f d p. (next refl).run f d p }
  after_check (err e) m next = record { run = λ f d p. out d p }

  pub after_lock : (m : Op B) → Triple P R E m → Triple P R E (lock >> m)
  after_lock m next = record { run = λ f d p. go f d p f.lock_fails }
    where
      go : (f : Faults) (d : Disk) → P d → (b : Bool) → Post R E ((failing b >> m) f d)
      go f d p true = out d p
      go f d p false = next.run f d p

  pub after_load_jobs :
      (k : List Job → Op B)
      → ((jobs : List Job) → Triple (λ d. P d × (jobs ≡ d.jobs_file)) R E (k jobs))
      → Triple P R E (load_jobs >>= k)
  after_load_jobs k next = record {
    run = λ f d p.
        if_split (λ r. Post R E (and_then r λ a. k a f)) f.read_jobs_fails _ _ (λ y. out d p)
          λ n. (next d.jobs_file).run f d (p, refl);
  }

  -- where the file is known
  pub after_load_jobs_at :
      (jobs : List Job) (k : List Job → Op B)
      → ((d : Disk) → P d → jobs ≡ d.jobs_file)
      → Triple P R E (k jobs)
      → Triple P R E (load_jobs >>= k)
  after_load_jobs_at jobs k known next = record {
    run = λ f d p.
        if_split (λ r. Post R E (and_then r λ a. k a f)) f.read_jobs_fails _ _ (λ y. out d p)
          λ n. subst (λ l. Post R E (k l f d)) (known d p) (next.run f d p);
  }

  pub after_load_runs :
      (k : Runs → Op B)
      → ((runs : Runs) → Triple (λ d. P d × (runs ≡ d.runs_file)) R E (k runs))
      → Triple P R E (load_runs >>= k)
  after_load_runs k next = record {
    run = λ f d p.
        if_split (λ r. Post R E (and_then r λ a. k a f)) f.read_runs_fails _ _ (λ y. out d p)
          λ n. (next d.runs_file).run f d (p, refl);
  }

  pub after_save_jobs :
      (Q : Disk → Type 0) (jobs : List Job) (m : Op B)
      → ((d : Disk) → P d → Q (record d { jobs_file = jobs }))
      → Triple Q R E m
      → Triple P R E (save_jobs jobs >> m)
  after_save_jobs Q jobs m to next = record {
    run = λ f d p.
        if_split (λ r. Post R E (and_then r λ a. m f)) f.write_jobs_fails _ _ (λ y. out d p)
          λ n. next.run f (record d { jobs_file = jobs }) (to d p);
  }

  pub after_save_runs :
      (Q : Disk → Type 0) (runs : Runs) (m : Op B)
      → ((d : Disk) → P d → Q (record d { runs_file = runs }))
      → Triple Q R E m
      → Triple P R E (save_runs runs >> m)
  after_save_runs Q runs m to next = record {
    run = λ f d p.
        if_split (λ r. Post R E (and_then r λ a. m f)) f.write_runs_fails _ _ (λ y. out d p)
          λ n. next.run f (record d { runs_file = runs }) (to d p);
  }
