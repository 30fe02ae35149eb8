-- ===== src/Scheduler/Running/Single.antt =====
-- src/daemon/scheduler/mod.rs: a job is executed once at a time, whatever the order of the steps.
use mathlib.Core.Option.{some-injective}
use asc_daemon.Prelude.{
  ℕ, zero, suc, ◌≡◌, refl, sym, ap, ◌∙◌, Bool, true, ◌&&◌, ◌||◌, not, Option, none, some, Text,
  List, [], ◌∷◌, map, retain, text_eq, text_eq_sound, text_eq_refl, member, Single, if◌then◌else◌,
  if_split, arith,
}
use asc_daemon.Failure.{Result, ok, err}
use asc_daemon.Scheduler.Schedule.{Moment}
use asc_daemon.Scheduler.Job.{Job, RunTrigger, schedule, RunRecord}
use asc_daemon.Scheduler.Jobs.{Disk, Faults, list_jobs}
use asc_daemon.Scheduler.Jobs.History.{begin_run}
use asc_daemon.Scheduler.Running.{
  Phase, claimed, executing, recorded, begun, Execution, Daemon, Turn, spawn_job, next_step, nth,
  put_at, settle, advance, Event, call, due, step, fires, spawn_due, with_list, run_due_jobs,
  happen, happen_all,
}

abbrev pub ids : List Execution → List Text
ids = map (λ (e : Execution). e.job.id)

-- Each execution is of a job of its own, and the ids in `RUNNING` are those of the executions.
pub record Exact (s : Daemon) : Type 0 where
  pub single : Single (ids s.executions)
  pub same : (id : Text) → member id s.running ≡ member id (ids s.executions)

member-retain :
    (id x : Text) (l : List Text)
    → member id (retain (λ y. not (text_eq y x)) l) ≡ (member id l && not (text_eq x id))
member-retain id x [] = refl
member-retain id x (y ∷ l) = ground (
  arith,
  member-retain id x l,
  text_eq_sound y x,
  text_eq_sound y id,
  text_eq_sound x id,
  text_eq_refl x,
)

same_id : (x e : Execution) → ◌≡◌ {A = Option Execution} (some x) (some e) → x.job.id ≡ e.job.id
same_id x e h = ap (λ (y : Execution). y.job.id) (some-injective x e h)

nth-member :
    (n : ℕ) (l : List Execution) (e : Execution) → nth n l ≡ some e → member e.job.id (ids l) ≡ true
nth-member n [] e h = ground arith
nth-member zero (x ∷ l) e h = ground (arith, same_id x e h, text_eq_refl e.job.id)
nth-member (suc n) (x ∷ l) e h = ground (arith, nth-member n l e h)

member-put_at :
    (id : Text) (n : ℕ) (l : List Execution) (e : Execution)
    → nth n l ≡ some e
    → Single (ids l)
    → member id (ids (put_at n none l)) ≡ (member id (ids l) && not (text_eq e.job.id id))
member-put_at id n [] e h s = ground arith
member-put_at id zero (x ∷ l) e h s =
    ground (arith, same_id x e h, s.0, text_eq_sound x.job.id id, text_eq_sound e.job.id id)
member-put_at id (suc n) (x ∷ l) e h s = ground (
  arith,
  member-put_at id n l e h s.1,
  nth-member n l e h,
  s.0,
  text_eq_sound x.job.id id,
  text_eq_sound e.job.id id,
)

put_at-Single :
    (n : ℕ) (l : List Execution) (e : Execution)
    → nth n l ≡ some e
    → Single (ids l)
    → Single (ids (put_at n none l))
put_at-Single n [] e h s = tt
put_at-Single zero (x ∷ l) e h s = s.1
put_at-Single (suc n) (x ∷ l) e h s =
    (ground (arith, member-put_at x.job.id n l e h s.1, s.0), put_at-Single n l e h s.1)

-- a step that does not end an execution leaves the ids as they are
ids-put_at :
    (n : ℕ) (l : List Execution) (e f : Execution)
    → nth n l ≡ some e
    → f.job ≡ e.job
    → ids (put_at n (some f) l) ≡ ids l
ids-put_at n [] e f h j = refl
ids-put_at zero (x ∷ l) e f h j =
    ap (λ id. id ∷ ids l) (ap (λ (k : Job). k.id) j ∙ sym (same_id x e h))
ids-put_at (suc n) (x ∷ l) e f h j = ap (λ l. x.job.id ∷ l) (ids-put_at n l e f h j)

-- A step keeps the job.
SameJob : Execution → Option Execution × Disk → Type 0
SameJob e (some f, d) = f.job ≡ e.job
SameJob e (none, d) = Unit

next_step-SameJob :
    (m : Turn) (e : Execution) (p : Phase) (d : Disk) → SameJob e (next_step m e p d)
unfolding next_step SameJob
next_step-SameJob m e claimed d = go (begin_run m.now m.new_id e.job.id e.trigger m.faults d)
  where
    go : (r : Result RunRecord × Disk) → SameJob e (begun e r)
    go (ok run, d) = refl
    go (err error, d) = tt
next_step-SameJob m e (executing run_id) d = refl
next_step-SameJob m e recorded d = tt

settle-Exact :
    (n : ℕ) (s : Daemon) (e : Execution) (r : Option Execution × Disk)
    → nth n s.executions ≡ some e
    → SameJob e r
    → Exact s
    → Exact (settle n e.job.id s r)
unfolding settle SameJob
settle-Exact n s e (some f, d) h j x =
    let i = ids-put_at n s.executions e f h j in
    record { single = rw i x.single; same = λ id. x.same id ∙ rw i refl }
settle-Exact n s e (none, d) h j x = record {
  single = put_at-Single n s.executions e h x.single;
  same = λ id.
      member-retain id e.job.id s.running
      ∙ rw (x.same id) (sym (member-put_at id n s.executions e h x.single));
}

advance-Exact :
    (n : ℕ) (m : Turn) (s : Daemon) (o : Option Execution)
    → nth n s.executions ≡ o
    → Exact s
    → Exact (advance n m s o)
unfolding advance
advance-Exact n m s none h x = x
advance-Exact n m s (some e) h x =
    settle-Exact n s e (next_step m e e.phase s.disk) h (next_step-SameJob m e e.phase s.disk) x

spawn_job-Exact :
    (job : Job) (trigger : RunTrigger) (s : Daemon) → Exact s → Exact (spawn_job job trigger s).1
unfolding spawn_job
spawn_job-Exact job trigger s x =
    if_split {A = Bool × Daemon} (λ r. Exact r.1) (member job.id s.running) _ _ (λ y. x)
      λ n. record {
        single = (sym (x.same job.id) ∙ n, x.single);
        same = λ id. ap (λ b. text_eq job.id id || b) (x.same id);
      }

spawn_due-Exact :
    (clock : Bool → ℕ → Moment) (now : ℕ) (jobs : List Job) (s : Daemon)
    → Exact s
    → Exact (spawn_due clock now jobs s)
unfolding spawn_due
spawn_due-Exact clock now [] s x = x
spawn_due-Exact clock now (job ∷ jobs) s x =
    spawn_due-Exact clock now jobs (if fires clock now job then (spawn_job job schedule s).1 else s)
      (if_split Exact (fires clock now job) _ _ (λ y. spawn_job-Exact job schedule s x) λ n. x)

run_due_jobs-Exact :
    (clock : Bool → ℕ → Moment) (now : ℕ) (f : Faults) (s : Daemon)
    → Exact s
    → Exact (run_due_jobs clock now f s)
unfolding run_due_jobs
run_due_jobs-Exact clock now f s x = go (list_jobs f s.disk)
  where
    go : (r : Result (List Job) × Disk) → Exact (with_list (spawn_due clock now) s r)
    go (ok jobs, d) = spawn_due-Exact clock now jobs s x
    go (err e, d) = x

happen-Exact : (e : Event) (s : Daemon) → Exact s → Exact (happen e s)
unfolding happen
happen-Exact (call job trigger) s x = spawn_job-Exact job trigger s x
happen-Exact (due clock now f) s x = run_due_jobs-Exact clock now f s x
happen-Exact (step place m) s x = advance-Exact place m s (nth place s.executions) refl x

happen_all-Exact : (events : List Event) (s : Daemon) → Exact s → Exact (happen_all events s)
unfolding happen_all
happen_all-Exact [] s x = x
happen_all-Exact (e ∷ events) s x = happen_all-Exact events (happen e s) (happen-Exact e s x)

-- Whatever calls and steps happen, in whatever order and with whatever errors, from a daemon that executes nothing:
-- no two executions are of jobs with one id; and a job is started by a call exactly
-- when none of its executions goes on.
pub happen_all-Single :
    (events : List Event) (d : Disk) (job : Job) (trigger : RunTrigger)
    → let s = happen_all events (record { running = []; executions = []; disk = d }) in
      Single (ids s.executions)
      × ((spawn_job job trigger s).0 ≡ not (member job.id (ids s.executions)))
unfolding spawn_job
happen_all-Single events d job trigger =
    let s = happen_all events (record { running = []; executions = []; disk = d }) in
    let x =
      happen_all-Exact events (record { running = []; executions = []; disk = d })
        (record { single = tt; same = λ id. refl }) in
    (x.single, ground (arith, x.same job.id))
