-- ===== src/Scheduler/Running.antt =====
-- src/daemon/scheduler/mod.rs: `RUNNING`, `spawn_job` and the tasks that it starts, step by step.
pub mod Single
mod Tests
use asc_daemon.Prelude.{
  ℕ, zero, suc, ◌*◌, ◌/◌, ◌==◌, ◌&&◌, Bool, true, false, not, Option, none, some, Text, List, [],
  ◌∷◌, map, any, retain, text_eq, if◌then◌else◌,
}
use asc_daemon.Failure.{Result, ok, err}
use asc_daemon.Scheduler.Schedule.{Moment, parse_schedule, matches}
use asc_daemon.Scheduler.Job.{Job, RunTrigger, schedule, RunRecord, Outcome}
use asc_daemon.Scheduler.Jobs.{Disk, Faults, list_jobs}
use asc_daemon.Scheduler.Jobs.Same.{option_eq}
use asc_daemon.Scheduler.Jobs.History.{begin_run, finish_run}

-- Where an execution stands: its id is in `RUNNING`; its run is opened, with this id; its run is closed.
pub data Phase : Type 0 where
  claimed : Phase
  executing : (run_id : Text) → Phase
  recorded : Phase

-- a call of `spawn_job` that was not skipped, with the task that it starts
pub record Execution : Type 0 where
  pub job : Job
  pub trigger : RunTrigger
  pub phase : Phase

pub record Daemon : Type 0 where
  pub running : List Text
  pub executions : List Execution
  pub disk : Disk

-- `RUNNING.insert`, and what it returned
unfoldable pub spawn_job : Job → RunTrigger → Daemon → Bool × Daemon
unfolding text_eq
spawn_job job trigger s = if any (λ id. text_eq id job.id) s.running then (false, s) else (
  true,
  record s {
    running = job.id ∷ s.running;
    executions = record { job = job; trigger = trigger; phase = claimed } ∷ s.executions;
  },
)

-- What an execution meets in its next step: the time, the id of a run, the outcome of the job, and errors.
pub record Turn : Type 0 where
  pub now : ℕ
  pub new_id : Text
  pub outcome : Outcome
  pub faults : Faults

-- after `begin_run`: the task, or no execution any more
abbrev pub begun : Execution → Result RunRecord × Disk → Option Execution × Disk
begun e (ok run, d) = (some (record e { phase = executing run.id }), d)
begun e (err error, d) = (none, d)

-- The next step of an execution; it is gone once its id is to be taken out of `RUNNING`.
unfoldable pub next_step : Turn → Execution → Phase → Disk → Option Execution × Disk
unfolding begin_run finish_run
next_step m e claimed d = begun e (begin_run m.now m.new_id e.job.id e.trigger m.faults d)
next_step m e (executing run_id) d = (
  some (record e { phase = recorded }),
  (finish_run m.now e.job.id run_id m.outcome m.faults d).1,
)
next_step m e recorded d = (none, d)

abbrev pub nth : {A : Type 0} → ℕ → List A → Option A
nth n [] = none
nth zero (x ∷ xs) = some x
nth (suc n) (x ∷ xs) = nth n xs

-- the list with another value, or with none, at a place
abbrev pub put_at : {A : Type 0} → ℕ → Option A → List A → List A
put_at n o [] = []
put_at zero none (x ∷ xs) = xs
put_at zero (some y) (x ∷ xs) = y ∷ xs
put_at (suc n) o (x ∷ xs) = x ∷ put_at n o xs

unfoldable pub settle : ℕ → Text → Daemon → Option Execution × Disk → Daemon
unfolding text_eq
settle n id s (some e, d) = record s { executions = put_at n (some e) s.executions; disk = d }
settle n id s (none, d) = record s {
  running = retain (λ x. not (text_eq x id)) s.running;
  executions = put_at n none s.executions;
  disk = d;
}

-- the execution at a place does its next step
unfoldable pub advance : ℕ → Turn → Daemon → Option Execution → Daemon
unfolding next_step settle
advance n m s none = s
advance n m s (some e) = settle n e.job.id s (next_step m e e.phase s.disk)

-- whether an enabled job fires at `now`, the start of a minute; `clock utc` is `Moment::at(_, utc)`
unfoldable pub fires : (Bool → ℕ → Moment) → ℕ → Job → Bool
unfolding matches
fires clock now job =
    job.enabled
    && elim (parse_schedule job.trigger) [ err e ↦ false | ok s ↦ matches s (clock job.utc now) ]

-- the loop of `run_due_jobs`
unfoldable pub spawn_due : (Bool → ℕ → Moment) → ℕ → List Job → Daemon → Daemon
unfolding fires spawn_job
spawn_due clock now [] s = s
spawn_due clock now (job ∷ jobs) s =
    spawn_due clock now jobs (if fires clock now job then (spawn_job job schedule s).1 else s)

abbrev pub with_list : (List Job → Daemon → Daemon) → Daemon → Result (List Job) × Disk → Daemon
with_list k s (ok jobs, d) = k jobs s
with_list k s (err e, d) = s

-- `run_due_jobs`
unfoldable pub run_due_jobs : (Bool → ℕ → Moment) → ℕ → Faults → Daemon → Daemon
unfolding spawn_due list_jobs
run_due_jobs clock now f s = with_list (spawn_due clock now) s (list_jobs f s.disk)

-- one round of the loop of `run`, at a time: the minute that was done last is not done again
unfoldable pub tick : (Bool → ℕ → Moment) → ℕ → Faults → Option ℕ → Daemon → Option ℕ × Daemon
unfolding run_due_jobs
tick clock now f last_stamp s =
    let stamp = now / 60 in
    if option_eq ◌==◌ last_stamp (some stamp)
    then (last_stamp, s)
    else (some stamp, run_due_jobs clock (stamp * 60) f s)

-- What happens next: a call of `spawn_job`, the due jobs of a minute, or a step of one of the executions.
pub data Event : Type 0 where
  call : (job : Job) (trigger : RunTrigger) → Event
  due : (clock : Bool → ℕ → Moment) (now : ℕ) (faults : Faults) → Event
  step : (place : ℕ) (turn : Turn) → Event

unfoldable pub happen : Event → Daemon → Daemon
unfolding spawn_job run_due_jobs advance
happen (call job trigger) s = (spawn_job job trigger s).1
happen (due clock now faults) s = run_due_jobs clock now faults s
happen (step place turn) s = advance place turn s (nth place s.executions)

unfoldable pub happen_all : List Event → Daemon → Daemon
unfolding happen
happen_all [] s = s
happen_all (e ∷ events) s = happen_all events (happen e s)
