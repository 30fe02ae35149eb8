-- ===== src/Scheduler/Jobs/Tests.antt =====
-- The job store at work: an operator's job, and jobs that the platform pushes.
use asc_daemon.Prelude.{◌≡◌, refl, true, false, none, List, [], ◌∷◌, codes}
use asc_daemon.Failure.{ok}
use asc_daemon.Scheduler.Job.{Job, node_reboot, app_restart, manual, Outcome, truncate}
use asc_daemon.Scheduler.Job.Truncate.{LongestPrefix, truncate-LongestPrefix}
use asc_daemon.Scheduler.Jobs.{Disk, Faults, upsert}
use asc_daemon.Scheduler.Jobs.Ids.{Distinct}
use asc_daemon.Scheduler.Jobs.Replace.{replace_managed}
use asc_daemon.Scheduler.Jobs.Triple.{Post}
use asc_daemon.Scheduler.Jobs.Sound.{SoundDisk}
use asc_daemon.Scheduler.Jobs.Requests.{
  Request, upsert_job, replace_jobs, begin_job, finish_job, serve_all, serve_all-SoundDisk,
}
use asc_daemon.Scheduler.Jobs.Managing.{AfterReplace, AfterFailure, replace_managed_lem}
use asc_daemon.Scheduler.Jobs.Upserted.{Upserted, upsert_lem}

-- the euro sign has three bytes, so that it does not fit
cut_before_euro : truncate (b'a' ∷ 0x20ac ∷ b'b' ∷ []) 3 ≡ b'a' ∷ []
unfolding truncate
cut_before_euro = refl

truncate-LongestPrefix_example :
    LongestPrefix 3 (b'a' ∷ 0x20ac ∷ b'b' ∷ []) (truncate (b'a' ∷ 0x20ac ∷ b'b' ∷ []) 3)
truncate-LongestPrefix_example = truncate-LongestPrefix (b'a' ∷ 0x20ac ∷ b'b' ∷ []) 3

abbrev reboot : Job
reboot = record {
  id = codes "reboot";
  trigger = codes "04:00";
  utc = false;
  enabled = true;
  comment = [];
  managed_by = none;
  action = node_reboot;
  created_at = 0;
  updated_at = 0;
}

abbrev pushed : Job
pushed = record reboot { id = codes "p1"; action = app_restart (codes "web") }

abbrev no_faults : Faults
no_faults = record {
  lock_fails = false;
  read_jobs_fails = false;
  write_jobs_fails = false;
  read_runs_fails = false;
  write_runs_fails = false;
}

abbrev empty_disk : Disk
empty_disk = record { jobs_file = []; runs_file = [] }

abbrev done : Outcome
done = record { success = true; error = []; output = []; http_status = none }

abbrev calls : List (Request × Faults)
calls =
    (upsert_job 100 reboot, no_faults)
    ∷ (begin_job 160 (codes "r1") (codes "reboot") manual, no_faults)
    ∷ (
      replace_jobs 200 (codes "platform") (pushed ∷ []),
      record no_faults { read_runs_fails = true },
    )
    ∷ (finish_job 260 (codes "reboot") (codes "r1") done, no_faults)
    ∷ []

empty_SoundDisk : SoundDisk empty_disk
unfolding Distinct
empty_SoundDisk = (record { distinct = tt; valid = tt }, tt)

serve_all-SoundDisk_example : SoundDisk (serve_all calls empty_disk)
serve_all-SoundDisk_example = serve_all-SoundDisk calls empty_disk empty_SoundDisk

-- the operator's job is there, with the run of it, and the platform's job
abbrev operator_disk : Disk
operator_disk = record {
  jobs_file = record reboot { created_at = 100; updated_at = 100 } ∷ [];
  runs_file = [];
}

upserted :
    upsert 100 reboot no_faults empty_disk
    ≡ (ok (record reboot { created_at = 100; updated_at = 100 }), operator_disk)
unfolding upsert
upserted = refl

upsert_lem_example :
    Post
      (Upserted 300 (record reboot { enabled = false }) operator_disk)
      (λ after. after ≡ operator_disk)
      (upsert 300 (record reboot { enabled = false }) no_faults operator_disk)
upsert_lem_example = upsert_lem 300 (record reboot { enabled = false }) no_faults operator_disk

replace_managed_lem_example :
    Post
      (AfterReplace 200 (codes "platform") (pushed ∷ []) operator_disk)
      (AfterFailure 200 (codes "platform") (pushed ∷ []) operator_disk)
      (replace_managed 200 (codes "platform") (pushed ∷ []) no_faults operator_disk)
replace_managed_lem_example =
    replace_managed_lem 200 (codes "platform") (pushed ∷ []) no_faults operator_disk
