-- ===== src/Scheduler/Running/Tests.antt =====
-- Two calls for one job at work: the second is skipped while the first goes on, and a third is not.
use asc_daemon.Prelude.{member, Single, ◌≡◌, refl, true, false, not, none, List, [], ◌∷◌, codes}
use asc_daemon.Scheduler.Job.{Job, node_reboot, manual, schedule}
use asc_daemon.Scheduler.Running.{Daemon, Turn, Event, call, step, spawn_job, happen_all}
use asc_daemon.Scheduler.Running.Single.{ids, happen_all-Single}

abbrev reboot : Job
reboot = record {
  id = codes "reboot";
  trigger = codes "04:00";
  utc = false;
  enabled = true;
  comment = [];
  managed_by = none;
  action = node_reboot;
  created_at = 0;
  updated_at = 0;
}

abbrev turn : Turn
turn = record {
  now = 60;
  new_id = codes "r1";
  outcome = record { success = false; error = []; output = []; http_status = none };
  faults = record {
    lock_fails = false;
    read_jobs_fails = false;
    write_jobs_fails = false;
    read_runs_fails = false;
    write_runs_fails = false;
  };
}

abbrev idle : Daemon
idle = record { running = []; executions = []; disk = record { jobs_file = []; runs_file = [] } }

abbrev midway : List Event
midway = call reboot schedule ∷ step 0 turn ∷ call reboot manual ∷ step 0 turn ∷ []

skipped : (spawn_job reboot manual (happen_all midway idle)).0 ≡ false
unfolding spawn_job happen_all
skipped = refl

ended : (happen_all (step 0 turn ∷ []) (happen_all midway idle)).running ≡ []
unfolding happen_all
ended = refl

happen_all-Single_example :
    Single (ids (happen_all midway idle).executions)
    × ((spawn_job reboot manual (happen_all midway idle)).0
        ≡ not (member (codes "reboot") (ids (happen_all midway idle).executions)))
happen_all-Single_example =
    happen_all-Single midway (record { jobs_file = []; runs_file = [] }) reboot manual
