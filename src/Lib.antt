-- ===== src/Lib.antt =====
-- Verification of asc-daemon, the server administration daemon of AdminServiceCloud.
--
-- The development models eight of the daemon's own parts: the firewall manager (src/daemon/firewall),
-- the scheduler with its jobs (src/daemon/scheduler), the choice of the files of a backup and the names of archives
-- (src/daemon/backup), the paths and scopes of the file manager (src/daemon/files), the console
-- that clients share (src/daemon/console/hub.rs), the interfaces and addresses of WireGuard with
-- their configuration files (src/daemon/wireguard/model.rs and conf.rs), the tokens of the API (src/daemon/api/tokens.rs),
-- and the migration of the directory of an app (src/daemon/apps/layout.rs). A scheduled job carries the patterns of a backup, which it checks.
--
-- The firewall manager keeps what the administrator wants in state.json, puts it in the kernel with
-- `nft -f`, and, where a window is asked for, waits for a confirmation: until then pending.json holds
-- the change with the script that takes it back, and a timer thread runs that script at the deadline.
--   Firewall/Model, Firewall/Model/Choices, Firewall/Ports   model.rs: settings, rules, sets and their
--                    validation; a `Result` is the `Result` of Rust with the class of the error
--                    (Failure, src/daemon/exec.rs)
--   Net              `Net` and `parse_net` of model.rs
--   Firewall/Presets, Firewall/Render   `presets` of host.rs, and render.rs: the table as text
--   Firewall/Host    the world that a method finds under the manager's lock (files, kernel, timers,
--                    clock), and `Op`, a method as a function of it; the record `Host` has what is
--                    not code of the repository or only calls it: nft, systemctl, the clock, the
--                    competing firewall managers
--   Firewall/Files   load_state … clear_pending of mod.rs, persist.rs, and the two scripts of render.rs
--   Firewall/Edit    update_settings … remove_entry and normalize_entries of mod.rs
--   Firewall/Apply, Firewall/Apply/Parts   apply, apply_raw, submit, commit_parts, rollback_for and
--                    overview_locked of mod.rs
--   Firewall/Window  confirm, rollback, expire, the timer, disable and recover of mod.rs
--   Firewall/Runs    sequences of these calls, in any order, and of changes by other programs
-- Each write and each `systemctl` call of the world may fail: `fails` of `Host` says which, by the
-- number of the step, and a theorem is for all such functions unless it says otherwise. The clock need not be monotone.
--
-- A schedule is five bit masks, one for each field of a cron expression; a mask is a number here.
-- The values of a field are 59 at most, below the width 64 of a mask.
--   Scheduler/Bits, Scheduler/Field, Scheduler/Schedule   the masks, parse_field, Schedule::parse and
--                    Schedule::matches
--   Scheduler/Next   Schedule::next_after; its loop runs on fuel, one round for each minute of a year
--                    and a day, which is enough because every round goes on by a minute at least
-- The calendar (`Moment::at`, which asks the C library) is a function of the time; the theorems on
-- next_after assume a constant offset from UTC of whole minutes (Scheduler/Next/Clock).
--
-- A job has a schedule and an action. The store keeps jobs and the runs of each in two JSON files, each call under a
-- lock; the daemon executes a job in a task of its own, and RUNNING has the ids of those that go on.
--   Scheduler/Job    Job, validate, next_run, RunRecord and truncate of jobs.rs; times are numbers
--   Scheduler/Jobs   JobStore: a call is a function `Op` of the two files, and of the calls of the file system that fail;
--                    a write puts the whole file in place by a rename, and so a write that fails changes nothing
--   Scheduler/Jobs/Managed, Scheduler/Jobs/Replace   replace_managed
--   Scheduler/Jobs/History   runs, last_runs, begin_run and finish_run; the map of runs is an association list
--   Scheduler/Jobs/Triple    what a call leaves, by its steps; Scheduler/Jobs/Requests: sequences of calls
--   Scheduler/Running   RUNNING, spawn_job, run_due_jobs and one round of the loop of run; an execution goes step by
--                    step, in between the steps of others
-- What a job does is a parameter, the `Outcome` of a step.
--
-- A backup takes the files of an app that the patterns choose.
--   Backup/Glob      glob.rs, on bytes
--   Backup/Filter    BackupFilter of mod.rs
--   Backup/Walk      append_tree and append_file of mod.rs, on a directory as read_dir lists it
--   Backup/Storage   belongs_to of storage.rs, validate_backup_name and prune of mod.rs; a storage is two parameters
--
-- The file manager reads a path once, and for an app resolves it in a scope.
--   Files/Error      FileError
--   Files/Path       SafePath, as the list of its components
--   Files/Scope      AppScope; std::fs::canonicalize is a parameter, any function from paths to answers
--
-- A console sends the output of an app to all clients and keeps the last of it.
--   Console/Hub      coalesce, Replay, join and the pump; what is sent to tokio's broadcast channel is a list, of which a
--                    receiver has what is behind its mark
--
-- A WireGuard interface is checked and canonicalised, and hands a new peer a free address of each
-- family. An address is its bits, as in Net.
--   Wireguard/Address   mask, network_of, contains and allocate; the mask is a division by a power of two, and the
--                    loop of allocate runs for the hosts of the network, 2^20 of them at most, as in the code
--   Wireguard/Peers  Interface and Peer, free_addresses, subnets and extra_routes
--   Wireguard/Check, Wireguard/Normalize   normalize of a peer and of an interface
-- An interface is kept in a file of wg-quick, with the daemon's own settings in comments; a reader is the variables of
-- the loop of `parse`, and a file is the list of its lines. The number of a line, which only errors have, is left out.
--   Wireguard/Conf   parse of conf.rs; Wireguard/Conf/Keys has what a key does
--   Wireguard/Conf/Render, Wireguard/Conf/Redact   render and redact
--   Wireguard/Conf/Reading … Wireguard/Conf/Whole    what reading the written lines does, line by line; `Writable` says
--                    of which interfaces the values fit into lines
--   Wireguard/Conf/Leaves, Wireguard/Conf/HiddenLines   what redacting the written lines does
-- Net/Toy has a textual form of addresses for the tests; in the theorems it is a parameter.
--
-- The API knows a primary token, the one before it until its grace ends, and access tokens. An instant is a number of
-- nanoseconds.
--   Api/Tokens       tokens.rs; constant_time_eq of console.rs. The map of access tokens is an association list, and of
--                    entries that run out at one time the first in it is evicted, where the code takes the one that
--                    the map lists first; the loop of issue_access runs for the entries that there are.
--                    The digest of a token is a parameter, and a random token is an argument. A section reads each
--                    clock once, where the code may read it again
--   Api/Tokens/Sections   histories of the sections that operations make of the two locks, in any order
--   Api/Requests     the four requests that change the tokens (rest.rs), behind `auth` of mod.rs; the header of a request
--                    is its token, and the request is for TCP, where every caller is root
--
-- The directory of an app is migrated to a new layout by calls of the file system, any of which may be refused, or be the
-- last one before the process dies. Readers look in the old place where there is nothing in the new.
--   Apps/Layout      migrate of layout.rs; settings_dir and AppMeta::load (src/daemon/apps/meta.rs) as what they read. A
--                    file is its content, and that the paths are other kinds of entries, such as a file `.asc`, is left out;
--                    so is the owner of the new directory. Apps/Layout/Kept, Interrupted, Completed and Finished follow it call by call
--
-- Prelude has the shared helpers: text as a list of code points, with what the daemon uses of Rust's
-- `str`, and Boolean tests on numbers.
--
-- Not modelled: the views of the firewall that only report (render, ruleset, tables); the poll loop
-- of the timer thread, of which the deadline and the retries are modelled; a file that exists and cannot be
-- read, which counts as missing in the firewall, as in the code; times before 1970; JSON, which is taken to give back
-- the value that was written; run_due_backups; what a job does, and a panic in it; reading and writing archives and
-- files; chunks that a slow client of a console loses; the map of sessions; the configuration of a WireGuard
-- client; the status of the tokens, console tokens and the other requests of the API; logging; and the other
-- parts of the daemon (applications, packages, monitoring), which mostly drive other programs.
pub mod Prelude
pub mod Failure
pub mod Net
pub mod Firewall
pub mod Scheduler
pub mod Backup
pub mod Files
pub mod Console
pub mod Wireguard
pub mod Apps
pub mod Api
