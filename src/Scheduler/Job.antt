-- ===== src/Scheduler/Job.antt =====
-- src/daemon/scheduler/jobs.rs: `Job`, what makes one valid, when it runs next, and the record of a run.
-- Times are seconds since 1970.
pub mod Truncate
use asc_daemon.Prelude.{
  ℕ, zero, suc, ◌+◌, ◌-◌, ◌*◌, Bool, true, false, ◌&&◌, ◌||◌, not, Option, none, some, Text, List,
  [], ◌∷◌, map, any, codes, text_eq, is_empty, trim, is_alphanumeric, byte_length, char_bytes, ltb,
  leb, ◌==◌, if◌then◌else◌,
}
use asc_daemon.Failure.{Result, ok, err, internal, guard, ◌>>=◌, ◌>>◌}
use asc_daemon.Backup.Filter.{new_filter}
use asc_daemon.Scheduler.Schedule.{Moment, parse_schedule}
use asc_daemon.Scheduler.Next.{Search, nothing, next_after}

abbrev pub max_runs_per_job : ℕ
max_runs_per_job = 50

abbrev pub max_output : ℕ
max_output = 64 * 1024

abbrev pub max_timeout_secs : ℕ
max_timeout_secs = 3600

pub data JobAction : Type 0 where
  node_reboot : JobAction
  app_start app_stop app_restart app_update : (app : Text) → JobAction
  backup :
      (app : Text) (storages : List Text) (keep : Option ℕ) (include exclude : List Text)
      → JobAction
  shell : (command : Text) (app : Option Text) (timeout_secs : Option ℕ) → JobAction
  http :
      (method url : Text) (headers : List (Text × Text)) (body : Text) (timeout_secs : Option ℕ)
      → JobAction

pub record Job : Type 0 where
  pub id : Text
  pub trigger : Text
  pub utc : Bool
  pub enabled : Bool
  pub comment : Text
  pub managed_by : Option Text
  pub action : JobAction
  pub created_at : ℕ
  pub updated_at : ℕ

-- `JobAction::app`
abbrev pub app_of : JobAction → Option Text
app_of node_reboot = none
app_of (app_start app) = some app
app_of (app_stop app) = some app
app_of (app_restart app) = some app
app_of (app_update app) = some app
app_of (backup app _ _ _ _) = some app
app_of (shell _ app _) = app
app_of (http _ _ _ _ _) = none

abbrev id_char : ℕ → Bool
id_char c = is_alphanumeric c || c == b'.' || c == b'_' || c == b'-'

abbrev id_ok : Text → Bool
id_ok id = not (is_empty id) && leb (byte_length id) 64 && not (any (λ c. not (id_char c)) id)

abbrev blank : Text → Bool
blank t = is_empty (trim t)

abbrev no_blank_app : Option Text → Bool
no_blank_app none = true
no_blank_app (some app) = not (blank app)

abbrev timeout_ok : Option ℕ → Bool
timeout_ok none = true
timeout_ok (some t) = not (t == 0 || ltb max_timeout_secs t)

abbrev to_upper : ℕ → ℕ
to_upper c = if leb b'a' c && leb c b'z' then c - 32 else c

abbrev methods : List Text
methods =
    codes "GET" ∷ codes "POST" ∷ codes "PUT" ∷ codes "PATCH" ∷ codes "DELETE" ∷ codes "HEAD" ∷ []

unfoldable pub begins_with : Text → Text → Bool
begins_with s [] = true
begins_with [] (d ∷ prefix) = false
begins_with (c ∷ s) (d ∷ prefix) = c == d && begins_with s prefix

-- the checks of the action alone
unfoldable pub check_action : JobAction → Result (Unit {0})
unfolding begins_with text_eq trim new_filter
check_action (shell command _ timeout_secs) = do
  guard (not (blank command)) internal
  guard (timeout_ok timeout_secs) internal
check_action (http method url _ _ timeout_secs) = do
  guard (any (text_eq (map to_upper method)) methods) internal
  guard (begins_with url (codes "http://") || begins_with url (codes "https://")) internal
  guard (timeout_ok timeout_secs) internal
check_action (backup _ _ (some zero) _ _) = err internal
check_action (backup _ _ (some (suc keep)) include exclude) = do
  filter ← new_filter include exclude
  ok tt
check_action (backup _ _ none include exclude) = do filter ← new_filter include exclude; ok tt
check_action _ = ok tt

-- `validate`
unfoldable pub validate : Job → Result (Unit {0})
unfolding check_action parse_schedule byte_length is_alphanumeric trim
validate job = do
  guard (id_ok job.id) internal
  schedule ← parse_schedule job.trigger
  guard (no_blank_app (app_of job.action)) internal
  check_action job.action

-- `next_run`; `clock utc` is `Moment::at(_, utc)`
unfoldable pub next_run : (Bool → ℕ → Moment) → Job → ℕ → Search
next_run clock job now = elim job.enabled [
  | false ↦ nothing
  | true ↦ elim (parse_schedule job.trigger) [
    | err e ↦ nothing
    | ok schedule ↦ next_after (clock job.utc) schedule now
  ]
]

pub data RunStatus : Type 0 where
  running succeeded failed : RunStatus

pub data RunTrigger : Type 0 where
  schedule manual : RunTrigger

pub record RunRecord : Type 0 where
  pub id : Text
  pub trigger : RunTrigger
  pub status : RunStatus
  pub started_at : ℕ
  pub finished_at : Option ℕ
  pub error : Text
  pub output : Text
  pub http_status : Option ℕ

pub record Outcome : Type 0 where
  pub success : Bool
  pub error : Text
  pub output : Text
  pub http_status : Option ℕ

-- `is_char_boundary`
unfoldable pub is_char_boundary : Text → ℕ → Bool
unfolding char_bytes
is_char_boundary [] n = n == 0
is_char_boundary (c ∷ s) n =
    n == 0 || (leb (char_bytes c) n && is_char_boundary s (n - char_bytes c))

-- the loop that moves `end` down
unfoldable pub boundary_below : Text → ℕ → ℕ
unfolding is_char_boundary
boundary_below s zero = zero
boundary_below s (suc end) =
    let lower = boundary_below s end in if is_char_boundary s (suc end) then suc end else lower

-- `&s[..end]`, at a boundary
unfoldable pub byte_prefix : Text → ℕ → Text
unfolding char_bytes
byte_prefix [] end = []
byte_prefix (c ∷ s) end =
    let rest = byte_prefix s (end - char_bytes c) in if end == 0 then [] else c ∷ rest

-- `truncate`
unfoldable pub truncate : Text → ℕ → Text
unfolding byte_length boundary_below byte_prefix
truncate s max = if leb (byte_length s) max then s else byte_prefix s (boundary_below s max)
