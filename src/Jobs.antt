-- ===== src/Jobs.antt =====
-- src/bims_shopify/ops/job_runner.py and ops/auto_import.py: the background jobs, their rows in
-- `ops_jobs`, the lock of a tenant and a command, and the coordinator that enqueues imports. Each
-- stretch of a task between two waits is an event. Times are seconds. The locks shared with the
-- scheduler, the progress of a job, its result and the audit are not modelled.
pub mod Holding
pub mod Flight
pub mod Orphans
use bims_shopify.Base.{
  ℕ, zero, suc, ◌+◌, ◌-◌, ◌*◌, String, Bool, true, false, not, ◌&&◌, ◌||◌, Option, none, some,
  is_none, List, [], ◌∷◌, ◌++◌, map, any, select, count, length, str_eq, if◌then◌else◌, leb, ◌==◌,
  take,
}

pub data Status : Type 0 where
  queued running succeeded failed interrupted : Status

abbrev pub is_active : Status → Bool
is_active queued = true
is_active running = true
is_active succeeded = false
is_active failed = false
is_active interrupted = false

abbrev pub is_running_status : Status → Bool
is_running_status queued = false
is_running_status running = true
is_running_status succeeded = false
is_running_status failed = false
is_running_status interrupted = false

-- `OpsJobModel`: `scheduled` tells that the options have the trigger of the scheduler.
pub record OpsJob : Type 0 where
  pub id : ℕ
  pub tenant_id : ℕ
  pub command : String
  pub scheduled : Bool
  pub since : Option ℕ
  pub status : Status
  pub created_at : ℕ
  pub started_at : Option ℕ
  pub finished_at : Option ℕ

-- The key of a lock.
abbrev pub Key : Type 0
Key = ℕ × String

abbrev pub key_eq : Key → Key → Bool
key_eq a b = (a.0 == b.0) && str_eq a.1 b.1

abbrev pub key_of : OpsJob → Key
key_of j = (j.tenant_id, j.command)

-- The rows, the tasks that wait for their lock, and the job whose task holds the lock of a key.
pub record System : Type 0 where
  pub jobs : List OpsJob
  pub waiting : List (Key × ℕ)
  pub held : Key → Option ℕ

-- Whether this task holds the lock of the key.
abbrev pub is_id : ℕ → Option ℕ → Bool
is_id id none = false
is_id id (some n) = n == id

abbrev pub set_held : Key → Option ℕ → (Key → Option ℕ) → Key → Option ℕ
set_held k v held j = if key_eq k j then v else held j

-- `UPDATE ops_jobs ... WHERE id = :id`
abbrev pub update_job : ℕ → (OpsJob → OpsJob) → List OpsJob → List OpsJob
update_job id f jobs = map (λ j. if j.id == id then f j else j) jobs

-- `is_running`
abbrev pub is_running : Key → System → Bool
is_running k s = not (is_none (s.held k))

-- `start_job`: `none` is the conflict.
unfoldable pub start_job : ℕ → String → Bool → Option ℕ → ℕ → System → Option System
start_job tenant_id command scheduled since now s =
    if is_running (tenant_id, command) s
    then none
    else some (record s {
      jobs =
          s.jobs
          ++ record {
            id = length s.jobs;
            tenant_id = tenant_id;
            command = command;
            scheduled = scheduled;
            since = since;
            status = queued;
            created_at = now;
            started_at = none;
            finished_at = none;
          }
            ∷ [];
      waiting = s.waiting ++ ((tenant_id, command), length s.jobs) ∷ [];
    })

-- `_run` up to the lock: a task that waits takes it when it is free.
unfoldable pub enter : Key → ℕ → System → System
enter k id s = if is_running k s then s else record s {
  waiting = select (λ w. not (w.1 == id)) s.waiting;
  held = set_held k (some id) s.held;
}

abbrev pub start_row : ℕ → OpsJob → OpsJob
start_row now j = record j { status = running; started_at = some now }

abbrev pub finish_row : Status → ℕ → OpsJob → OpsJob
finish_row status now j = record j { status = status; finished_at = some now }

-- `_mark_started`
unfoldable pub mark_started : ℕ → ℕ → System → System
mark_started id now s = record s { jobs = update_job id (start_row now) s.jobs }

-- `_mark_finished`
unfoldable pub mark_finished : ℕ → Status → ℕ → System → System
mark_finished id status now s = record s { jobs = update_job id (finish_row status now) s.jobs }

unfoldable pub unlock : Key → System → System
unlock k s = record s { held = set_held k none s.held }

-- How the command ended: with a result, or with an exception.
abbrev pub final_status : Bool → Status
final_status true = succeeded
final_status false = failed

-- `mark_interrupted_on_startup`, on a process that has no task yet.
abbrev pub interrupt_row : ℕ → OpsJob → OpsJob
interrupt_row now j =
    if is_running_status j.status
    then record j { status = interrupted; finished_at = some now }
    else j

unfoldable pub restart : ℕ → System → System
restart now s = record { jobs = map (interrupt_row now) s.jobs; waiting = []; held = λ k. none }

-- The events of a task hold their key and job: `die` is an exception that escapes from `_execute`,
-- before `_mark_started` or after it, which frees the lock and leaves the row as it is. An exception
-- of the audit after `_mark_finished` is `finish`.
pub data Event : Type 0 where
  request : ℕ → String → Bool → Option ℕ → ℕ → Event
  acquire : Key → ℕ → Event
  tenant_missing : Key → ℕ → ℕ → Event
  die : Key → ℕ → Event
  begin : Key → ℕ → ℕ → Event
  finish : Key → ℕ → Bool → ℕ → Event
  process_restart : ℕ → Event

-- Whether a task for this job waits on this key.
abbrev pub waits : Key → ℕ → List (Key × ℕ) → Bool
waits k id [] = false
waits k id (w ∷ ws) = if key_eq w.0 k && (w.1 == id) then true else waits k id ws

abbrev pub or_same : System → Option System → System
or_same s none = s
or_same s (some t) = t

-- An event of a task that is not there changes nothing.
unfoldable pub step : Event → System → System
unfolding start_job enter mark_started mark_finished unlock restart
step (request t c b since now) s = or_same s (start_job t c b since now s)
step (acquire k id) s = if waits k id s.waiting then enter k id s else s
step (tenant_missing k id now) s =
    if is_id id (s.held k) then unlock k (mark_finished id failed now s) else s
step (die k id) s = if is_id id (s.held k) then unlock k s else s
step (begin k id now) s = if is_id id (s.held k) then mark_started id now s else s
step (finish k id good now) s =
    if is_id id (s.held k) then unlock k (mark_finished id (final_status good) now s) else s
step (process_restart now) s = restart now s

unfoldable pub steps : List Event → System → System
unfolding step
steps [] s = s
steps (e ∷ es) s = steps es (step e s)

-- The jobs whose task holds its lock and dies, in a run from `s`.
abbrev pub dies : Event → System → ℕ → Bool
dies (request t c b since now) s i = false
dies (acquire k id) s i = false
dies (tenant_missing k id now) s i = false
dies (die k id) s i = is_id id (s.held k) && (id == i)
dies (begin k id now) s i = false
dies (finish k id good now) s i = false
dies (process_restart now) s i = false

unfoldable pub died : List Event → System → ℕ → Bool
died [] s i = false
died (e ∷ es) s i = dies e s i || died es (step e s) i

abbrev pub no_jobs : System
no_jobs = record { jobs = []; waiting = []; held = λ k. none }

-- The settings of a tenant that the coordinator reads.
pub record ImportTenant : Type 0 where
  pub id : ℕ
  pub auto_import_interval_minutes : ℕ

pub data Pending : Type 0 where
  nothing_pending pending : Pending
  multiple_results : Pending

-- The imports of a tenant that are queued or running.
abbrev pub is_pending_import : ℕ → OpsJob → Bool
is_pending_import tenant_id j =
    (j.tenant_id == tenant_id) && str_eq j.command "import" && is_active j.status

-- `scalar_one_or_none`: two rows are an error.
abbrev pub pending_of : ℕ → Pending
pending_of zero = nothing_pending
pending_of (suc zero) = pending
pending_of (suc (suc n)) = multiple_results

-- `_has_pending_import`
unfoldable pub has_pending_import : ℕ → System → Pending
has_pending_import tenant_id s =
    if is_running (tenant_id, "import") s
    then pending
    else pending_of (count (is_pending_import tenant_id) s.jobs)

-- Finished imports of a tenant, the newest first: rows are inserted in the order of `created_at`.
abbrev pub is_finished_import : ℕ → OpsJob → Bool
is_finished_import tenant_id j =
    (j.tenant_id == tenant_id) && str_eq j.command "import" && not (is_none j.finished_at)

abbrev pub newest_first : List OpsJob → List OpsJob
newest_first [] = []
newest_first (j ∷ js) = newest_first js ++ j ∷ []

abbrev pub first_scheduled : List OpsJob → Option ℕ
first_scheduled [] = none
first_scheduled (j ∷ js) = if j.scheduled then some j.created_at else first_scheduled js

-- `_last_scheduler_import_finished_at`
unfoldable pub last_scheduler_import : ℕ → System → Option ℕ
last_scheduler_import tenant_id s =
    first_scheduled (take 20 (newest_first (select (is_finished_import tenant_id) s.jobs)))

-- `_is_due`
unfoldable pub is_due : ImportTenant → ℕ → Option ℕ → Bool
is_due tenant now none = true
is_due tenant now (some last) = leb (tenant.auto_import_interval_minutes * 60) (now - last)

-- What the coordinator did for a tenant.
pub data Enqueued : Type 0 where
  job_in_flight not_due conflict enqueued tenant_failed : Enqueued

-- `last_finished_at - INCREMENTAL_OVERLAP`
abbrev pub since_of : Option ℕ → Option ℕ
since_of none = none
since_of (some last) = some (last - 900)

abbrev pub enqueue : Option System → System → Enqueued × System
enqueue none s = (conflict, s)
enqueue (some t) s = (enqueued, t)

abbrev pub when_due : ImportTenant → ℕ → System → Pending → Enqueued × System
when_due tenant now s pending = (job_in_flight, s)
when_due tenant now s multiple_results = (tenant_failed, s)
when_due tenant now s nothing_pending =
    let last = last_scheduler_import tenant.id s in
    if not (is_due tenant now last)
    then (not_due, s)
    else enqueue (start_job tenant.id "import" true (since_of last) now s) s

-- `_maybe_enqueue`, with the handler of `run_once` around it.
unfoldable pub maybe_enqueue : ImportTenant → ℕ → System → Enqueued × System
unfolding has_pending_import last_scheduler_import is_due start_job
maybe_enqueue tenant now s = when_due tenant now s (has_pending_import tenant.id s)
