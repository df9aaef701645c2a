-- ===== src/Jobs.antt =====
-- src/claude_pool/jobs.py: background jobs and the store that keeps them. `_jobs` is a list of jobs in
-- the dict's order, each under its own id; `_tasks` likewise. A task writes to its job
-- by the id: to an object that is in the dict no more, nobody else can look.
pub mod Table
pub mod Reaping
pub mod Eviction
pub mod Lookup
pub mod Lives
pub mod History
pub mod Abstract
pub mod Cancelling
pub mod Submission
pub mod Listing
pub mod Report
pub mod Typed
pub mod Stopping
pub use claude_code_cli_local_ga.JobTable.{
  Status, running, succeeded, failed, revoked, Job, is_terminal_status, is_terminal,
  prompt_preview_chars, Phase, scheduled, executing, over, Task, JobStore, finished_key,
}
unfoldable pub use claude_code_cli_local_ga.JobTable.{
  take_chars, find, find_phase, put, put_task, delete, delete_task, modify, insert_by, sort_onto,
  insert_desc, sort_desc_onto, is_expired, drop_expired, terminals, delete_all,
}
use claude_code_cli_local_ga.Prelude.{
  text_append, ℕ, zero, suc, ◌+◌, ◌-◌, String, Bool, true, false, not, ◌&&◌, ◌||◌, Option, none,
  some, List, [], ◌∷◌, ◌++◌, map, ltb, leb, ◌==◌, str_eq, if◌then◌else◌, length, take,
}
use claude_code_cli_local_ga.Json.{Json, null, bool, num, str, Fields, end, field, truthy}
use claude_code_cli_local_ga.Exn.{
  Exn, Result, ok, raise, cancelled, timed_out, pool_unavailable, worker_error, unexpected,
}
use claude_code_cli_local_ga.Errors.{Failure, worker_failed}
use claude_code_cli_local_ga.Runner.{Outcome}

-- _reap
unfoldable pub reap : ℕ → JobStore → JobStore
reap now s =
    let kept = drop_expired now s.retention_sec s.jobs in
    let finished = sort_onto finished_key [] (terminals kept) in
    let overflow = length kept - s.max_jobs in
    record s { jobs = delete_all (take overflow finished) kept }

-- The Job that submit creates.
unfoldable pub new_job : ℕ → String → String → ℕ → Job
unfolding take_chars
new_job now id prompt timeout_sec = record {
  id = id;
  prompt_preview = take_chars prompt_preview_chars prompt;
  timeout_sec = timeout_sec;
  status = running;
  created_at = now;
  finished_at = none;
  text = str "";
  duration_ms = num 0;
  error = str "";
  failure = none;
}

-- submit(), with the id that `secrets.token_urlsafe` gives
unfoldable pub submit : ℕ → String → String → ℕ → JobStore → JobStore × Job
unfolding new_job put put_task
submit now id prompt timeout_sec s =
    let r = reap now s in
    let job = new_job now id prompt timeout_sec in
    (
      record r {
        jobs = put job r.jobs;
        tasks = put_task (record { job_id = id; phase = scheduled }) r.tasks;
      },
      job,
    )

-- _finish, with the fields that its caller sets
unfoldable pub finish : ℕ → Status → (Job → Job) → Job → Job
finish now status fields job = fields (record job { status = status; finished_at = some now })

-- `repr` of an exception; of a class that the gateway does not define, the class alone.
repr : Exn → String
repr (pool_unavailable m) = text_append "PoolUnavailableError('" (text_append m "')")
repr (worker_error m) = text_append "WorkerError('" (text_append m "')")
repr timed_out = "TimeoutError()"
repr cancelled = "CancelledError()"
repr (unexpected m) = m

-- What _run writes when execute() ends.
unfoldable pub conclude : ℕ → Result Outcome → Job → Job
unfolding finish repr
conclude now (ok outcome) =
    if outcome.succeeded
    then finish now succeeded
        (λ j. record j { text = outcome.text; duration_ms = outcome.duration_ms })
    else finish now failed (λ j. record j {
      error = outcome.error;
      failure = outcome.failure;
      duration_ms = outcome.duration_ms;
    })
conclude now (raise cancelled) = finish now revoked (λ j. record j { error = str "cancelled" })
conclude now (raise e) = finish now failed (λ j. record j {
  error = str (text_append "unexpected error: " (repr e));
  failure = some worker_failed;
})

abbrev pub with_phase : String → Phase → List Task → List Task
with_phase id ph ts = put_task (record { job_id = id; phase = ph }) ts

-- The task of a job takes its first step; execute() ends in it; its callback runs.
unfoldable pub begin_task : String → JobStore → JobStore
unfolding put_task
begin_task id s = record s { tasks = with_phase id executing s.tasks }

unfoldable pub end_task : ℕ → String → Result Outcome → JobStore → JobStore
unfolding conclude modify put_task
end_task now id r s = record s {
  jobs = modify id (conclude now r) s.jobs;
  tasks = with_phase id over s.tasks;
}

unfoldable pub callback : String → JobStore → JobStore
unfolding delete_task
callback id s = record s { tasks = delete_task id s.tasks }

-- A cancelled task that has not run ends without a step of _run; one inside execute() gets the
-- CancelledError there.
unfoldable pub cancel_task : ℕ → String → Phase → JobStore → JobStore
unfolding end_task put_task
cancel_task now id scheduled s = record s { tasks = with_phase id over s.tasks }
cancel_task now id executing s = end_task now id (raise cancelled) s
cancel_task now id over s = s

abbrev pub revoke : ℕ → Job → Job
revoke now = finish now revoked (λ j. record j { error = str "cancelled" })

-- The branches of cancel() for a job that is there, by its task.
cancel_found : ℕ → Job → Option Phase → JobStore → JobStore
unfolding cancel_task modify finish
cancel_found now job (some scheduled) s = cancel_task now job.id scheduled s
cancel_found now job (some executing) s = cancel_task now job.id executing s
cancel_found now job (some over) s =
    if is_terminal job then s else record s { jobs = modify job.id (revoke now) s.jobs }
cancel_found now job none s =
    if is_terminal job then s else record s { jobs = modify job.id (revoke now) s.jobs }

-- cancel(): the store, and the job as it then is
unfoldable pub cancel : ℕ → String → JobStore → JobStore × Option Job
unfolding cancel_found
cancel now id s = elim (find id s.jobs) [
  | none ↦ (s, none)
  | some job ↦ let t = cancel_found now job (find_phase id s.tasks) s in (t, find id t.jobs)
]

cancel_each : ℕ → List Task → JobStore → JobStore
unfolding cancel_task
cancel_each now [] s = s
cancel_each now (t ∷ ts) s = cancel_each now ts (cancel_task now t.job_id t.phase s)

-- shutdown(): every task that is not over is cancelled
unfoldable pub shutdown : ℕ → JobStore → JobStore
unfolding cancel_each
shutdown now s = cancel_each now s.tasks s

unfoldable pub get : String → JobStore → Option Job
get id s = find id s.jobs

unfoldable pub list_jobs : ℕ → JobStore → JobStore × List Job
list_jobs now s = let r = reap now s in (r, sort_desc_onto (λ j. j.created_at) [] r.jobs)

abbrev pub is_running : Job → Bool
is_running j = elim j.status [ running ↦ true | _ ↦ false ]

unfoldable pub count_running : List Job → ℕ
count_running [] = 0
count_running (j ∷ js) = (if is_running j then 1 else 0) + count_running js

-- stats()
unfoldable pub stats : JobStore → ℕ × ℕ
unfolding count_running
stats s = (length s.jobs, count_running s.jobs)
