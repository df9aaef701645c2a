-- ===== src/Server/Answers.antt =====
-- The handlers of src/claude_pool/server.py for prompts, jobs and /health.
pub mod Documented
pub mod Typed
use claude_code_cli_local_ga.Pool.Health.{Stats}
use claude_code_cli_local_ga.Prelude.{
  ℕ, String, text_append, Bool, true, false, Option, none, some, List, [], ◌∷◌, if◌then◌else◌,
}
use claude_code_cli_local_ga.Json.{
  Json, null, bool, num, str, arr, obj, Items, nil, cons, Fields, end, field, field_if, truthy,
}
use claude_code_cli_local_ga.Exn.{Result, ok, raise, unexpected, ◌>>=◌}
use claude_code_cli_local_ga.Errors.{Failure}
use claude_code_cli_local_ga.Worker.{Turn}
use claude_code_cli_local_ga.Pool.{Pool, Worker}
use claude_code_cli_local_ga.Runner.{Outcome, Executed, execute}
use claude_code_cli_local_ga.Jobs.{Job, JobStore, submit, get, list_jobs, cancel}
use claude_code_cli_local_ga.Jobs.Report.{to_dict}
use claude_code_cli_local_ga.Server.{
  Response, json_response, error_response, Prompt, accepted, rejected, read_prompt_request,
}

abbrev pub header_of : (ℕ → String) → Option ℕ → Option String
header_of shown none = none
header_of shown (some n) = some (shown n)

unfoldable pub failure_body : Outcome → Failure → Fields
failure_body outcome f = field "error" outcome.error (
    field "kind" (str f.kind) (
      field "retryable" (bool f.retryable)
        (field_if (truthy outcome.duration_ms) "duration_ms" outcome.duration_ms end)))

-- _failure_response, of the outcome's verdict: None has no field `kind`.
unfoldable pub failure_response : (ℕ → String) → Outcome → Option Failure → Result Response
unfolding failure_body
failure_response shown outcome none = raise (unexpected "AttributeError")
failure_response shown outcome (some f) = ok (record {
  status = f.status;
  body = failure_body outcome f;
  retry_after = header_of shown f.retry_after_sec;
  location = none;
})

-- What handle_generate makes of an outcome.
unfoldable pub answer : (ℕ → String) → Outcome → Result Response
unfolding failure_response
answer shown outcome =
    if outcome.succeeded
    then ok (
        json_response 200 (field "text" outcome.text (field "duration_ms" outcome.duration_ms end)))
    else failure_response shown outcome outcome.failure

-- What a handler leaves: its response, the pool, and the workers whose release is scheduled.
pub record Handled : Type 0 where
  pub result : Result Response
  pub pool : Pool
  pub released : List Worker

unfoldable pub generate_prompt :
    (ℕ → String) → Pool → Prompt → Result Worker → Result Turn → Bool → Handled
unfolding answer
generate_prompt shown p (rejected m) acquired ran late = record {
  result = ok (error_response 400 m);
  pool = p;
  released = [];
}
generate_prompt shown p (accepted prompt t) acquired ran late =
    let x = execute p acquired ran late in
    record { result = x.result >>= answer shown; pool = x.pool; released = x.released }

unfoldable pub handle_generate :
    (String → Option ℕ)
    → (ℕ → String)
    → Pool
    → Option Json
    → Result Worker
    → Result Turn
    → Bool
    → Handled
unfolding generate_prompt
handle_generate to_float shown p body =
    generate_prompt shown p (read_prompt_request to_float p.config.default_timeout_sec body)

-- `body["url"] = …`, behind the other fields
unfoldable pub add_field : String → Json → Fields → Fields
add_field k v end = field k v end
add_field k v (field j w fs) = field j w (add_field k v fs)

unfoldable pub submit_prompt : ℕ → String → Prompt → JobStore → JobStore × Response
unfolding add_field
submit_prompt now id (rejected m) s = (s, error_response 400 m)
submit_prompt now id (accepted prompt t) s =
    let (r, job) = submit now id prompt t s in
    let url = text_append "/jobs/" job.id in
    (
      r,
      record {
        status = 202;
        body = add_field "url" (str url) (to_dict job);
        retry_after = none;
        location = some url;
      },
    )

-- The id is the one that `submit` draws.
unfoldable pub handle_submit_job :
    (String → Option ℕ) → ℕ → ℕ → String → Option Json → JobStore → JobStore × Response
unfolding submit_prompt
handle_submit_job to_float default now id body =
    submit_prompt now id (read_prompt_request to_float default body)

abbrev pub job_response : Option Job → Response
job_response none = error_response 404 "no such job"
job_response (some job) = json_response 200 (to_dict job)

unfoldable pub handle_get_job : String → JobStore → Response
handle_get_job id s = job_response (get id s)

unfoldable pub listed : List Job → Items
listed [] = nil
listed (j ∷ js) = cons (obj (to_dict j)) (listed js)

unfoldable pub handle_list_jobs : ℕ → JobStore → JobStore × Response
unfolding listed
handle_list_jobs now s =
    let (r, jobs) = list_jobs now s in (r, json_response 200 (field "jobs" (arr (listed jobs)) end))

-- The task of the job, cancelled inside execute(), gives its worker back as Runner has it.
unfoldable pub handle_cancel_job : ℕ → String → JobStore → JobStore × Response
handle_cancel_job now id s = let (r, job) = cancel now id s in (r, job_response job)

abbrev pub text_or_null : Option String → Json
text_or_null none = null
text_or_null (some s) = str s

abbrev pub json_or_null : Option Json → Json
json_or_null none = null
json_or_null (some v) = v

-- The dict of WorkerPool.stats, and that of JobStore.stats behind it
unfoldable pub handle_health : Stats → ℕ × ℕ → Response
handle_health report (total, running) = json_response 200 (
    field "min_workers" (num report.min_workers) (
      field "max_workers" (num report.max_workers) (
        field "total" (num report.total) (
          field "idle" (num report.idle) (
            field "idle_alive" (num report.idle_alive) (
              field "busy" (num report.busy) (
                field "healthy" (bool report.healthy) (
                  field "last_spawn_error" (text_or_null report.last_spawn_error) (
                    field "last_error" (json_or_null report.last_error) (
                      field "jobs"
                        (obj (field "total" (num total) (field "running" (num running) end)))
                        end))))))))))
