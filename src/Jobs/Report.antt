-- ===== src/Jobs/Report.antt =====
-- Job.to_dict of src/claude_pool/jobs.py: what a caller sees of a job.
use claude_code_cli_local_ga.Prelude.{ℕ, String, Bool, false, Option, none, some}
use claude_code_cli_local_ga.Json.{Json, null, bool, num, str, Fields, end, field, field_if, truthy}
use claude_code_cli_local_ga.Errors.{Failure}
use claude_code_cli_local_ga.Jobs.{Job, Status, running, succeeded, failed, revoked}

abbrev pub status_text : Status → String
status_text running = "running"
status_text succeeded = "succeeded"
status_text failed = "failed"
status_text revoked = "cancelled"

-- `v` or None
abbrev pub json_of : Option ℕ → Json
json_of none = null
json_of (some n) = num n

abbrev pub kind_of : Option Failure → String
kind_of none = "worker_failed"
kind_of (some f) = f.kind

abbrev pub advice_of : Option Failure → Bool
advice_of none = false
advice_of (some f) = f.retryable

abbrev pub delay_of : Option Failure → Option ℕ
delay_of none = none
delay_of (some f) = f.retry_after_sec

abbrev pub with_delay : Option ℕ → Fields → Fields
with_delay none rest = rest
with_delay (some n) rest = field "retry_after_sec" (num n) rest

-- The fields that depend on the status.
abbrev pub status_fields : Status → Job → Fields
status_fields running j = end
status_fields succeeded j = field "text" j.text (field "duration_ms" j.duration_ms end)
status_fields failed j = field "error" j.error (
    field "kind" (str (kind_of j.failure)) (
      field "retryable" (bool (advice_of j.failure)) (
        with_delay (delay_of j.failure)
          (field_if (truthy j.duration_ms) "duration_ms" j.duration_ms end))))
status_fields revoked j = end

unfoldable pub to_dict : Job → Fields
to_dict j = field "job_id" (str j.id) (
    field "status" (str (status_text j.status)) (
      field "prompt_preview" (str j.prompt_preview) (
        field "created_at" (num j.created_at)
          (field "finished_at" (json_of j.finished_at) (status_fields j.status j)))))
