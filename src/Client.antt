-- ===== src/Client.antt =====
-- src/claude_pool/client.py: the payload of a prompt, the error of a failed call, and the wait for a
-- job. `shown` stands for Python's `str` of a value inside an f-string, `digits` for `isdigit` with
-- `int` (`none` if the text is no number), and the answers of the daemon are given.
pub mod Waiting
pub mod Start
pub mod Calls
pub mod Requests
use claude_code_cli_local_ga.Prelude.{
  ℕ, String, text_append, Bool, true, false, ◌||◌, Option, none, some, List, [], ◌∷◌, leb, str_eq,
  if◌then◌else◌,
}
use claude_code_cli_local_ga.Json.{
  Json, null, bool, num, str, Fields, end, field, truthy, get_or, is_text,
}

-- ClaudePoolError
pub record ClaudePoolError : Type 0 where
  pub message : Json
  pub kind : Json
  pub retryable : Bool
  pub retry_after_sec : Json

-- _prompt_payload
unfoldable pub prompt_payload : String → Option ℕ → Fields
prompt_payload prompt none = field "prompt" (str prompt) end
prompt_payload prompt (some t) = field "prompt" (str prompt) (field "timeout_sec" (num t) end)

abbrev pub is_null : Json → Bool
is_null null = true
is_null v = false

-- The Retry-After header as a number, where the body has no delay.
unfoldable pub header_delay : (String → Option ℕ) → Option String → Json
header_delay digits none = null
header_delay digits (some h) =
    if str_eq h "" then null else elim (digits h) [ none ↦ null | some n ↦ num n ]

-- _error_from, of the body's object (an empty one, if the body is no JSON)
unfoldable pub error_from :
    (String → Option ℕ) → (ℕ → String) → ℕ → Fields → Option String → ClaudePoolError
unfolding header_delay
error_from digits shown code body header =
    let given = get_or "retry_after_sec" null body in
    record {
      message = get_or "error" (str (text_append "HTTP " (shown code))) body;
      kind = get_or "kind" (str "unknown") body;
      retryable = truthy (get_or "retryable" (bool false) body);
      retry_after_sec = if is_null given then header_delay digits header else given;
    }

-- How wait() ends, or that it has not ended with the answers so far.
pub data Waited : Type 0 where
  returned : Json → Waited
  raised : ClaudePoolError → Waited
  -- a KeyError, by its key
  missing : String → Waited
  polling : Waited

-- `job["status"]`
unfoldable pub item : String → Fields → Option Json
item k end = none
item k (field j v fs) = if str_eq j k then some v else item k fs

unfoldable pub text_item : Option Json → Waited
text_item none = missing "text"
text_item (some v) = returned v

abbrev pub is_past : Option ℕ → ℕ → Bool
is_past none now = false
is_past (some deadline) now = leb deadline now

abbrev pub job_error : Json → Fields → ClaudePoolError
job_error status job = record {
  message = get_or "error" status job;
  kind = get_or "kind" status job;
  retryable = truthy (get_or "retryable" (bool false) job);
  retry_after_sec = get_or "retry_after_sec" null job;
}

-- The message of a wait that is given up: `f"job {job_id} still {status} after {timeout_sec}s"`
abbrev pub timeout_message : (Json → String) → String → String → Json → String
timeout_message shown job_id timeout_sec status = text_append "job " (
    text_append job_id (
      text_append " still "
        (text_append (shown status) (text_append " after " (text_append timeout_sec "s")))))

-- One turn of the loop of wait(): the job as polled, and the time after the poll. `late` is
-- timeout_message, of the status.
unfoldable pub judge : (Json → String) → Option ℕ → ℕ → Json → Fields → Waited
unfolding text_item item
judge late deadline now status job =
    if is_text "succeeded" status
    then text_item (item "text" job)
    else if is_text "failed" status || is_text "cancelled" status
    then raised (job_error status job)
    else if is_past deadline now
    then raised (record {
      message = str (late status);
      kind = str "timeout";
      retryable = true;
      retry_after_sec = null;
    })
    else polling

unfoldable pub poll_once : (Json → String) → Option ℕ → ℕ → Fields → Waited
unfolding judge item
poll_once late deadline now job = elim (item "status" job) [
  | none ↦ missing "status"
  | some status ↦ judge late deadline now status job
]

-- The loop goes on after a poll that ends in nothing.
unfoldable pub onward : Waited → Waited → Waited
onward polling rest = rest
onward (returned v) rest = returned v
onward (raised e) rest = raised e
onward (missing k) rest = missing k

-- wait() over the polls in their order
unfoldable pub wait : (Json → String) → Option ℕ → List (ℕ × Fields) → Waited
unfolding poll_once onward
wait late deadline [] = polling
wait late deadline ((now, job) ∷ polls) =
    onward (poll_once late deadline now job) (wait late deadline polls)
