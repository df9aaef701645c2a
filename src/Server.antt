-- ===== src/Server.antt =====
-- src/claude_pool/server.py: the guard on the Host header, the reading of a prompt and the handlers.
-- `ip`, `digits`, `to_float`, `shown` and `repr` stand for `ipaddress.ip_address`, `str.isdigit`,
-- `float` of a text, `str` of a number and `repr` of a text. How a worker is acquired and run is
-- given, as in Runner.
pub mod Guard
pub mod Answers
pub mod Jobs
pub mod Routes
use Prim.Native.Char.{Char, code}
use claude_code_cli_local_ga.Prelude.{
  ℕ, String, text_append, Bool, true, false, not, ◌||◌, ◌==◌, Option, none, some, List, [], ◌∷◌,
  str_eq, if◌then◌else◌,
}
use claude_code_cli_local_ga.Json.{
  Json, null, bool, num, str, arr, obj, Items, nil, cons, Fields, end, field, field_if, truthy,
  get_or, as_text,
}
use claude_code_cli_local_ga.Exn.{Result, ok, raise, unexpected, ◌>>=◌}
use claude_code_cli_local_ga.Config.{is_loopback_host}

-- `host[1:end]` for the first "]" after the bracket, or all of it
unfoldable pub until_bracket : String → String
until_bracket String.[] = String.[]
until_bracket (String.◌∷◌ c s) = if code c == 93 then String.[] else String.◌∷◌ c (until_bracket s)

-- `rpartition(":")`, or `none` if there is no colon
unfoldable pub split_last : String → Option (String × String)
split_last String.[] = none
split_last (String.◌∷◌ c s) = elim (split_last s) [
  | some (head, tail) ↦ some (String.◌∷◌ c head, tail)
  | none ↦ if code c == 58 then some (String.[], s) else none
]

unfoldable pub without_port : (String → Bool) → String → Option (String × String) → String
without_port digits host none = host
without_port digits host (some (head, tail)) = if digits tail then head else host

unfoldable pub hostname_from_host_header : (String → Bool) → String → String
unfolding until_bracket split_last without_port
hostname_from_host_header digits String.[] = String.[]
hostname_from_host_header digits (String.◌∷◌ c s) =
    if code c == 91
    then until_bracket s
    else without_port digits (String.◌∷◌ c s) (split_last (String.◌∷◌ c s))

-- The status, the JSON body, and the headers Retry-After and Location.
pub record Response : Type 0 where
  pub status : ℕ
  pub body : Fields
  pub retry_after : Option String
  pub location : Option String

abbrev pub json_response : ℕ → Fields → Response
json_response status body = record {
  status = status;
  body = body;
  retry_after = none;
  location = none;
}

abbrev pub error_response : ℕ → String → Response
error_response status message = json_response status (field "error" (str message) end)

abbrev pub forbidden : String → Response
forbidden shown_host = json_response 403 (
    field "error"
      (str (text_append "Host header " (text_append shown_host " is not a loopback address")))
      (field "kind" (str "forbidden_host") (field "retryable" (bool false) end)))

-- What a handler returns: a JSON response, or the text of an HTML page with the status 200.
pub data Answer : Type 0 where
  json_answer : Response → Answer
  html_page : String → Answer

-- The middleware require_loopback_host, around a handler that changes a state
module _ (ip : String → Option Bool) (digits : String → Bool) (repr : String → String) where
  unfoldable pub require_loopback_host {ℓ} :
      {S : Type ℓ} → String → (S → S × Result Answer) → S → S × Result Answer
  unfolding is_loopback_host hostname_from_host_header
  require_loopback_host host handler s =
      if not (is_loopback_host ip (hostname_from_host_header digits host))
      then (s, ok (json_answer (forbidden (repr host))))
      else handler s

-- A prompt with its time limit, or the message of a BadRequest.
pub data Prompt : Type 0 where
  accepted : String → ℕ → Prompt
  rejected : String → Prompt

-- `float(v)`; `none` is a ValueError or a TypeError
unfoldable pub float_of : (String → Option ℕ) → Json → Option ℕ
float_of to_float null = none
float_of to_float (bool b) = some (if b then 1 else 0)
float_of to_float (num n) = some n
float_of to_float (str s) = to_float s
float_of to_float (arr vs) = none
float_of to_float (obj fs) = none

unfoldable pub with_timeout : String → Option ℕ → Prompt
with_timeout prompt none = rejected "'timeout_sec' must be numeric"
with_timeout prompt (some t) = accepted prompt t

unfoldable pub read_fields : (String → Option ℕ) → ℕ → Fields → Prompt
unfolding float_of with_timeout
read_fields to_float default body = elim (as_text (get_or "prompt" null body)) [
  | none ↦ rejected "'prompt' is required"
  | some prompt ↦
      if str_eq prompt ""
      then rejected "'prompt' is required"
      else with_timeout prompt (float_of to_float (get_or "timeout_sec" (num default) body))
]

-- _read_prompt_request, of the body as `request.json()` reads it (`none` is a JSONDecodeError)
unfoldable pub read_prompt_request : (String → Option ℕ) → ℕ → Option Json → Prompt
unfolding read_fields
read_prompt_request to_float default none = rejected "invalid JSON body"
read_prompt_request to_float default (some (obj body)) = read_fields to_float default body
read_prompt_request to_float default (some v) = rejected "request body must be a JSON object"
