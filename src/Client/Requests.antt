-- ===== src/Client/Requests.antt =====
-- What src/claude_pool/client.py sends: the requests of `_call`, of each method, and of `_is_healthy`, and
-- the process that `_start_daemon` starts. `port` is the text of the port; the body of a request is
-- the object that `json.dumps` is given.
pub mod Web
pub mod Reached
pub mod Followed
use claude_code_cli_local_ga.Prelude.{
  ℕ, String, Bool, true, false, Option, none, some, List, [], ◌∷◌, text_append, leb, ltb, ◌&&◌,
}
use claude_code_cli_local_ga.Exn.{Exn, Result, ok, raise}
use claude_code_cli_local_ga.Json.{Fields}
use claude_code_cli_local_ga.Client.{prompt_payload}
use claude_code_cli_local_ga.Client.Start.{daemon_env}
use claude_code_cli_local_ga.Client.Calls.{request_timeout, is_success}

-- urllib.request.Request, with the time limit of urlopen
pub record Sent : Type 0 where
  pub url : String
  pub body : Option Fields
  pub content_type : Option String
  pub method : String
  pub timeout : ℕ

-- `f"http://{host}:{port}"`
abbrev pub base_url_of : String → String → String
base_url_of host port = text_append "http://" (text_append host (text_append ":" port))

abbrev content_type_of : Option Fields → Option String
content_type_of none = none
content_type_of (some payload) = some "application/json"

-- The request of `_call`
unfoldable pub call_request : String → String → String → Option Fields → ℕ → Sent
call_request base method path payload timeout = record {
  url = text_append base path;
  body = payload;
  content_type = content_type_of payload;
  method = method;
  timeout = timeout;
}

-- `f"/jobs/{job_id}"`
abbrev pub job_path : String → String
job_path job_id = text_append "/jobs/" job_id

unfoldable pub generate_request : String → String → Option ℕ → Sent
unfolding call_request
generate_request base prompt timeout =
    call_request base "POST" "/generate" (some (prompt_payload prompt timeout))
      (request_timeout timeout)

unfoldable pub submit_request : String → String → Option ℕ → Sent
unfolding call_request
submit_request base prompt timeout =
    call_request base "POST" "/jobs" (some (prompt_payload prompt timeout)) 30

unfoldable pub job_request : String → String → Sent
unfolding call_request
job_request base job_id = call_request base "GET" (job_path job_id) none 30

unfoldable pub jobs_request : String → Sent
unfolding call_request
jobs_request base = call_request base "GET" "/jobs" none 30

unfoldable pub cancel_request : String → String → Sent
unfolding call_request
cancel_request base job_id = call_request base "DELETE" (job_path job_id) none 30

unfoldable pub health_request : String → Sent
unfolding call_request
health_request base = call_request base "GET" "/health" none 5

unfoldable pub api_info_request : String → Sent
unfolding call_request
api_info_request base = call_request base "GET" "/" none 5

-- How a connection ends: with a response, with an error of the network or of its time limit, or with
-- another exception.
pub data Connection : Type 0 where
  responded : ℕ → Connection
  unreachable : Connection
  broken : Exn → Connection

-- _is_healthy: the request, and what is made of its connection. A status outside 200-299 is an
-- HTTPError, which is an URLError.
unfoldable pub probe_request : String → Sent
probe_request base = record {
  url = text_append base "/health";
  body = none;
  content_type = none;
  method = "GET";
  timeout = 1;
}

unfoldable pub is_healthy : Connection → Result Bool
is_healthy (responded status) = ok (is_success status)
is_healthy unreachable = ok false
is_healthy (broken e) = raise e

-- The process of _start_daemon: its command line, its environment, and whether it gets
-- DETACHED_PROCESS and CREATE_NEW_PROCESS_GROUP.
pub record Launch : Type 0 where
  pub argv : List String
  pub env : String → Option String
  pub detached : Bool

unfoldable pub start_daemon : Bool → String → String → String → (String → Option String) → Launch
start_daemon windows executable host port environ = record {
  argv = executable ∷ "-m" ∷ "claude_pool.daemon" ∷ [];
  env = daemon_env host port environ;
  detached = windows;
}
