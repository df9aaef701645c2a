-- ===== src/Server/Routes/Typed.antt =====
-- Each kind of answer of src/claude_pool/server.py against the OpenAPI document of src/claude_pool/apidocs.py.
use claude_code_cli_local_ga.Server.Answers.{listed, handle_health, add_field, failure_body}
use claude_code_cli_local_ga.Jobs.{new_job}
use claude_code_cli_local_ga.Json.{arr, Json, null, str, Fields, end, field, get_or}
use claude_code_cli_local_ga.Server.Routes.{serves_index, Route, App}
use claude_code_cli_local_ga.Pool.Health.{Stats}
use claude_code_cli_local_ga.Server.Answers.Typed.{
  to_dict-valid, failure_body-valid, listed-valid, handle_health-valid, IsTypedError,
}
use claude_code_cli_local_ga.ApiDocs.Responses.Bodies.{
  is_described, failure_described, first_described, has_row-has_status,
}
use claude_code_cli_local_ga.ApiDocs.Conforms.{valid}
use claude_code_cli_local_ga.Server.{error_response, Answer, json_answer, html_page}
use claude_code_cli_local_ga.Jobs.Report.{to_dict}
use claude_code_cli_local_ga.Jobs.Typed.{IsTypedStore, IsTypedJob}
use claude_code_cli_local_ga.JobTable.{Job}
use claude_code_cli_local_ga.Prelude.{ℕ, String, true, Option, some, List, ◌≡◌, refl, is_some, All}
use claude_code_cli_local_ga.Errors.{Failure}
use claude_code_cli_local_ga.Config.{PoolConfig}
use claude_code_cli_local_ga.Runner.{Outcome}
use claude_code_cli_local_ga.Runner.Typed.{IsText, IsInteger, IsTypedOutcome}
use claude_code_cli_local_ga.ApiDocs.{failure_kinds, has_row}
use claude_code_cli_local_ga.ApiDocs.OpenApi.{openapi_paths}
use claude_code_cli_local_ga.ApiDocs.Responses.{fields_in, description, generate_responses}
use claude_code_cli_local_ga.Server.Routes.Described.{lowered}

-- The responses that the document describes for a route
abbrev pub responses_of : Route → Fields → Fields
responses_of route paths = fields_in (
    get_or "responses" null
      (fields_in (get_or (lowered route.method) null (fields_in (get_or route.path null paths)))))

-- An answer is as the document says: its status is described, and its body has the described form.
abbrev pub IsAsDescribed : (ℕ → String) → Fields → Answer → Type 0
IsAsDescribed shown responses (json_answer r) =
    is_described (shown r.status) r.body responses ≡ true
IsAsDescribed shown responses (html_page page) = is_some (description (shown 200) responses) ≡ true

-- `str` of a number: `read` reads it back, and these four are written in decimal.
pub record IsDecimal (shown : ℕ → String) (read : String → Option ℕ) : Type 0 where
  pub exact : (n : ℕ) → read (shown n) ≡ some n
  pub ok_text : shown 200 ≡ "200"
  pub accepted_text : shown 202 ≡ "202"
  pub bad_text : shown 400 ≡ "400"
  pub missing_text : shown 404 ≡ "404"

-- What the application holds, where the documents promise a text or a whole number.
pub record IsTypedApp (a : App) : Type 0 where
  pub jobs : IsTypedStore a.jobs
  pub last_error : IsTypedError a.pool.last_error

module _ (shown : ℕ → String) (read : String → Option ℕ) (decimal : IsDecimal shown read) where
  pub generate_error :
      (m : String)
      → is_described (shown 400) (error_response 400 m).body (generate_responses shown) ≡ true
  unfolding failure_kinds valid get_or description
  generate_error m =
      first_described shown read decimal.exact 400 "400" (error_response 400 m).body
        decimal.bad_text refl refl refl

  pub generate_success :
      (text duration : Json)
      → IsText text
      → IsInteger duration
      → is_described
          (shown 200)
          (field "text" text (field "duration_ms" duration end))
          (generate_responses shown)
        ≡ true
  unfolding failure_kinds valid get_or description
  generate_success text duration t d =
      first_described shown read decimal.exact 200 "200"
        (field "text" text (field "duration_ms" duration end)) decimal.ok_text refl refl
        (rw (t, d) refl)

  pub generate_failure :
      (o : Outcome) (f : Failure)
      → IsTypedOutcome o
      → has_row f failure_kinds ≡ true
      → is_described (shown f.status) (failure_body o f) (generate_responses shown) ≡ true
  generate_failure o f h row =
      failure_described shown read decimal.exact f.status (failure_body o f)
        (has_row-has_status f failure_kinds row) (failure_body-valid o f h row)

module _ (shown : ℕ → String) (read : String → Option ℕ) (decimal : IsDecimal shown read)
    (config : PoolConfig) where
  -- What the document says of a method and a path
  abbrev pub at : String → String → Fields
  at method path =
      responses_of (record { method = method; path = path; handler = serves_index })
        (openapi_paths shown config)

  pub missing_described :
      is_described (shown 404) (error_response 404 "no such job").body (at "GET" "/jobs/{job_id}")
      ≡ true
  unfolding openapi_paths get_or description valid
  missing_described = rw decimal.missing_text refl

  pub job_described :
      (j : Job)
      → IsTypedJob j
      → is_described (shown 200) (to_dict j) (at "GET" "/jobs/{job_id}") ≡ true
  unfolding openapi_paths get_or description
  job_described j h = rw decimal.ok_text (to_dict-valid j h)

  pub gone_described :
      is_described
        (shown 404)
        (error_response 404 "no such job").body
        (at "DELETE" "/jobs/{job_id}")
      ≡ true
  unfolding openapi_paths get_or description valid
  gone_described = rw decimal.missing_text refl

  pub cancelled_described :
      (j : Job)
      → IsTypedJob j
      → is_described (shown 200) (to_dict j) (at "DELETE" "/jobs/{job_id}") ≡ true
  unfolding openapi_paths get_or description
  cancelled_described j h = rw decimal.ok_text (to_dict-valid j h)

  pub list_described :
      (js : List Job)
      → All IsTypedJob js
      → is_described (shown 200) (field "jobs" (arr (listed js)) end) (at "GET" "/jobs") ≡ true
  unfolding openapi_paths get_or description valid
  list_described js h = rw decimal.ok_text (rw (listed-valid js h) refl)

  pub submit_error :
      (m : String) → is_described (shown 400) (error_response 400 m).body (at "POST" "/jobs") ≡ true
  unfolding openapi_paths get_or description valid
  submit_error m = rw decimal.bad_text refl

  pub submit_described :
      (now : ℕ) (id prompt url : String) (timeout : ℕ)
      → is_described
          (shown 202)
          (add_field "url" (str url) (to_dict (new_job now id prompt timeout)))
          (at "POST" "/jobs")
        ≡ true
  unfolding openapi_paths get_or description valid add_field to_dict new_job
  submit_described now id prompt url timeout = rw decimal.accepted_text refl

  pub health_described :
      (report : Stats) (counts : ℕ × ℕ)
      → IsTypedError report.last_error
      → is_described
          (shown (handle_health report counts).status)
          (handle_health report counts).body
          (at "GET" "/health")
        ≡ true
  unfolding openapi_paths get_or description handle_health
  health_described report counts h = rw decimal.ok_text (handle_health-valid report counts h)

  pub index_described : (body : Fields) → is_described (shown 200) body (at "GET" "/") ≡ true
  unfolding openapi_paths get_or description
  index_described body = rw decimal.ok_text refl

  pub openapi_described :
      (body : Fields) → is_described (shown 200) body (at "GET" "/openapi.json") ≡ true
  unfolding openapi_paths get_or description
  openapi_described body = rw decimal.ok_text refl

  pub docs_described : is_some (description (shown 200) (at "GET" "/docs")) ≡ true
  unfolding openapi_paths get_or description
  docs_described = rw decimal.ok_text refl
