-- ===== src/Server/Routes/Conforming.antt =====
-- Every answer of src/claude_pool/server.py against the OpenAPI document of src/claude_pool/apidocs.py.
use claude_code_cli_local_ga.Server.Routes.Described.{documented}
use claude_code_cli_local_ga.Server.Routes.{
  job_stats, Route, routes, App, Request, Moment, dispatch, generated,
}
use claude_code_cli_local_ga.Json.{get_or}
use claude_code_cli_local_ga.Prelude.{
  ℕ, String, Bool, true, Option, none, some, ◌≡◌, refl, All, Bool-cases, inl, inr, text_append,
}
use claude_code_cli_local_ga.Exn.{Result, ok, raise, Holds, ◌>>=◌}
use claude_code_cli_local_ga.Config.{PoolConfig}
use claude_code_cli_local_ga.Jobs.{submit, Job, JobStore, get}
use claude_code_cli_local_ga.Worker.{Turn}
use claude_code_cli_local_ga.Pool.{Pool, Worker}
use claude_code_cli_local_ga.Pool.Health.{stats}
use claude_code_cli_local_ga.Jobs.Typed.{IsTypedAnswer, find-typed, cancel-typed, list_jobs-typed}
use claude_code_cli_local_ga.Runner.{Outcome}
use claude_code_cli_local_ga.Runner.Lifecycle.{IsExplained, execute_reports}
use claude_code_cli_local_ga.Runner.Typed.{IsTypedOutcome, IsTypedTurn, execute-typed}
use claude_code_cli_local_ga.ApiDocs.OpenApi.{openapi_paths}
use claude_code_cli_local_ga.ApiDocs.Responses.{generate_responses}
use claude_code_cli_local_ga.ApiDocs.Responses.Bodies.{is_described}
use claude_code_cli_local_ga.Server.{Response, json_answer, Prompt, accepted, rejected}
use claude_code_cli_local_ga.Server.Answers.{
  answer, failure_response, generate_prompt, handle_generate, submit_prompt, handle_submit_job,
  handle_get_job, handle_list_jobs, handle_cancel_job, job_response,
}
use claude_code_cli_local_ga.Server.Routes.Typed.{
  responses_of, IsAsDescribed, IsDecimal, IsTypedApp, at, generate_error, generate_success,
  generate_failure, missing_described, job_described, gone_described, cancelled_described,
  list_described, submit_error, submit_described, health_described, index_described,
  openapi_described, docs_described,
}

module _ (shown : ℕ → String) (read : String → Option ℕ) (decimal : IsDecimal shown read) where
  -- A response to POST /generate that is described.
  abbrev IsGenerated : Response → Type 0
  IsGenerated r = is_described (shown r.status) r.body (generate_responses shown) ≡ true

  answer-IsGenerated :
      (o : Outcome) → IsTypedOutcome o → IsExplained o → Holds (answer shown o) IsGenerated
  unfolding answer failure_response
  answer-IsGenerated o t x = elim (Bool-cases o.succeeded) [
    | inl e ↦ rw e (generate_success shown read decimal o.text o.duration_ms t.text t.duration)
    | inr e ↦ rw e (let (f, a, b) = x e in rw a (generate_failure shown read decimal o f t b))
  ]

  outcome-IsGenerated :
      (r : Result Outcome)
      → Holds r IsTypedOutcome
      → ((o : Outcome) → r ≡ ok o → IsExplained o)
      → Holds (r >>= answer shown) IsGenerated
  outcome-IsGenerated (ok o) t x = answer-IsGenerated o t (x o refl)
  outcome-IsGenerated (raise e) t x = tt

  prompt-IsGenerated :
      (p : Pool) (q : Prompt) (acquired : Result Worker) (ran : Result Turn) (late : Bool)
      → Holds ran IsTypedTurn
      → Holds (generate_prompt shown p q acquired ran late).result IsGenerated
  unfolding generate_prompt
  prompt-IsGenerated p (rejected m) acquired ran late t = generate_error shown read decimal m
  prompt-IsGenerated p (accepted prompt limit) acquired ran late t =
      outcome-IsGenerated _ (execute-typed p acquired ran late t)
        (execute_reports p acquired ran late).explained

  module _ (config : PoolConfig) where
    answered_described :
        (o : Option Job)
        → IsTypedAnswer o
        → is_described
            (shown (job_response o).status)
            (job_response o).body
            (at shown read decimal config "GET" "/jobs/{job_id}")
          ≡ true
    answered_described none h = missing_described shown read decimal config
    answered_described (some j) h = job_described shown read decimal config j h

    removed_described :
        (o : Option Job)
        → IsTypedAnswer o
        → is_described
            (shown (job_response o).status)
            (job_response o).body
            (at shown read decimal config "DELETE" "/jobs/{job_id}")
          ≡ true
    removed_described none h = gone_described shown read decimal config
    removed_described (some j) h = cancelled_described shown read decimal config j h

    submitted_described :
        (now : ℕ) (id : String) (q : Prompt) (s : JobStore)
        → let r = (submit_prompt now id q s).1 in
          is_described (shown r.status) r.body (at shown read decimal config "POST" "/jobs") ≡ true
    unfolding submit_prompt submit
    submitted_described now id (rejected m) s = submit_error shown read decimal config m
    submitted_described now id (accepted prompt limit) s =
        submit_described shown read decimal config now id prompt (text_append "/jobs/" id) limit

  wrapped :
      (config : PoolConfig) (x : Result Response)
      → Holds x IsGenerated
      → Holds
          (x >>= (λ r. ok (json_answer r)))
          (IsAsDescribed shown (at shown read decimal config "POST" "/generate"))
  unfolding openapi_paths get_or
  wrapped config (ok r) h = h
  wrapped config (raise e) h = tt

  module _ (to_float : String → Option ℕ) (version : String) (shown_sec : ℕ → String) (r : Request)
      (m : Moment) (a : App) (typed : IsTypedApp a) (turn : Holds m.ran IsTypedTurn) where
    -- An answer of a handler that is as the document says of a route
    abbrev pub IsTold : Route → Type 0
    IsTold route =
        Holds (dispatch to_float version shown shown_sec route.handler r m a).1
          (IsAsDescribed shown (responses_of route (openapi_paths shown a.pool.config)))

    -- For every route of create_app but those of HEAD, whatever the request: an answer of its handler has a status that
    -- the OpenAPI document describes for this route, and its body has the form that the document gives
    -- for the status, down to the types of all fields. The conditions: in the worker's output, and so
    -- in the jobs and in the last error, the texts are texts and the durations whole numbers; `str` of
    -- a number can be read back, and writes four statuses in decimal.
    pub routes-IsTold : All IsTold (documented routes)
    unfolding dispatch routes generated handle_generate handle_submit_job handle_list_jobs
        handle_get_job handle_cancel_job get stats
    routes-IsTold =
        let config = a.pool.config in
        (
          wrapped config _ (prompt-IsGenerated a.pool _ m.acquired m.ran m.late turn),
          (
            health_described shown read decimal config (stats m.alive a.pool) (job_stats a.jobs)
                typed.last_error,
            (
              submitted_described config m.now m.new_id _ a.jobs,
              (
                list_described shown read decimal config _
                    (list_jobs-typed m.now a.jobs typed.jobs),
                (
                  answered_described config _ (find-typed r.job_id a.jobs.jobs typed.jobs),
                  (
                    removed_described config _ (cancel-typed m.now r.job_id a.jobs typed.jobs),
                    (
                      index_described shown read decimal config _,
                      (
                        docs_described shown read decimal config,
                        (openapi_described shown read decimal config _, tt),
                      ),
                    ),
                  ),
                ),
              ),
            ),
          ),
        )
