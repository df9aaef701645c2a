-- ===== src/Server/Routes.antt =====
-- create_app of src/claude_pool/server.py: its routes, and what a handler does to the application. The
-- router of the web framework is no part of it: a request comes here with the handler that it found.
-- `version`, `shown` and `shown_sec` are as in ApiDocs.
pub mod Described
pub mod Typed
pub mod Conforming
use claude_code_cli_local_ga.Prelude.{ℕ, String, Bool, Option, none, some, List, [], ◌∷◌, ◌++◌}
use claude_code_cli_local_ga.Json.{Json}
use claude_code_cli_local_ga.Exn.{Result, ok, ◌>>=◌}
use claude_code_cli_local_ga.Config.{PoolConfig}
use claude_code_cli_local_ga.Worker.{Turn}
use claude_code_cli_local_ga.Pool.{Pool, Worker}
use claude_code_cli_local_ga.Pool.Health.{stats}
use claude_code_cli_local_ga.Jobs.{JobStore}
use claude_code_cli_local_ga.Jobs.{stats as job_stats}
use claude_code_cli_local_ga.Server.{
  Response, Answer, json_answer, html_page, json_response, require_loopback_host,
}
use claude_code_cli_local_ga.Server.Answers.{
  Handled, handle_generate, handle_submit_job, handle_get_job, handle_list_jobs, handle_cancel_job,
  handle_health,
}
use claude_code_cli_local_ga.ApiDocs.Info.{api_info}
use claude_code_cli_local_ga.ApiDocs.OpenApi.{openapi_spec}
use claude_code_cli_local_ga.ApiDocs.Page.{render_html}

-- The handlers by name.
pub data Handler : Type 0 where
  generates reports_health submits_job lists_jobs gets_job cancels_job : Handler
  serves_index serves_docs serves_openapi : Handler

pub record Route : Type 0 where
  pub method : String
  pub path : String
  pub handler : Handler

abbrev add_post : String → Handler → List Route
add_post path handler = record { method = "POST"; path = path; handler = handler } ∷ []

-- add_get of the framework also routes HEAD.
abbrev add_get : String → Handler → List Route
add_get path handler =
    record { method = "HEAD"; path = path; handler = handler }
    ∷ record { method = "GET"; path = path; handler = handler }
    ∷ []

abbrev add_delete : String → Handler → List Route
add_delete path handler = record { method = "DELETE"; path = path; handler = handler } ∷ []

unfoldable pub routes : List Route
routes =
    add_post "/generate" generates
    ++ add_get "/health" reports_health
    ++ add_post "/jobs" submits_job
    ++ add_get "/jobs" lists_jobs
    ++ add_get "/jobs/{job_id}" gets_job
    ++ add_delete "/jobs/{job_id}" cancels_job
    ++ add_get "/" serves_index
    ++ add_get "/docs" serves_docs
    ++ add_get "/openapi.json" serves_openapi

-- The application, with the workers whose release its requests have scheduled.
pub record App : Type 0 where
  pub pool : Pool
  pub jobs : JobStore
  pub released : List Worker

-- The store that create_app is given, or a new one
unfoldable pub store_for : PoolConfig → Option JobStore → JobStore
store_for config (some jobs) = jobs
store_for config none = record {
  retention_sec = config.job_retention_sec;
  max_jobs = config.max_jobs;
  jobs = [];
  tasks = [];
}

unfoldable pub create_app : Pool → Option JobStore → App
unfolding store_for
create_app pool jobs = record { pool = pool; jobs = store_for pool.config jobs; released = [] }

-- A request: its Host header, its body as `request.json()` reads it, and the `job_id` of its path.
pub record Request : Type 0 where
  pub host : String
  pub body : Option Json
  pub job_id : String

-- What the host gives while the request is handled: the time, the id that `submit` draws, the
-- processes that is_alive() takes to run, and how a worker is acquired and run.
pub record Moment : Type 0 where
  pub now : ℕ
  pub new_id : String
  pub alive : ℕ → Bool
  pub acquired : Result Worker
  pub ran : Result Turn
  pub late : Bool

abbrev answers : JobStore × Response → App → App × Result Answer
answers (jobs, response) a = (record a { jobs = jobs }, ok (json_answer response))

module _ (to_float : String → Option ℕ) (version : String) (shown shown_sec : ℕ → String) where
  -- What handle_generate leaves, when nothing else runs meanwhile
  unfoldable pub generated : Handled → App → App × Result Answer
  generated h a = (
    record a { pool = h.pool; released = a.released ++ h.released },
    h.result >>= (λ r. ok (json_answer r)),
  )

  unfoldable pub dispatch : Handler → Request → Moment → App → App × Result Answer
  unfolding generated
  dispatch generates r m a =
      generated (handle_generate to_float shown a.pool r.body m.acquired m.ran m.late) a
  dispatch reports_health r m a =
      (a, ok (json_answer (handle_health (stats m.alive a.pool) (job_stats a.jobs))))
  dispatch submits_job r m a =
      answers
        (handle_submit_job to_float a.pool.config.default_timeout_sec m.now m.new_id r.body a.jobs)
        a
  dispatch lists_jobs r m a = answers (handle_list_jobs m.now a.jobs) a
  dispatch gets_job r m a = (a, ok (json_answer (handle_get_job r.job_id a.jobs)))
  dispatch cancels_job r m a = answers (handle_cancel_job m.now r.job_id a.jobs) a
  dispatch serves_index r m a =
      (a, ok (json_answer (json_response 200 (api_info version shown a.pool.config))))
  dispatch serves_docs r m a =
      (a, ok (html_page (render_html version shown shown_sec a.pool.config)))
  dispatch serves_openapi r m a =
      (a, ok (json_answer (json_response 200 (openapi_spec version shown a.pool.config))))

  -- A handler behind the middleware
  module _ (ip : String → Option Bool) (digits : String → Bool) (repr : String → String) where
    unfoldable pub respond : Handler → Request → Moment → App → App × Result Answer
    unfolding dispatch
    respond handler r m a = require_loopback_host ip digits repr r.host (dispatch handler r m) a
