-- ===== src/Tests/AppTests.antt =====
-- Requests to the whole application of src/claude_pool/server.py, and its pages.
use claude_code_cli_local_ga.Prelude.{ℕ, zero, suc, String, true, false, All, [], ◌≡◌, refl}
use claude_code_cli_local_ga.Server.Routes.Typed.{IsDecimal, IsTypedApp}
use claude_code_cli_local_ga.Server.Routes.Conforming.{IsTold, routes-IsTold}
use claude_code_cli_local_ga.Tests.DocsTests.{status_text, read_status, status_text-exact}
use claude_code_cli_local_ga.Worker.{Turn}
use claude_code_cli_local_ga.ApiDocs.Info.{api_info}
use claude_code_cli_local_ga.ApiDocs.OpenApi.{openapi_paths}
use claude_code_cli_local_ga.ApiDocs.Responses.{fields_in}
use claude_code_cli_local_ga.ApiDocs.Page.{render_html}
use claude_code_cli_local_ga.ApiDocs.Page.Markup.{marks, render_html-marks}
use claude_code_cli_local_ga.Config.{PoolConfig}
use claude_code_cli_local_ga.Exn.{ok, raise, timed_out}
use claude_code_cli_local_ga.Jobs.{begin_task, submit, reap, delete_all, drop_expired}
use claude_code_cli_local_ga.Jobs.{put, terminals, sort_onto}
use claude_code_cli_local_ga.Jobs.Typed.{IsTypedStore, new_job-typed, end_task-typed}
use claude_code_cli_local_ga.Runner.{success}
use claude_code_cli_local_ga.Json.{get_or, obj, end, has_key, str, num, null}
use claude_code_cli_local_ga.Pool.{init}
use claude_code_cli_local_ga.Server.Routes.{App, Request, Moment, routes}
use claude_code_cli_local_ga.Server.Routes.Described.{
  is_described, is_labelled, is_routed, documented, routes_described,
}
use claude_code_cli_local_ga.Tests.HttpTests.{no_number, body, shown}
use claude_code_cli_local_ga.Tests.JobTests.{busy, done}
use claude_code_cli_local_ga.Tests.PoolTests.{config, worker}

routes_described_example :
    ((method path : String)
      → is_described method path (openapi_paths shown config)
        ≡ is_routed method path (documented routes))
    × ((label : String)
        → has_key label (fields_in (get_or "endpoints" (obj end) (api_info "1.0" shown config)))
          ≡ is_labelled label (documented routes))
routes_described_example = routes_described "1.0" shown config

-- An application with a job inside execute().
abbrev pub app : App
app = record { pool = init config 0; jobs = busy; released = [] }

abbrev request : Request
request = record { host = "127.0.0.1:8756"; body = body; job_id = "a" }

abbrev pub moment : Moment
moment = record {
  now = 15;
  new_id = "b";
  alive = λ _. true;
  acquired = ok worker;
  ran = raise timed_out;
  late = false;
}

shown-marks : (n : ℕ) → marks (shown n) ≡ []
unfolding shown marks
shown-marks zero = refl
shown-marks (suc n) = shown-marks n

-- A configuration with markup in a text.
abbrev hostile : PoolConfig
hostile = record config { model = "<script>" }

render_html-marks_example :
    marks (render_html "1.0" shown shown config) ≡ marks (render_html "1.0" shown shown hostile)
render_html-marks_example =
    render_html-marks shown shown shown-marks shown-marks "1.0" config hostile

abbrev turn : Turn
turn = record {
  text = str "hi";
  duration_ms = num 5;
  is_error = false;
  subtype = str "success";
  api_error_status = null;
  api_error_code = "";
}

-- A moment in which a worker has run to an end, in an application with a finished job.
abbrev later : Moment
later = record moment { ran = ok turn }

abbrev settled : App
settled = record app { jobs = done }

decimal : IsDecimal status_text read_status
unfolding status_text
decimal = record {
  exact = status_text-exact;
  ok_text = refl;
  accepted_text = refl;
  bad_text = refl;
  missing_text = refl;
}

busy-IsTypedStore : IsTypedStore busy
unfolding submit begin_task reap drop_expired terminals sort_onto delete_all put
busy-IsTypedStore = (new_job-typed 10 "a" "hello" 120, tt)

settled-IsTypedApp : IsTypedApp settled
unfolding init
settled-IsTypedApp = record {
  jobs =
      end_task-typed 20 "a" (ok (success (str "hi") (num 5))) busy
        (record { text = refl; duration = refl; error = refl }) busy-IsTypedStore;
  last_error = tt;
}

routes-IsTold_example :
    All
      (IsTold status_text read_status decimal no_number "1.0" shown request later settled
        settled-IsTypedApp
        (refl, refl))
      (documented routes)
routes-IsTold_example =
    routes-IsTold status_text read_status decimal no_number "1.0" shown request later settled
      settled-IsTypedApp (refl, refl)
