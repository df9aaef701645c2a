-- ===== src/Client/Requests/Reached.antt =====
-- The requests of src/claude_pool/client.py at the routes of src/claude_pool/server.py.
use claude_code_cli_local_ga.Client.Requests.{
  call_request, base_url_of, Sent, job_path, generate_request, submit_request, job_request,
  jobs_request, cancel_request, health_request, api_info_request,
}
use claude_code_cli_local_ga.Server.Routes.{
  dispatch, respond, App, Moment, Request, Handler, generates, reports_health, submits_job,
  lists_jobs, gets_job, cancels_job, serves_index, routes,
}
use claude_code_cli_local_ga.Client.Requests.Web.{
  job_path-is_path, job_path-starts, number-no_colon, jobs-IsApart, first_match, is_name, IsWeb,
  Web, consists, is_segment, is_path, is_number, starts_with,
}
use claude_code_cli_local_ga.Exn.{Result}
use claude_code_cli_local_ga.Server.Guard.{IsPlain, require_loopback_host_lem, with_port}
use claude_code_cli_local_ga.Client.{prompt_payload}
use claude_code_cli_local_ga.Json.{Fields, Json, obj}
use claude_code_cli_local_ga.Config.{is_loopback_host}
use claude_code_cli_local_ga.Prelude.{
  ℕ, String, Bool, true, false, Option, none, some, ◌≡◌, refl, ◌∙◌, ap, text_append, str_eq,
}
use claude_code_cli_local_ga.Server.{Answer, require_loopback_host}

-- The calls of the client's methods. wait() only calls job().
pub data Call : Type 0 where
  asks_generate asks_submit : String → Option ℕ → Call
  asks_job asks_cancel : String → Call
  asks_jobs asks_health asks_info : Call

abbrev pub sent : String → Call → Sent
sent base (asks_generate prompt timeout) = generate_request base prompt timeout
sent base (asks_submit prompt timeout) = submit_request base prompt timeout
sent base (asks_job id) = job_request base id
sent base (asks_cancel id) = cancel_request base id
sent base asks_jobs = jobs_request base
sent base asks_health = health_request base
sent base asks_info = api_info_request base

-- The handler that a call is meant for, the object that it gives it, and the job that it names.
abbrev pub target : Call → Handler
target (asks_generate prompt timeout) = generates
target (asks_submit prompt timeout) = submits_job
target (asks_job id) = gets_job
target (asks_cancel id) = cancels_job
target asks_jobs = lists_jobs
target asks_health = reports_health
target asks_info = serves_index

abbrev pub given : Call → Option Json
given (asks_generate prompt timeout) = some (obj (prompt_payload prompt timeout))
given (asks_submit prompt timeout) = some (obj (prompt_payload prompt timeout))
given c = none

abbrev pub named : Call → String
named (asks_job id) = id
named (asks_cancel id) = id
named c = ""

-- A job id that a path can hold
abbrev pub IsId : String → Type 0
IsId id = (is_segment id ≡ true) × (str_eq id "" ≡ false)

abbrev pub IsSendable : Call → Type 0
IsSendable (asks_job id) = IsId id
IsSendable (asks_cancel id) = IsId id
IsSendable c = Unit

-- A daemon's address: a loopback name or address without brackets, and a port in digits
pub record IsLocal (ip : String → Option Bool) (digits : String → Bool) (host port : String)
    : Type 0 where
  pub loopback : is_loopback_host ip host ≡ true
  pub host_name : is_name host ≡ true
  pub plain : IsPlain host
  pub port_number : is_number port ≡ true
  pub port_digits : digits port ≡ true

-- The request of a call, as the daemon has it
abbrev pub request_of : String → String → Call → Request
request_of host port c = record {
  host = text_append host (text_append ":" port);
  body = given c;
  job_id = named c;
}

module _ (to_float : String → Option ℕ) (version : String) (shown shown_sec : ℕ → String)
    (ip : String → Option Bool) (digits : String → Bool) (repr : String → String) (web : Web) where
  abbrev object_of : Option Fields → Option Json
  object_of none = none
  object_of (some payload) = some (obj payload)

  abbrev resolved :
      String → Sent → Moment → App → Option (Handler × String) → Option (App × Result Answer)
  resolved header s m a none = none
  resolved header s m a (some (h, id)) = some (
      respond to_float version shown shown_sec ip digits repr h
        (record { host = header; body = object_of s.body; job_id = id }) m a)

  -- What the daemon does with a request that is sent to it, or `none` if no route takes it.
  abbrev pub received : Sent → Moment → App → Option (App × Result Answer)
  received s m a =
      resolved (web.parts s.url).0 s m a (web.resolve routes s.method (web.parts s.url).1)

  module _ (works : IsWeb web) (host port : String) (local : IsLocal ip digits host port)
      (m : Moment) (a : App) where
    let_in :
        (h : Handler) (r : Request)
        → r.host ≡ text_append host (text_append ":" port)
        → respond to_float version shown shown_sec ip digits repr h r m a
          ≡ dispatch to_float version shown shown_sec h r m a
    unfolding respond
    let_in h r e =
        ap
          (λ t.
            require_loopback_host ip digits repr t (dispatch to_float version shown shown_sec h r m)
              a)
          e
        ∙ (require_loopback_host_lem ip digits repr _ host
              (dispatch to_float version shown shown_sec h r m) a
              (with_port host port local.plain (number-no_colon port local.port_number)
                local.port_digits)
            ∙ rw local.loopback refl)

    -- A request whose path the router resolves passes the guard and reaches the handler.
    passes :
        (s : Sent) (path id : String) (h : Handler)
        → s.url ≡ text_append (base_url_of host port) path
        → is_path path ≡ true
        → starts_with "/" path ≡ true
        → web.resolve routes s.method path ≡ some (h, id)
        → received s m a
          ≡ some (
              dispatch to_float version shown shown_sec h
                (record {
                  host = text_append host (text_append ":" port);
                  body = object_of s.body;
                  job_id = id;
                })
                m
                a)
    unfolding respond
    passes s path id h e p starts found =
        ap (λ x. resolved x.0 s m a (web.resolve routes s.method x.1))
          (ap web.parts e ∙ works.parted host port path local.host_name local.port_number p starts)
        ∙ ap (resolved (text_append host (text_append ":" port)) s m a) found
        ∙ ap some (
            let_in h
              (record {
                host = text_append host (text_append ":" port);
                body = object_of s.body;
                job_id = id;
              })
              refl)

    to_fixed :
        (s : Sent) (path : String) (h : Handler)
        → s.url ≡ text_append (base_url_of host port) path
        → is_path path ≡ true
        → starts_with "/" path ≡ true
        → first_match routes s.method path ≡ some h
        → received s m a
          ≡ some (
              dispatch to_float version shown shown_sec h
                (record {
                  host = text_append host (text_append ":" port);
                  body = object_of s.body;
                  job_id = "";
                })
                m
                a)
    to_fixed s path h e p starts l =
        passes s path "" h e p starts (works.fixed routes s.method path h p l)

    to_job :
        (s : Sent) (id : String) (h : Handler)
        → s.url ≡ text_append (base_url_of host port) (job_path id)
        → IsId id
        → first_match routes s.method "/jobs/{job_id}" ≡ some h
        → received s m a
          ≡ some (
              dispatch to_float version shown shown_sec h
                (record {
                  host = text_append host (text_append ":" port);
                  body = object_of s.body;
                  job_id = id;
                })
                m
                a)
    unfolding consists
    to_job s id h e (segment, filled) l =
        passes s (job_path id) id h e (job_path-is_path id segment) (job_path-starts id)
          (works.filled routes s.method "/jobs/" id h refl jobs-IsApart l segment filled)

    -- Every call of the client's methods reaches the handler that it is meant for, with the object
    -- and the job id that the client was given, and passes the guard on the Host header. The
    -- conditions: the client's address is that of the daemon, a loopback host of letters, digits,
    -- ".", "-" and "_" only (so not ::1) and a port in digits; a job id is not empty and has
    -- letters, digits, - and _ only; urllib and the router do what they are documented to do.
    pub calls_reach :
        (c : Call)
        → IsSendable c
        → received (sent (base_url_of host port) c) m a
          ≡ some (dispatch to_float version shown shown_sec (target c) (request_of host port c) m a)
    unfolding routes first_match consists starts_with generate_request submit_request job_request
        jobs_request cancel_request health_request api_info_request call_request
    calls_reach (asks_generate prompt timeout) fit =
        to_fixed (sent (base_url_of host port) (asks_generate prompt timeout)) "/generate" generates
          refl refl refl refl
    calls_reach (asks_submit prompt timeout) fit =
        to_fixed (sent (base_url_of host port) (asks_submit prompt timeout)) "/jobs" submits_job
          refl refl refl refl
    calls_reach (asks_job id) fit =
        to_job (sent (base_url_of host port) (asks_job id)) id gets_job refl fit refl
    calls_reach (asks_cancel id) fit =
        to_job (sent (base_url_of host port) (asks_cancel id)) id cancels_job refl fit refl
    calls_reach asks_jobs fit =
        to_fixed (sent (base_url_of host port) asks_jobs) "/jobs" lists_jobs refl refl refl refl
    calls_reach asks_health fit =
        to_fixed (sent (base_url_of host port) asks_health) "/health" reports_health refl refl refl
          refl
    calls_reach asks_info fit =
        to_fixed (sent (base_url_of host port) asks_info) "/" serves_index refl refl refl refl
