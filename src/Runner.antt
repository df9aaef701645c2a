-- ===== src/Runner.antt =====
-- src/claude_pool/runner.py: one prompt from acquire to release. How `acquire` and `worker.run` end is
-- given; so is whether the caller is cancelled while it awaits the shielded release.
pub mod Lifecycle
pub mod Typed
pub mod Marks
pub mod Serving
use claude_code_cli_local_ga.Prelude.{
  ℕ, String, Bool, true, false, Option, none, some, List, [], ◌∷◌, if◌then◌else◌,
}
use claude_code_cli_local_ga.Json.{Json, null, str, num}
use claude_code_cli_local_ga.Exn.{
  Exn, Result, ok, raise, pool_unavailable, worker_error, timed_out, cancelled, unexpected,
}
use claude_code_cli_local_ga.Errors.{Failure, failure, classify}
use claude_code_cli_local_ga.Worker.{Turn}
use claude_code_cli_local_ga.Pool.{Pool, Worker, note_failure, note_success}

pub record Outcome : Type 0 where
  pub succeeded : Bool
  pub text : Json
  pub duration_ms : Json
  pub error : Json
  pub failure : Option Failure

-- Outcome.ok and Outcome.failed
abbrev pub success : Json → Json → Outcome
success text duration = record {
  succeeded = true;
  text = text;
  duration_ms = duration;
  error = str "";
  failure = none;
}

abbrev pub failed : Json → Failure → Json → Outcome
failed error f duration = record {
  succeeded = false;
  text = str "";
  duration_ms = duration;
  error = error;
  failure = some f;
}

abbrev pub timeout_outcome : Outcome
timeout_outcome = failed (str "worker timed out") (failure "timeout" 504 true) (num 0)

-- What a call leaves: its result, the pool, and the workers whose release it has scheduled.
pub record Executed : Type 0 where
  pub result : Result Outcome
  pub pool : Pool
  pub released : List Worker

-- _note
unfoldable pub note : Pool → Outcome → List Worker → Executed
unfolding note_failure note_success
note p outcome ws = record {
  result = ok outcome;
  pool = if outcome.succeeded then note_success p else note_failure outcome.error p;
  released = ws;
}

abbrev pub reraise : Exn → Pool → List Worker → Executed
reraise e p ws = record { result = raise e; pool = p; released = ws }

-- `_note(pool, Outcome.failed(error, verdict, duration))`, where the verdict may raise
note_verdict : Pool → List Worker → Json → Json → Result Failure → Executed
unfolding note
note_verdict p ws error duration (ok f) = note p (failed error f duration) ws
note_verdict p ws error duration (raise e) = reraise e p ws

-- The code below the `finally`.
report_turn : Pool → List Worker → Turn → Executed
unfolding note note_verdict
report_turn p ws turn =
    if turn.is_error
    then note_verdict p ws turn.text turn.duration_ms
        (classify turn.api_error_status turn.api_error_code)
    else note p (success turn.text turn.duration_ms) ws

-- The `try` around worker.run. Its handlers run before the `finally`, so a caller that is cancelled
-- in the `finally` has its failure noted, and gets the CancelledError.
abbrev interrupt : Bool → Executed → Executed
interrupt late x = if late then record x { result = raise cancelled } else x

after_run : Pool → List Worker → Bool → Result Turn → Executed
unfolding report_turn note note_verdict
after_run p ws late (ok turn) = if late then reraise cancelled p ws else report_turn p ws turn
after_run p ws late (raise timed_out) = interrupt late (note p timeout_outcome ws)
after_run p ws late (raise (worker_error m)) =
    interrupt late (note_verdict p ws (str m) (num 0) (classify null ""))
after_run p ws late (raise cancelled) = reraise cancelled p ws
after_run p ws late (raise (pool_unavailable m)) =
    reraise (if late then cancelled else pool_unavailable m) p ws
after_run p ws late (raise (unexpected m)) = reraise (if late then cancelled else unexpected m) p ws

-- The pool is the one that the outcome is noted in, with the note. What acquire() and release() do to
-- it, and what other tasks do before the note or while a failed call awaits its release, are steps
-- of Pool/System.
unfoldable pub execute : Pool → Result Worker → Result Turn → Bool → Executed
unfolding after_run note
execute p (ok w) ran late = after_run p (w ∷ []) late ran
execute p (raise (pool_unavailable m)) ran late =
    note p (failed (str m) (failure "pool_unavailable" 503 true) (num 0)) []
execute p (raise e) ran late = reraise e p []
