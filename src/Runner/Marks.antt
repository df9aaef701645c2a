-- ===== src/Runner/Marks.antt =====
-- What execute of src/claude_pool/runner.py changes of the pool.
use claude_code_cli_local_ga.Runner.{
  after_run, success, Outcome, Executed, note, note_verdict, report_turn, interrupt, execute,
  timeout_outcome, failed,
}
use claude_code_cli_local_ga.Prelude.{Bool, true, false, List, [], ◌∷◌, if◌then◌else◌}
use claude_code_cli_local_ga.Json.{Json, null, str, num}
use claude_code_cli_local_ga.Exn.{
  Result, ok, raise, pool_unavailable, worker_error, timed_out, cancelled, unexpected,
}
use claude_code_cli_local_ga.Errors.{failure, Failure, classify}
use claude_code_cli_local_ga.Worker.{Turn}
use claude_code_cli_local_ga.Pool.{Pool, Worker, note_failure, note_success}

-- The most that a call does to the pool itself: it leaves its mark for /health.
pub data IsMark (p : Pool) : Pool → Type 0 where
  unmarked : IsMark p p
  failed_mark : (error : Json) → IsMark p (note_failure error p)
  success_mark : IsMark p (note_success p)

note-IsMark : (p : Pool) (o : Outcome) (ws : List Worker) → IsMark p (note p o ws).pool
unfolding note
note-IsMark p o ws =
    elim o.succeeded as (λ b. IsMark p (if b then note_success p else note_failure o.error p)) [
      | true ↦ success_mark
      | false ↦ failed_mark o.error
    ]

note_verdict-IsMark :
    (p : Pool) (ws : List Worker) (error duration : Json) (v : Result Failure)
    → IsMark p (note_verdict p ws error duration v).pool
unfolding note_verdict
note_verdict-IsMark p ws error duration (ok f) = note-IsMark p (failed error f duration) ws
note_verdict-IsMark p ws error duration (raise e) = unmarked

report_turn-IsMark :
    (p : Pool) (ws : List Worker) (turn : Turn) → IsMark p (report_turn p ws turn).pool
unfolding report_turn
report_turn-IsMark p ws turn =
    elim turn.is_error
      as (λ b.
        IsMark p
          (if b
            then note_verdict p ws turn.text turn.duration_ms
                (classify turn.api_error_status turn.api_error_code)
            else note p (success turn.text turn.duration_ms) ws).pool) [
              | true ↦
                  note_verdict-IsMark p ws turn.text turn.duration_ms
                    (classify turn.api_error_status turn.api_error_code)
              | false ↦ note-IsMark p (success turn.text turn.duration_ms) ws
            ]

interrupt-IsMark :
    (late : Bool) (p : Pool) (x : Executed) → IsMark p x.pool → IsMark p (interrupt late x).pool
interrupt-IsMark true p x h = h
interrupt-IsMark false p x h = h

after_run-IsMark :
    (p : Pool) (ws : List Worker) (late : Bool) (ran : Result Turn)
    → IsMark p (after_run p ws late ran).pool
unfolding after_run
after_run-IsMark p ws true (ok turn) = unmarked
after_run-IsMark p ws false (ok turn) = report_turn-IsMark p ws turn
after_run-IsMark p ws late (raise timed_out) =
    interrupt-IsMark late p _ (note-IsMark p timeout_outcome ws)
after_run-IsMark p ws late (raise (worker_error m)) =
    interrupt-IsMark late p _ (note_verdict-IsMark p ws (str m) (num 0) (classify null ""))
after_run-IsMark p ws late (raise cancelled) = unmarked
after_run-IsMark p ws late (raise (pool_unavailable m)) = unmarked
after_run-IsMark p ws late (raise (unexpected m)) = unmarked

pub execute-IsMark :
    (p : Pool) (acquired : Result Worker) (ran : Result Turn) (late : Bool)
    → IsMark p (execute p acquired ran late).pool
unfolding execute
execute-IsMark p (ok w) ran late = after_run-IsMark p (w ∷ []) late ran
execute-IsMark p (raise (pool_unavailable m)) ran late =
    note-IsMark p (failed (str m) (failure "pool_unavailable" 503 true) (num 0)) []
execute-IsMark p (raise timed_out) ran late = unmarked
execute-IsMark p (raise (worker_error m)) ran late = unmarked
execute-IsMark p (raise cancelled) ran late = unmarked
execute-IsMark p (raise (unexpected m)) ran late = unmarked
