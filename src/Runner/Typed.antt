-- ===== src/Runner/Typed.antt =====
-- What execute of src/claude_pool/runner.py makes of a worker's output with values of the promised types.
use claude_code_cli_local_ga.Prelude.{
  Bool, true, false, ◌≡◌, refl, List, [], ◌∷◌, Bool-cases, inl, inr,
}
use claude_code_cli_local_ga.Json.{Json, str, num}
use claude_code_cli_local_ga.Exn.{
  Result, ok, raise, Holds, pool_unavailable, worker_error, timed_out,
}
use claude_code_cli_local_ga.Errors.{Failure}
use claude_code_cli_local_ga.Worker.{Turn}
use claude_code_cli_local_ga.Pool.{Pool, Worker}
use claude_code_cli_local_ga.ApiDocs.Conforms.{has_type}
use claude_code_cli_local_ga.Runner.{
  Outcome, Executed, execute, note, note_verdict, report_turn, interrupt,
}

abbrev pub IsText : Json → Type 0
IsText v = has_type "string" v ≡ true

abbrev pub IsInteger : Json → Type 0
IsInteger v = has_type "integer" v ≡ true

pub record IsTypedOutcome (o : Outcome) : Type 0 where
  pub text : IsText o.text
  pub duration : IsInteger o.duration_ms
  pub error : IsText o.error

-- A turn whose text and duration are what the documents say.
abbrev pub IsTypedTurn : Turn → Type 0
IsTypedTurn turn = IsText turn.text × IsInteger turn.duration_ms

note_verdict-typed :
    (p : Pool) (ws : List Worker) (error duration : Json) (v : Result Failure)
    → IsText error
    → IsInteger duration
    → Holds (note_verdict p ws error duration v).result IsTypedOutcome
unfolding note_verdict note
note_verdict-typed p ws error duration (ok f) e d = record { text = refl; duration = d; error = e }
note_verdict-typed p ws error duration (raise x) e d = tt

interrupt-typed :
    (late : Bool) (x : Executed)
    → Holds x.result IsTypedOutcome
    → Holds (interrupt late x).result IsTypedOutcome
interrupt-typed true x h = tt
interrupt-typed false x h = h

report_turn-typed :
    (p : Pool) (ws : List Worker) (turn : Turn)
    → IsTypedTurn turn
    → Holds (report_turn p ws turn).result IsTypedOutcome
unfolding report_turn note
report_turn-typed p ws turn h = elim (Bool-cases turn.is_error) [
  | inl e ↦ rw e (note_verdict-typed p ws turn.text turn.duration_ms _ h.0 h.1)
  | inr e ↦ rw e (record { text = h.0; duration = h.1; error = refl })
]

pub execute-typed :
    (p : Pool) (acquired : Result Worker) (ran : Result Turn) (late : Bool)
    → Holds ran IsTypedTurn
    → Holds (execute p acquired ran late).result IsTypedOutcome
unfolding execute note
execute-typed p (raise (pool_unavailable m)) ran late h = record {
  text = refl;
  duration = refl;
  error = refl;
}
execute-typed p (raise e) ran late h = tt
execute-typed p (ok w) (ok turn) true h = tt
execute-typed p (ok w) (ok turn) false h = report_turn-typed p (w ∷ []) turn h
execute-typed p (ok w) (raise timed_out) late h =
    interrupt-typed late _ (record { text = refl; duration = refl; error = refl })
execute-typed p (ok w) (raise (worker_error m)) late h =
    interrupt-typed late _ (note_verdict-typed p (w ∷ []) (str m) (num 0) _ refl refl)
execute-typed p (ok w) (raise e) late h = tt
