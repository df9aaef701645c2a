-- ===== src/Runner/Lifecycle.antt =====
-- What every call of execute in src/claude_pool/runner.py guarantees to the pool and to its caller.
use claude_code_cli_local_ga.Pool.{note_failure, note_success, Pool, Worker}
use claude_code_cli_local_ga.Prelude.{
  subst, ◌⊎◌, inl, inr, Bool-cases, ◌≡◌, refl, String, Bool, true, false, none, some, List, [], ◌∷◌,
  arith, if◌then◌else◌,
}
use claude_code_cli_local_ga.Runner.{
  timeout_outcome, Outcome, Executed, note_verdict, report_turn, reraise, interrupt, execute, note,
}
use claude_code_cli_local_ga.Errors.Verdict.{classify_values}
use claude_code_cli_local_ga.Errors.{
  rate_limited, not_authenticated, worker_failed, Failure, classify,
}
use claude_code_cli_local_ga.Json.{Json, null, str, num}
use claude_code_cli_local_ga.Exn.{
  Exn, Result, ok, raise, pool_unavailable, worker_error, timed_out, cancelled, unexpected,
}
use claude_code_cli_local_ga.Worker.{Turn}
use claude_code_cli_local_ga.ApiDocs.{failure_kinds, has_row}

-- The workers that `acquire` handed over.
abbrev pub received : Result Worker → List Worker
received (ok w) = w ∷ []
received (raise e) = []

-- A failed outcome has a verdict that the daemon documents.
abbrev pub IsExplained : Outcome → Type 0
IsExplained o =
    (o.succeeded ≡ false) → (f : Failure) × (o.failure ≡ some f) × (has_row f failure_kinds ≡ true)

-- What a call that returns has done to the pool that it found when it noted its outcome: one field
-- is written. A failed outcome is explained.
pub record IsReported (p : Pool) (x : Executed) : Type 0 where
  pub noted :
      (o : Outcome)
      → x.result ≡ ok o
      → x.pool ≡ record p { last_error = if o.succeeded then none else some o.error }
  pub explained : (o : Outcome) → x.result ≡ ok o → IsExplained o

classify-has_row :
    (status : Json) (code : String) (f : Failure)
    → classify status code ≡ ok f
    → has_row f failure_kinds ≡ true
unfolding has_row failure_kinds
classify-has_row status code f h = by_value (classify_values status code f h)
  where
    by_value :
        (f ≡ rate_limited) ⊎ ((f ≡ not_authenticated) ⊎ (f ≡ worker_failed))
        → has_row f failure_kinds ≡ true
    by_value (inl e) = rw e
    by_value (inr (inl e)) = rw e
    by_value (inr (inr e)) = rw e

note_verdict-released :
    (p : Pool) (ws : List Worker) (error duration : Json) (v : Result Failure)
    → (note_verdict p ws error duration v).released ≡ ws
unfolding note_verdict
note_verdict-released p ws error duration (ok f) = refl
note_verdict-released p ws error duration (raise e) = refl

report_turn-released :
    (p : Pool) (ws : List Worker) (turn : Turn) → (report_turn p ws turn).released ≡ ws
unfolding report_turn
report_turn-released p ws turn = ground (
  arith,
  note_verdict-released p ws turn.text turn.duration_ms
      (classify turn.api_error_status turn.api_error_code),
)

-- However acquire and run end, and whenever the caller is cancelled: the release of exactly the
-- worker that acquire handed over is scheduled, once, and of no other.
pub execute_releases :
    (p : Pool) (acquired : Result Worker) (ran : Result Turn) (late : Bool)
    → (execute p acquired ran late).released ≡ received acquired
unfolding execute classify
execute_releases p (raise e) ran late = ground arith
execute_releases p (ok w) (raise e) late = ground arith
execute_releases p (ok w) (ok turn) late = ground (arith, report_turn-released p (w ∷ []) turn)

note-noted :
    (p : Pool) (o : Outcome) (ws : List Worker)
    → (note p o ws).pool ≡ record p { last_error = if o.succeeded then none else some o.error }
unfolding note note_success note_failure
note-noted p o ws = elim (Bool-cases o.succeeded) [ inl e ↦ rw e refl | inr e ↦ rw e refl ]

note-IsReported :
    (p : Pool) (o : Outcome) (ws : List Worker) → IsExplained o → IsReported p (note p o ws)
unfolding note
note-IsReported p o ws h = record {
  noted = λ q e.
      let same : o ≡ q = cc in
      subst
        (λ z.
          (note p o ws).pool ≡ record p { last_error = if z.succeeded then none else some z.error })
        same (note-noted p o ws);
  explained = λ q e. let same : o ≡ q = cc in subst IsExplained same h;
}

reraise-IsReported : (e : Exn) (p : Pool) (ws : List Worker) → IsReported p (reraise e p ws)
reraise-IsReported e p ws = record { noted = λ o h. cc; explained = λ o h. cc }

note_verdict-IsReported :
    (p : Pool) (ws : List Worker) (error duration status : Json) (code : String)
    (v : Result Failure)
    → classify status code ≡ v
    → IsReported p (note_verdict p ws error duration v)
unfolding note_verdict
note_verdict-IsReported p ws error duration status code (ok f) h =
    note-IsReported p _ ws (λ _. (f, refl, classify-has_row status code f h))
note_verdict-IsReported p ws error duration status code (raise e) h = reraise-IsReported e p ws

interrupt-IsReported :
    (p : Pool) (late : Bool) (x : Executed) → IsReported p x → IsReported p (interrupt late x)
interrupt-IsReported p true x h = record { noted = λ o e. cc; explained = λ o e. cc }
interrupt-IsReported p false x h = h

report_turn-IsReported :
    (p : Pool) (ws : List Worker) (turn : Turn) → IsReported p (report_turn p ws turn)
unfolding report_turn
report_turn-IsReported p ws turn = elim (Bool-cases turn.is_error) [
  | inl e ↦ rw e (
      note_verdict-IsReported p ws turn.text turn.duration_ms turn.api_error_status
        turn.api_error_code _ refl)
  | inr e ↦ rw e (note-IsReported p _ ws (λ h. cc))
]

-- Whenever a call returns an outcome, all that it has done to the pool that it found when it noted
-- this outcome is one write: `last_error` is cleared if the outcome is a success, and is the
-- outcome's error if it is not. A failed outcome carries a verdict, which stands with its status and
-- its retry advice in the table of failures that the daemon documents.
pub execute_reports :
    (p : Pool) (acquired : Result Worker) (ran : Result Turn) (late : Bool)
    → IsReported p (execute p acquired ran late)
unfolding execute has_row failure_kinds
execute_reports p (raise (pool_unavailable m)) ran late =
    note-IsReported p _ [] (λ _. (_, refl, refl))
execute_reports p (raise (worker_error m)) ran late = reraise-IsReported _ p []
execute_reports p (raise timed_out) ran late = reraise-IsReported _ p []
execute_reports p (raise cancelled) ran late = reraise-IsReported _ p []
execute_reports p (raise (unexpected m)) ran late = reraise-IsReported _ p []
execute_reports p (ok w) (ok turn) true = reraise-IsReported _ p (w ∷ [])
execute_reports p (ok w) (ok turn) false = report_turn-IsReported p (w ∷ []) turn
execute_reports p (ok w) (raise timed_out) late =
    interrupt-IsReported p late (note p timeout_outcome (w ∷ []))
      (note-IsReported p timeout_outcome (w ∷ []) (λ _. (_, refl, refl)))
execute_reports p (ok w) (raise (worker_error m)) late =
    interrupt-IsReported p late (note_verdict p (w ∷ []) (str m) (num 0) (classify null ""))
      (note_verdict-IsReported p (w ∷ []) (str m) (num 0) null "" _ refl)
execute_reports p (ok w) (raise cancelled) late = reraise-IsReported _ p (w ∷ [])
execute_reports p (ok w) (raise (pool_unavailable m)) late = reraise-IsReported _ p (w ∷ [])
execute_reports p (ok w) (raise (unexpected m)) late = reraise-IsReported _ p (w ∷ [])
