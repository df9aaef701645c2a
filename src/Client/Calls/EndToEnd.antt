-- ===== src/Client/Calls/EndToEnd.antt =====
-- A prompt on its whole way: src/claude_pool/client.py, server.py and runner.py, and back.
use claude_code_cli_local_ga.Prelude.{
  inr, inl, ◌⊎◌, Bool-cases, ℕ, String, Bool, true, false, Option, none, some, ◌≡◌, refl, str_eq,
  arith, ap, sym, subst,
}
use claude_code_cli_local_ga.Json.{Json, str, obj, field, end}
use claude_code_cli_local_ga.Exn.{Result, ok, Returns, Holds}
use claude_code_cli_local_ga.Errors.{Failure}
use claude_code_cli_local_ga.Worker.{Turn}
use claude_code_cli_local_ga.Pool.{Pool, Worker}
use claude_code_cli_local_ga.Runner.{Outcome, execute}
use claude_code_cli_local_ga.Runner.Lifecycle.{IsExplained, execute_reports}
use claude_code_cli_local_ga.ApiDocs.{failure_kinds, has_row}
use claude_code_cli_local_ga.Client.{ClaudePoolError, prompt_payload, item, error_from}
use claude_code_cli_local_ga.Client.Calls.{Called, gave, denied, generate, call, entry, is_success}
use claude_code_cli_local_ga.Jobs.Report.{json_of}
use claude_code_cli_local_ga.Server.{Response, json_response}
use claude_code_cli_local_ga.Server.Guard.{read-payload}
use claude_code_cli_local_ga.Server.Answers.{
  answer, failure_response, handle_generate, generate_prompt,
}
use claude_code_cli_local_ga.Server.Answers.Documented.{error_from-failure_response}

-- No documented failure has a status that a client takes for a success.
failed_status : (f : Failure) → has_row f failure_kinds ≡ true → is_success f.status ≡ false
unfolding has_row failure_kinds
failed_status f h = ground (arith)

abbrev pub error_of : Json → Failure → ClaudePoolError
error_of message f = record {
  message = message;
  kind = str f.kind;
  retryable = f.retryable;
  retry_after_sec = json_of f.retry_after_sec;
}

-- What the caller of generate() is told of an outcome.
abbrev pub IsTold : Outcome → Called Json → Type 0
IsTold o c =
    ((o.succeeded ≡ true) × (c ≡ gave o.text))
    ⊎ ((f : Failure) × (o.succeeded ≡ false)
        × (o.failure ≡ some f)
        × (c ≡ denied (error_of o.error f)))

answer_cases :
    (shown : ℕ → String) (o : Outcome) (P : Response → Type 0)
    → (o.succeeded ≡ true
        → P (json_response 200 (field "text" o.text (field "duration_ms" o.duration_ms end))))
    → (o.succeeded ≡ false → Returns (failure_response shown o o.failure) P)
    → Returns (answer shown o) P
unfolding answer
answer_cases shown o P good bad = elim (Bool-cases o.succeeded) [
  | inl e ↦ rw (answer, e) (good e)
  | inr e ↦ rw (answer, e) (bad e)
]

module _ (digits : String → Option ℕ) (shown : ℕ → String) (blank : digits "" ≡ none)
    (read : (n : ℕ) → digits (shown n) ≡ some n) where
  denied_of :
      (r : Response) (e : ClaudePoolError)
      → is_success r.status ≡ false
      → error_from digits shown r.status r.body r.retry_after ≡ e
      → generate digits shown r ≡ denied e
  unfolding generate call entry
  denied_of r e h q = rw h (ap denied q)

  failure-IsTold :
      (o : Outcome) (f : Failure)
      → o.failure ≡ some f
      → has_row f failure_kinds ≡ true
      → Returns
          (failure_response shown o (some f))
          (λ r. generate digits shown r ≡ denied (error_of o.error f))
  unfolding failure_response
  failure-IsTold o f e h = denied_of _ (error_of o.error f) (failed_status f h) (
      subst
        (λ v.
          Holds (failure_response shown o v)
            (λ r. error_from digits shown f.status r.body r.retry_after ≡ error_of o.error f))
        e (error_from-failure_response digits shown blank read f.status o f e))

  answer-IsTold :
      (o : Outcome)
      → IsExplained o
      → Returns (answer shown o) (λ r. IsTold o (generate digits shown r))
  unfolding generate call entry item failure_response
  answer-IsTold o h =
      answer_cases shown o (λ r. IsTold o (generate digits shown r)) (λ e. inl (e, refl))
        (λ e.
          let (f, a, b) = h e in
          subst
            (λ v. Returns (failure_response shown o v) (λ r. IsTold o (generate digits shown r)))
            (sym a) (told_failure o f e a (failure-IsTold o f a b)))
    where
      told_failure :
          (o : Outcome) (f : Failure)
          → o.succeeded ≡ false
          → o.failure ≡ some f
          → Returns
              (failure_response shown o (some f))
              (λ r. generate digits shown r ≡ denied (error_of o.error f))
          → Returns (failure_response shown o (some f)) (λ r. IsTold o (generate digits shown r))
      told_failure o f e a t = inr (f, e, a, t)

  -- A prompt that is not empty, sent by the client and run by the server: whatever outcome
  -- execute() returns, the server answers, and the client's generate() returns the text of a
  -- success, and for a failure raises the error with the outcome's message and its verdict's kind,
  -- retry advice and delay. The conditions: a number's text is read back, and "" is no number.
  pub generate-IsTold :
      (to_float : String → Option ℕ) (p : Pool) (prompt : String) (timeout : Option ℕ)
      (acquired : Result Worker) (ran : Result Turn) (late : Bool) (o : Outcome)
      → str_eq prompt "" ≡ false
      → (execute p acquired ran late).result ≡ ok o
      → Returns
          (handle_generate to_float shown p
            (some (obj (prompt_payload prompt timeout)))
            acquired
            ran
            late).result
          (λ r. IsTold o (generate digits shown r))
  unfolding handle_generate generate_prompt
  generate-IsTold to_float p prompt timeout acquired ran late o n e =
      rw (read-payload to_float p.config.default_timeout_sec prompt timeout n, e)
        (answer-IsTold o ((execute_reports p acquired ran late).explained o e))
