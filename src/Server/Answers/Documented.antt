-- ===== src/Server/Answers/Documented.antt =====
-- What a caller of src/claude_pool/server.py can rely on in an answer, and what
-- src/claude_pool/client.py reads in it.
use claude_code_cli_local_ga.Prelude.{
  Bool-cases, ℕ, String, Bool, true, false, Option, none, some, ◌≡◌, refl, ◌⊎◌, inl, inr, str_eq,
  ap, eq_iff,
}
use claude_code_cli_local_ga.Json.{Json, null, bool, str, end, field, field_if, truthy, get_or}
use claude_code_cli_local_ga.Exn.{Holds}
use claude_code_cli_local_ga.Errors.{Failure}
use claude_code_cli_local_ga.Pool.{Pool, Worker}
use claude_code_cli_local_ga.Runner.{Outcome}
use claude_code_cli_local_ga.ApiDocs.{failure_kinds, has_row}
use claude_code_cli_local_ga.Client.{error_from, header_delay}
use claude_code_cli_local_ga.Jobs.Report.{json_of}
use claude_code_cli_local_ga.Server.{Response}
use claude_code_cli_local_ga.Server.Answers.{failure_response, failure_body, header_of}

-- The status, the kind and the advice of a documented failure.
abbrev pub IsFailed : Response → Type 0
IsFailed r =
    (f : Failure) × (has_row f failure_kinds ≡ true)
    × (r.status ≡ f.status)
    × (get_or "kind" null r.body ≡ str f.kind)
    × (get_or "retryable" null r.body ≡ bool f.retryable)

abbrev pub IsDocumented : Response → Type 0
IsDocumented r = (r.status ≡ 200) ⊎ ((r.status ≡ 400) ⊎ IsFailed r)

module _ (digits : String → Option ℕ) (shown : ℕ → String) (blank : digits "" ≡ none)
    (read : (n : ℕ) → digits (shown n) ≡ some n) where
  shown_filled : (n : ℕ) → str_eq (shown n) "" ≡ false
  shown_filled n = elim (Bool-cases (str_eq (shown n) "")) [
    | inr e ↦ e
    | inl e ↦ absurd (cc (read n, blank, ap digits ((eq_iff (shown n) "").0 e)))
  ]

  delay_read : (o : Option ℕ) → header_delay digits (header_of shown o) ≡ json_of o
  unfolding header_delay
  delay_read none = refl
  delay_read (some n) = rw (shown_filled n, read n) refl

  undelayed :
      (b : Bool) (e d : Json) (f : Failure)
      → get_or "retry_after_sec" null (
          field "error" e (
            field "kind"
              (str f.kind)
              (field "retryable" (bool f.retryable) (field_if b "duration_ms" d end))))
        ≡ null
  unfolding get_or
  undelayed true e d f = refl
  undelayed false e d f = refl

  -- The error that the client raises for the server's answer to a failed outcome carries the
  -- outcome's error and its verdict's kind, retry advice and delay: the delay travels in the
  -- Retry-After header alone. The conditions: a number's text is read back, and "" is no number.
  pub error_from-failure_response :
      (code : ℕ) (o : Outcome) (f : Failure)
      → o.failure ≡ some f
      → Holds (failure_response shown o o.failure) (λ r.
        error_from digits shown code r.body r.retry_after ≡ record {
          message = o.error;
          kind = str f.kind;
          retryable = f.retryable;
          retry_after_sec = json_of f.retry_after_sec;
        })
  unfolding failure_response failure_body error_from get_or
  error_from-failure_response code o f e = rw e (
      rw (undelayed (truthy o.duration_ms) o.error o.duration_ms f)
        (rw (delay_read f.retry_after_sec) refl))
