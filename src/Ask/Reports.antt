-- ===== src/Ask/Reports.antt =====
-- scripts/ask.py on top of the client, the server and the runner.
use claude_code_cli_local_ga.Prelude.{
  refl, Option-cases, ◌∙◌, if◌then◌else◌, Option-cases, text_append, ◌∙◌, ℕ, String, Bool, true,
  false, Option, none, some, List, ◌≡◌, ◌⊎◌, inl, inr, str_eq, ap,
}
use claude_code_cli_local_ga.Json.{num, str, Json, obj}
use claude_code_cli_local_ga.Ask.{
  detail, Asked, wrote, join, main, try_generate, report, error_line,
}
use claude_code_cli_local_ga.Exn.{Result, ok, raise, Returns}
use claude_code_cli_local_ga.Errors.{Failure}
use claude_code_cli_local_ga.Worker.{Turn}
use claude_code_cli_local_ga.Pool.{Pool, Worker}
use claude_code_cli_local_ga.Runner.{Outcome, execute}
use claude_code_cli_local_ga.Client.{prompt_payload}
use claude_code_cli_local_ga.Client.Calls.{Called, gave, generate}
use claude_code_cli_local_ga.Client.Calls.EndToEnd.{IsTold, error_of, generate-IsTold}
use claude_code_cli_local_ga.Server.{Response}
use claude_code_cli_local_ga.Server.Answers.{handle_generate}

abbrev delay_text : (Json → String) → Option ℕ → String
delay_text shown none = ""
delay_text shown (some n) = text_append " retry_after_sec=" (shown (num n))

-- "<message> (kind=<kind> retryable=<True or False>[ retry_after_sec=<delay>])"
abbrev pub failure_line : (Json → String) → Json → Failure → String
failure_line shown message f = text_append (shown message) (
    text_append " (" (
      text_append
        (text_append "kind=" (
          text_append (shown (str f.kind)) (
            text_append " retryable=" (
              text_append (if f.retryable then "True" else "False")
                (delay_text shown f.retry_after_sec)))))
        ")"))

error_line-of :
    (shown : Json → String) (message : Json) (f : Failure)
    → error_line shown (error_of message f) ≡ failure_line shown message f
unfolding error_line detail
error_line-of shown message f = elim (Option-cases f.retry_after_sec) [
  | inl e ↦ rw e refl
  | inr (n, e) ↦ rw e refl
]

-- What the command writes of an outcome.
abbrev pub IsAsked : (Json → String) → Outcome → Asked → Type 0
IsAsked shown o a =
    ((o.succeeded ≡ true) × (a ≡ wrote 0 (shown o.text)))
    ⊎ ((f : Failure) × (o.succeeded ≡ false)
        × (o.failure ≡ some f)
        × (a ≡ wrote 1 (failure_line shown o.error f)))

Returns-map :
    (r : Result Response) (P Q : Response → Type 0)
    → ((a : Response) → P a → Q a)
    → Returns r P
    → Returns r Q
Returns-map (ok a) P Q h p = h a p
Returns-map (raise e) P Q h p = p

report-IsAsked :
    (shown : Json → String) (o : Outcome) (c : Called Json)
    → IsTold o c
    → IsAsked shown o (report shown c)
unfolding report
report-IsAsked shown o c (inl (s, e)) = inl (s, ap (report shown) e)
report-IsAsked shown o c (inr (f, s, v, e)) =
    inr (f, s, v, ap (report shown) e ∙ ap (wrote 1) (error_line-of shown o.error f))

-- The command ask.py with a prompt that is not blank, and a daemon that the client reaches: whatever
-- outcome execute() returns, the command ends with 0 and the text of a success, or with 1 and the
-- message of a failure with its verdict's kind, retry advice and delay. The conditions: the text of a
-- number is read back, and "" is no number.
pub main-IsAsked :
    (digits : String → Option ℕ) (shown : ℕ → String) (shown_json : Json → String)
    (strip : String → String) (to_float : String → Option ℕ) (args : List String) (p : Pool)
    (acquired : Result Worker) (ran : Result Turn) (late : Bool) (o : Outcome)
    → digits "" ≡ none
    → ((n : ℕ) → digits (shown n) ≡ some n)
    → str_eq (strip (join args)) "" ≡ false
    → (execute p acquired ran late).result ≡ ok o
    → Returns
        (handle_generate to_float shown p
          (some (obj (prompt_payload (strip (join args)) none)))
          acquired
          ran
          late).result
        (λ r.
          IsAsked shown_json o
            (main shown_json strip args (gave tt) (λ _. generate digits shown r)))
unfolding main try_generate
main-IsAsked digits shown shown_json strip to_float args p acquired ran late o b r n e =
    Returns-map _ (λ r. IsTold o (generate digits shown r)) _
      (λ r told. rw n (report-IsAsked shown_json o (generate digits shown r) told))
      (generate-IsTold digits shown b r to_float p (strip (join args)) none acquired ran late o n e)
