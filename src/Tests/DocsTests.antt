-- ===== src/Tests/DocsTests.antt =====
-- The documents of the daemon and a prompt's whole way, with src/claude_pool/apidocs.py, client.py and
-- jobs.py as modelled in ApiDocs, Client and Jobs.
use claude_code_cli_local_ga.Prelude.{
  arith, ◌++◌, ℕ, zero, suc, String, Bool, true, false, Option, none, some, [], ◌∷◌, ◌≡◌, refl,
  str_eq, eq_iff, ==_iff, ◌==◌, if◌then◌else◌, ap, Bool-cases, inl, inr,
}
use Prim.Native.Char.{code}
use claude_code_cli_local_ga.Json.{Json, str, obj}
use claude_code_cli_local_ga.Ask.{join, main}
use claude_code_cli_local_ga.Ask.Reports.{IsAsked, main-IsAsked}
use claude_code_cli_local_ga.Exn.{ok, raise, timed_out, Returns}
use claude_code_cli_local_ga.ApiDocs.{failure_kinds}
use claude_code_cli_local_ga.ApiDocs.Responses.{description, generate_responses}
use claude_code_cli_local_ga.ApiDocs.Responses.Merged.{
  paragraphs, lines_at, generate_responses-paragraphs,
}
use claude_code_cli_local_ga.Client.{prompt_payload, wait}
use claude_code_cli_local_ga.Client.Calls.{generate, gave}
use claude_code_cli_local_ga.Client.Calls.EndToEnd.{IsTold, generate-IsTold}
use claude_code_cli_local_ga.Pool.{init}
use claude_code_cli_local_ga.Runner.{execute, timeout_outcome}
use claude_code_cli_local_ga.Server.Answers.{handle_generate, handle_get_job}
use claude_code_cli_local_ga.Tests.PoolTests.{config, worker}
use claude_code_cli_local_ga.Client.Calls.Background.{wait-generate, as_waited, completed}
use claude_code_cli_local_ga.Client.Waiting.{polled}
use claude_code_cli_local_ga.Jobs.{new_job}
use claude_code_cli_local_ga.Jobs.History.{empty_store}
use claude_code_cli_local_ga.Tests.HttpTests.{no_number, marks, shown, marks-shown}

generate-IsTold_example :
    Returns
      (handle_generate no_number shown
        (init config 0)
        (some (obj (prompt_payload "hello" (some 7))))
        (ok worker)
        (raise timed_out)
        false).result
      (λ r. IsTold timeout_outcome (generate marks shown r))
unfolding marks execute
generate-IsTold_example =
    generate-IsTold marks shown refl marks-shown no_number (init config 0) "hello" (some 7)
      (ok worker) (raise timed_out) false timeout_outcome refl refl

-- `str` of the few values that the command prints
shown_json : Json → String
shown_json (str s) = s
shown_json _ = "60"

abbrev trimmed : String → String
trimmed s = s

main-IsAsked_example :
    Returns
      (handle_generate no_number shown
        (init config 0)
        (some (obj (prompt_payload (trimmed (join ("hello" ∷ "there" ∷ []))) none)))
        (ok worker)
        (raise timed_out)
        false).result
      (λ r.
        IsAsked shown_json timeout_outcome (
          main shown_json trimmed ("hello" ∷ "there" ∷ []) (gave tt) (λ _. generate marks shown r)))
unfolding marks execute join
main-IsAsked_example =
    main-IsAsked marks shown shown_json trimmed no_number ("hello" ∷ "there" ∷ []) (init config 0)
      (ok worker) (raise timed_out) false timeout_outcome refl marks-shown refl refl

-- A text for each status, and its reading
unfoldable pub status_text : ℕ → String
status_text n =
    if n == 200
    then "200"
    else if n == 400
    then "400"
    else if n == 202
    then "202"
    else if n == 404
    then "404"
    else shown n

unfoldable pub read_status : String → Option ℕ
read_status t =
    if str_eq t "200"
    then some 200
    else if str_eq t "400"
    then some 400
    else if str_eq t "202"
    then some 202
    else if str_eq t "404"
    then some 404
    else marks t

starts_zero : String → Bool
starts_zero String.[] = false
starts_zero (String.◌∷◌ c s) = code c == 48

shown-starts_zero : (n : ℕ) → starts_zero (shown n) ≡ true
unfolding starts_zero shown
shown-starts_zero zero = refl
shown-starts_zero (suc n) = refl

shown_ne : (n : ℕ) (t : String) → starts_zero t ≡ false → str_eq (shown n) t ≡ false
shown_ne n t h = elim (Bool-cases (str_eq (shown n) t)) [
  | inr e ↦ e
  | inl e ↦ cc (ap starts_zero ((eq_iff (shown n) t).0 e), shown-starts_zero n, h)
]

pub status_text-exact : (n : ℕ) → read_status (status_text n) ≡ some n
unfolding status_text read_status starts_zero
status_text-exact n = elim (Bool-cases (n == 200)) [
  | inl e ↦ rw e (ap some (cc ((==_iff n 200).0 e)))
  | inr e ↦ elim (Bool-cases (n == 400)) [
    | inl f ↦ rw (e, f) (ap some (cc ((==_iff n 400).0 f)))
    | inr f ↦ elim (Bool-cases (n == 202)) [
      | inl g ↦ rw (e, f, g) (ap some (cc ((==_iff n 202).0 g)))
      | inr g ↦ elim (Bool-cases (n == 404)) [
        | inl h ↦ rw (e, f, g, h) (ap some (cc ((==_iff n 404).0 h)))
        | inr h ↦
            rw (e, f, g, h)
              (rw
                (
                  shown_ne n "200" refl,
                  shown_ne n "400" refl,
                  shown_ne n "202" refl,
                  shown_ne n "404" refl,
                )
                (marks-shown n))
      ]
    ]
  ]
]

generate_responses-paragraphs_example :
    description (status_text 503) (generate_responses status_text)
    ≡ paragraphs (lines_at 503 failure_kinds)
unfolding read_status
generate_responses-paragraphs_example =
    generate_responses-paragraphs status_text read_status status_text-exact refl refl 503 refl refl

-- A job that is polled once while it runs, and once after its worker has timed out
wait-generate_example :
    Returns
      (handle_generate no_number shown
        (init config 0)
        (some (obj (prompt_payload "hello" (some 7))))
        (ok worker)
        (raise timed_out)
        false).result
      (λ r.
        wait
          (λ _. "late")
          (some 50)
          (polled ((11, new_job 10 "a" "hello" 7) ∷ [])
            ++ (
              30,
              (handle_get_job "a"
                  (completed 10 20 "a" "hello" 7 timeout_outcome (empty_store 600 1))).body,
            )
              ∷ [])
        ≡ as_waited (generate marks shown r))
unfolding marks execute new_job
wait-generate_example =
    wait-generate marks shown refl marks-shown no_number (init config 0) "hello" (some 7)
      (ok worker) (raise timed_out) false timeout_outcome (λ _. "late") (some 50) 10 20 30 7 "a"
      (empty_store 600 1) ((11, new_job 10 "a" "hello" 7) ∷ []) [] refl refl (λ x. omega arith)
      ((refl, refl), tt)
