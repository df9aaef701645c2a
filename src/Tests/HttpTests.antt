-- ===== src/Tests/HttpTests.antt =====
-- A request from its client to the answer, with src/claude_pool/config.py, server.py and client.py as
-- modelled in Config, Server and Client.
use claude_code_cli_local_ga.Exn.{ok, Holds, Result}
use claude_code_cli_local_ga.Client.Start.{daemon_env, IsAt, daemon_env-from_env}
use claude_code_cli_local_ga.Prelude.{
  ℕ, zero, suc, String, Bool, true, false, Option, none, some, [], ◌∷◌, ◌≡◌, refl, str_eq,
  if◌then◌else◌,
}
use claude_code_cli_local_ga.Server.{
  split_last, require_loopback_host, Answer, json_answer, forbidden, error_response,
}
use claude_code_cli_local_ga.Json.{Json, num, str, obj, field, end}
use claude_code_cli_local_ga.Server.Guard.{with_port, require_loopback_host_lem}
use claude_code_cli_local_ga.Errors.{rate_limited}
use claude_code_cli_local_ga.Runner.{Outcome, failed, success}
use claude_code_cli_local_ga.Config.{from_env, is_loopback_host}
use claude_code_cli_local_ga.Jobs.{Job, new_job, conclude}

abbrev pub ip : String → Option Bool
ip s = if str_eq s "127.0.0.1" then some true else if str_eq s "10.0.0.1" then some false else none

abbrev pub no_number : String → Option ℕ
no_number s = none

abbrev no_json : String → Option Json
no_json s = none

abbrev environment : String → Option String
environment key = none

abbrev young : Job
young = new_job 10 "a" "hello" 120

abbrev old : Job
old = conclude 20 (ok (success (str "hi") (num 5))) young

abbrev shown_json : Json → String
shown_json v = "value"

abbrev pub digits : String → Bool
digits s = str_eq s "8756"

abbrev pub repr : String → String
repr s = s

abbrev count_up : ℕ → ℕ × Result Answer
count_up n = (suc n, ok (json_answer (error_response 400 "no")))

require_loopback_host_lem_example :
    require_loopback_host ip digits repr "evil.example:8756" count_up 3
    ≡ (3, ok (json_answer (forbidden "evil.example:8756")))
unfolding split_last is_loopback_host
require_loopback_host_lem_example =
    require_loopback_host_lem ip digits repr "evil.example:8756" "evil.example" count_up 3
      (with_port "evil.example" "8756" refl refl refl)

-- Numbers written with one mark more than they count.
unfoldable pub shown : ℕ → String
shown zero = "0"
shown (suc n) = String.◌∷◌ "0" (shown n)

unfoldable pub marks : String → Option ℕ
marks String.[] = none
marks (String.◌∷◌ c s) = elim (marks s) [ none ↦ some 0 | some n ↦ some (suc n) ]

pub marks-shown : (n : ℕ) → marks (shown n) ≡ some n
unfolding shown marks
marks-shown zero = refl
marks-shown (suc n) = rw (marks, marks-shown n) refl

abbrev limited : Outcome
limited = failed (str "slow down") rate_limited (num 5)

abbrev pub body : Option Json
body = some (obj (field "prompt" (str "hello") end))

daemon_env-from_env_example :
    Holds
      (from_env ip marks no_number no_json "scratch" (daemon_env "127.0.0.1" "000" environment))
      (IsAt ip "127.0.0.1" 2)
unfolding marks
daemon_env-from_env_example =
    daemon_env-from_env ip marks no_number no_json "scratch" "127.0.0.1" "000" 2 environment refl
