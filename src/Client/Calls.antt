-- ===== src/Client/Calls.antt =====
-- The calls of src/claude_pool/client.py, by the daemon's response: `_call`, what each method takes out
-- of the body, and the start of a daemon. The connection is not modelled; a response with a status
-- outside 200-299 is `urlopen`'s HTTPError.
pub mod EndToEnd
pub mod Background
use claude_code_cli_local_ga.Prelude.{
  ℕ, ◌+◌, String, Bool, true, false, not, ◌&&◌, ◌||◌, Option, none, some, List, [], ◌∷◌, ◌==◌, leb,
  ltb, if◌then◌else◌,
}
use claude_code_cli_local_ga.Json.{Json, null, bool, num, str, Fields}
use claude_code_cli_local_ga.Client.{ClaudePoolError, error_from, item}
use claude_code_cli_local_ga.Server.{Response}

-- How a call ends: with a value, with a ClaudePoolError, or with a KeyError, by its key.
pub data Called {ℓ} (A : Type ℓ) : Type ℓ where
  gave : A → Called A
  denied : ClaudePoolError → Called A
  lacked : String → Called A

abbrev pub is_success : ℕ → Bool
is_success status = leb 200 status && ltb status 300

unfoldable pub entry : String → Called Fields → Called Json
unfolding item
entry k (gave body) = elim (item k body) [ none ↦ lacked k | some v ↦ gave v ]
entry k (denied e) = denied e
entry k (lacked j) = lacked j

-- `(timeout_sec or 120.0) + 5.0`
unfoldable pub request_timeout : Option ℕ → ℕ
request_timeout none = 125
request_timeout (some t) = (if t == 0 then 120 else t) + 5

module _ (digits : String → Option ℕ) (shown : ℕ → String) where
  -- _call, which is what job(), cancel(), health() and api_info() return
  unfoldable pub call : Response → Called Fields
  unfolding error_from
  call r =
      if is_success r.status
      then gave r.body
      else denied (error_from digits shown r.status r.body r.retry_after)

  -- generate(), submit() and jobs()
  unfoldable pub generate : Response → Called Json
  unfolding call entry
  generate r = entry "text" (call r)

  unfoldable pub submit : Response → Called Json
  unfolding call entry
  submit r = entry "job_id" (call r)

  unfoldable pub jobs : Response → Called Json
  unfolding call entry
  jobs r = entry "jobs" (call r)

abbrev pub start_error : ClaudePoolError
start_error = record {
  message = str "daemon did not become healthy in time";
  kind = str "unknown";
  retryable = false;
  retry_after_sec = null;
}

-- _wait_until_healthy: at each turn the time that the loop reads, and whether the daemon then is
-- healthy; `none` if it still polls after them.
unfoldable pub wait_until_healthy : ℕ → List (ℕ × Bool) → Option (Called (Unit {0}))
wait_until_healthy deadline [] = none
wait_until_healthy deadline ((now, healthy) ∷ polls) =
    let rest = wait_until_healthy deadline polls in
    if not (ltb now deadline)
    then some (denied start_error)
    else if healthy
    then some (gave tt)
    else rest

-- The constructor: whether it starts a daemon, and how it ends
unfoldable pub connect : Bool → Bool → ℕ → List (ℕ × Bool) → Bool × Option (Called (Unit {0}))
unfolding wait_until_healthy
connect auto_start healthy deadline polls =
    if auto_start && not healthy
    then (true, wait_until_healthy deadline polls)
    else (false, some (gave tt))
