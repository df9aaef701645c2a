-- ===== src/Errors.antt =====
-- src/claude_pool/errors.py: the verdict on a failed run.
pub mod Verdict
use claude_code_cli_local_ga.Prelude.{
  ℕ, String, Bool, true, false, ◌||◌, Option, none, some, ◌==◌, str_eq, if◌then◌else◌,
}
use claude_code_cli_local_ga.Json.{Json, null, bool, num, str, arr, obj}
use claude_code_cli_local_ga.Exn.{Result, ok, raise, unexpected, ◌>>=◌}

abbrev pub default_retry_after_sec : ℕ
default_retry_after_sec = 60

pub record Failure : Type 0 where
  pub kind : String
  pub status : ℕ
  pub retryable : Bool
  pub retry_after_sec : Option ℕ

-- `Failure(kind, status, retryable)`, with the default for the last field
abbrev pub failure : String → ℕ → Bool → Failure
failure k s r = record { kind = k; status = s; retryable = r; retry_after_sec = none }

-- `v in frozenset({a, b})` for two numbers. A list or a dict has no hash, so Python raises.
unfoldable pub status_in : ℕ → ℕ → Json → Result Bool
status_in a b null = ok false
status_in a b (bool x) = ok false
status_in a b (num n) = ok (n == a || n == b)
status_in a b (str s) = ok false
status_in a b (arr vs) = raise (unexpected "TypeError")
status_in a b (obj fs) = raise (unexpected "TypeError")

abbrev pub is_auth_error_code : String → Bool
is_auth_error_code code = str_eq code "authentication_failed"

abbrev pub rate_limited : Failure
rate_limited = record {
  kind = "rate_limited";
  status = 429;
  retryable = true;
  retry_after_sec = some default_retry_after_sec;
}

abbrev pub not_authenticated : Failure
not_authenticated = failure "not_authenticated" 503 false

abbrev pub worker_failed : Failure
worker_failed = failure "worker_failed" 502 false

unfoldable pub classify : Json → String → Result Failure
unfolding status_in
classify api_error_status api_error_code = do
  limited ← status_in 429 529 api_error_status
  if limited then ok rate_limited else do
    auth ← status_in 401 403 api_error_status
    if auth || is_auth_error_code api_error_code then ok not_authenticated else ok worker_failed
