-- ===== src/ApiDocs.antt =====
-- src/claude_pool/apidocs.py: the table of failures that the daemon documents. The children have the
-- documents and the page that are made of it.
pub mod Info
pub mod Page
pub mod Schemas
pub mod Conforms
pub mod Responses
pub mod OpenApi
use claude_code_cli_local_ga.Prelude.{
  ℕ, String, Bool, true, false, ◌&&◌, ◌||◌, List, [], ◌∷◌, str_eq, ◌==◌,
}
use claude_code_cli_local_ga.Errors.{Failure}

-- A row of FAILURE_KINDS
pub record Row : Type 0 where
  pub kind : String
  pub status : ℕ
  pub retryable : Bool
  pub meaning : String

abbrev pub row : String → ℕ → Bool → String → Row
row k s r m = record { kind = k; status = s; retryable = r; meaning = m }

unfoldable pub failure_kinds : List Row
failure_kinds =
    row "pool_unavailable" 503 true "All workers busy; the same request succeeds once one frees up."
    ∷ row "rate_limited" 429 true
        "Subscription rate/usage limit: the CLI reported api_error_status 429 or 529. The CLI gives no reset time, so Retry-After is always 60s."
    ∷ row "timeout" 504 true
        "The worker exceeded timeout_sec. Note the CLI retries API errors internally for up to ~3 minutes, so a real rate limit can surface here instead of as rate_limited."
    ∷ row "not_authenticated" 503 false
        "The `claude` CLI needs a human to log in again: api_error_status 401/403, or the CLI's own authentication_failed error code. Do not retry."
    ∷ row "worker_failed" 502 false
        "Any other worker failure, including one the CLI reported no structured values for; the message carries the CLI's own wording, which never decides the kind."
    ∷ row "forbidden_host" 403 false "Host header was not a loopback literal (DNS-rebinding guard)."
    ∷ []

abbrev same_bool : Bool → Bool → Bool
same_bool true b = b
same_bool false true = false
same_bool false false = true

-- Some row has the failure's kind, status and advice.
unfoldable pub has_row : Failure → List Row → Bool
has_row f [] = false
has_row f (r ∷ rows) =
    (str_eq r.kind f.kind && (r.status == f.status) && same_bool r.retryable f.retryable)
    || has_row f rows
