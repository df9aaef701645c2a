-- ===== src/Errors/Verdict.antt =====
-- What a caller may conclude from a verdict of errors.classify.
use claude_code_cli_local_ga.Errors.{
  worker_failed, not_authenticated, rate_limited, ok, Failure, classify,
}
use claude_code_cli_local_ga.Exn.{ok}
use claude_code_cli_local_ga.Prelude.{String, ◌≡◌, ◌↔◌, ◌⊎◌, true, some, arith}
use claude_code_cli_local_ga.Json.{Json, null, bool, num, str, arr, obj}

-- A status that Python can hash: what the API and the CLI document for the field.
abbrev pub IsScalar : Json → Type 0
IsScalar (arr vs) = ⊥
IsScalar (obj fs) = ⊥
IsScalar v = Unit {0}

abbrev pub IsRateLimit : Json → Type 0
IsRateLimit v = (v ≡ num 429) ⊎ (v ≡ num 529)

abbrev pub IsAuthStatus : Json → Type 0
IsAuthStatus v = (v ≡ num 401) ⊎ (v ≡ num 403)

-- What a verdict says to the caller, for a status.
abbrev pub IsVerdict : Json → Failure → Type 0
IsVerdict status f =
    ((f.retryable ≡ true) ↔ IsRateLimit status)
    × ((f.retry_after_sec ≡ some 60) ↔ IsRateLimit status)
    × ((f.kind ≡ "rate_limited") ↔ IsRateLimit status)

-- There are three verdicts.
pub classify_values :
    (status : Json) (code : String) (f : Failure)
    → classify status code ≡ ok f
    → (f ≡ rate_limited) ⊎ ((f ≡ not_authenticated) ⊎ (f ≡ worker_failed))
unfolding classify
classify_values null code f h = ground arith
classify_values (bool b) code f h = ground arith
classify_values (num n) code f h = ground arith
classify_values (str s) code f h = ground arith
classify_values (arr vs) code f h = cc
classify_values (obj fs) code f h = cc
