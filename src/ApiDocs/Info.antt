-- ===== src/ApiDocs/Info.antt =====
-- The texts and the JSON document of GET / of src/claude_pool/apidocs.py. `version` stands for the
-- version of the installed package, `shown` for `str` of a number.
use claude_code_cli_local_ga.Json.{
  field, ◌:=◌, object, Json, num, str, bool, obj, list, dict, Fields,
}
use claude_code_cli_local_ga.Prelude.{ℕ, String, text_append, List, [], ◌∷◌, map}
use claude_code_cli_local_ga.Config.{PoolConfig}
use claude_code_cli_local_ga.ApiDocs.{Row, failure_kinds}

abbrev pub summary : String
summary =
    "Local HTTP gateway that exposes the authenticated `claude` CLI as an LLM endpoint. No API key: it spends the machine owner's Claude subscription quota."

abbrev pub constraints : List String
constraints =
    "Spends the machine owner's Claude subscription quota — check before bulk calls."
    ∷ "No conversation memory: every request gets a fresh worker, by design. Put all context in the prompt."
    ∷ "No tool use (--tools \"\"): text generation only, no file access or code execution."
    ∷ "No streaming: the full completion arrives at once — use POST /jobs if you would rather not hold the connection open."
    ∷ "One model per daemon; run a second daemon on another port for a different model."
    ∷ "Loopback-only and unauthenticated; requests whose Host header is not a loopback literal are refused."
    ∷ []

-- CURL_EXAMPLE and BACKGROUND_EXAMPLE, formatted with a base URL
abbrev pub curl_example : String → String
curl_example base = text_append "curl -s -X POST " (
    text_append base
      "/generate -H 'Content-Type: application/json' -d '{\"prompt\": \"reply with the single word PONG\"}'")

abbrev pub python_example : String
python_example =
    "from claude_pool.client import ClaudePoolClient\nclient = ClaudePoolClient()\ntext = client.generate('...')                    # blocks\njob_id = client.submit('...'); client.wait(job_id)  # runs in the background"

abbrev pub background_example : String → String
background_example base = text_append "curl -s -X POST " (
    text_append base (
      text_append
        "/jobs -H 'Content-Type: application/json' -d '{\"prompt\": \"...\"}'\n  -> 202 {\"job_id\": \"abc123\", \"status\": \"running\"}\ncurl -s "
        (text_append base
          "/jobs/abc123\n  -> {\"status\": \"succeeded\", \"text\": \"...\", \"duration_ms\": 1078}")))

abbrev pub base_url : (ℕ → String) → PoolConfig → String
base_url shown config =
    text_append "http://" (text_append config.host (text_append ":" (shown config.port)))

abbrev pub texts : List String → List Json
texts ts = map (λ t. str t) ts

-- The rows as JSON
abbrev pub table : List Row → List Json
table [] = []
table (r ∷ rows) =
    object (
      ("kind" := str r.kind
        ∷ "status" := num r.status
        ∷ "retryable" := bool r.retryable
        ∷ "meaning" := str r.meaning
        ∷ []))
    ∷ table rows

abbrev pub endpoint_texts : List (String × String)
endpoint_texts =
    (
      "POST /generate",
      "Run one prompt. Body: {prompt: str, timeout_sec?: float}. Returns {text, duration_ms}.",
    )
    ∷ (
      "POST /jobs",
      "Same body as /generate, but runs in the background. Returns 202 {job_id, status} immediately.",
    )
    ∷ (
      "GET /jobs/{job_id}",
      "Poll one job. Always 200; read `status` (running/succeeded/failed/cancelled).",
    )
    ∷ ("GET /jobs", "List known jobs, newest first.")
    ∷ ("DELETE /jobs/{job_id}", "Cancel a running job (kills its worker) or forget a finished one.")
    ∷ (
      "GET /health",
      "Pool state. `idle` is a counter, `idle_alive` is a liveness probe; they diverge when pre-warmed workers have died.",
    )
    ∷ ("GET /", "This document.")
    ∷ ("GET /docs", "The same, rendered for a browser.")
    ∷ ("GET /openapi.json", "OpenAPI 3.1 description.")
    ∷ []

abbrev pub text_fields : List (String × String) → Fields
text_fields [] = dict []
text_fields ((k, v) ∷ rest) = field k (str v) (text_fields rest)

abbrev pub endpoints : Fields
endpoints = text_fields endpoint_texts

-- api_info
unfoldable pub api_info : String → (ℕ → String) → PoolConfig → Fields
api_info version shown config = dict (
    "name" := str "claude-pool"
    ∷ "version" := str version
    ∷ "summary" := str summary
    ∷ "base_url" := str (base_url shown config)
    ∷ "endpoints" := obj endpoints
    ∷ "example"
      := object (
          ("curl" := str (curl_example (base_url shown config))
            ∷ "python" := str python_example
            ∷ "background" := str (background_example (base_url shown config))
            ∷ []))
    ∷ "failure_kinds" := list (table failure_kinds)
    ∷ "constraints" := list (texts constraints)
    ∷ "config"
      := object (
          ("model" := str config.model
            ∷ "min_workers" := num config.min_workers
            ∷ "max_workers" := num config.max_workers
            ∷ "default_timeout_sec" := num config.default_timeout_sec
            ∷ []))
    ∷ [])
