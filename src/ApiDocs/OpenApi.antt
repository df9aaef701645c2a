-- ===== src/ApiDocs/OpenApi.antt =====
-- The OpenAPI document of src/claude_pool/apidocs.py.
use claude_code_cli_local_ga.Json.{◌:=◌, object, str, obj, list, dict, Fields}
use claude_code_cli_local_ga.Prelude.{ℕ, String, text_append, List, [], ◌∷◌}
use claude_code_cli_local_ga.Config.{PoolConfig}
use claude_code_cli_local_ga.ApiDocs.Info.{base_url, summary, constraints}
use claude_code_cli_local_ga.ApiDocs.Schemas.{
  typed, failing, prompt_body, job_schema, job_id_param, health_schema,
}
use claude_code_cli_local_ga.ApiDocs.Responses.{generate_responses}

-- The paths of openapi_spec
unfoldable pub openapi_paths : (ℕ → String) → PoolConfig → Fields
unfolding generate_responses prompt_body
openapi_paths shown config = dict (
    "/generate"
      := object (
          ("post"
              := object (
                  ("summary" := str "Run one prompt against a pre-warmed worker"
                    ∷ "requestBody" := prompt_body config
                    ∷ "responses" := obj (generate_responses shown)
                    ∷ []))
            ∷ []))
    ∷ "/jobs"
      := object (
          ("post"
              := object (
                  ("summary" := str "Submit a prompt to run in the background"
                    ∷ "requestBody" := prompt_body config
                    ∷ "responses"
                      := object (
                          ("202"
                              := object (
                                  ("description" := str "Job accepted; poll GET /jobs/{job_id}"
                                    ∷ "headers"
                                      := object (
                                          ("Location" := object (("schema" := typed "string" ∷ []))
                                            ∷ []))
                                    ∷ "content"
                                      := object (
                                          ("application/json"
                                              := object (("schema" := job_schema ∷ []))
                                            ∷ []))
                                    ∷ []))
                            ∷ "400" := obj (failing "Malformed request body")
                            ∷ "403" := obj (failing "Host header is not a loopback literal")
                            ∷ []))
                    ∷ []))
            ∷ "get"
              := object (
                  ("summary" := str "List known jobs, newest first"
                    ∷ "responses"
                      := object (
                          ("200"
                              := object (
                                  ("description" := str "Jobs"
                                    ∷ "content"
                                      := object (
                                          ("application/json"
                                              := object (
                                                  ("schema"
                                                      := object (
                                                          ("type" := str "object"
                                                            ∷ "properties"
                                                            := object (
                                                            ("jobs"
                                                            := object (
                                                            ("type" := str "array"
                                                            ∷ "items" := job_schema
                                                            ∷ []))
                                                            ∷ []))
                                                            ∷ []))
                                                    ∷ []))
                                            ∷ []))
                                    ∷ []))
                            ∷ []))
                    ∷ []))
            ∷ []))
    ∷ "/jobs/{job_id}"
      := object (
          ("get"
              := object (
                  ("summary" := str "Poll one job (always 200; read `status`)"
                    ∷ "parameters" := list (job_id_param ∷ [])
                    ∷ "responses"
                      := object (
                          ("200"
                              := object (
                                  ("description" := str "Job state"
                                    ∷ "content"
                                      := object (
                                          ("application/json"
                                              := object (("schema" := job_schema ∷ []))
                                            ∷ []))
                                    ∷ []))
                            ∷ "404" := obj (failing "No such job")
                            ∷ []))
                    ∷ []))
            ∷ "delete"
              := object (
                  ("summary" := str "Cancel a running job, or forget a finished one"
                    ∷ "parameters" := list (job_id_param ∷ [])
                    ∷ "responses"
                      := object (
                          ("200"
                              := object (
                                  ("description" := str "Job after cancellation"
                                    ∷ "content"
                                      := object (
                                          ("application/json"
                                              := object (("schema" := job_schema ∷ []))
                                            ∷ []))
                                    ∷ []))
                            ∷ "404" := obj (failing "No such job")
                            ∷ []))
                    ∷ []))
            ∷ []))
    ∷ "/health"
      := object (
          ("get"
              := object (
                  ("summary" := str "Pool state and worker liveness"
                    ∷ "responses"
                      := object (
                          ("200"
                              := object (
                                  ("description" := str "Pool stats"
                                    ∷ "content"
                                      := object (
                                          ("application/json"
                                              := object (("schema" := health_schema ∷ []))
                                            ∷ []))
                                    ∷ []))
                            ∷ []))
                    ∷ []))
            ∷ []))
    ∷ "/"
      := object (
          ("get"
              := object (
                  ("summary" := str "This API's self-description as JSON"
                    ∷ "responses"
                      := object (("200" := object (("description" := str "API info" ∷ [])) ∷ []))
                    ∷ []))
            ∷ []))
    ∷ "/docs"
      := object (
          ("get"
              := object (
                  ("summary" := str "Human-readable docs"
                    ∷ "responses"
                      := object (("200" := object (("description" := str "HTML page" ∷ [])) ∷ []))
                    ∷ []))
            ∷ []))
    ∷ "/openapi.json"
      := object (
          ("get"
              := object (
                  ("summary" := str "This document"
                    ∷ "responses"
                      := object (("200" := object (("description" := str "OpenAPI 3.1" ∷ [])) ∷ []))
                    ∷ []))
            ∷ []))
    ∷ [])

-- The summary with the constraints under it, one line each
abbrev pub bullets : List String → String
bullets [] = ""
bullets (c ∷ []) = text_append "- " c
bullets (c ∷ cs) = text_append "- " (text_append c (text_append "\n" (bullets cs)))

abbrev pub full_summary : String
full_summary = text_append summary (text_append "\n\nConstraints:\n" (bullets constraints))

-- openapi_spec
unfoldable pub openapi_spec : String → (ℕ → String) → PoolConfig → Fields
unfolding openapi_paths
openapi_spec version shown config = dict (
    "openapi" := str "3.1.0"
    ∷ "info"
      := object (
          ("title" := str "claude-pool"
            ∷ "version" := str version
            ∷ "description" := str full_summary
            ∷ []))
    ∷ "servers" := list ((object (("url" := str (base_url shown config) ∷ []))) ∷ [])
    ∷ "paths" := obj (openapi_paths shown config)
    ∷ [])
