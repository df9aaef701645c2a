-- ===== src/ApiDocs/Schemas.antt =====
-- The schemas of src/claude_pool/apidocs.py.
use claude_code_cli_local_ga.Json.{◌:=◌, object, Json, num, str, bool, list, dict, Fields}
use claude_code_cli_local_ga.Prelude.{String, true, List, [], ◌∷◌}
use claude_code_cli_local_ga.Config.{PoolConfig}
use claude_code_cli_local_ga.ApiDocs.{Row, failure_kinds}

-- `{"type": t}`
abbrev pub typed : String → Json
typed t = object (("type" := str t ∷ []))

abbrev pub kinds : List Row → List Json
kinds [] = []
kinds (r ∷ rows) = str r.kind ∷ kinds rows

-- _ERROR_SCHEMA
abbrev pub error_schema : Json
error_schema = object (
    ("type" := str "object"
      ∷ "properties"
        := object (
            ("error" := typed "string"
              ∷ "kind"
                := object (("type" := str "string" ∷ "enum" := list (kinds failure_kinds) ∷ []))
              ∷ "retryable" := typed "boolean"
              ∷ "duration_ms" := typed "integer"
              ∷ []))
      ∷ "required" := list ((str "error") ∷ [])
      ∷ []))

-- _HEALTH_SCHEMA
abbrev pub health_schema : Json
health_schema = object (
    ("type" := str "object"
      ∷ "properties"
        := object (
            ("min_workers" := typed "integer"
              ∷ "max_workers" := typed "integer"
              ∷ "total" := typed "integer"
              ∷ "idle" := typed "integer"
              ∷ "idle_alive" := typed "integer"
              ∷ "busy" := typed "integer"
              ∷ "healthy" := typed "boolean"
              ∷ "jobs"
                := object (
                    ("type" := str "object"
                      ∷ "properties"
                        := object (("total" := typed "integer" ∷ "running" := typed "integer" ∷ []))
                      ∷ []))
              ∷ "last_spawn_error"
                := object (("type" := list ((str "string") ∷ (str "null") ∷ []) ∷ []))
              ∷ "last_error" := object (("type" := list ((str "string") ∷ (str "null") ∷ []) ∷ []))
              ∷ []))
      ∷ []))

-- _JOB_SCHEMA
abbrev pub job_schema : Json
job_schema = object (
    ("type" := str "object"
      ∷ "properties"
        := object (
            ("job_id" := typed "string"
              ∷ "status"
                := object (
                    ("type" := str "string"
                      ∷ "enum"
                        := list (
                            (str "running")
                            ∷ (str "succeeded")
                            ∷ (str "failed")
                            ∷ (str "cancelled")
                            ∷ [])
                      ∷ []))
              ∷ "prompt_preview" := typed "string"
              ∷ "created_at" := typed "number"
              ∷ "finished_at" := object (("type" := list ((str "number") ∷ (str "null") ∷ []) ∷ []))
              ∷ "text" := typed "string"
              ∷ "duration_ms" := typed "integer"
              ∷ "error" := typed "string"
              ∷ "kind" := typed "string"
              ∷ "retryable" := typed "boolean"
              ∷ []))
      ∷ "required" := list ((str "job_id") ∷ (str "status") ∷ [])
      ∷ []))

-- _JOB_ID_PARAM
abbrev pub job_id_param : Json
job_id_param = object (
    ("name" := str "job_id"
      ∷ "in" := str "path"
      ∷ "required" := bool true
      ∷ "schema" := typed "string"
      ∷ []))

-- `{"description": text, **_JSON_ERROR}`
abbrev pub failing : String → Fields
failing text = dict (
    "description" := str text
    ∷ "content" := object (("application/json" := object (("schema" := error_schema ∷ [])) ∷ []))
    ∷ [])

-- _prompt_body
unfoldable pub prompt_body : PoolConfig → Json
prompt_body config = object (
    ("required" := bool true
      ∷ "content"
        := object (
            ("application/json"
                := object (
                    ("schema"
                        := object (
                            ("type" := str "object"
                              ∷ "properties"
                                := object (
                                    ("prompt"
                                        := object
                                            (("type" := str "string" ∷ "minLength" := num 1 ∷ []))
                                      ∷ "timeout_sec"
                                        := object (
                                            ("type" := str "number"
                                              ∷ "default" := num config.default_timeout_sec
                                              ∷ []))
                                      ∷ []))
                              ∷ "required" := list ((str "prompt") ∷ [])
                              ∷ []))
                      ∷ []))
              ∷ []))
      ∷ []))
