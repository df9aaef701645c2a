-- ===== src/ApiDocs/Responses.antt =====
-- _generate_responses of src/claude_pool/apidocs.py: a response for each status of POST /generate.
pub mod Merged
pub mod Bodies
use claude_code_cli_local_ga.Json.{
  ◌:=◌, object, as_text, get_or, Json, null, num, str, bool, obj, list, dict, Fields, end, field,
}
use claude_code_cli_local_ga.Prelude.{
  ℕ, String, text_append, true, Option, none, some, List, [], ◌∷◌, str_eq, if◌then◌else◌,
}
use claude_code_cli_local_ga.Config.{PoolConfig}
use claude_code_cli_local_ga.ApiDocs.{Row, failure_kinds}
use claude_code_cli_local_ga.ApiDocs.Info.{base_url, summary, constraints}
use claude_code_cli_local_ga.ApiDocs.Schemas.{
  typed, failing, prompt_body, job_schema, job_id_param, health_schema, error_schema,
}

-- The responses of _generate_responses before its loop
abbrev pub first_responses : Fields
first_responses = dict (
    "200"
      := object (
          ("description" := str "Completion"
            ∷ "content"
              := object (
                  ("application/json"
                      := object (
                          ("schema"
                              := object (
                                  ("type" := str "object"
                                    ∷ "properties"
                                      := object (
                                          ("text" := typed "string"
                                            ∷ "duration_ms" := typed "integer"
                                            ∷ []))
                                    ∷ "required" := list ((str "text") ∷ (str "duration_ms") ∷ [])
                                    ∷ []))
                            ∷ []))
                    ∷ []))
            ∷ []))
    ∷ "400" := obj (failing "Malformed request body")
    ∷ [])

-- `responses[key] = value`
unfoldable pub set_field : String → Json → Fields → Fields
set_field k v end = field k v end
set_field k v (field j w fs) = if str_eq j k then field j v fs else field j w (set_field k v fs)

abbrev pub fields_in : Json → Fields
fields_in (obj fs) = fs
fields_in v = end

-- `responses.get(status, {}).get("description")`, where a text is what `if previous` asks for
unfoldable pub description : String → Fields → Option String
description key responses =
    as_text (get_or "description" null (fields_in (get_or key (obj end) responses)))

unfoldable pub merged : Option String → String → String
merged none line = line
merged (some previous) line =
    if str_eq previous "" then line else text_append previous (text_append "\n\n" line)

abbrev pub row_line : Row → String
row_line r = text_append r.kind (text_append ": " r.meaning)

-- The loop of _generate_responses
unfoldable pub add_rows : (ℕ → String) → List Row → Fields → Fields
unfolding set_field description merged
add_rows shown [] responses = responses
add_rows shown (r ∷ rows) responses =
    let key = shown r.status in
    add_rows shown rows
      (set_field key (obj (failing (merged (description key responses) (row_line r)))) responses)

-- `responses["429"]["headers"] = …`, where the entry is there
unfoldable pub with_headers : Fields → Fields
unfolding set_field
with_headers responses =
    set_field "429"
      (obj (
        set_field "headers"
          (object (
            ("Retry-After"
                := object (
                    ("schema" := typed "integer"
                      ∷ "description" := str "Seconds to wait before retrying"
                      ∷ []))
              ∷ [])))
          (fields_in (get_or "429" (obj end) responses))))
      responses

-- _generate_responses
unfoldable pub generate_responses : (ℕ → String) → Fields
unfolding add_rows with_headers
generate_responses shown = with_headers (add_rows shown failure_kinds first_responses)
