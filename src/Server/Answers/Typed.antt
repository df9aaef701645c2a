-- ===== src/Server/Answers/Typed.antt =====
-- The bodies that src/claude_pool/server.py answers with, against the schemas of
-- src/claude_pool/apidocs.py.
use claude_code_cli_local_ga.Jobs.Typed.{IsTypedJob}
use claude_code_cli_local_ga.Runner.Typed.{IsInteger, IsText, IsTypedOutcome}
use claude_code_cli_local_ga.Json.{
  items, Json, bool, num, str, obj, Items, nil, cons, Fields, end, field, field_if, truthy,
}
use claude_code_cli_local_ga.Server.Answers.{
  json_or_null, text_or_null, Stats, listed, handle_health, failure_body,
}
use claude_code_cli_local_ga.ApiDocs.Conforms.{has_some_type, all_items, valid, is_among}
use claude_code_cli_local_ga.Pool.Health.{Stats}
use claude_code_cli_local_ga.Prelude.{
  eq_iff, ℕ, String, Bool, true, false, Option, none, some, List, [], ◌∷◌, ◌≡◌, refl, arith, All,
  Bool-cases, inl, inr,
}
use claude_code_cli_local_ga.Jobs.Report.{
  status_text, to_dict, status_fields, with_delay, kind_of, advice_of, delay_of, json_of,
}
use claude_code_cli_local_ga.Errors.{Failure}
use claude_code_cli_local_ga.ApiDocs.{Row, failure_kinds, has_row}
use claude_code_cli_local_ga.ApiDocs.Schemas.{error_schema, job_schema, health_schema, kinds}
use claude_code_cli_local_ga.Jobs.{Job, Status, running, succeeded, failed, revoked}
use claude_code_cli_local_ga.Runner.{Outcome}

-- What every job has, before the fields of its status
abbrev common : String → Status → String → ℕ → Option ℕ → Fields → Fields
common id status preview created finished rest = field "job_id" (str id) (
    field "status" (str (status_text status)) (
      field "prompt_preview" (str preview)
        (field "created_at" (num created) (field "finished_at" (json_of finished) rest))))

module _ (id preview : String) (created : ℕ) (text duration error : Json) (t : IsText text)
    (d : IsInteger duration) (e : IsText error) where
  running-valid :
      (finished : Option ℕ)
      → valid job_schema (obj (common id running preview created finished end)) ≡ true
  unfolding valid
  running-valid none = refl
  running-valid (some n) = refl

  revoked-valid :
      (finished : Option ℕ)
      → valid job_schema (obj (common id revoked preview created finished end)) ≡ true
  unfolding valid
  revoked-valid none = refl
  revoked-valid (some n) = refl

  succeeded-valid :
      (finished : Option ℕ)
      → valid job_schema (
          obj (
            common id succeeded preview created finished
              (field "text" text (field "duration_ms" duration end))))
        ≡ true
  unfolding valid
  succeeded-valid none = rw (t, d) refl
  succeeded-valid (some n) = rw (t, d) refl

  failed-valid :
      (finished delay : Option ℕ) (kind : String) (advice shown : Bool)
      → valid job_schema (
          obj (
            common id failed preview created finished (
              field "error" error (
                field "kind" (str kind) (
                  field "retryable"
                    (bool advice)
                    (with_delay delay (field_if shown "duration_ms" duration end)))))))
        ≡ true
  unfolding valid
  failed-valid none none kind advice true = rw (e, d) refl
  failed-valid none none kind advice false = rw e refl
  failed-valid none (some m) kind advice true = rw (e, d) refl
  failed-valid none (some m) kind advice false = rw e refl
  failed-valid (some n) none kind advice true = rw (e, d) refl
  failed-valid (some n) none kind advice false = rw e refl
  failed-valid (some n) (some m) kind advice true = rw (e, d) refl
  failed-valid (some n) (some m) kind advice false = rw e refl

pub to_dict-valid : (j : Job) → IsTypedJob j → valid job_schema (obj (to_dict j)) ≡ true
unfolding to_dict
to_dict-valid j h = by_status j.status
  where
    by_status :
        (status : Status)
        → valid job_schema (
            obj (
              common j.id status j.prompt_preview j.created_at j.finished_at
                (status_fields status j)))
          ≡ true
    by_status running =
        running-valid j.id j.prompt_preview j.created_at j.text j.duration_ms j.error h.text
          h.duration h.error j.finished_at
    by_status succeeded =
        succeeded-valid j.id j.prompt_preview j.created_at j.text j.duration_ms j.error h.text
          h.duration h.error j.finished_at
    by_status failed =
        failed-valid j.id j.prompt_preview j.created_at j.text j.duration_ms j.error h.text
          h.duration h.error j.finished_at (delay_of j.failure) (kind_of j.failure)
          (advice_of j.failure) (truthy j.duration_ms)
    by_status revoked =
        revoked-valid j.id j.prompt_preview j.created_at j.text j.duration_ms j.error h.text
          h.duration h.error j.finished_at

has_row-kinds :
    (f : Failure) (rows : List Row)
    → has_row f rows ≡ true
    → is_among (items (kinds rows)) (str f.kind) ≡ true
unfolding has_row
has_row-kinds f [] h = h
has_row-kinds f (r ∷ rows) h =
    ground (arith, has_row-kinds f rows, h, eq_iff r.kind f.kind, eq_iff f.kind r.kind)

pub failure_body-valid :
    (o : Outcome) (f : Failure)
    → IsTypedOutcome o
    → has_row f failure_kinds ≡ true
    → valid error_schema (obj (failure_body o f)) ≡ true
unfolding failure_body valid
failure_body-valid o f h row = elim (Bool-cases (truthy o.duration_ms)) [
  | inl e ↦ rw (e, h.error, has_row-kinds f failure_kinds row, h.duration) refl
  | inr e ↦ rw (e, h.error, has_row-kinds f failure_kinds row) refl
]

pub listed-valid :
    (js : List Job) → All IsTypedJob js → all_items (valid job_schema) (listed js) ≡ true
unfolding listed
listed-valid [] h = refl
listed-valid (j ∷ js) h = rw (to_dict-valid j h.0) (listed-valid js h.1)

-- The last error of the pool, where there is one, is a text.
abbrev pub IsTypedError : Option Json → Type 0
IsTypedError none = Unit
IsTypedError (some v) = IsText v

abbrev string_or_null : Items
string_or_null = cons (str "string") (cons (str "null") nil)

json_or_null-typed :
    (o : Option Json) → IsTypedError o → has_some_type string_or_null (json_or_null o) ≡ true
json_or_null-typed none h = refl
json_or_null-typed (some v) h = rw h refl

text_or_null-typed : (o : Option String) → has_some_type string_or_null (text_or_null o) ≡ true
text_or_null-typed none = refl
text_or_null-typed (some s) = refl

pub handle_health-valid :
    (report : Stats) (counts : ℕ × ℕ)
    → IsTypedError report.last_error
    → valid health_schema (obj (handle_health report counts).body) ≡ true
unfolding handle_health valid
handle_health-valid report (total, busy) h =
    rw (json_or_null-typed report.last_error h, text_or_null-typed report.last_spawn_error) refl
