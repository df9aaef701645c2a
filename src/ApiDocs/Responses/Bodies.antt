-- ===== src/ApiDocs/Responses/Bodies.antt =====
-- The bodies that _generate_responses of src/claude_pool/apidocs.py describes, and what it takes for an
-- answer to be as described.
use claude_code_cli_local_ga.ApiDocs.Responses.{
  end, set_field, fields_in, description, merged, row_line, add_rows, with_headers,
  generate_responses, first_responses,
}
use claude_code_cli_local_ga.Prelude.{
  ℕ, String, Bool, true, false, ◌&&◌, ◌||◌, Option, some, List, [], ◌∷◌, ◌≡◌, refl, str_eq, ◌==◌,
  eq_iff, ap, ◌∙◌, is_some, if◌then◌else◌, arith, Bool-cases, inl, inr,
}
use claude_code_cli_local_ga.Json.{Json, null, obj, Fields, get_or, object, ◌:=◌}
use claude_code_cli_local_ga.Errors.{Failure}
use claude_code_cli_local_ga.ApiDocs.{Row, failure_kinds, has_row}
use claude_code_cli_local_ga.ApiDocs.Conforms.{valid}
use claude_code_cli_local_ga.ApiDocs.Schemas.{error_schema}
use claude_code_cli_local_ga.ApiDocs.Responses.Merged.{
  get_or-set_field, key_eq, add_rows-description, with_headers-description, lines_at, merge_all,
}

-- What the responses say of the body for a status
abbrev pub content : String → Fields → Json
content key responses = get_or "content" null (fields_in (get_or key (obj end) responses))

-- A body against what is said of it; where nothing is said, any body will do.
abbrev pub fits : Json → Fields → Bool
fits null body = true
fits (obj kinds) body =
    valid (get_or "schema" null (fields_in (get_or "application/json" null kinds))) (obj body)
fits _ body = false

-- The responses have an entry for the status, and the body fits it.
abbrev pub is_described : String → Fields → Fields → Bool
is_described key body responses =
    is_some (description key responses) && fits (content key responses) body

abbrev pub error_content : Json
error_content = object (("application/json" := object (("schema" := error_schema ∷ [])) ∷ []))

abbrev pub has_status : ℕ → List Row → Bool
has_status s [] = false
has_status s (r ∷ rows) = (r.status == s) || has_status s rows

pub has_row-has_status :
    (f : Failure) (rows : List Row) → has_row f rows ≡ true → has_status f.status rows ≡ true
unfolding has_row
has_row-has_status f [] h = h
has_row-has_status f (r ∷ rows) h = ground (arith, has_row-has_status f rows, h)

content-set_field :
    (x k : String) (v : Json) (fs : Fields)
    → content x (set_field k v fs)
      ≡ (if str_eq k x then get_or "content" null (fields_in v) else content x fs)
content-set_field x k v fs = elim (Bool-cases (str_eq k x)) [
  | inl e ↦ rw (get_or-set_field x k (obj end) v fs) (rw e refl)
  | inr e ↦ rw (get_or-set_field x k (obj end) v fs) (rw e refl)
]

with_headers-content : (x : String) (fs : Fields) → content x (with_headers fs) ≡ content x fs
unfolding with_headers
with_headers-content x fs = elim (Bool-cases (str_eq "429" x)) [
  | inr e ↦ content-set_field x "429" _ fs ∙ rw e refl
  | inl e ↦
      content-set_field x "429" _ fs
      ∙ (rw e (
            rw (get_or-set_field "content" "headers" null _ (fields_in (get_or "429" (obj end) fs)))
              refl)
          ∙ ap (λ y. content y fs) ((eq_iff "429" x).0 e))
]

merge_all-some : (t : String) (ts : List String) → is_some (merge_all (some t) ts) ≡ true
merge_all-some t [] = refl
merge_all-some t (u ∷ us) = merge_all-some (merged (some t) u) us

lines_at-some :
    (o : Option String) (s : ℕ) (rows : List Row)
    → has_status s rows ≡ true
    → is_some (merge_all o (lines_at s rows)) ≡ true
lines_at-some o s [] h = cc
lines_at-some o s (r ∷ rows) h = elim (Bool-cases (r.status == s)) [
  | inl e ↦ rw e (merge_all-some (merged o (row_line r)) (lines_at s rows))
  | inr e ↦ rw e (lines_at-some o s rows (ground (arith, h, e)))
]

either_way : (b : Bool) (v : Json) → (if b then v else v) ≡ v
either_way true v = refl
either_way false v = refl

module _ (shown : ℕ → String) (read : String → Option ℕ)
    (exact : (n : ℕ) → read (shown n) ≡ some n) where
  add_rows-content :
      (s : ℕ) (rows : List Row) (fs : Fields)
      → content (shown s) (add_rows shown rows fs)
        ≡ (if has_status s rows then error_content else content (shown s) fs)
  unfolding add_rows get_or
  add_rows-content s [] fs = refl
  add_rows-content s (r ∷ rows) fs = add_rows-content s rows _ ∙ elim (Bool-cases (r.status == s)) [
    | inl e ↦
        rw
          (content-set_field (shown s) (shown r.status) _ fs, key_eq shown read exact r.status s, e)
          (either_way (has_status s rows) error_content)
    | inr e ↦
        rw
          (content-set_field (shown s) (shown r.status) _ fs, key_eq shown read exact r.status s, e)
          refl
  ]

  generated_content :
      (s : ℕ)
      → content (shown s) (generate_responses shown)
        ≡ (if has_status s failure_kinds then error_content else content (shown s) first_responses)
  unfolding generate_responses
  generated_content s =
      with_headers-content (shown s) (add_rows shown failure_kinds first_responses)
      ∙ add_rows-content s failure_kinds first_responses

  generated_description :
      (s : ℕ)
      → description (shown s) (generate_responses shown)
        ≡ merge_all (description (shown s) first_responses) (lines_at s failure_kinds)
  unfolding generate_responses
  generated_description s =
      with_headers-description (shown s) (add_rows shown failure_kinds first_responses)
      ∙ add_rows-description shown read exact s failure_kinds first_responses

  -- A status of the table is described, with the body of an error.
  pub failure_described :
      (s : ℕ) (body : Fields)
      → has_status s failure_kinds ≡ true
      → valid error_schema (obj body) ≡ true
      → is_described (shown s) body (generate_responses shown) ≡ true
  unfolding get_or
  failure_described s body h v =
      rw
        (
          generated_content s,
          h,
          generated_description s,
          lines_at-some (description (shown s) first_responses) s failure_kinds h,
        )
        v

  -- A status that is not in the table is described as before the loop.
  pub first_described :
      (s : ℕ) (key : String) (body : Fields)
      → shown s ≡ key
      → has_status s failure_kinds ≡ false
      → lines_at s failure_kinds ≡ []
      → is_described key body first_responses ≡ true
      → is_described (shown s) body (generate_responses shown) ≡ true
  first_described s key body e h l v = rw (generated_content s, h, generated_description s, l, e) v
