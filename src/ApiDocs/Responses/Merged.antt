-- ===== src/ApiDocs/Responses/Merged.antt =====
-- What _generate_responses of src/claude_pool/apidocs.py says of a status that several failures share.
use Prim.Native.String.append
use text.Mathlib.TextLemmas.{append_assoc}
use claude_code_cli_local_ga.Prelude.{
  ℕ, String, text_append, false, Option, none, some, List, [], ◌∷◌, ◌≡◌, refl, str_eq, ◌==◌, ==_iff,
  eq_iff, ap, sym, ◌∙◌, subst, if◌then◌else◌, arith, All, Bool-cases, inl, inr,
}
use claude_code_cli_local_ga.Json.{Json, null, obj, Fields, end, field, get_or, as_text}
use claude_code_cli_local_ga.ApiDocs.{Row, failure_kinds}
use claude_code_cli_local_ga.ApiDocs.Responses.{
  set_field, fields_in, description, merged, row_line, add_rows, with_headers, generate_responses,
  first_responses,
}

-- The lines of the rows with a status, in the table's order.
abbrev pub lines_at : ℕ → List Row → List String
lines_at status [] = []
lines_at status (r ∷ rows) =
    if r.status == status then row_line r ∷ lines_at status rows else lines_at status rows

-- Texts with an empty line between them
abbrev pub under : String → List String → String
under t [] = t
under t (u ∷ us) = text_append t (text_append "\n\n" (under u us))

abbrev pub paragraphs : List String → Option String
paragraphs [] = none
paragraphs (t ∷ ts) = some (under t ts)

abbrev IsFilled : String → Type 0
IsFilled String.[] = ⊥
IsFilled (String.◌∷◌ c s) = Unit

append-IsFilled : (a b : String) → IsFilled b → IsFilled (text_append a b)
append-IsFilled String.[] b h = subst IsFilled (sym (append.nil b)) h
append-IsFilled (String.◌∷◌ c a) b h = subst IsFilled (sym (append.cons c a b)) tt

append-IsFilled_left : (a b : String) → IsFilled a → IsFilled (text_append a b)
append-IsFilled_left (String.◌∷◌ c a) b h = subst IsFilled (sym (append.cons c a b)) tt
append-IsFilled_left String.[] b h = absurd h

filled_ne : (t : String) → IsFilled t → str_eq t "" ≡ false
filled_ne t h = elim (Bool-cases (str_eq t "")) [
  | inr e ↦ e
  | inl e ↦ absurd (subst IsFilled ((eq_iff t "").0 e) h)
]

row_line-IsFilled : (r : Row) → IsFilled (row_line r)
row_line-IsFilled r =
    append-IsFilled r.kind (text_append ": " r.meaning) (append-IsFilled_left ": " r.meaning tt)

lines_at-IsFilled : (status : ℕ) (rows : List Row) → All IsFilled (lines_at status rows)
lines_at-IsFilled status [] = tt
lines_at-IsFilled status (r ∷ rows) = elim (Bool-cases (r.status == status)) [
  | inl e ↦ rw e (row_line-IsFilled r, lines_at-IsFilled status rows)
  | inr e ↦ rw e (lines_at-IsFilled status rows)
]

-- The loop's merging of lines under what is there
abbrev pub merge_all : Option String → List String → Option String
merge_all o [] = o
merge_all o (t ∷ ts) = merge_all (some (merged o t)) ts

under-append :
    (p t : String) (ts : List String)
    → under (text_append p (text_append "\n\n" t)) ts
      ≡ text_append p (text_append "\n\n" (under t ts))
under-append p t [] = refl
under-append p t (u ∷ us) =
    append_assoc p (text_append "\n\n" t) (text_append "\n\n" (under u us))
    ∙ ap (λ x. text_append p x) (append_assoc "\n\n" t (text_append "\n\n" (under u us)))

merge_all-under :
    (p : String) (ts : List String) → IsFilled p → merge_all (some p) ts ≡ some (under p ts)
unfolding merged
merge_all-under p [] h = refl
merge_all-under p (t ∷ ts) h = rw (filled_ne p h) (
    merge_all-under (text_append p (text_append "\n\n" t)) ts (append-IsFilled_left p _ h)
    ∙ ap some (under-append p t ts))

merge_all-paragraphs : (ts : List String) → All IsFilled ts → merge_all none ts ≡ paragraphs ts
unfolding merged
merge_all-paragraphs [] h = refl
merge_all-paragraphs (t ∷ ts) h = merge_all-under t ts h.0

pub get_or-set_field :
    (x k : String) (d v : Json) (fs : Fields)
    → get_or x d (set_field k v fs) ≡ (if str_eq k x then v else get_or x d fs)
unfolding get_or set_field
get_or-set_field x k d v end = refl
get_or-set_field x k d v (field j w fs) =
    ground (arith, get_or-set_field x k d v fs, eq_iff j k, eq_iff j x, eq_iff k x)

description-set_field :
    (x k : String) (v : Json) (fs : Fields)
    → description x (set_field k v fs)
      ≡ (if str_eq k x then as_text (get_or "description" null (fields_in v)) else description x fs)
unfolding description
description-set_field x k v fs = elim (Bool-cases (str_eq k x)) [
  | inl e ↦ rw (get_or-set_field x k (obj end) v fs) (rw e refl)
  | inr e ↦ rw (get_or-set_field x k (obj end) v fs) (rw e refl)
]

pub with_headers-description :
    (x : String) (fs : Fields) → description x (with_headers fs) ≡ description x fs
unfolding with_headers description
with_headers-description x fs = elim (Bool-cases (str_eq "429" x)) [
  | inr e ↦ description-set_field x "429" _ fs ∙ rw e refl
  | inl e ↦
      description-set_field x "429" _ fs
      ∙ (rw e (
            rw
              (get_or-set_field "description" "headers" null _
                (fields_in (get_or "429" (obj end) fs)))
              refl)
          ∙ ap (λ y. description y fs) ((eq_iff "429" x).0 e))
]

module _ (shown : ℕ → String) (read : String → Option ℕ)
    (exact : (n : ℕ) → read (shown n) ≡ some n) where
  pub key_eq : (a b : ℕ) → str_eq (shown a) (shown b) ≡ (a == b)
  key_eq a b = elim (Bool-cases (a == b)) [
    | inl e ↦ rw e ((eq_iff (shown a) (shown b)).1 (ap shown ((==_iff a b).0 e)))
    | inr e ↦ elim (Bool-cases (str_eq (shown a) (shown b))) [
      | inr f ↦ rw (e, f) refl
      | inl f ↦
          let same : a ≡ b = cc (ap read ((eq_iff (shown a) (shown b)).0 f), exact a, exact b) in
          cc ((==_iff a b).1 same)
    ]
  ]

  pub add_rows-description :
      (s : ℕ) (rows : List Row) (fs : Fields)
      → description (shown s) (add_rows shown rows fs)
        ≡ merge_all (description (shown s) fs) (lines_at s rows)
  unfolding add_rows get_or
  add_rows-description s [] fs = refl
  add_rows-description s (r ∷ rows) fs =
      add_rows-description s rows _ ∙ elim (Bool-cases (r.status == s)) [
        | inl e ↦ rw e (
            ap (λ o. merge_all o (lines_at s rows))
              (description-set_field (shown s) (shown r.status) _ fs
                ∙ (rw (key_eq r.status s, e)
                    (ap (λ n. some (merged (description (shown n) fs) (row_line r)))
                      ((==_iff r.status s).0 e)))))
        | inr e ↦ rw e (
            ap (λ o. merge_all o (lines_at s rows))
              (description-set_field (shown s) (shown r.status) _ fs
                ∙ rw (key_eq r.status s, e) refl))
      ]

  module _ (read_200 : read "200" ≡ some 200) (read_400 : read "400" ≡ some 400) where
    other_key :
        (k : String) (n s : ℕ) → read k ≡ some n → (n == s) ≡ false → str_eq k (shown s) ≡ false
    other_key k n s h e = elim (Bool-cases (str_eq k (shown s))) [
      | inr f ↦ f
      | inl f ↦
          let same : n ≡ s = cc (ap read ((eq_iff k (shown s)).0 f), exact s, h) in
          cc ((==_iff n s).1 same, e)
    ]

    -- For every status but 200 and 400, the OpenAPI description of POST /generate has an entry with
    -- a text exactly if some failure of the table has that status, and the text then is the lines
    -- "kind: meaning" of all those failures, in the table's order, with an empty line between two:
    -- none overwrites another. The condition: the text of a status is read back as that number.
    pub generate_responses-paragraphs :
        (s : ℕ)
        → (200 == s) ≡ false
        → (400 == s) ≡ false
        → description (shown s) (generate_responses shown) ≡ paragraphs (lines_at s failure_kinds)
    unfolding generate_responses description get_or
    generate_responses-paragraphs s a b =
        with_headers-description (shown s) (add_rows shown failure_kinds first_responses)
        ∙ (add_rows-description s failure_kinds first_responses
            ∙ (ap (λ o. merge_all o (lines_at s failure_kinds)) unset
                ∙ merge_all-paragraphs (lines_at s failure_kinds)
                    (lines_at-IsFilled s failure_kinds)))
      where
        unset : description (shown s) first_responses ≡ none
        unset =
            rw (other_key "200" 200 s read_200 a, other_key "400" 400 s read_400 b, description)
              refl
