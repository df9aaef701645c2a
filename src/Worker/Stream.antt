-- ===== src/Worker/Stream.antt =====
-- _parse_stream of src/claude_pool/worker.py against a description of the stream as a whole.
use claude_code_cli_local_ga.Prelude.{
  ap, sym, ◌∙◌, ◌≡◌, refl, String, true, false, List, [], ◌∷◌, ◌++◌, Option, none, some, arith, All,
  if◌then◌else◌,
}
use mathlib.Core.List.{append-nil, append_assoc}
use claude_code_cli_local_ga.Json.{Json, null, obj, Fields, truthy, get_or, as_text}
use claude_code_cli_local_ga.Exn.{ok, raise, unexpected}
use claude_code_cli_local_ga.Worker.{parse_stream, parse_lines, payload_of, update_code, is_result}

-- The last item, or the first argument where there is none.
abbrev pub last_or {ℓ} : {A : Type ℓ} → A → List A → A
last_or a [] = a
last_or a (x ∷ xs) = last_or x xs

-- The error code that an object carries: its text under "error", if it is marked as an API error.
unfoldable pub own_code : Fields → List String
own_code payload = elim (as_text (get_or "error" null payload)) [
  | none ↦ []
  | some e ↦ if truthy (get_or "is_api_error_message" null payload) then e ∷ [] else []
]

-- A value that neither ends the scan nor breaks it.
abbrev pub IsPassed : Option Json → Type 0
IsPassed none = Unit
IsPassed (some (obj payload)) = is_result payload ≡ false
IsPassed (some v) = ⊥

abbrev pub IsObject : Json → Type 0
IsObject (obj payload) = Unit
IsObject v = ⊥

abbrev value_codes : Option Json → List String
value_codes (some (obj payload)) = own_code payload
value_codes _ = []

update_code-last :
    (payload : Fields) (code : String) → update_code payload code ≡ last_or code (own_code payload)
unfolding update_code own_code
update_code-last payload code = ground arith

last_or-append :
    (a : String) (xs ys : List String) → last_or a (xs ++ ys) ≡ last_or (last_or a xs) ys
last_or-append a [] ys = refl
last_or-append a (x ∷ xs) ys = last_or-append x xs ys

module _ (strip : String → String) (loads : String → Option Json) where
  -- The error codes of the objects in the stream, in order.
  abbrev pub error_codes : List String → List String
  error_codes [] = []
  error_codes (line ∷ rest) = value_codes (payload_of strip loads line) ++ error_codes rest

  abbrev pub ArePassed : List String → Type 0
  ArePassed = All (λ line. IsPassed (payload_of strip loads line))

  scan_passed :
      (v : Option Json) (code line : String) (rest : List String)
      → payload_of strip loads line ≡ v
      → IsPassed v
      → parse_lines strip loads code (line ∷ rest)
        ≡ parse_lines strip loads (last_or code (value_codes v)) rest
  unfolding parse_lines
  scan_passed none code line rest e p = rw (e, parse_lines)
  scan_passed (some (obj payload)) code line rest e p =
      rw (e, parse_lines) (rw (p, update_code-last payload code))
  scan_passed (some v) code line rest e p = absurd p

  parse_lines-append :
      (before rest : List String) (code : String)
      → ArePassed before
      → parse_lines strip loads code (before ++ rest)
        ≡ parse_lines strip loads (last_or code (error_codes before)) rest
  parse_lines-append [] rest code p = refl
  parse_lines-append (line ∷ before) rest code p =
      scan_passed (payload_of strip loads line) code line (before ++ rest) refl p.0
      ∙ parse_lines-append before rest (last_or code (value_codes (payload_of strip loads line)))
          p.1
      ∙ rw (last_or-append code (value_codes (payload_of strip loads line)) (error_codes before))

  error_codes-append :
      (xs ys : List String) → error_codes (xs ++ ys) ≡ error_codes xs ++ error_codes ys
  error_codes-append [] ys = refl
  error_codes-append (x ∷ xs) ys = rw (error_codes-append xs ys) (
      sym (append_assoc (value_codes (payload_of strip loads x)) (error_codes xs) (error_codes ys)))

  scan_result :
      (code line : String) (rest : List String) (payload : Fields)
      → payload_of strip loads line ≡ some (obj payload)
      → is_result payload ≡ true
      → parse_lines strip loads code (line ∷ rest)
        ≡ ok (some payload, last_or code (own_code payload))
  unfolding parse_lines
  scan_result code line rest payload e r =
      rw (e, parse_lines) (rw (r, update_code-last payload code))

  scan_stray :
      (v : Json) (code line : String) (rest : List String)
      → payload_of strip loads line ≡ some v
      → ¬ IsObject v
      → parse_lines strip loads code (line ∷ rest) ≡ raise (unexpected "AttributeError")
  unfolding parse_lines
  scan_stray (obj payload) code line rest e n = absurd (n tt)
  scan_stray v code line rest e n = rw (e, parse_lines)

  -- After lines that are blank, no JSON, or objects of another type, the first result object ends
  -- the scan, whatever follows: it is returned, with the last error code of the objects up to and
  -- including it, or "" if there is none.
  pub parse_stream-result :
      (before rest : List String) (line : String) (payload : Fields)
      → ArePassed before
      → payload_of strip loads line ≡ some (obj payload)
      → is_result payload ≡ true
      → parse_stream strip loads (before ++ line ∷ rest)
        ≡ ok (some payload, last_or "" (error_codes (before ++ line ∷ [])))
  unfolding parse_stream
  parse_stream-result before rest line payload p e r =
      parse_lines-append before (line ∷ rest) "" p
      ∙ scan_result (last_or "" (error_codes before)) line rest payload e r
      ∙ rw (error_codes-append before (line ∷ []), e)
          (rw (append-nil, last_or-append "" (error_codes before) (own_code payload)))

  -- If every line is blank, no JSON, or an object of another type, the parser returns no result, and
  -- the last error code of the objects, or "" if there is none.
  pub parse_stream-none :
      (lines : List String)
      → ArePassed lines
      → parse_stream strip loads lines ≡ ok (none, last_or "" (error_codes lines))
  unfolding parse_stream
  parse_stream-none lines p =
      ap (parse_lines strip loads "") (sym (append-nil lines)) ∙ parse_lines-append lines [] "" p

  -- After lines that are blank, no JSON, or objects of another type, a line that is JSON and no object
  -- makes the parser raise AttributeError, also where a complete result follows.
  pub parse_stream-stray :
      (before rest : List String) (line : String) (v : Json)
      → ArePassed before
      → payload_of strip loads line ≡ some v
      → ¬ IsObject v
      → parse_stream strip loads (before ++ line ∷ rest) ≡ raise (unexpected "AttributeError")
  unfolding parse_stream
  parse_stream-stray before rest line v p e n =
      parse_lines-append before (line ∷ rest) "" p
      ∙ scan_stray v (last_or "" (error_codes before)) line rest e n
