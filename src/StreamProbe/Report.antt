-- ===== src/StreamProbe/Report.antt =====
-- The report of scripts/investigate_stream_json_timeout.py beside src/claude_pool/worker.py: the same command
-- line, and the same result.
use claude_code_cli_local_ga.Worker.{
  parse_stream, build_argv, is_result, payload_of, parse_lines, update_code,
}
use claude_code_cli_local_ga.Prelude.{
  String, text_append, Option, none, some, List, [], ◌∷◌, ◌++◌, ◌≡◌, refl, sym, ap, ◌∙◌, All,
  Bool-cases, inl, inr,
}
use claude_code_cli_local_ga.Exn.{Result, ok, raise, unexpected}
use claude_code_cli_local_ga.Json.{Json, obj, Fields}
use claude_code_cli_local_ga.StreamProbe.{probe_argv, report}

-- The probe runs the command line of a worker for the model haiku.
build_argv-probe : build_argv ("claude" ∷ []) "haiku" ≡ probe_argv
unfolding build_argv
build_argv-probe = refl

module _ (strip : String → String) (loads : String → Option Json)
    (dumps shown : Json → String) where
  -- The line for the result stands among the printed lines.
  abbrev IsPrinted : Fields → List String → Type 0
  IsPrinted payload lines =
      (before : List String) × (after : List String) × (lines
        ≡ before ++ text_append "RESULT: " (dumps (obj payload)) ∷ after)

  IsPrinted-cons :
      (payload : Fields) (line : String) (lines : List String)
      → IsPrinted payload lines
      → IsPrinted payload (line ∷ lines)
  IsPrinted-cons payload line lines (before, after, e) =
      (line ∷ before, after, ap (λ ls. line ∷ ls) e)

  -- A line that the worker reads as the probe does: not blank, and nothing to strip
  abbrev IsBare : String → Type 0
  IsBare line = payload_of strip loads line ≡ loads line

  stray :
      {a : Option Fields × String}
      → ◌≡◌ {A = Result (Option Fields × String)} (raise (unexpected "AttributeError")) (ok a)
      → ⊥
  stray e = cc

  by_value :
      (v : Option Json) (code line last : String) (rest : List String) (payload : Fields)
      → loads line ≡ v
      → IsBare line
      → ((now : String)
          → parse_lines strip loads now rest ≡ ok (some payload, last)
          → IsPrinted payload (report loads dumps shown rest).0)
      → parse_lines strip loads code (line ∷ rest) ≡ ok (some payload, last)
      → IsPrinted payload (report loads dumps shown (line ∷ rest)).0
  unfolding report parse_lines
  by_value none code line last rest payload q same more e =
      rw (q, report)
        (IsPrinted-cons payload _ _ (more code (sym (rw (same ∙ q, parse_lines) refl) ∙ e)))
  by_value (some (obj fields)) code line last rest payload q same more e =
      elim (Bool-cases (is_result fields)) [
        | inl ends ↦
            let read : ◌≡◌ {A = Result (Option Fields × String)}
                (ok (some fields, update_code fields code)) (ok (some payload, last)) =
              sym (rw (same ∙ q, parse_lines) (rw ends refl)) ∙ e in
            let fields_same : fields ≡ payload = cc in
            rw (q, report)
              (rw ends (
                [],
                (report loads dumps shown rest).0,
                ap (λ p. text_append "RESULT: " (dumps (obj p)) ∷ (report loads dumps shown rest).0)
                    fields_same,
              ))
        | inr goes ↦
            rw (q, report)
              (IsPrinted-cons payload _ _ (
                more (update_code fields code)
                  (sym (rw (same ∙ q, parse_lines) (rw goes refl)) ∙ e)))
      ]
  by_value (some v) code line last rest payload q same more e =
      absurd (stray (sym (rw (same ∙ q, parse_lines) refl) ∙ e))

  reported :
      (code : String) (lines : List String) (payload : Fields) (last : String)
      → All IsBare lines
      → parse_lines strip loads code lines ≡ ok (some payload, last)
      → IsPrinted payload (report loads dumps shown lines).0
  unfolding parse_lines
  reported code [] payload last bare e = cc
  reported code (line ∷ rest) payload last (same, bare) e =
      by_value (loads line) code line last rest payload refl same
        (λ now f. reported now rest payload last bare f) e

  -- Where a worker finds a result in its output, the probe prints this result for the same output. The
  -- condition: no line is blank, or has anything to strip.
  parse_stream-report :
      (lines : List String) (payload : Fields) (last : String)
      → All IsBare lines
      → parse_stream strip loads lines ≡ ok (some payload, last)
      → IsPrinted payload (report loads dumps shown lines).0
  unfolding parse_stream
  parse_stream-report lines payload last bare e = reported "" lines payload last bare e
