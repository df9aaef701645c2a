-- ===== src/Worker.antt =====
-- src/claude_pool/worker.py: the command line of a worker, the reading of its output, and one run.
-- `strip` and `loads` stand for `str.strip` and `json.loads` (`none` is a JSONDecodeError); the
-- output is taken decoded and split into lines.
pub mod Stream
pub mod Turns
use claude_code_cli_local_ga.Prelude.{
  ℕ, String, text_append, Bool, true, false, ◌&&◌, Option, none, some, List, [], ◌∷◌, ◌++◌, str_eq,
  if◌then◌else◌, is_some,
}
use claude_code_cli_local_ga.Json.{
  Json, null, bool, num, str, arr, obj, Fields, truthy, get_or, is_text, as_text,
}
use claude_code_cli_local_ga.Exn.{Result, ok, raise, worker_error, timed_out, unexpected}

-- _build_argv, with the two settings that it reads
unfoldable pub build_argv : List String → String → List String
build_argv claude_cmd model =
    claude_cmd
    ++ ("-p" ∷ "--input-format" ∷ "stream-json" ∷ "--output-format" ∷ "stream-json" ∷ "--verbose"
        ∷ "--no-session-persistence" ∷ "--tools" ∷ "" ∷ "--strict-mcp-config" ∷ "--safe-mode"
        ∷ "--model" ∷ model ∷ [])

unfoldable pub update_code : Fields → String → String
update_code payload code = elim (as_text (get_or "error" null payload)) [
  | none ↦ code
  | some e ↦ if truthy (get_or "is_api_error_message" null payload) then e else code
]

abbrev pub is_result : Fields → Bool
is_result payload = is_text "result" (get_or "type" null payload)

module _ (strip : String → String) (loads : String → Option Json) where
  -- What the loop of _parse_stream makes of a line: skipped, or a value.
  abbrev pub payload_of : String → Option Json
  payload_of line = if str_eq (strip line) "" then none else loads (strip line)

  -- The loop of _parse_stream. A value that is no object has no `get`.
  unfoldable pub parse_lines : String → List String → Result (Option Fields × String)
  parse_lines code [] = ok (none, code)
  parse_lines code (line ∷ rest) = elim (payload_of line) [
    | none ↦ parse_lines code rest
    | some (obj payload) ↦
        let code' = update_code payload code in
        let more = parse_lines code' rest in
        if is_result payload then ok (some payload, code') else more
    | some _ ↦ raise (unexpected "AttributeError")
  ]

  unfoldable pub parse_stream : List String → Result (Option Fields × String)
  unfolding parse_lines update_code
  parse_stream lines = parse_lines "" lines

-- The dict that run() returns.
pub record Turn : Type 0 where
  pub text : Json
  pub duration_ms : Json
  pub is_error : Bool
  pub subtype : Json
  pub api_error_status : Json
  pub api_error_code : String

unfoldable pub turn_of : Fields → String → Turn
turn_of line code = record {
  text = get_or "result" (str "") line;
  duration_ms = get_or "duration_ms" (num 0) line;
  is_error = truthy (get_or "is_error" (bool false) line);
  subtype = get_or "subtype" (str "") line;
  api_error_status = get_or "api_error_status" null line;
  api_error_code = code;
}

-- How `communicate()` ends within the time limit, or that it does not: the lines of stdout, the
-- text of stderr and the exit code as a text.
pub data Exchange : Type 0 where
  overdue : Exchange
  answered : List String → String → String → Exchange

unfoldable pub conclude : Result (Option Fields × String) → String → String → Result Turn
unfolding turn_of
conclude (raise e) stderr code = raise e
conclude (ok (some line, api_code)) stderr code = ok (turn_of line api_code)
conclude (ok (none, api_code)) stderr code = raise (
    worker_error (
      text_append "worker exited with code "
        (text_append code (text_append " without a 'result' line: " stderr))))

-- run(): the outcome, and whether run() itself killed the process.
module _ (strip : String → String) (loads : String → Option Json) where
  unfoldable pub run : Bool → Exchange → Result Turn × Bool
  unfolding conclude parse_stream
  run started overdue =
      (if started then raise timed_out else raise (worker_error "worker not started"), started)
  run started (answered lines stderr code) = (
    if started
        then conclude (parse_stream strip loads lines) stderr code
        else raise (worker_error "worker not started"),
    false,
  )
