-- ===== src/StreamProbe.antt =====
-- scripts/investigate_stream_json_timeout.py: whether a worker that is fed its prompt late still
-- answers. `loads` and `dumps` stand for those of json (`none` is a JSONDecodeError), `shown` for `str`
-- of a value, and `split` for `splitlines`; the outputs are taken decoded.
pub mod Report
use claude_code_cli_local_ga.Prelude.{
  ℕ, String, text_append, Bool, true, false, Option, none, some, List, [], ◌∷◌, ◌++◌, if◌then◌else◌,
}
use claude_code_cli_local_ga.Exn.{Exn, Result, ok, raise, unexpected}
use claude_code_cli_local_ga.Json.{Json, null, str, obj, Fields, end, field, get_or}
use claude_code_cli_local_ga.JobTable.{take_chars}
use claude_code_cli_local_ga.Worker.{is_result}

-- ARGV
abbrev pub probe_argv : List String
probe_argv =
    "claude" ∷ "-p" ∷ "--input-format" ∷ "stream-json" ∷ "--output-format" ∷ "stream-json"
    ∷ "--verbose" ∷ "--no-session-persistence" ∷ "--tools" ∷ "" ∷ "--strict-mcp-config"
    ∷ "--safe-mode" ∷ "--model" ∷ "haiku" ∷ []

-- `message`
abbrev pub probe_message : Fields
probe_message = field "type" (str "user") (
    field "message"
      (obj (field "role" (str "user") (field "content" (str "reply with the single word OK") end)))
      end)

-- How `wait_for(proc.communicate(…))` ends: with a TimeoutError, or with the outputs and the exit code
pub data Fed : Type 0 where
  out_of_time : Fed
  completed : String → String → String → Fed

-- What is printed, and the exception that ends it if there is one
abbrev pub Said : Type 0
Said = List String × Result (Unit {0})

abbrev pub then_say : List String → Said → Said
then_say lines (more, end_) = (lines ++ more, end_)

module _ (loads : String → Option Json) (dumps shown : Json → String) where
  abbrev pub object_line : Fields → String
  object_line payload =
      if is_result payload
      then text_append "RESULT: " (dumps (obj payload))
      else text_append "line type: " (
          text_append (shown (get_or "type" null payload))
            (text_append " " (shown (get_or "subtype" null payload))))

  -- The loop over the lines of stdout. A value that is no object has no `get`.
  unfoldable pub report : List String → Said
  report [] = ([], ok tt)
  report (line ∷ rest) =
      let more = report rest in
      elim (loads line) [
        | none ↦ then_say (text_append "UNPARSEABLE LINE: " (take_chars 300 line) ∷ []) more
        | some (obj payload) ↦ then_say (object_line payload ∷ []) more
        | some _ ↦ ([], raise (unexpected "AttributeError"))
      ]

  abbrev stderr_lines : String → Said → Said
  stderr_lines stderr (lines, ok _) = (lines ++ "stderr:" ∷ take_chars 2000 stderr ∷ [], ok tt)
  stderr_lines stderr (lines, raise e) = (lines, raise e)

  -- try_delayed_feed, with how the process ends: whether it is killed, and what is printed
  unfoldable pub try_delayed_feed : (String → List String) → String → Fed → Bool × Said
  unfolding report
  try_delayed_feed split delay out_of_time = (
    true,
    (
      ""
          ∷ text_append "=== delay=" (text_append delay "s ===")
          ∷ "TIMED OUT waiting for process to respond"
          ∷ [],
      ok tt,
    ),
  )
  try_delayed_feed split delay (completed stdout stderr code) = (
    false,
    then_say
        (""
          ∷ text_append "=== delay=" (text_append delay "s ===")
          ∷ text_append "returncode=" code
          ∷ "stdout lines (type field only, plus full 'result' line):"
          ∷ [])
        (stderr_lines stderr (report (split stdout))),
  )
