-- ===== src/Tests/RunTests.antt =====
-- Runs of a worker and of a prompt, with src/claude_pool/worker.py, errors.py and runner.py as modelled.
use claude_code_cli_local_ga.Prelude.{
  String, ◌≡◌, refl, true, false, Option, none, some, [], ◌∷◌, str_eq, if◌then◌else◌,
}
use claude_code_cli_local_ga.Json.{Json, Fields, num, str, obj, end, field, get_or}
use claude_code_cli_local_ga.Exn.{ok, raise, unexpected, timed_out}
use claude_code_cli_local_ga.Worker.{parse_stream, run, answered, turn_of}
use claude_code_cli_local_ga.Worker.Stream.{parse_stream-stray, last_or, error_codes}
use claude_code_cli_local_ga.Worker.Turns.{run_result}
use claude_code_cli_local_ga.Pool.{init}
use claude_code_cli_local_ga.Runner.{execute}
use claude_code_cli_local_ga.Runner.Lifecycle.{execute_reports, IsReported}
use claude_code_cli_local_ga.Runner.Serving.{execute_retires, after_execute}
use claude_code_cli_local_ga.Pool.System.{Reach, here, System}
use claude_code_cli_local_ga.Pool.System.Ended.{IsRetired}
use claude_code_cli_local_ga.Tests.PoolTests.{busy, to_busy, busy_out, config, worker}

-- A stand-in for json.loads, for three lines of output.
abbrev note_line : Fields
note_line = field "type" (str "system") end

abbrev result_line : Fields
result_line = field "type" (str "result") (field "result" (str "hi") end)

abbrev loads : String → Option Json
loads line =
    if str_eq line "note"
    then some (obj note_line)
    else if str_eq line "result"
    then some (obj result_line)
    else if str_eq line "7"
    then some (num 7)
    else none

abbrev strip : String → String
strip line = line

parse_stream-stray_example :
    parse_stream strip loads ("note" ∷ "7" ∷ "result" ∷ []) ≡ raise (unexpected "AttributeError")
unfolding get_or
parse_stream-stray_example =
    parse_stream-stray strip loads ("note" ∷ []) ("result" ∷ []) "7" (num 7) (refl, tt) refl
      (λ h. h)

run_result_example : run strip loads true (answered ("note" ∷ "result" ∷ []) "boom" "1") ≡ (
  ok (turn_of result_line (last_or "" (error_codes strip loads ("note" ∷ "result" ∷ [])))),
  false,
)
unfolding get_or
run_result_example =
    run_result strip loads ("note" ∷ []) [] "result" "boom" "1" result_line (refl, tt) refl refl

execute_reports_example :
    IsReported (init config 0) (execute (init config 0) (ok worker) (raise timed_out) false)
execute_reports_example = execute_reports (init config 0) (ok worker) (raise timed_out) false

-- The run of a worker times out, and the caller is cancelled as well.
abbrev served_state : System
served_state = after_execute (execute busy.pool (ok worker) (raise timed_out) true) [] busy

execute_retires_example :
    Reach busy served_state
    × (served_state.returned ≡ worker ∷ busy.returned)
    × IsRetired 7 served_state
execute_retires_example =
    execute_retires config 0 worker [] [] (raise timed_out) true to_busy busy_out here
