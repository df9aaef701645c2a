-- ===== src/Worker/Turns.antt =====
-- run() of src/claude_pool/worker.py: what decides the outcome of a run, and what does not.
use claude_code_cli_local_ga.Prelude.{false, ◌≡◌, String, true, List, ◌∷◌, [], ◌++◌, Option, some}
use claude_code_cli_local_ga.Worker.{turn_of, ok, answered, is_result, payload_of, run}
use claude_code_cli_local_ga.Exn.{ok}
use claude_code_cli_local_ga.Json.{obj, Fields, Json}
use claude_code_cli_local_ga.Worker.Stream.{ArePassed, parse_stream-result, error_codes, last_or}

module _ (strip : String → String) (loads : String → Option Json) where
  -- A started worker whose output has a result object, after lines that are blank, no JSON, or objects
  -- of another type, returns its turn: whatever the exit code and stderr, and whatever lines follow. The turn has the object's own fields, the last error code
  -- up to it, and is not killed by run().
  pub run_result :
      (before rest : List String) (line stderr code : String) (payload : Fields)
      → ArePassed strip loads before
      → payload_of strip loads line ≡ some (obj payload)
      → is_result payload ≡ true
      → run strip loads true (answered (before ++ line ∷ rest) stderr code)
        ≡ (ok (turn_of payload (last_or "" (error_codes strip loads (before ++ line ∷ [])))), false)
  unfolding run
  run_result before rest line stderr code payload p e r =
      rw (parse_stream-result strip loads before rest line payload p e r)
