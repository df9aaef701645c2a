-- ===== src/ColdVsWarm.antt =====
-- scripts/bench_cold_vs_warm.py: how long a prompt takes with a process that is started for it, and with
-- one that was started before. The clock, the processes and `asyncio.sleep` are the operations of a
-- Machine; `loads` stands for `json.loads`, `seconds` for the format `.3f` of a time, and `mean` and
-- `median` for those of the statistics module with that format.
pub mod Savings
use claude_code_cli_local_ga.Prelude.{
  ℕ, zero, suc, ◌-◌, ◌+◌, String, text_append, Bool, true, false, Option, none, some, List, [], ◌∷◌,
  ◌++◌, if◌then◌else◌,
}
use claude_code_cli_local_ga.Exn.{Exn, Result, ok, raise, unexpected}
use claude_code_cli_local_ga.Json.{Json}
use claude_code_cli_local_ga.WinJob.{◌>>>◌}

-- What a process has come to: its output, its decoded stderr, and whether its exit code is 0.
pub record Completed : Type 0 where
  pub stdout : String
  pub stderr : String
  pub clean : Bool

pub record Machine {ℓ} (H : Type ℓ) : Type ℓ where
  pub clock : H → ℕ
  pub spawn : List String → H → Result ℕ × H
  pub communicate : ℕ → String → H → Completed × H
  pub sleep : ℕ → H → H

-- PROMPT and ITERATIONS
abbrev pub prompt : String
prompt = "reply with the single word OK"

abbrev pub iterations : ℕ
iterations = 10

-- ARGV
abbrev pub cold_argv : List String
cold_argv =
    "claude" ∷ "-p" ∷ "--input-format" ∷ "text" ∷ "--output-format" ∷ "json"
    ∷ "--no-session-persistence" ∷ "--tools" ∷ "" ∷ "--strict-mcp-config" ∷ "--safe-mode"
    ∷ "--model" ∷ "haiku" ∷ []

-- The end of a run: `label` is the one of its RuntimeError.
unfoldable pub checked : (String → Option Json) → String → Completed → ℕ → Result ℕ
checked loads label c elapsed =
    if c.clean
    then elim (loads c.stdout) [ none ↦ raise (unexpected "JSONDecodeError") | some v ↦ ok elapsed ]
    else raise (
        unexpected
          (text_append "RuntimeError: " (text_append label (text_append " run failed: " c.stderr))))

module _ {ℓ} {H : Type ℓ} (machine : Machine H) (loads : String → Option Json) where
  abbrev pub timed : String → ℕ → ℕ → H → Result ℕ × H
  timed label start pid g =
      let (c, k) = machine.communicate pid prompt g in
      (checked loads label c (machine.clock k - start), k)

  unfoldable pub run_cold : H → Result ℕ × H
  unfolding checked
  run_cold h = machine.spawn cold_argv h >>> timed "cold" (machine.clock h)

  abbrev pub settled : ℕ → ℕ → H → Result ℕ × H
  settled settle pid g = let k = machine.sleep settle g in timed "prewarmed" (machine.clock k) pid k

  unfoldable pub run_prewarmed : ℕ → H → Result ℕ × H
  unfolding checked
  run_prewarmed settle h = machine.spawn cold_argv h >>> settled settle

-- What a loop of main() leaves: the times, or the exception that ends it, and the printed lines
pub record Measured {ℓ} (H : Type ℓ) : Type ℓ where
  pub times : Result (List ℕ)
  pub printed : List String
  pub left : H

abbrev pub add_to : ℕ → Result (List ℕ) → Result (List ℕ)
add_to t (ok ts) = ok (t ∷ ts)
add_to t (raise e) = raise e

module _ (shown seconds : ℕ → String) where
  -- `f"{label}[{i}] = {t:.3f}s"`
  abbrev pub time_line : String → ℕ → ℕ → String
  time_line label i t =
      text_append label
        (text_append "[" (text_append (shown i) (text_append "] = " (text_append (seconds t) "s"))))

  -- One turn of a loop of main(), by its run, before the rest of the loop
  abbrev pub turn {ℓ} : {H : Type ℓ} → String → ℕ → Result ℕ × H → (H → Measured H) → Measured H
  turn label i (raise e, g) rest = record { times = raise e; printed = []; left = g }
  turn label i (ok t, g) rest = record {
    times = add_to t (rest g).times;
    printed = time_line label i t ∷ (rest g).printed;
    left = (rest g).left;
  }

  -- The loop from the i-th turn on, with `n` turns left
  unfoldable pub measure {ℓ} : {H : Type ℓ} → (H → Result ℕ × H) → String → ℕ → ℕ → H → Measured H
  measure run label i zero h = record { times = ok []; printed = []; left = h }
  measure run label i (suc n) h = turn label i (run h) (measure run label (suc i) n)

  module _ {ℓ} {H : Type ℓ} (machine : Machine H) (loads : String → Option Json)
      (mean median : List ℕ → String) where
    abbrev summary_line : String → List ℕ → String
    summary_line label ts = text_append label (
        text_append " mean="
          (text_append (mean ts) (text_append "s  median=" (text_append (median ts) "s"))))

    abbrev summary : List ℕ → List ℕ → List String
    summary cold warm =
        "" ∷ "--- summary ---" ∷ summary_line "cold " cold ∷ summary_line "warm " warm ∷ []

    abbrev reported : List String → List ℕ → Measured H → Result (Unit {0}) × List String
    reported said cold m = elim m.times [
      | ok warm ↦ (ok tt, said ++ (m.printed ++ summary cold warm))
      | raise e ↦ (raise e, said ++ m.printed)
    ]

    -- main(): its exception if it has one, and what it printed
    unfoldable pub main : H → Result (Unit {0}) × List String
    unfolding measure run_cold run_prewarmed
    main h =
        let cold = measure (run_cold machine loads) "cold" 0 iterations h in
        elim cold.times [
          | ok ts ↦
              reported cold.printed ts
                (measure (run_prewarmed machine loads 1) "warm" 0 iterations cold.left)
          | raise e ↦ (raise e, cold.printed)
        ]
