-- ===== src/Ask.antt =====
-- scripts/ask.py: its main, over how the client is made and what its generate() does. `strip` stands for
-- `str.strip`, `shown` for `str` of a value. A KeyError in the client is not caught.
pub mod Reports
use claude_code_cli_local_ga.Prelude.{
  ℕ, String, text_append, Bool, List, [], ◌∷◌, str_eq, if◌then◌else◌,
}
use claude_code_cli_local_ga.Json.{Json, null}
use claude_code_cli_local_ga.Client.{ClaudePoolError, is_null}
use claude_code_cli_local_ga.Client.Calls.{Called, gave, denied, lacked}

-- How the command ends: with an exit code and a line on stdout (0) or stderr, or with a traceback.
pub data Asked : Type 0 where
  wrote : ℕ → String → Asked
  crashed : String → Asked

abbrev pub usage : String
usage = "usage: python scripts/ask.py \"<prompt>\""

-- `" ".join(args)`
unfoldable pub join : List String → String
join [] = ""
join (a ∷ []) = a
join (a ∷ b ∷ rest) = text_append a (text_append " " (join (b ∷ rest)))

abbrev pub shown_bool : Bool → String
shown_bool b = if b then "True" else "False"

module _ (shown : Json → String) where
  unfoldable pub detail : ClaudePoolError → String
  detail e = text_append "kind=" (
      text_append (shown e.kind) (
        text_append " retryable=" (
          text_append (shown_bool e.retryable) (
            if is_null e.retry_after_sec
            then ""
            else text_append " retry_after_sec=" (shown e.retry_after_sec)))))

  unfoldable pub error_line : ClaudePoolError → String
  unfolding detail
  error_line e = text_append (shown e.message) (text_append " (" (text_append (detail e) ")"))

  -- The `try` with its handler
  unfoldable pub report : Called Json → Asked
  unfolding error_line
  report (gave text) = wrote 0 (shown text)
  report (denied e) = wrote 1 (error_line e)
  report (lacked k) = crashed k

  unfoldable pub try_generate : Called (Unit {0}) → Called Json → Asked
  unfolding report
  try_generate (gave u) answer = report answer
  try_generate (denied e) answer = report (denied e)
  try_generate (lacked k) answer = crashed k

  unfoldable pub main :
      (String → String) → List String → Called (Unit {0}) → (String → Called Json) → Asked
  unfolding join try_generate
  main strip args connected generate =
      let prompt = strip (join args) in
      if str_eq prompt "" then wrote 2 usage else try_generate connected (generate prompt)
