-- ===== src/Client/Requests/Followed.antt =====
-- A job from its submission by src/claude_pool/client.py to the first look at it.
use claude_code_cli_local_ga.JobTable.{take_chars, running, find, Job}
use claude_code_cli_local_ga.Jobs.{Job, JobStore, submit as store_submit}
use claude_code_cli_local_ga.Client.{Fields}
use claude_code_cli_local_ga.Json.{Json, Fields, Fields}
use claude_code_cli_local_ga.Client.Calls.{Called, Called, submit, gave}
use claude_code_cli_local_ga.Prelude.{ℕ, String, some, ◌≡◌}
use claude_code_cli_local_ga.Jobs.Report.{to_dict}
use claude_code_cli_local_ga.Server.Guard.{limit}
use claude_code_cli_local_ga.Client.Requests.Web.{Web}

-- The store has the job of the prompt, which runs and has this time limit, and the call gave its
-- description.
abbrev pub IsSubmitted : JobStore → String → String → ℕ → Called Fields → Type 0
IsSubmitted s id prompt limit c =
    (j : Job) × (find id s.jobs ≡ some j)
    × (c ≡ gave (to_dict j))
    × (j.status ≡ running)
    × (j.prompt_preview ≡ take_chars 80 prompt)
    × (j.timeout_sec ≡ limit)
