-- ===== src/Client/Waiting.antt =====
-- wait() of src/claude_pool/client.py on the jobs that src/claude_pool/jobs.py reports.
use claude_code_cli_local_ga.Prelude.{
  ℕ, String, Bool, true, false, Option, none, some, List, [], ◌∷◌, ◌++◌, ◌≡◌, refl, All,
}
use claude_code_cli_local_ga.Json.{Json, null, str, Fields, end, field_if, truthy, get_or}
use claude_code_cli_local_ga.Jobs.{
  Job, Status, running, succeeded, failed, revoked, is_terminal, is_terminal_status,
}
use claude_code_cli_local_ga.Jobs.Report.{
  to_dict, json_of, kind_of, advice_of, delay_of, with_delay,
}
use claude_code_cli_local_ga.Client.{
  Waited, returned, raised, polling, onward, is_past, wait, poll_once,
}

-- A poll of a job that still runs, before the deadline.
abbrev pub IsEarly : Option ℕ → ℕ × Job → Type 0
IsEarly deadline (now, j) = (j.status ≡ running) × (is_past deadline now ≡ false)

abbrev pub polled : List (ℕ × Job) → List (ℕ × Fields)
polled [] = []
polled ((now, j) ∷ rest) = (now, to_dict j) ∷ polled rest

-- What a finished job means to its caller.
abbrev pub meaning : Status → Job → Waited
meaning running j = polling
meaning succeeded j = returned j.text
meaning failed j = raised (record {
  message = j.error;
  kind = str (kind_of j.failure);
  retryable = advice_of j.failure;
  retry_after_sec = json_of (delay_of j.failure);
})
meaning revoked j = raised (record {
  message = str "cancelled";
  kind = str "cancelled";
  retryable = false;
  retry_after_sec = null;
})

module _ (shown : Json → String) (deadline : Option ℕ) where
  poll_running :
      (now : ℕ) (j : Job)
      → j.status ≡ running
      → is_past deadline now ≡ false
      → poll_once shown deadline now (to_dict j) ≡ polling
  unfolding poll_once to_dict
  poll_running now j r e = rw (r, e)

  delay_found :
      (o : Option ℕ) (b : Bool) (d : Json)
      → get_or "retry_after_sec" null (with_delay o (field_if b "duration_ms" d end)) ≡ json_of o
  unfolding get_or
  delay_found none true d = refl
  delay_found none false d = refl
  delay_found (some n) b d = refl

  poll_status :
      (s : Status) (now : ℕ) (j : Job)
      → is_terminal_status s ≡ true
      → poll_once shown deadline now (to_dict (record j { status = s })) ≡ meaning s j
  unfolding poll_once to_dict get_or
  poll_status running now j t = cc
  poll_status succeeded now j t = refl
  poll_status failed now j t =
      rw (delay_found (delay_of j.failure) (truthy j.duration_ms) j.duration_ms) refl
  poll_status revoked now j t = refl

  meaning_ends :
      (s : Status) (j : Job) (rest : Waited)
      → is_terminal_status s ≡ true
      → onward (meaning s j) rest ≡ meaning s j
  unfolding onward
  meaning_ends running j rest t = cc
  meaning_ends succeeded j rest t = refl
  meaning_ends failed j rest t = refl
  meaning_ends revoked j rest t = refl

  pub wait-meaning :
      (before : List (ℕ × Job)) (now : ℕ) (j : Job) (after : List (ℕ × Fields))
      → All (IsEarly deadline) before
      → is_terminal j ≡ true
      → wait shown deadline (polled before ++ (now, to_dict j) ∷ after) ≡ meaning j.status j
  unfolding wait
  wait-meaning [] now j after h t =
      rw (wait, poll_status j.status now j t) (meaning_ends j.status j _ t)
  wait-meaning ((n, k) ∷ before) now j after h t =
      rw (wait, poll_running n k h.0.0 h.0.1) (wait-meaning before now j after h.1 t)
