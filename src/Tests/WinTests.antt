-- ===== src/Tests/WinTests.antt =====
-- A host with one job, and workers of src/claude_pool/worker.py in the job of src/claude_pool/winjob.py.
use claude_code_cli_local_ga.WinJob.Closing.{
  born, starts, kills, Lives, EndsWith, View, Extends, IsWindows,
}
use claude_code_cli_local_ga.Prelude.{
  refl, [], ◌∷◌, some, All, arith, ℕ, Bool, true, false, not, ◌==◌, if◌then◌else◌, ◌&&◌, ◌+◌,
}
use claude_code_cli_local_ga.Tests.PoolTests.{config}
use claude_code_cli_local_ga.WinJob.Closing.Ends.{kill_on_close}
use claude_code_cli_local_ga.WinJob.{
  kill, assign_process_to_job, create_kill_on_close_job, start, Process, Host,
}
use claude_code_cli_local_ga.Exn.{Result, ok, raise, unexpected}

-- Job 7, the only one there is; a handle is the number of its process.
record Machine : Type 0 where
  next : ℕ
  closing : Bool
  joined : ℕ → Bool
  runs : ℕ → Bool

abbrev put : ℕ → Bool → (ℕ → Bool) → ℕ → Bool
put n b f m = if m == n then b else f m

abbrev machine : Machine
machine = record { next = 40; closing = false; joined = λ _. false; runs = λ _. false }

abbrev set_limits_of_7 : ℕ → (ℕ → Bool) → Machine → Result (Unit {0}) × Machine
set_limits_of_7 job bits h =
    if job == 7 then (ok tt, record h { closing = bits 13 }) else (raise (unexpected "error"), h)

abbrev assign_to_7 : ℕ → ℕ → Machine → Result (Unit {0}) × Machine
assign_to_7 job handle h =
    if job == 7
    then (ok tt, record h { joined = put handle true h.joined })
    else (raise (unexpected "error"), h)

abbrev host : Host Machine
host = record {
  create_job = λ h. (ok 7, h);
  query_limits = λ job h. (ok (λ _. false), h);
  set_limits = set_limits_of_7;
  open_process = λ pid h. (ok pid, h);
  assign = assign_to_7;
  close = λ handle h. h;
  spawn = λ argv cwd h. (ok h.next, record h { next = h.next + 1; runs = put h.next true h.runs });
  has_ended = λ pid h. not (h.runs pid);
  terminate = λ pid h. record h { runs = put pid false h.runs };
}

abbrev view : View Machine
view = record {
  closes = λ h job. (job == 7) && h.closing;
  member = λ h job pid. (job == 7) && h.joined pid;
  refers = λ h handle pid. handle == pid;
  running = λ h pid. h.runs pid;
  crash = λ h. record h { runs = λ pid. h.runs pid && not (h.closing && h.joined pid) };
}

assign_keeps_7 : (job handle : ℕ) (h : Machine) → Extends host view h (assign_to_7 job handle h).1
assign_keeps_7 job handle h = record {
  limits = λ j e. ground arith;
  members = λ j pid e. ground arith;
}

machine-IsWindows : IsWindows host view 13
machine-IsWindows = record {
  limited_by = λ job bits h g e b. ground arith;
  opened = λ pid handle h g e. ground arith;
  assigned = λ job handle pid h g e r. ground arith;
  spawn_keeps = λ argv cwd h. record { limits = λ job e. e; members = λ job pid e. e };
  open_keeps = λ pid h. record { limits = λ job e. e; members = λ job pid e. e };
  assign_keeps = assign_keeps_7;
  close_keeps = λ handle h. record { limits = λ job e. e; members = λ job pid e. e };
  terminate_keeps = λ pid h. record { limits = λ job e. e; members = λ job pid e. e };
  crashed = λ job pid h c m. ground arith;
}

abbrev with_job : Machine
with_job = (create_kill_on_close_job host true 13 machine).1

abbrev with_two : Machine
with_two =
    (start host (some 7) ("claude" ∷ []) config 6
      (start host (some 7) ("claude" ∷ []) config 5 with_job).1).1

-- Two workers are started, the first is killed, and a start in a job that does not exist fails.
abbrev first : Process
first = record { proc = some 40; became_idle_at = 5 }

abbrev second : Process
second = record { proc = some 41; became_idle_at = 6 }

two_live : Lives host view 7 with_job (kill host first with_two) (second ∷ first ∷ [])
unfolding create_kill_on_close_job start assign_process_to_job
two_live =
    kills first (
      starts second ("claude" ∷ []) config 6 (starts first ("claude" ∷ []) config 5 born refl) refl)

kill_on_close_example : All (EndsWith host view (kill host first with_two)) (second ∷ first ∷ [])
unfolding create_kill_on_close_job
kill_on_close_example =
    kill_on_close host view 13 machine-IsWindows 7 machine with_job (kill host first with_two)
      (second ∷ first ∷ []) refl two_live
