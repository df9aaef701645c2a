-- ===== src/Runner/Serving.antt =====
-- A call of execute in src/claude_pool/runner.py inside the pool of src/claude_pool/pool.py: what it leaves
-- of its worker.
use claude_code_cli_local_ga.Runner.Marks.{
  IsMark, unmarked, failed_mark, success_mark, execute-IsMark,
}
use claude_code_cli_local_ga.Pool.System.Stopping.{Reach-trans}
use claude_code_cli_local_ga.Runner.{Executed, execute}
use claude_code_cli_local_ga.Prelude.{ℕ, ◌≡◌, sym, subst, ap, Bool, List, [], ◌∷◌, ◌++◌}
use claude_code_cli_local_ga.Exn.{Result, ok}
use claude_code_cli_local_ga.Config.{PoolConfig}
use claude_code_cli_local_ga.Worker.{Turn}
use claude_code_cli_local_ga.Pool.{Pool, Worker}
use claude_code_cli_local_ga.Pool.System.{
  System, Reach, here, next, boot, releases, notes_failure, notes_success, killed,
}
use claude_code_cli_local_ga.Pool.System.Ended.{IsRetired, released-IsRetired}
use claude_code_cli_local_ga.Runner.Lifecycle.{execute_releases}

-- What release() first does for each worker that a call has released.
abbrev pub kill_each : List Worker → (ℕ → Bool) → ℕ → Bool
kill_each [] living = living
kill_each (w ∷ ws) living = killed w.pid (kill_each ws living)

-- The system after a call and those first lines of release(). `left` are the workers that other
-- callers have.
abbrev pub after_execute : Executed → List Worker → System → System
after_execute x left s = record s {
  pool = x.pool;
  living = kill_each x.released s.living;
  alive = kill_each x.released s.alive;
  out = left;
  returned = x.released ++ s.returned;
}

pub mark-Reach : (s : System) (q : Pool) → IsMark s.pool q → Reach s (record s { pool = q })
mark-Reach s q unmarked = here
mark-Reach s q (failed_mark error) = next here (notes_failure error)
mark-Reach s q success_mark = next here notes_success

-- In every reachable state in which a caller has a worker, however its run ends and whenever the
-- caller is cancelled: execute and the release that it schedules are steps of the pool that give
-- back exactly this worker; and in whatever state the pool then comes to, the worker's process does
-- not run, it is not idle, and no caller has it.
pub execute_retires :
    (config : PoolConfig) (now : ℕ) (w : Worker) (before after : List Worker) (ran : Result Turn)
    (late : Bool) {s u : System}
    → Reach (boot config now) s
    → s.out ≡ before ++ w ∷ after
    → Reach (after_execute (execute s.pool (ok w) ran late) (before ++ after) s) u
    → Reach s (after_execute (execute s.pool (ok w) ran late) (before ++ after) s)
      × ((after_execute (execute s.pool (ok w) ran late) (before ++ after) s).returned
          ≡ w ∷ s.returned)
      × IsRetired w.pid u
execute_retires config now w before after ran late {s} {u} r e later =
    let x = execute s.pool (ok w) ran late in
    let released : x.released ≡ w ∷ [] = execute_releases s.pool (ok w) ran late in
    let state : List Worker → System = λ ws. record s {
      pool = x.pool;
      living = kill_each ws s.living;
      alive = kill_each ws s.alive;
      out = before ++ after;
      returned = ws ++ s.returned;
    } in
    let marked = mark-Reach s x.pool (execute-IsMark s.pool (ok w) ran late) in
    (
      subst (λ ws. Reach s (state ws)) (sym released) (next marked (releases w before after e)),
      ap (λ ws. ws ++ s.returned) released,
      released-IsRetired config now w before after (Reach-trans r marked) e
          (subst (λ ws. Reach (state ws) u) released later),
    )
