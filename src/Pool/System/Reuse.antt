-- ===== src/Pool/System/Reuse.antt =====
-- Requests share no worker: what becomes of a process that has been handed to a caller.
use claude_code_cli_local_ga.Pool.System.{
  start_raises, System, Step, boots, enters, resumes, grows, releases, settles, sweeps, Reach, here,
  next, boot, receive, adopt, IsFresh,
}
use claude_code_cli_local_ga.Prelude.{
  ℕ, ◌≤◌, ◌<◌, ◌≡◌, ap, true, List, [], ◌∷◌, ◌++◌, arith, weigh, weigh-append, weigh-middle,
}
use claude_code_cli_local_ga.Config.{PoolConfig}
use claude_code_cli_local_ga.Pool.{
  Pool, Worker, Spawn, spawned, failed, Acquired, handed, parked, refused, spawn_and_add_idle,
  acquire_cancel, can_grow, grow_by_one, account_release, must_respawn, release_locked, uncount,
  stop_mark, stop_take, note_failure, note_success,
}
use claude_code_cli_local_ga.Pool.Sweep.{sweep_select-weigh}
use claude_code_cli_local_ga.Pool.Acquire.{
  IsEntry, has_pid, acquire_enter-IsEntry, acquire_resume-IsEntry,
}
use claude_code_cli_local_ga.Pool.System.Owners.{Reach-IsOwned}

-- A process that has been started and is not idle.
pub record IsSpent (pid : ℕ) (s : System) : Type 0 where
  pub used : pid < s.next_pid
  pub unidle : weigh (has_pid pid) s.pool.idle ≡ 0

-- The process stays so, and no caller more holds it.
abbrev pub StaysSpent : ℕ → System → System → Type 0
StaysSpent pid s t = IsSpent pid t × (weigh (has_pid pid) t.out ≤ weigh (has_pid pid) s.out)

module _ (pid : ℕ) (s : System) (h : IsSpent pid s) where
  receive-StaysSpent :
      (q : Pool) (r : Acquired) → IsEntry s.alive s.pool q r → StaysSpent pid s (receive q r s)
  receive-StaysSpent q (handed w) e = (
    record { used = h.used; unidle = omega (arith, h.unidle, e.weighed (has_pid pid)) },
    omega (arith, h.unidle, e.weighed (has_pid pid)),
  )
  receive-StaysSpent q parked e = (
    record { used = h.used; unidle = omega (arith, h.unidle, e.weighed (has_pid pid)) },
    omega arith,
  )
  receive-StaysSpent q (refused x) e = (
    record { used = h.used; unidle = omega (arith, h.unidle, e.weighed (has_pid pid)) },
    omega arith,
  )

  -- A step that adds nothing to the idle workers and hands nothing out.
  keeps-StaysSpent :
      (t : System)
      → s.next_pid ≤ t.next_pid
      → weigh (has_pid pid) t.pool.idle ≤ weigh (has_pid pid) s.pool.idle
      → weigh (has_pid pid) t.out ≤ weigh (has_pid pid) s.out
      → StaysSpent pid s t
  keeps-StaysSpent t n i o =
      (record { used = omega (arith, h.used); unidle = omega (arith, h.unidle) }, o)

  boots-StaysSpent :
      (w : Worker) (k : ℕ)
      → s.next_pid ≤ w.pid
      → StaysSpent pid s
          (adopt true (spawned w) (record s { pool = spawn_and_add_idle w s.pool; booting = k }))
  unfolding spawn_and_add_idle
  boots-StaysSpent w k f = ground (arith, weigh-append (has_pid pid) s.pool.idle (w ∷ []))

  grows-StaysSpent :
      (r : Spawn)
      → IsFresh r s
      → StaysSpent pid s (adopt (can_grow s.pool) r (record s { pool = grow_by_one r s.pool }))
  unfolding grow_by_one
  grows-StaysSpent (spawned w) f = ground (arith, weigh-append (has_pid pid) s.pool.idle (w ∷ []))
  grows-StaysSpent (failed x) f = ground arith

  settles-StaysSpent :
      (now : ℕ) (r : Spawn) (left : List Worker)
      → IsFresh r s
      → StaysSpent pid s (
          adopt
            (must_respawn (account_release now s.pool))
            r
            (record s { pool = release_locked now r s.pool; returned = left }))
  unfolding release_locked
  settles-StaysSpent now (spawned v) left f =
      ground (arith, weigh-append (has_pid pid) s.pool.idle (v ∷ []))
  settles-StaysSpent now (failed x) left f = ground arith

Step-StaysSpent : (pid : ℕ) {s t : System} → Step s t → IsSpent pid s → StaysSpent pid s t
unfolding acquire_cancel stop_mark stop_take uncount note_failure note_success
Step-StaysSpent pid {s} (boots w k e f) h = boots-StaysSpent pid s h w k f
Step-StaysSpent pid {s} (enters e) h =
    receive-StaysSpent pid s h _ _ (acquire_enter-IsEntry s.alive s.pool)
Step-StaysSpent pid {s} (resumes e f) h =
    receive-StaysSpent pid s h _ _ (acquire_resume-IsEntry s.alive s.pool)
Step-StaysSpent pid {s} (grows r e f g) h = grows-StaysSpent pid s h r g
Step-StaysSpent pid {s} (settles now r w before after e f g) h =
    settles-StaysSpent pid s h now r (before ++ after) g
Step-StaysSpent pid {s} (releases w before after e) h =
    keeps-StaysSpent pid s h _ (omega arith) (omega arith)
      (omega (arith, ap (weigh (has_pid pid)) e, weigh-middle (has_pid pid) before after w))
Step-StaysSpent pid {s} (sweeps now d e f) h =
    keeps-StaysSpent pid s h _ (omega arith)
      (omega (arith, sweep_select-weigh (has_pid pid) now s.pool)) (omega arith)
Step-StaysSpent pid {s} (start_raises w e f) h =
    keeps-StaysSpent pid s h _ (omega arith) (omega arith) (omega arith)
Step-StaysSpent pid {s} _ h = keeps-StaysSpent pid s h _ (omega arith) (omega arith) (omega arith)

pub Reach-StaysSpent : (pid : ℕ) {s t : System} → Reach s t → IsSpent pid s → StaysSpent pid s t
Reach-StaysSpent pid here h = (h, omega arith)
Reach-StaysSpent pid (next r st) h =
    let before = Reach-StaysSpent pid r h in
    let after = Step-StaysSpent pid st before.0 in (after.0, omega (arith, before.1, after.1))

-- From the moment that a worker is with a caller, whatever steps follow: its process is never idle
-- again, one caller at most holds it, and once the caller has given it back, no caller is ever
-- handed it again.
pub never_reused :
    (config : PoolConfig) (now pid : ℕ) {s t u : System}
    → Reach (boot config now) s
    → 1 ≤ weigh (has_pid pid) s.out
    → Reach s t
    → Reach t u
    → (weigh (has_pid pid) t.pool.idle ≡ 0)
      × (weigh (has_pid pid) t.out ≤ 1)
      × (weigh (has_pid pid) u.out ≤ weigh (has_pid pid) t.out)
never_reused config now pid {s} {t} {u} r out later last =
    let owned = Reach-IsOwned config now pid r in
    let spent : IsSpent pid s = record {
      used = ground (arith, owned.fresh);
      unidle = omega (arith, owned.once);
    } in
    let a = Reach-StaysSpent pid later spent in
    let b = Reach-StaysSpent pid last a.0 in (a.0.unidle, omega (arith, a.1, owned.once), b.1)
