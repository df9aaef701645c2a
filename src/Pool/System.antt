-- ===== src/Pool/System.antt =====
-- The pool of src/claude_pool/pool.py among its tasks: callers in `_acquire`, background grows and
-- releases, the sweep and `stop`. A Step is one stretch of code between two suspension points, or an
-- event from outside (a process that dies). Workers that a task holds in a local variable are lists
-- of the state here, one for each place in the code.
pub mod Counts
pub mod Owners
pub mod Wakeups
pub mod Shutdown
pub mod Orphans
pub mod Stopping
pub mod Reuse
pub mod Ended
pub mod Limit
use claude_code_cli_local_ga.Prelude.{
  ℕ, zero, suc, ◌+◌, ◌-◌, ◌≤◌, ◌<◌, ◌≡◌, ◌≢◌, ◌⊎◌, Bool, true, false, List, [], ◌∷◌, ◌++◌, ◌==◌,
  if◌then◌else◌, Option, none, some,
}
use claude_code_cli_local_ga.Config.{PoolConfig}
use claude_code_cli_local_ga.Json.{Json}
use claude_code_cli_local_ga.Pool.{
  Pool, Worker, Spawn, spawned, failed, Acquired, handed, parked, refused, init, spawn_and_add_idle,
  acquire_enter, acquire_resume, acquire_cancel, can_grow, grow_by_one, account_release,
  must_respawn, release_locked, uncount, sweep_select, stop_mark, stop_take, note_failure,
  note_success,
}

pub record System : Type 0 where
  pub pool : Pool
  -- the processes that run
  pub living : ℕ → Bool
  -- the processes that is_alive() takes to run: asyncio has not yet seen their end
  pub alive : ℕ → Bool
  -- every process so far has a smaller number
  pub next_pid : ℕ
  -- the spawns that start() has still to make; it holds the lock throughout
  pub booting : ℕ
  -- handed to a caller, and not yet killed by release()
  pub out : List Worker
  -- killed by release(), which waits for the lock
  pub returned : List Worker
  -- in `to_kill` of the sweep, not yet killed; then those killed and not yet uncounted
  pub sweeping : List Worker
  pub swept : ℕ
  -- in `doomed` of stop(), not yet killed; then those killed and not yet uncounted
  pub stopping : List Worker
  pub reaped : ℕ
  -- what a sweep that stop() cancelled still held: not yet killed, and not yet uncounted
  pub lost : List Worker
  pub miscounted : ℕ
  -- dropped by the pool, as their start() raised when their process had come to run
  pub strays : List Worker

unfoldable pub boot : PoolConfig → ℕ → System
unfolding init
boot config now = record {
  pool = init config now;
  living = λ pid. false;
  alive = λ pid. false;
  next_pid = 0;
  booting = config.min_workers;
  out = [];
  returned = [];
  sweeping = [];
  swept = 0;
  stopping = [];
  reaped = 0;
  lost = [];
  miscounted = 0;
  strays = [];
}

abbrev pub started : ℕ → (ℕ → Bool) → ℕ → Bool
started pid living x = if x == pid then true else living x

abbrev pub killed : ℕ → (ℕ → Bool) → ℕ → Bool
killed pid living x = if x == pid then false else living x

-- A stretch of _acquire has ended: the caller holds the worker that it was handed.
abbrev pub receive : Pool → Acquired → System → System
receive q (handed w) s = record s { pool = q; out = w ∷ s.out }
receive q parked s = record s { pool = q }
receive q (refused e) s = record s { pool = q }

-- The process that a spawn started, if the code came to the spawn.
abbrev pub adopt : Bool → Spawn → System → System
adopt true (spawned w) s = record s {
  living = started w.pid s.living;
  alive = started w.pid s.alive;
  next_pid = suc w.pid;
}
adopt true (failed e) s = s
adopt false r s = s

-- A new process has a number that no earlier one had.
abbrev pub IsFresh : Spawn → System → Type 0
IsFresh (spawned w) s = s.next_pid ≤ w.pid
IsFresh (failed e) s = Unit

-- Some caller waits that has been notified, or one that has not.
abbrev pub IsWaiting : Bool → Pool → Type 0
IsWaiting true p = 0 < p.signalled
IsWaiting false p = p.signalled < p.waiting

-- stop() as far as its first wait: the mark, and a sweep that ends where it is.
abbrev pub cancel_sweep : System → System
cancel_sweep s = record s {
  pool = stop_mark s.pool;
  sweeping = [];
  swept = 0;
  lost = s.sweeping ++ s.lost;
  miscounted = s.swept + s.miscounted;
}

pub data Step (s : System) : System → Type 0 where
  -- one turn of the loop in start(), or the exception that ends it
  boots :
      (w : Worker) (k : ℕ)
      → s.booting ≡ suc k
      → s.next_pid ≤ w.pid
      → Step s
          (adopt true (spawned w) (record s { pool = spawn_and_add_idle w s.pool; booting = k }))
  boot_fails : Step s (record s { booting = 0 })
  -- Worker.start raises after its process has come to run; nobody keeps the worker. The spawn that it
  -- stands in then ends as a failed one, by boot_fails, grows or settles.
  start_raises :
      (w : Worker)
      → (0 < s.booting) ⊎ (s.pool.stopped ≡ false)
      → s.next_pid ≤ w.pid
      → Step s (record s {
        living = started w.pid s.living;
        alive = started w.pid s.alive;
        next_pid = suc w.pid;
        strays = w ∷ s.strays;
      })
  -- a caller comes to _acquire, or goes on in it
  enters :
      s.booting ≡ 0
      → Step s (receive (acquire_enter s.alive s.pool).0 (acquire_enter s.alive s.pool).1 s)
  resumes :
      s.booting ≡ 0
      → 0 < s.pool.signalled
      → Step s (receive (acquire_resume s.alive s.pool).0 (acquire_resume s.alive s.pool).1 s)
  cancels :
      (notified passed : Bool)
      → IsWaiting notified s.pool
      → Step s (record s { pool = acquire_cancel notified passed s.pool })
  -- a background grow runs
  grows :
      (r : Spawn)
      → s.booting ≡ 0
      → 0 < s.pool.pending_grows
      → IsFresh r s
      → Step s (adopt (can_grow s.pool) r (record s { pool = grow_by_one r s.pool }))
  -- release() kills its worker, and later has the lock
  releases :
      (w : Worker) (before after : List Worker)
      → s.out ≡ before ++ w ∷ after
      → Step s (record s {
        living = killed w.pid s.living;
        alive = killed w.pid s.alive;
        out = before ++ after;
        returned = w ∷ s.returned;
      })
  settles :
      (now : ℕ) (r : Spawn) (w : Worker) (before after : List Worker)
      → s.booting ≡ 0
      → s.returned ≡ before ++ w ∷ after
      → IsFresh r s
      → Step s (
          adopt
            (must_respawn (account_release now s.pool))
            r
            (record s { pool = release_locked now r s.pool; returned = before ++ after }))
  -- one round of the sweep: the scan, then a kill and a count for each worker taken
  -- (in the code no other task runs between a scan or a count and the next kill; here it may)
  sweeps :
      (now : ℕ)
      → s.pool.stopped ≡ false
      → s.sweeping ≡ []
      → s.swept ≡ 0
      → Step s
          (record s { pool = (sweep_select now s.pool).0; sweeping = (sweep_select now s.pool).1 })
  sweep_kills :
      (w : Worker) (rest : List Worker)
      → s.sweeping ≡ w ∷ rest
      → s.swept ≡ 0
      → Step s (record s {
        living = killed w.pid s.living;
        alive = killed w.pid s.alive;
        sweeping = rest;
        swept = 1;
      })
  sweep_counts : s.swept ≡ 1 → Step s (record s { pool = uncount s.pool; swept = 0 })
  -- stop(): the mark and the cancelled sweep, the section under the lock, a kill and a count for
  -- each worker taken
  stops : Step s (cancel_sweep s)
  -- stop() cancels a release that still waits after its grace period
  abandons :
      (w : Worker) (before after : List Worker)
      → s.pool.stopped ≡ true
      → s.returned ≡ before ++ w ∷ after
      → Step s (record s { returned = before ++ after; miscounted = suc s.miscounted })
  stop_takes :
      s.booting ≡ 0
      → s.pool.stopped ≡ true
      → s.stopping ≡ []
      → Step s (record s { pool = (stop_take s.pool).0; stopping = (stop_take s.pool).1 })
  stop_kills :
      (w : Worker) (rest : List Worker)
      → s.stopping ≡ w ∷ rest
      → s.reaped ≡ 0
      → Step s (record s {
        living = killed w.pid s.living;
        alive = killed w.pid s.alive;
        stopping = rest;
        reaped = 1;
      })
  stop_counts : s.reaped ≡ 1 → Step s (record s { pool = uncount s.pool; reaped = 0 })
  -- a request leaves its mark for /health
  notes_failure : (error : Json) → Step s (record s { pool = note_failure error s.pool })
  notes_success : Step s (record s { pool = note_success s.pool })
  -- a process dies on its own, and later asyncio sees it
  dies : (pid : ℕ) → Step s (record s { living = killed pid s.living })
  notices : (pid : ℕ) → s.living pid ≡ false → Step s (record s { alive = killed pid s.alive })

pub data Reach (s : System) : System → Type 0 where
  here : Reach s s
  next : {t u : System} → Reach s t → Step t u → Reach s u
