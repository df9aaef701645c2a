-- ===== src/Pool.antt =====
-- src/claude_pool/pool.py: the state of WorkerPool, and one function for each stretch of code that
-- runs under `_cond` with no other such stretch in between. The child System interleaves them.
pub mod Sweep
pub mod Acquire
pub mod System
pub mod Health
use claude_code_cli_local_ga.Prelude.{
  ℕ, zero, suc, ◌+◌, ◌-◌, ◌<◌, min, String, text_append, Bool, true, false, not, ◌&&◌, ◌||◌, Option,
  none, some, List, [], ◌∷◌, ◌++◌, ltb, leb, ◌==◌, if◌then◌else◌, length, is_some,
}
use claude_code_cli_local_ga.Json.{Json}
use claude_code_cli_local_ga.Exn.{Exn, pool_unavailable}
use claude_code_cli_local_ga.Config.{PoolConfig}

-- A Worker object: its process, and when it was started.
pub record Worker : Type 0 where
  pub pid : ℕ
  pub became_idle_at : ℕ

-- `signalled` is the part of `asyncio.Condition` that the pool depends on: how many of the
-- `waiting` callers have been notified and have not run since.
pub record Pool : Type 0 where
  pub config : PoolConfig
  pub idle : List Worker
  pub total : ℕ
  pub waiting : ℕ
  pub signalled : ℕ
  pub last_spawn_error : Option String
  pub last_error : Option Json
  pub pending_grows : ℕ
  pub last_release_at : ℕ
  pub stopped : Bool

-- WorkerPool.__init__
unfoldable pub init : PoolConfig → ℕ → Pool
init config now = record {
  config = config;
  idle = [];
  total = 0;
  waiting = 0;
  signalled = 0;
  last_spawn_error = none;
  last_error = none;
  pending_grows = 0;
  last_release_at = now;
  stopped = false;
}

unfoldable pub notify : Pool → Pool
notify p = record p { signalled = min p.waiting (suc p.signalled) }

unfoldable pub notify_all : Pool → Pool
notify_all p = record p { signalled = p.waiting }

-- What `Worker.start` came to: a process, or the exception's text.
pub data Spawn : Type 0 where
  spawned : Worker → Spawn
  failed : String → Spawn

-- _spawn_and_add_idle_locked, once the worker has started
unfoldable pub spawn_and_add_idle : Worker → Pool → Pool
unfolding notify
spawn_and_add_idle w p =
    notify (record p { idle = p.idle ++ w ∷ []; total = suc p.total; last_spawn_error = none })

-- _try_spawn_and_add_idle_locked
unfoldable pub try_spawn : Spawn → Pool → Pool × Bool
unfolding spawn_and_add_idle notify
try_spawn (spawned w) p = (spawn_and_add_idle w p, true)
try_spawn (failed e) p = (notify (record p { last_spawn_error = some e }), false)

-- The loop of start(), over what each spawn came to. A failed spawn raises out of it.
unfoldable pub start_loop : List Spawn → Pool → Pool × Option String
unfolding spawn_and_add_idle
start_loop [] p = (p, none)
start_loop (spawned w ∷ rest) p = start_loop rest (spawn_and_add_idle w p)
start_loop (failed e ∷ rest) p = (p, some e)

unfoldable pub note_failure : Json → Pool → Pool
note_failure error p = record p { last_error = some error }

unfoldable pub note_success : Pool → Pool
note_success p = record p { last_error = none }

unfoldable pub schedule_grow : Pool → Pool
schedule_grow p = record p { pending_grows = suc p.pending_grows }

-- The inner loop of _acquire: workers known to be dead are dropped and uncounted, and the first one
-- that is not dead is taken. `kill` on a dead worker does nothing.
unfoldable pub pop_alive : (ℕ → Bool) → List Worker → ℕ → Option Worker × List Worker × ℕ
pop_alive living [] total = (none, [], total)
pop_alive living (w ∷ ws) total =
    if living w.pid then (some w, ws, total) else pop_alive living ws (total - 1)

-- How a stretch of _acquire ends: with a worker, parked in `_cond.wait()`, or by an exception.
pub data Acquired : Type 0 where
  handed : Worker → Acquired
  parked : Acquired
  refused : Exn → Acquired

park : Pool → Pool
unfolding schedule_grow
park p =
    let q = if ltb p.total p.config.max_workers then schedule_grow p else p in
    record q { waiting = suc q.waiting }

settle_pop : Pool → Option Worker × List Worker × ℕ → Pool × Acquired
unfolding park
settle_pop p (some w, rest, t) = (record p { idle = rest; total = t }, handed w)
settle_pop p (none, rest, t) = (park (record p { idle = rest; total = t }), parked)

-- _acquire from the head of its loop
unfoldable pub acquire_enter : (ℕ → Bool) → Pool → Pool × Acquired
unfolding settle_pop pop_alive
acquire_enter living p =
    if p.stopped
    then (p, refused (pool_unavailable "pool is shutting down"))
    else settle_pop p (pop_alive living p.idle p.total)

is_empty : List Worker → Bool
is_empty [] = true
is_empty (w ∷ ws) = false

give_up_on : Option String → Pool → (ℕ → Bool) → Pool × Acquired
unfolding acquire_enter
give_up_on (some e) p living =
    (p, refused (pool_unavailable (text_append "worker spawn failed: " e)))
give_up_on none p living = acquire_enter living p

-- A notified caller runs again: `_waiting -= 1`, and its notification is used up.
unfoldable pub wake : Pool → Pool
wake p = record p { waiting = p.waiting - 1; signalled = p.signalled - 1 }

-- _acquire after `_cond.wait()` has returned, as far as its next wait or its end
unfoldable pub acquire_resume : (ℕ → Bool) → Pool → Pool × Acquired
unfolding give_up_on is_empty wake
acquire_resume living p =
    let q = wake p in
    if is_empty q.idle && (q.pending_grows == 0)
    then give_up_on q.last_spawn_error q living
    else acquire_enter living q

-- A waiting caller is cancelled, by its timeout or from outside. If it had been notified, `passed`
-- says whether the Condition notifies another caller in its place.
unfoldable pub acquire_cancel : Bool → Bool → Pool → Pool
acquire_cancel notified passed p =
    let left = p.waiting - 1 in
    record p {
      waiting = left;
      signalled =
          if notified
          then (if passed then min left p.signalled else p.signalled - 1)
          else p.signalled;
    }

unfoldable pub can_grow : Pool → Bool
can_grow p = not (leb p.config.max_workers p.total || p.stopped)

-- _grow_by_one
unfoldable pub grow_by_one : Spawn → Pool → Pool
unfolding can_grow try_spawn
grow_by_one r p =
    let q = if can_grow p then (try_spawn r p).0 else p in
    record q { pending_grows = q.pending_grows - 1 }

-- release() under the lock, before its spawn
unfoldable pub account_release : ℕ → Pool → Pool
account_release now p = record p { total = p.total - 1; last_release_at = now }

unfoldable pub must_respawn : Pool → Bool
must_respawn p =
    (ltb p.total p.config.min_workers || (ltb 0 p.waiting && ltb p.total p.config.max_workers))
    && not p.stopped

-- release() after `worker.kill()`
unfoldable pub release_locked : ℕ → Spawn → Pool → Pool
unfolding account_release must_respawn try_spawn
release_locked now r p =
    let q = account_release now p in if must_respawn q then (try_spawn r q).0 else q

-- `_total -= 1` after a kill, in _scale_down_loop and in stop()
unfoldable pub uncount : Pool → Pool
uncount p = record p { total = p.total - 1 }

-- `draining` of _scale_down_loop
unfoldable pub draining : ℕ → Pool → Bool
draining now p =
    ltb 0 p.config.idle_scale_to_zero_sec
    && (p.total == length p.idle)
    && ltb p.config.idle_scale_to_zero_sec (now - p.last_release_at)

unfoldable pub excess_allowed : ℕ → Pool → ℕ
unfolding draining
excess_allowed now p =
    if draining now p then length p.idle else length p.idle - p.config.min_workers

-- The scan of _scale_down_loop, with `killed` the length of `to_kill` so far: the survivors and the
-- workers to kill.
unfoldable pub scan : Bool → ℕ → ℕ → ℕ → ℕ → List Worker → List Worker × List Worker
scan drain now timeout allowed killed [] = ([], [])
scan drain now timeout allowed killed (w ∷ ws) =
    let doomed = ltb killed allowed && (drain || ltb timeout (now - w.became_idle_at)) in
    let (survivors, to_kill) =
      scan drain now timeout allowed (if doomed then suc killed else killed) ws in
    if doomed then (survivors, w ∷ to_kill) else (w ∷ survivors, to_kill)

-- One round of _scale_down_loop under the lock: the pool, and the workers it then kills.
unfoldable pub sweep_select : ℕ → Pool → Pool × List Worker
unfolding scan excess_allowed draining
sweep_select now p =
    let (survivors, to_kill) =
      scan (draining now p) now p.config.idle_timeout_sec (excess_allowed now p) 0 p.idle in
    (record p { idle = survivors }, to_kill)

-- stop(): the mark, and its section under the lock, which takes the idle workers
unfoldable pub stop_mark : Pool → Pool
stop_mark p = record p { stopped = true }

unfoldable pub stop_take : Pool → Pool × List Worker
unfolding notify_all
stop_take p = (notify_all (record p { idle = [] }), p.idle)
