-- ===== src/Tests/PoolTests.antt =====
-- One worker from its start to the shutdown, with src/claude_pool/pool.py as modelled in Pool.
use claude_code_cli_local_ga.Prelude.{
  ℕ, List, length, max, ◌+◌, weigh, All, ◌↔◌, ◌≤◌, ◌≡◌, refl, true, arith, [], ◌∷◌,
}
use claude_code_cli_local_ga.Pool.System.Limit.{AreDistinct, Reach-limit}
use claude_code_cli_local_ga.Pool.System.Reuse.{never_reused}
use claude_code_cli_local_ga.Pool.{
  release_locked, account_release, pop_alive, must_respawn, Pool, Worker, spawned, init,
  spawn_and_add_idle, sweep_select, stop_mark, stop_take, acquire_enter, draining,
}
use claude_code_cli_local_ga.Pool.Acquire.{has_pid}
use claude_code_cli_local_ga.Pool.Health.{count_alive, stats, IsAlive, Reach-healthy}
use claude_code_cli_local_ga.Pool.System.Counts.{held, IsCounted, Reach-IsCounted}
use claude_code_cli_local_ga.Json.{null}
use claude_code_cli_local_ga.Config.{PoolConfig}
use claude_code_cli_local_ga.Pool.Sweep.{IsRound, sweep_select-IsRound}
use claude_code_cli_local_ga.Pool.System.{
  System, Reach, here, next, boots, enters, releases, settles, sweeps, sweep_kills, dies, stops,
  stop_takes, stop_kills, boot, adopt, receive, killed, cancel_sweep,
}
use claude_code_cli_local_ga.Pool.System.Owners.{IsOwned, Reach-IsOwned}
use claude_code_cli_local_ga.Pool.System.Wakeups.{IsAwake, Reach-IsAwake}
use claude_code_cli_local_ga.Pool.System.Shutdown.{IsClosed, IsQuiet, Reach-IsQuiet}
use claude_code_cli_local_ga.Pool.System.Orphans.{stop_strays}

abbrev pub config : PoolConfig
config = record {
  min_workers = 1;
  max_workers = 2;
  model = "sonnet";
  host = "127.0.0.1";
  port = 8756;
  default_timeout_sec = 120;
  acquire_timeout_sec = 60;
  idle_timeout_sec = 60;
  scale_down_interval_sec = 30;
  idle_scale_to_zero_sec = 60;
  job_retention_sec = 600;
  max_jobs = 500;
  scratch_dir = "";
  claude_cmd = null;
}

abbrev pub worker : Worker
worker = record { pid = 7; became_idle_at = 0 }

abbrev pub empty : System
empty = boot config 0

abbrev pub warm : System
warm =
    adopt true (spawned worker)
      (record empty { pool = spawn_and_add_idle worker empty.pool; booting = 0 })

abbrev pub to_warm : Reach empty warm
unfolding boot
to_warm = next here (boots worker 0 refl (omega arith))

abbrev pub busy : System
busy = receive (acquire_enter warm.alive warm.pool).0 (acquire_enter warm.alive warm.pool).1 warm

pub to_busy : Reach empty busy
unfolding boot
to_busy = next to_warm (enters refl)

pub busy_out : busy.out ≡ worker ∷ []
unfolding boot spawn_and_add_idle acquire_enter
busy_out = refl

-- A pool of two workers, both taken by the sweep, which has killed the first one.
abbrev paired : PoolConfig
paired = record config { min_workers = 2 }

abbrev second : Worker
second = record { pid = 9; became_idle_at = 0 }

abbrev one_booted : System
one_booted =
    adopt true (spawned worker) (record (boot paired 0) {
      pool = spawn_and_add_idle worker (boot paired 0).pool;
      booting = 1;
    })

abbrev both_booted : System
both_booted =
    adopt true (spawned second)
      (record one_booted { pool = spawn_and_add_idle second one_booted.pool; booting = 0 })

abbrev half_swept : System
half_swept = record both_booted {
  pool = (sweep_select 100 both_booted.pool).0;
  living = killed 7 both_booted.living;
  alive = killed 7 both_booted.alive;
  sweeping = second ∷ [];
  swept = 1;
}

to_half_swept : Reach (boot paired 0) half_swept
unfolding boot spawn_and_add_idle sweep_select
to_half_swept =
    next
      (next
        (next (next here (boots worker 1 refl (omega arith))) (boots second 0 refl (omega arith)))
        (sweeps 100 refl refl refl))
      (sweep_kills worker (second ∷ []) refl refl)

abbrev halted : System
halted = cancel_sweep warm

abbrev closed : System
closed = record halted { pool = (stop_take halted.pool).0; stopping = (stop_take halted.pool).1 }

abbrev silent : System
silent = record closed {
  living = killed 7 closed.living;
  alive = killed 7 closed.alive;
  stopping = [];
  reaped = 1;
}

to_silent : Reach empty silent
unfolding boot spawn_and_add_idle stop_mark stop_take
to_silent =
    next (next (next to_warm stops) (stop_takes refl refl refl)) (stop_kills worker [] refl refl)

Reach-IsCounted_example : IsCounted busy
Reach-IsCounted_example = Reach-IsCounted config 0 to_busy

Reach-IsOwned_example : IsOwned 7 busy
Reach-IsOwned_example = Reach-IsOwned config 0 7 to_busy

Reach-IsAwake_example : IsAwake warm.pool
unfolding to_warm
Reach-IsAwake_example = Reach-IsAwake config 0 to_warm (tt, tt)

silent-IsClosed : IsClosed silent
unfolding boot spawn_and_add_idle stop_mark stop_take
silent-IsClosed = record { marked = refl; emptied = refl; unswept = refl; booted = refl }

closed-IsClosed : IsClosed closed
unfolding boot spawn_and_add_idle stop_mark stop_take
closed-IsClosed = record { marked = refl; emptied = refl; unswept = refl; booted = refl }

to_silent_from_closed : Reach closed silent
unfolding boot spawn_and_add_idle stop_mark stop_take
to_silent_from_closed = next here (stop_kills worker [] refl refl)

Reach-IsQuiet_example : IsQuiet closed silent
Reach-IsQuiet_example = Reach-IsQuiet to_silent_from_closed closed-IsClosed

stop_strays_example : (cancel_sweep half_swept).living 9 ≡ true
unfolding boot
stop_strays_example = stop_strays paired 0 9 to_half_swept (omega arith) refl here tt

sweep_select-IsRound_example :
    IsRound 1 100 60
      (draining 100 warm.pool)
      warm.pool.idle
      (sweep_select 100 warm.pool).0.idle
      (sweep_select 100 warm.pool).1
unfolding boot spawn_and_add_idle
sweep_select-IsRound_example = sweep_select-IsRound 100 warm.pool

abbrev lent : Pool
lent = record (init config 0) { idle = worker ∷ []; total = 2 }

-- The process of the idle worker has died, and asyncio has not seen it.
abbrev unseen : System
unseen = record warm { living = killed 7 warm.living }

Reach-healthy_example :
    let report = stats unseen.alive unseen.pool in
    ((report.healthy ≡ true) ↔ All (IsAlive unseen.alive) unseen.pool.idle)
    × (count_alive unseen.living unseen.pool.idle ≤ report.idle_alive)
    × (report.busy ≡ held unseen)
Reach-healthy_example = Reach-healthy config 0 (next to_warm (dies 7))

abbrev given_back : System
given_back = record busy {
  living = killed 7 busy.living;
  alive = killed 7 busy.alive;
  out = [];
  returned = worker ∷ [];
}

to_given_back : Reach busy given_back
unfolding boot spawn_and_add_idle acquire_enter pop_alive
to_given_back = next here (releases worker [] [] refl)

-- release() starts the worker that takes the place of the one it killed.
abbrev successor : Worker
successor = record { pid = 8; became_idle_at = 5 }

abbrev replaced : System
replaced =
    adopt (must_respawn (account_release 5 given_back.pool)) (spawned successor)
      (record given_back {
        pool = release_locked 5 (spawned successor) given_back.pool;
        returned = [];
      })

to_replaced : Reach given_back replaced
unfolding boot spawn_and_add_idle acquire_enter pop_alive
to_replaced = next here (settles 5 (spawned successor) worker [] [] refl refl (omega arith))

never_reused_example :
    (weigh (has_pid 7) given_back.pool.idle ≡ 0)
    × (weigh (has_pid 7) given_back.out ≤ 1)
    × (weigh (has_pid 7) replaced.out ≤ weigh (has_pid 7) given_back.out)
unfolding boot spawn_and_add_idle acquire_enter pop_alive
never_reused_example = never_reused config 0 7 to_busy (omega arith) to_given_back to_replaced

abbrev seven : List ℕ
seven = 7 ∷ []

one_pid : AreDistinct seven
one_pid pid = ground arith

Reach-limit_example : length seven + warm.booting ≤ max 1 2
unfolding boot spawn_and_add_idle
Reach-limit_example = Reach-limit config 0 seven to_warm one_pid ((refl, refl), tt)
