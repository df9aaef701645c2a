-- ===== src/Tests/DaemonTests.antt =====
-- A daemon that finds its port taken, with src/claude_pool/daemon.py as modelled in Daemon, and its
-- control by scripts/daemon_ctl.py.
use claude_code_cli_local_ga.Prelude.{
  false, ◌==◌, ℕ, zero, suc, String, true, false, Option, none, some, [], ◌∷◌, ◌≡◌, refl, inl, inr,
  arith, str_eq, if◌then◌else◌,
}
use claude_code_cli_local_ga.Pool.{Worker, spawned, spawn_and_add_idle}
use claude_code_cli_local_ga.Pool.System.{
  cancel_sweep, killed, dies, System, Reach, here, next, boots, boot, adopt,
}
use claude_code_cli_local_ga.Pool.System.Shutdown.{IsClosed}
use claude_code_cli_local_ga.Pool.System.Stopping.{stop as pool_stop, stop_ends, HasOnlyStrays}
use claude_code_cli_local_ga.Daemon.{
  Action, Daemon, starts_pool, listens, fresh, effect, perform, tear_down, clean_up, finish, serve,
  until_stop, run_daemon, stops_pool, state_of,
}
use claude_code_cli_local_ga.Daemon.Teardown.{IsHonest, IsResting, IsSilent, run_daemon_lem}
use claude_code_cli_local_ga.Ctl.{Glimpse, stop}
use claude_code_cli_local_ga.Ctl.Stop.{IsAwaited}
use claude_code_cli_local_ga.Ctl.Launched.{stop-start_daemon}
use claude_code_cli_local_ga.Client.Requests.{start_daemon}
use claude_code_cli_local_ga.Ask.{join}
use claude_code_cli_local_ga.Tests.PoolTests.{config, warm, to_warm}

-- While stop() waits, a process dies.
abbrev one_dies : System → System
one_dies s = record s { living = killed 7 s.living }

stop_ends_example : let s = pool_stop one_dies warm in Reach warm s × IsClosed s × HasOnlyStrays s
unfolding boot spawn_and_add_idle
stop_ends_example =
    stop_ends config 0 one_dies to_warm (next here (dies 7))
      (record { booted = refl; unstopped = refl; unreaped = refl }) refl refl

-- start() of the pool, with one worker
spawn_one : ℕ → System → System
spawn_one zero s = s
spawn_one (suc k) s =
    let w : Worker = record { pid = s.next_pid; became_idle_at = 0 } in
    adopt true (spawned w) (record s { pool = spawn_and_add_idle w s.pool; booting = k })

spawn_one-Reach : (n : ℕ) (s : System) → s.booting ≡ n → Reach s (spawn_one n s)
unfolding spawn_one
spawn_one-Reach zero s e = here
spawn_one-Reach (suc k) s e =
    next here (boots (record { pid = s.next_pid; became_idle_at = 0 }) k e (omega arith))

meanwhile : Action → Daemon → Daemon
meanwhile starts_pool d = record d { pool = spawn_one d.pool.booting d.pool }
meanwhile a d = d

meanwhile-IsHonest : IsHonest meanwhile one_dies
unfolding meanwhile
meanwhile-IsHonest = record {
  steps = steps;
  drained = λ s. next here (dies 7);
  filed = filed;
  silent = λ d h. h;
}
  where
    steps : (a : Action) (d : Daemon) → Reach d.pool (meanwhile a d).pool
    steps starts_pool d = spawn_one-Reach d.pool.booting d.pool refl
    steps a d = here

    filed : (a : Action) (d : Daemon) → (meanwhile a d).file ≡ d.file
    filed starts_pool d = refl
    filed a d = refl

raises : Action → Option String
raises listens = some "address already in use"
raises a = none

resting : IsResting (
    one_dies (
      cancel_sweep
        (meanwhile stops_pool
          (state_of (until_stop raises meanwhile one_dies 0 9 (fresh config 0 (some 42))))).pool))
unfolding raises meanwhile until_stop serve finish clean_up tear_down perform effect fresh boot
    spawn_one spawn_and_add_idle
resting = record {
  ready = record { booted = refl; unstopped = refl; unreaped = refl };
  back = refl;
  found = refl;
}

run_daemon_lem_example :
    let t = (run_daemon raises meanwhile one_dies 0 9 (fresh config 0 (some 42))).0 in
    (t.file ≡ none) × IsSilent t.jobs × HasOnlyStrays t.pool
unfolding raises
run_daemon_lem_example =
    run_daemon_lem raises meanwhile one_dies 0 9 0 config (some 42) meanwhile-IsHonest refl refl
      refl refl resting

-- Process 7 is a daemon, and the pid file is empty or names it.
abbrev command_line : ℕ → String
command_line pid = if pid == 7 then "python -m claude_pool.daemon" else ""

abbrev filed : Glimpse
filed = record { file = some "7"; command_line = command_line }

abbrev unfiled : Glimpse
unfiled = record { file = none; command_line = command_line }

abbrev read_int : String → Option ℕ
read_int s = if str_eq s "7" then some 7 else none

abbrev shown : ℕ → String
shown n = "7"

abbrev no_environment : String → Option String
no_environment key = none

-- A host on which the process 7 is a daemon that the client started.
abbrev launched : Glimpse
launched = record {
  file = some "7";
  command_line = λ pid. join (start_daemon false "python" "127.0.0.1" "8756" no_environment).argv;
}

stop-start_daemon_example :
    IsAwaited read_int shown 13 7 ((4, launched) ∷ (5, unfiled) ∷ (20, unfiled) ∷ []) (
      stop read_int shown false "8756" launched true [] 3
        ((4, launched) ∷ (5, unfiled) ∷ (20, unfiled) ∷ []))
stop-start_daemon_example =
    stop-start_daemon read_int shown false "python" "127.0.0.1" "8756" no_environment launched true
      [] 7 3 ((4, launched) ∷ (5, unfiled) ∷ (20, unfiled) ∷ []) refl refl refl
      (inr (inr (inl (omega arith))))
