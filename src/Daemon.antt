-- ===== src/Daemon.antt =====
-- src/claude_pool/daemon.py: the course of run_daemon, with the pool, the job store and the pid file
-- as its state. `raises` says for each awaited or called step whether it raises, and with what text;
-- `meanwhile` is what the requests, the jobs and the pool's own tasks do before a step has its
-- effect (the spawns of `pool.start()` among them), and `drains` what they do to the pool while
-- `pool.stop()` waits for its background tasks. The sockets are not modelled.
pub mod Teardown
pub mod Signals
use claude_code_cli_local_ga.Prelude.{
  ℕ, String, text_append, Bool, true, false, Option, none, some, List, [], ◌∷◌, if◌then◌else◌,
}
use claude_code_cli_local_ga.Config.{PoolConfig}
use claude_code_cli_local_ga.Jobs.{JobStore, shutdown}
use claude_code_cli_local_ga.Pool.System.{System, boot}
use claude_code_cli_local_ga.Pool.System.Stopping.{stop}

-- The name that pid_file gives, under the scratch directory
abbrev pub pid_file : (ℕ → String) → PoolConfig → String
pid_file shown config =
    text_append config.scratch_dir (text_append "/daemon-" (text_append (shown config.port) ".pid"))

-- The steps of run_daemon, in its order.
pub data Action : Type 0 where
  makes_dir starts_pool makes_runner sets_up listens writes_pid waits : Action
  unlinks cleans_up shuts_jobs stops_pool : Action

pub record Daemon : Type 0 where
  pub pool : System
  pub jobs : JobStore
  -- the pid in the pid file
  pub file : Option ℕ

-- Before the `try`: a pool and a store that is empty
unfoldable pub fresh : PoolConfig → ℕ → Option ℕ → Daemon
unfolding boot
fresh config now file = record {
  pool = boot config now;
  jobs = record {
    retention_sec = config.job_retention_sec;
    max_jobs = config.max_jobs;
    jobs = [];
    tasks = [];
  };
  file = file;
}

-- What a step itself does to the state, at time `now` in the process `pid`.
unfoldable pub effect : (System → System) → ℕ → ℕ → Action → Daemon → Daemon
effect drains now pid writes_pid d = record d { file = some pid }
effect drains now pid unlinks d = record d { file = none }
effect drains now pid shuts_jobs d = record d { jobs = shutdown now d.jobs }
effect drains now pid stops_pool d = record d { pool = stop drains d.pool }
effect drains now pid a d = d

-- The `try` behind the creation of the runner.
abbrev pub served : List Action
served = sets_up ∷ listens ∷ writes_pid ∷ waits ∷ []

-- How run_daemon comes to `pool.stop()`, with the exception that is on its way by then; or how an
-- exception takes it past that call.
pub data Course : Type 0 where
  reached : Daemon → Option String → Course
  cut : Daemon → String → Course

module _ (raises : Action → Option String) (meanwhile : Action → Daemon → Daemon)
    (drains : System → System) (now pid : ℕ) where
  -- Steps in their order, as far as the first that raises: the state, and the exception.
  unfoldable pub perform : List Action → Daemon → Daemon × Option String
  unfolding effect
  perform [] d = (d, none)
  perform (a ∷ rest) d = elim (raises a) [
    | some e ↦ (meanwhile a d, some e)
    | none ↦ perform rest (effect drains now pid a (meanwhile a d))
  ]

  -- `finally: await jobs.shutdown()`, after a block that ended with `error`
  unfoldable pub tear_down : Daemon → Option String → Course
  unfolding effect
  tear_down d error = elim (raises shuts_jobs) [
    | some e ↦ cut (meanwhile shuts_jobs d) e
    | none ↦ reached (effect drains now pid shuts_jobs (meanwhile shuts_jobs d)) error
  ]

  -- The cleanup of the runner, if there is one; its exception takes the place of an earlier one.
  unfoldable pub clean_up : Bool → Daemon → Option String → Course
  unfolding tear_down effect
  clean_up false d error = tear_down d error
  clean_up true d error = elim (raises cleans_up) [
    | some e ↦ tear_down (meanwhile cleans_up d) (some e)
    | none ↦ tear_down (effect drains now pid cleans_up (meanwhile cleans_up d)) error
  ]

  -- The outer `finally`: an exception of the unlink skips what follows it.
  unfoldable pub finish : Bool → Daemon × Option String → Course
  unfolding clean_up effect
  finish has_runner (d, error) = elim (raises unlinks) [
    | some e ↦ cut (meanwhile unlinks d) e
    | none ↦ clean_up has_runner (effect drains now pid unlinks (meanwhile unlinks d)) error
  ]

  unfoldable pub serve : Daemon × Option String → Course
  unfolding finish perform
  serve (d, some e) = finish false (d, some e)
  serve (d, none) = finish true (perform served d)

  unfoldable pub until_stop : Daemon → Course
  unfolding serve perform effect
  until_stop d = elim (raises makes_dir) [
    | some e ↦ cut (meanwhile makes_dir d) e
    | none ↦ serve (
        perform (starts_pool ∷ makes_runner ∷ [])
          (effect drains now pid makes_dir (meanwhile makes_dir d)))
  ]

  -- The last `await pool.stop()`
  unfoldable pub end_course : Course → Daemon × Option String
  unfolding effect
  end_course (cut d e) = (d, some e)
  end_course (reached d error) = elim (raises stops_pool) [
    | some e ↦ (meanwhile stops_pool d, some e)
    | none ↦ (effect drains now pid stops_pool (meanwhile stops_pool d), error)
  ]

  -- run_daemon: the state at its end, and the exception that leaves it
  unfoldable pub run_daemon : Daemon → Daemon × Option String
  unfolding until_stop end_course
  run_daemon d = end_course (until_stop d)

abbrev pub state_of : Course → Daemon
state_of (reached d error) = d
state_of (cut d e) = d
