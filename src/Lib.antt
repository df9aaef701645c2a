-- ===== src/Lib.antt =====
-- A local HTTP gateway in front of the `claude` command line: a verification library for
-- src/claude_pool.
--
-- The program. A daemon keeps a pool of `claude` processes that have been started and wait for one
-- prompt each. A request, or a background job, runs `execute` (src/claude_pool/runner.py): it
-- acquires a worker from the pool (src/claude_pool/pool.py), runs the prompt on it and reads its
-- output (src/claude_pool/worker.py), classifies a failed turn (src/claude_pool/errors.py), notes
-- the outcome in the pool for /health, and has the worker released, which kills it. The job store
-- (src/claude_pool/jobs.py) runs `execute` in tasks of its own and keeps what they come to. What
-- `execute` reports is documented in a table of src/claude_pool/apidocs.py. The server
-- (src/claude_pool/server.py) lets requests of loopback hosts through to these two and to the
-- documents of apidocs.py, and the client (src/claude_pool/client.py) turns its answers into values
-- and errors. src/claude_pool/daemon.py makes the pool, the store and the server, and ends them in
-- order; scripts/daemon_ctl.py starts and stops a daemon from outside, and scripts/ask.py sends one
-- prompt.
--
-- The files.
--   Prelude, Prelude/Tests, Prelude/Lists: shared names, Boolean tests, lists and sums over
--     lists.
--   Json, Exn: the values of `json.loads`, and the exceptions with results that may be one of
--     them.
--   Config, Config/Valid: PoolConfig of src/claude_pool/config.py with its validation and
--     from_env.
--   Errors, Errors/Verdict: Failure and classify.
--   Pool: the state of WorkerPool, and one function for each stretch of code that holds `_cond`
--     with no suspension point in between: init, start_loop, acquire_enter (`_acquire` from the
--     head of its loop), acquire_resume (after its wait), acquire_cancel, grow_by_one,
--     release_locked, sweep_select, stop_mark, stop_take and their parts.
--   Pool/Sweep, Pool/Acquire: what one round of the sweep and one stretch of `_acquire` do.
--   Pool/System: the pool among its tasks. A Step is one such stretch, a process that dies
--     or whose end asyncio sees, or a Worker.start that raises when its process runs.
--     The workers in local variables of the tasks are lists of the state. Its children Counts,
--     Owners, Limit, Wakeups, Reuse, Ended, Shutdown and Orphans are about all reachable
--     states, Stopping about stop() from its first line to its last, with the steps of
--     other tasks while it waits for the background tasks.
--   Worker, Worker/Stream, Worker/Turns: _build_argv, _parse_stream and run.
--   WinJob: src/claude_pool/winjob.py with start, is_alive and kill of src/claude_pool/worker.py,
--     over the interface Host of the operating system. WinJob/Closing: what Windows documents of its
--     calls, and the lives of a pool's workers in a job; WinJob/Closing/Ends and WinJob/Strays are
--     about the end of these workers.
--   Runner, Runner/Lifecycle, Runner/Marks: Outcome, execute and _note. Runner/Serving: a call of
--     execute among the steps of Pool/System.
--   ApiDocs: the rows of FAILURE_KINDS. ApiDocs/Info: the texts and api_info. ApiDocs/Schemas,
--     ApiDocs/Responses, ApiDocs/Responses/Merged, ApiDocs/OpenApi: openapi_spec.
--     ApiDocs/Page, ApiDocs/Page/Markup: render_html.
--   JobTable, Jobs: Job and JobStore with every operation. Jobs/Table, Jobs/Lookup,
--     Jobs/Reaping and Jobs/Eviction are about the two dicts, Jobs/Submission, Jobs/Cancelling
--     and Jobs/Listing about single calls, Jobs/Lives and Jobs/History about all sequences of
--     steps. Jobs/Abstract is a description of the store without its dicts, with one
--     constructor for each change.
--   Jobs/Report: Job.to_dict. Jobs/Stopping: shutdown. Pool/Health: stats.
--   Server, Server/Guard, Server/Answers, Server/Answers/Documented, Server/Jobs:
--     src/claude_pool/server.py, the guard on the Host header, the reading of a prompt, the
--     handlers, and what their answers say. Server/Routes: create_app and the handlers behind the
--     guard; Server/Routes/Described and Server/Routes/Conforming are about them. The pool that a
--     handler has is the one that the request's outcome is noted in; what acquiring, releasing and
--     cancelling do to it are steps of Pool/System.
--   ApiDocs/Conforms: which JSON values a schema of the OpenAPI document admits.
--     ApiDocs/Responses/Bodies, Runner/Typed, Jobs/Typed, Server/Answers/Typed and
--     Server/Routes/Typed: which form the values have on their way to an answer.
--   Client, Client/Waiting: src/claude_pool/client.py, the payload of a prompt, the error made
--     of an answer, and the wait for a job over the polls in their order. Client/Start: the
--     environment of a daemon that it starts. Client/Calls: the methods, and the wait for a
--     daemon. Client/Calls/EndToEnd: a prompt from the client and back.
--     Client/Calls/Background: the same prompt as a job. Client/Requests: what
--     the client sends, and the process that it starts. Client/Requests/Web: urllib and the
--     router between a request and its handler, as an interface with its documented behaviour
--     as laws. Client/Requests/Reached and Client/Requests/Followed: the requests at the
--     routes of Server/Routes.
--   Daemon, Daemon/Teardown: run_daemon. What its steps raise, and what other tasks do meanwhile,
--     are arguments. Daemon/Signals: main, and the handlers that end the wait for a signal.
--   Ctl, Ctl/Stop, Ctl/Status: the commands of scripts/daemon_ctl.py, over what they observe of the
--     host at each poll. Ctl/Host: the programs that they run to observe it, and to end a process.
--     Ctl/Launched: a daemon that the client starts, under `stop`.
--   Ask, Ask/Reports: scripts/ask.py, and what it prints of an outcome.
--   ColdVsWarm, ColdVsWarm/Savings: scripts/bench_cold_vs_warm.py, and what its times measure.
--   StreamProbe, StreamProbe/Report: scripts/investigate_stream_json_timeout.py, beside Worker.
--   Tests: the examples.
--
-- How the code is rendered. Times, time limits and JSON numbers are natural numbers of one unit,
-- and a difference of two times stops at 0. `_total` is a natural number: its decrements are
-- written with a subtraction that stops at 0. `asyncio.Condition` is present by the number of its
-- waiters and of those notified that have not run since; whether it passes a notification on when a
-- notified waiter is cancelled is an argument of each such step. Whether a process runs is a
-- function from its number, and so is whether is_alive() says so, which it does until asyncio has
-- seen its end; the operating system gives a new process a number that no earlier one
-- had. The operations of `dict` on text keys are lists in the dict's order; `sorted` is an
-- insertion sort, stable as Python's. A task of the job store is a phase: created, inside
-- execute(), over. `str.strip` and `json.loads` are parameters of the reading of a worker's output;
-- so are, in Config, Server and Client, the conversions between numbers and texts, `str.isdigit`,
-- `repr` and `ipaddress`. No definition needs fuel: all recursion is on lists. asyncio is taken at its word in
-- two places: `wait_for` hands on whatever `_acquire` returned, and a spawn that is cancelled leaves
-- no process, so that a grow or a release that stop() cancels while it spawns ends as one that finds
-- the pool stopped.
--
-- Not modelled: what the operating system does in the calls of Host, Shell and Machine, and
-- the pipes of a process, whose output is an argument of the reading; the HTTP connections,
-- and the framework's own routing beyond the laws of Web.
pub mod Prelude
pub mod Json
pub mod Exn
pub mod Errors
pub mod Config
pub mod Pool
pub mod Worker
pub mod Runner
pub mod ApiDocs
pub mod JobTable
pub mod Jobs
pub mod Client
pub mod Server
pub mod Daemon
pub mod Ctl
pub mod Ask
pub mod WinJob
pub mod ColdVsWarm
pub mod StreamProbe
pub mod Tests
