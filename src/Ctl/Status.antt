-- ===== src/Ctl/Status.antt =====
-- The commands `status`, `start` and `restart` of scripts/daemon_ctl.py, and its `main`.
use claude_code_cli_local_ga.Prelude.{
  ℕ, String, text_append, Option, none, some, List, [], ◌∷◌, ◌++◌, ◌==◌, str_eq, ◌≡◌, refl,
  if◌then◌else◌,
}
use claude_code_cli_local_ga.Json.{Json, null, obj, Fields, truthy, get_or}
use claude_code_cli_local_ga.Exn.{Result, ok, raise, unexpected, Returns, ◌>>=◌}
use claude_code_cli_local_ga.Config.{PoolConfig}
use claude_code_cli_local_ga.Pool.Health.{Stats}
use claude_code_cli_local_ga.Client.{item}
use claude_code_cli_local_ga.Server.Answers.{handle_health}
use claude_code_cli_local_ga.Ctl.{Glimpse, live_daemon_pid, Ended}

-- A command's exit code and what it prints.
pub record Report : Type 0 where
  pub code : ℕ
  pub lines : List String

-- _base_url
abbrev pub base_url : (ℕ → String) → PoolConfig → String
base_url shown config =
    text_append "http://" (text_append config.host (text_append ":" (shown config.port)))

-- `d[k]`, and the same of a value that may be no dict
unfoldable pub need : String → Fields → Result Json
unfolding item
need k d = elim (item k d) [ none ↦ raise (unexpected "KeyError") | some v ↦ ok v ]

unfoldable pub need_in : String → Json → Result Json
unfolding need
need_in k (obj d) = need k d
need_in k v = raise (unexpected "TypeError")

-- A line for a field of the report that is set
unfoldable pub note_line : (Json → String) → String → Fields → List String
note_line text k health =
    let v = get_or k null health in
    if truthy v then text_append "  " (text_append k (text_append ": " (text v))) ∷ [] else []

abbrev pub pid_text : (ℕ → String) → Option ℕ → String
pid_text shown none = "?"
pid_text shown (some pid) = if pid == 0 then "?" else shown pid

module _ (read_int : String → Option ℕ) (shown : ℕ → String) (text : Json → String)
    (config : PoolConfig) where
  abbrev pub workers_line : Json → Json → Json → Json → Json → String
  workers_line alive idle busy min_workers max_workers = text_append "  workers  " (
      text_append (text alive) (
        text_append "/" (
          text_append (text idle) (
            text_append " idle alive, " (
              text_append (text busy) (
                text_append " busy  (min " (
                  text_append (text min_workers)
                    (text_append ", max " (text_append (text max_workers) ")")))))))))

  -- The body of status() for a daemon that answers, `text` being what an f-string makes of a value
  unfoldable pub describe : Glimpse → Fields → Result Report
  unfolding need need_in note_line live_daemon_pid
  describe g health = do
    alive ← need "idle_alive" health
    idle ← need "idle" health
    busy ← need "busy" health
    min_workers ← need "min_workers" health
    max_workers ← need "max_workers" health
    jobs ← need "jobs" health
    running ← need_in "running" jobs
    total ← need_in "total" jobs
    healthy ← need "healthy" health
    ok (record {
      code = 0;
      lines =
          (text_append "running  pid=" (
              text_append (pid_text shown (live_daemon_pid read_int g))
                (text_append "  " (base_url shown config)))
            ∷ text_append "  model    " config.model
            ∷ workers_line alive idle busy min_workers max_workers
            ∷ text_append "  jobs     " (
                text_append (text running)
                  (text_append " running, " (text_append (text total) " kept")))
            ∷ (if truthy healthy then [] else "  UNHEALTHY: pre-warmed workers are dying" ∷ []))
          ++ note_line text "last_spawn_error" health
          ++ note_line text "last_error" health
          ++ text_append "  docs     " (text_append (base_url shown config) "/docs") ∷ [];
    })

  -- status(); `none` if the health call raises
  unfoldable pub status : Glimpse → Option Fields → Result Report
  unfolding describe
  status g none = ok (record {
    code = 1;
    lines =
        text_append "stopped  (" (text_append (base_url shown config) " is not answering)") ∷ [];
  })
  status g (some health) = describe g health

  -- start(), given how the client's constructor ends
  unfoldable pub start : Result (Unit {0}) → Glimpse → Option Fields → Result Report
  unfolding status
  start (raise e) g health = raise e
  start (ok _) g health = status g health

  -- restart(), given how stop() ends
  unfoldable pub restart : Ended → Result (Unit {0}) → Glimpse → Option Fields → Result Report
  unfolding start
  restart e connected g health =
      if e.code == 0 then start connected g health else ok (record { code = 1; lines = [] })

  -- Whatever the pool and the store report by GET /health, `status` prints it and exits with 0.
  pub status-health :
      (g : Glimpse) (report : Stats) (jobs : ℕ × ℕ)
      → Returns (status g (some (handle_health report jobs).body)) (λ r. r.code ≡ 0)
  unfolding status describe handle_health need need_in item
  status-health g report (total, running) = refl

data Command : Type 0 where
  start_command stop_command restart_command status_command : Command

-- COMMANDS, and what main() makes of the arguments behind the program's name: `none` is the usage
-- message with the code 2.
unfoldable command_of : List String → Option Command
command_of [] = some status_command
command_of (name ∷ rest) =
    if str_eq name "start"
    then some start_command
    else if str_eq name "stop"
    then some stop_command
    else if str_eq name "restart"
    then some restart_command
    else if str_eq name "status"
    then some status_command
    else none

abbrev usage_line : String → String
usage_line program = text_append "usage: " (text_append program " [start|stop|restart|status]")

-- main(), with what from_env returns or raises, and what each command comes to
unfoldable main :
    String
    → List String
    → Result PoolConfig
    → (Command → PoolConfig → Result Report)
    → Result Report
unfolding command_of
main program args config run = elim (command_of args) [
  | none ↦ ok (record { code = 2; lines = usage_line program ∷ [] })
  | some command ↦ config >>= run command
]
