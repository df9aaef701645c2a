-- ===== src/Ctl.antt =====
-- scripts/daemon_ctl.py: the decisions of its commands over what they observe. A Glimpse is the host at
-- one moment: the text of the pid file, and the command line of each process ("" if it is gone).
-- `read_int` stands for `int` of a stripped text (`none` is a ValueError), `digits` for `str.isdigit`
-- with `int`, and `shown` for `str` of a number. What a command prints is a list of lines.
pub mod Stop
pub mod Status
pub mod Host
pub mod Launched
use claude_code_cli_local_ga.Prelude.{
  ◌++◌, ◌+◌, ℕ, String, text_append, Bool, true, false, not, ◌&&◌, Option, none, some, is_some,
  List, [], ◌∷◌, ◌==◌, length, ltb, find?, if◌then◌else◌,
}

pub record Glimpse : Type 0 where
  pub file : Option String
  pub command_line : ℕ → String

-- _read_pid
unfoldable pub read_pid : (String → Option ℕ) → Option String → Option ℕ
read_pid read_int none = none
read_pid read_int (some text) = read_int text

abbrev pub is_daemon : String → Bool
is_daemon command = is_some (find? command "claude_pool.daemon")

unfoldable pub confirmed : (ℕ → String) → Option ℕ → Option ℕ
confirmed command_line none = none
confirmed command_line (some pid) = if is_daemon (command_line pid) then some pid else none

-- _live_daemon_pid
unfoldable pub live_daemon_pid : (String → Option ℕ) → Glimpse → Option ℕ
unfolding read_pid confirmed
live_daemon_pid read_int g = confirmed g.command_line (read_pid read_int g.file)

-- The comprehension of _daemon_pids_by_command_line, over the parts of the listing
unfoldable pub pids_of : (String → Option ℕ) → List String → List ℕ
pids_of digits [] = []
pids_of digits (line ∷ lines) = elim (digits line) [
  | none ↦ pids_of digits lines
  | some n ↦ n ∷ pids_of digits lines
]

-- How a command ends: its exit code, the process that it terminated, whether it removed the pid
-- file, and what it printed.
pub record Ended : Type 0 where
  pub code : ℕ
  pub terminated : Option ℕ
  pub unlinked : Bool
  pub printed : List String

-- The host at each turn of the loop of stop(), with the time that the loop reads first.
abbrev pub Polls : Type 0
Polls = List (ℕ × Glimpse)

abbrev pub stop_timeout_sec : ℕ
stop_timeout_sec = 10

abbrev pub ended : ℕ → Option ℕ → Bool → List String → Ended
ended code pid unlinked printed = record {
  code = code;
  terminated = pid;
  unlinked = unlinked;
  printed = printed;
}

-- The commands that are offered to stop each candidate by hand
unfoldable pub by_hand : Bool → (ℕ → String) → List ℕ → List String
by_hand windows shown [] = []
by_hand windows shown (pid ∷ pids) =
    text_append (if windows then "  taskkill /F /PID " else "  kill ") (shown pid)
    ∷ by_hand windows shown pids

abbrev pub fallback_line : (ℕ → String) → ℕ → String
fallback_line shown pid =
    text_append "no pid file; falling back to the only running daemon (pid="
      (text_append (shown pid) ")")

module _ (read_int : String → Option ℕ) (shown : ℕ → String) where
  -- The loop of stop() over the polls, and what follows it; `none` if it still polls after them.
  -- `unlinked` and `said` are what stop() has done before.
  unfoldable pub await_gone : ℕ → ℕ → Bool → List String → Polls → Option Ended
  unfolding live_daemon_pid
  await_gone deadline pid unlinked said [] = none
  await_gone deadline pid unlinked said ((now, g) ∷ polls) =
      let rest = await_gone deadline pid unlinked said polls in
      if not (ltb now deadline)
      then some (
          ended 1 (some pid) unlinked (
            said
            ++ text_append "FAILED to stop pid=" (text_append (shown pid) " within 10.0s") ∷ []))
      else if is_some (live_daemon_pid read_int g)
      then rest
      else some (ended 0 (some pid) true (said ++ text_append "stopped  pid=" (shown pid) ∷ []))

  -- stop() when something answers and no pid file names a daemon
  unfoldable pub fall_back : Bool → String → ℕ → List ℕ → Polls → Option Ended
  unfolding await_gone by_hand
  fall_back windows port deadline (pid ∷ []) polls =
      await_gone deadline pid true (fallback_line shown pid ∷ []) polls
  fall_back windows port deadline pids polls = some (
      ended 1 none true (
        text_append "port " (
          text_append port (
            text_append " is answering, but no pid file and " (
              text_append (shown (length pids))
                " daemon processes are running -- cannot tell which one serves this port. Stop it by hand:")))
        ∷ by_hand windows shown pids))

  -- stop(), by what it observes: the host, whether the port answers, the listing of the daemons, the
  -- time after the termination, and the polls
  unfoldable pub stop : Bool → String → Glimpse → Bool → List ℕ → ℕ → Polls → Option Ended
  unfolding await_gone fall_back live_daemon_pid
  stop windows port g answering pids now polls = elim (live_daemon_pid read_int g) [
    | some pid ↦ await_gone (now + stop_timeout_sec) pid false [] polls
    | none ↦
        if not answering
        then some (
            ended 0 none true
              (text_append "stopped  (nothing running on port " (text_append port ")") ∷ []))
        else fall_back windows port (now + stop_timeout_sec) pids polls
  ]
