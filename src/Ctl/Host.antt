-- ===== src/Ctl/Host.antt =====
-- scripts/daemon_ctl.py and the host: the programs that it runs to look at processes and to end one. The
-- operations of a Shell are subprocess.run, by its standard output (it raises if there is no such
-- program), and the reading of the pid file. `strip` and `split` stand for those of `str`.
use claude_code_cli_local_ga.Prelude.{
  ℕ, String, text_append, Bool, true, false, Option, none, some, List, [], ◌∷◌, ◌≡◌, refl,
  if◌then◌else◌,
}
use claude_code_cli_local_ga.Exn.{Result, ok, raise, ◌>>=◌}
use claude_code_cli_local_ga.Json.{Fields}
use claude_code_cli_local_ga.Client.Calls.{Called, gave, denied, lacked}
use claude_code_cli_local_ga.Ctl.{Glimpse, read_pid, is_daemon, confirmed, live_daemon_pid, pids_of}

pub record Shell {ℓ} (H : Type ℓ) : Type ℓ where
  pub output : List String → H → Result String
  pub pid_text : H → Option String

-- The command of _command_line, and the one of _daemon_pids_by_command_line
unfoldable pub command_line_query : Bool → String → List String
command_line_query windows pid =
    if windows
    then "powershell"
      ∷ "-NoProfile"
      ∷ "-Command"
      ∷ text_append "(Get-CimInstance Win32_Process -Filter 'ProcessId="
          (text_append pid "').CommandLine")
      ∷ []
    else "ps" ∷ "-p" ∷ pid ∷ "-o" ∷ "args=" ∷ []

unfoldable pub listing_query : Bool → List String
listing_query windows =
    if windows
    then "powershell"
      ∷ "-NoProfile"
      ∷ "-Command"
      ∷ text_append "Get-CimInstance Win32_Process -Filter \"Name='python.exe'\" | " (
          text_append "Where-Object { $_.CommandLine -like '*claude_pool.daemon*' } | "
            "ForEach-Object { $_.ProcessId }")
      ∷ []
    else "pgrep" ∷ "-f" ∷ "claude_pool.daemon" ∷ []

-- What _terminate does: it runs a program whose outcome it does not look at, or sends SIGTERM.
pub data Termination : Type 0 where
  runs : List String → Termination
  sends_sigterm : ℕ → Termination

unfoldable pub terminate : Bool → (ℕ → String) → ℕ → Termination
terminate windows shown pid =
    if windows then runs ("taskkill" ∷ "/F" ∷ "/PID" ∷ shown pid ∷ []) else sends_sigterm pid

-- _is_answering, by what health() returns or raises
unfoldable pub is_answering : Result (Called Fields) → Bool
is_answering (ok (gave health)) = true
is_answering (ok (denied e)) = false
is_answering (ok (lacked k)) = false
is_answering (raise e) = false

module _ {ℓ} {H : Type ℓ} (shell : Shell H) (strip : String → String) (split : String → List String)
    (read_int digits : String → Option ℕ) (shown : ℕ → String) (windows : Bool) where
  -- _command_line
  unfoldable pub command_line : ℕ → H → Result String
  command_line pid h =
      shell.output (command_line_query windows (shown pid)) h >>= (λ out. ok (strip out))

  -- _live_daemon_pid, behind _read_pid
  unfoldable pub live_pid_from : H → Option ℕ → Result (Option ℕ)
  unfolding command_line
  live_pid_from h none = ok none
  live_pid_from h (some pid) =
      command_line pid h >>= (λ line. ok (if is_daemon line then some pid else none))

  unfoldable pub live_pid : H → Result (Option ℕ)
  unfolding live_pid_from
  live_pid h = live_pid_from h (read_pid read_int (shell.pid_text h))

  -- _daemon_pids_by_command_line
  unfoldable pub daemon_pids : H → Result (List ℕ)
  daemon_pids h =
      shell.output (listing_query windows) h >>= (λ out. ok (pids_of digits (split out)))

  -- A Glimpse of this host: the text of the pid file, and the command lines
  pub record IsGlimpse (h : H) (g : Glimpse) : Type ℓ where
    pub filed : shell.pid_text h ≡ g.file
    pub lined : (pid : ℕ) → command_line pid h ≡ ok (g.command_line pid)

  live_pid_from-confirmed :
      (h : H) (g : Glimpse) (pid : Option ℕ)
      → IsGlimpse h g
      → live_pid_from h pid ≡ ok (confirmed g.command_line pid)
  unfolding live_pid_from confirmed
  live_pid_from-confirmed h g none seen = refl
  live_pid_from-confirmed h g (some pid) seen = rw (seen.lined pid) refl

  -- The decisions of Ctl are over what the script sees of its host.
  pub live_pid-IsGlimpse :
      (h : H) (g : Glimpse) → IsGlimpse h g → live_pid h ≡ ok (live_daemon_pid read_int g)
  unfolding live_pid live_daemon_pid
  live_pid-IsGlimpse h g seen =
      rw seen.filed (live_pid_from-confirmed h g (read_pid read_int g.file) seen)
