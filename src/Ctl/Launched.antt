-- ===== src/Ctl/Launched.antt =====
-- A daemon that src/claude_pool/client.py starts, under the command `stop` of scripts/daemon_ctl.py.
use Prim.Native.Char.{Char, len_utf8}
use Prim.Native.String.append
use Prim.Native.String.find
use Prim.Native.String.len
use Prim.Native.String.{find, len}
use text.Mathlib.TextLemmas.{append_assoc}
use text.Mathlib.TextFind.{begins_cases}
use claude_code_cli_local_ga.Prelude.{
  ℕ, ◌+◌, ◌≤◌, String, text_append, Bool, true, false, Option, some, is_some, find?, List, [], ◌≡◌,
  refl, sym, ◌∙◌, ap, subst, inl, inr, arith,
}
use claude_code_cli_local_ga.Ask.{join}
use claude_code_cli_local_ga.Client.Requests.{start_daemon}
use claude_code_cli_local_ga.Ctl.{
  Glimpse, Polls, is_daemon, confirmed, read_pid, live_daemon_pid, stop, stop_timeout_sec,
}
use claude_code_cli_local_ga.Ctl.Stop.{
  await_gone-IsAwaited, IsTimed, IsAwaited, await_gone-IsAwaited,
}

find-later :
    (c : Char) (s t : String) → find s t ≤ len s → find (String.◌∷◌ c s) t ≤ len (String.◌∷◌ c s)
find-later c s t h = elim (begins_cases (String.◌∷◌ c s) t 0 (len_utf8 c + find s t)) [
  | inl (at_once, _) ↦
      subst (λ n. n ≤ len (String.◌∷◌ c s)) (sym (find.cons c s t ∙ at_once)) (omega arith)
  | inr later ↦
      subst (λ n. n ≤ len (String.◌∷◌ c s)) (sym (find.cons c s t ∙ later))
        (subst (λ n. len_utf8 c + find s t ≤ n) (sym (len.cons c s)) (omega arith))
]

-- A text stands in every text that ends with it.
find-suffix : (s t : String) → find t t ≤ len t → find (text_append s t) t ≤ len (text_append s t)
find-suffix String.[] t h = subst (λ x. find x t ≤ len x) (sym (append.nil t)) h
find-suffix (String.◌∷◌ c s) t h =
    subst (λ x. find x t ≤ len x) (sym (append.cons c s t))
      (find-later c (text_append s t) t (find-suffix s t h))

found : (s t : String) → find s t ≤ len s → is_some (find? s t) ≡ true
found s t h = ground arith

launched-is_daemon :
    (windows : Bool) (executable host port : String) (environ : String → Option String)
    → is_daemon (join (start_daemon windows executable host port environ).argv) ≡ true
unfolding start_daemon join
launched-is_daemon windows executable host port environ =
    ap is_daemon (sym (append_assoc executable " -m " "claude_pool.daemon"))
    ∙ found _ "claude_pool.daemon"
        (find-suffix (text_append executable " -m ") "claude_pool.daemon" (omega arith))

module _ (read_int : String → Option ℕ) (shown : ℕ → String) where
  launched-live :
      (windows : Bool) (executable host port : String) (environ : String → Option String)
      (g : Glimpse) (pid : ℕ)
      → read_int (shown pid) ≡ some pid
      → g.file ≡ some (shown pid)
      → g.command_line pid ≡ join (start_daemon windows executable host port environ).argv
      → live_daemon_pid read_int g ≡ some pid
  unfolding live_daemon_pid read_pid confirmed
  launched-live windows executable host port environ g pid read filed line =
      rw (filed, read, line, launched-is_daemon windows executable host port environ) refl

  -- A daemon that the client has started, whatever its address and environment, and whose pid stands
  -- in the pid file: `stop` terminates this process and no other, and ends with the code 0 only
  -- after a poll before the deadline that finds no daemon by the pid file, and else with 1. The conditions:
  -- a pid is read back from its text, the process has the command line that it was started with,
  -- and the loop is polled at its deadline or later.
  pub stop-start_daemon :
      (windows : Bool) (executable host port : String) (environ : String → Option String)
      (g : Glimpse) (answering : Bool) (pids : List ℕ) (pid now : ℕ) (polls : Polls)
      → read_int (shown pid) ≡ some pid
      → g.file ≡ some (shown pid)
      → g.command_line pid ≡ join (start_daemon windows executable host port environ).argv
      → IsTimed read_int shown (now + stop_timeout_sec) polls
      → IsAwaited read_int shown
          (now + stop_timeout_sec)
          pid
          polls
          (stop read_int shown windows port g answering pids now polls)
  unfolding stop
  stop-start_daemon windows executable host port environ g answering pids pid now polls read filed
        line timed =
      rw (launched-live windows executable host port environ g pid read filed line, stop)
        (await_gone-IsAwaited read_int shown (now + stop_timeout_sec) pid false [] polls timed)
