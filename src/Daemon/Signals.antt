-- ===== src/Daemon/Signals.antt =====
-- src/claude_pool/daemon.py from its outside: `main`, and the handlers of `_wait_for_shutdown_signal`.
-- An exception of `add_signal_handler` is given by its name.
use claude_code_cli_local_ga.Prelude.{
  is_some, not, ap, ◌∙◌, refl, ◌≡◌, ℕ, String, Bool, true, false, ◌||◌, Option, none, some, List,
  [], ◌∷◌, str_eq, if◌then◌else◌,
}
use claude_code_cli_local_ga.Exn.{Result, ok, raise}
use claude_code_cli_local_ga.Config.{PoolConfig}
use claude_code_cli_local_ga.Pool.System.{System}
use claude_code_cli_local_ga.Daemon.{Action, Daemon, fresh, run_daemon}

pub data Signal : Type 0 where
  sigterm sigint : Signal

-- The exceptions that mean that a handler cannot be added here.
abbrev is_unsupported : String → Bool
is_unsupported e =
    str_eq e "NotImplementedError" || (str_eq e "AttributeError" || str_eq e "ValueError")

-- One turn of the loop of _wait_for_shutdown_signal, by what adding the handler raises, before the
-- rest of it
abbrev with_handler :
    Signal → Option String → Option String × List Signal → Option String × List Signal
with_handler s none (error, handled) = (error, s ∷ handled)
with_handler s (some e) (error, handled) =
    if is_unsupported e then (error, handled) else (some e, [])

-- The loop: the exception that leaves it, and the signals that set the event.
unfoldable pub install : (Signal → Option String) → List Signal → Option String × List Signal
install raises [] = (none, [])
install raises (s ∷ rest) = with_handler s (raises s) (install raises rest)

abbrev is_signal : Signal → Signal → Bool
is_signal sigterm sigterm = true
is_signal sigint sigint = true
is_signal sigterm sigint = false
is_signal sigint sigterm = false

abbrev has_signal : Signal → List Signal → Bool
has_signal s [] = false
has_signal s (t ∷ ts) = is_signal s t || has_signal s ts

abbrev some_handled : List Signal → List Signal → Bool
some_handled handled [] = false
some_handled handled (s ∷ ss) = has_signal s handled || some_handled handled ss

-- How `_wait_for_shutdown_signal` ends: it returns, as a signal has come that has a handler, or an
-- exception leaves the loop; or the event is never set, and what an unhandled signal does to the
-- process is not its matter.
pub data Waiting : Type 0 where
  stops waits_on : Waiting
  fails : String → Waiting

abbrev awaited : List Signal → Option String × List Signal → Waiting
awaited arrived (some e, handled) = fails e
awaited arrived (none, handled) = if some_handled handled arrived then stops else waits_on

-- `arrived` are the signals that come.
unfoldable pub wait_for_shutdown_signal : (Signal → Option String) → List Signal → Waiting
unfolding install
wait_for_shutdown_signal raises arrived = awaited arrived (install raises (sigterm ∷ sigint ∷ []))

-- main(), with what from_env returns or raises: the daemon it ends with, if it comes to one
unfoldable pub main :
    (PoolConfig → Action → Option String)
    → (Action → Daemon → Daemon)
    → (System → System)
    → ℕ
    → ℕ
    → Option ℕ
    → Result PoolConfig
    → Result (Daemon × Option String)
unfolding run_daemon fresh
main raises meanwhile drains now pid file (raise e) = raise e
main raises meanwhile drains now pid file (ok config) =
    ok (run_daemon (raises config) meanwhile drains now pid (fresh config now file))

-- Where a handler cannot be added at all, the exception is one of the three that mean so.
abbrev IsTolerated : (Signal → Option String) → Type 0
IsTolerated raises = (s : Signal) (e : String) → raises s ≡ some e → is_unsupported e ≡ true

abbrev kept : (Signal → Option String) → List Signal → List Signal
kept raises [] = []
kept raises (s ∷ rest) = if is_some (raises s) then kept raises rest else s ∷ kept raises rest

added :
    (s : Signal) (o : Option String) (handled : List Signal)
    → ((e : String) → o ≡ some e → is_unsupported e ≡ true)
    → with_handler s o (none, handled) ≡ (none, if is_some o then handled else s ∷ handled)
added s none handled h = refl
added s (some e) handled h = rw (h e refl) refl

install-kept :
    (raises : Signal → Option String) (ss : List Signal)
    → IsTolerated raises
    → install raises ss ≡ (none, kept raises ss)
unfolding install
install-kept raises [] tolerated = refl
install-kept raises (s ∷ rest) tolerated =
    ap (with_handler s (raises s)) (install-kept raises rest tolerated)
    ∙ added s (raises s) (kept raises rest) (tolerated s)

-- Some signal comes for which a handler could be added.
abbrev is_heard : (Signal → Option String) → List Signal → Bool
is_heard raises [] = false
is_heard raises (s ∷ ss) = not (is_some (raises s)) || is_heard raises ss

one_of_two :
    (s : Signal) (a b : Bool)
    → has_signal s
        (if a then if b then [] else sigint ∷ [] else sigterm ∷ (if b then [] else sigint ∷ []))
      ≡ not (elim s [ sigterm ↦ a | sigint ↦ b ])
one_of_two sigterm true true = refl
one_of_two sigterm true false = refl
one_of_two sigterm false true = refl
one_of_two sigterm false false = refl
one_of_two sigint true true = refl
one_of_two sigint true false = refl
one_of_two sigint false true = refl
one_of_two sigint false false = refl

handled-kept :
    (raises : Signal → Option String) (s : Signal)
    → has_signal s (kept raises (sigterm ∷ sigint ∷ [])) ≡ not (is_some (raises s))
handled-kept raises sigterm =
    one_of_two sigterm (is_some (raises sigterm)) (is_some (raises sigint))
handled-kept raises sigint = one_of_two sigint (is_some (raises sigterm)) (is_some (raises sigint))

some_handled-kept :
    (raises : Signal → Option String) (arrived : List Signal)
    → some_handled (kept raises (sigterm ∷ sigint ∷ [])) arrived ≡ is_heard raises arrived
some_handled-kept raises [] = refl
some_handled-kept raises (s ∷ ss) = rw (handled-kept raises s, some_handled-kept raises ss) refl

-- When a handler that cannot be added raises one of the three exceptions that are passed over, the
-- wait never fails, and it returns just if a signal comes for which a handler could be added.
wait_for_shutdown_signal_lem :
    (raises : Signal → Option String) (arrived : List Signal)
    → IsTolerated raises
    → wait_for_shutdown_signal raises arrived
      ≡ (if is_heard raises arrived then stops else waits_on)
unfolding wait_for_shutdown_signal
wait_for_shutdown_signal_lem raises arrived tolerated =
    ap (awaited arrived) (install-kept raises (sigterm ∷ sigint ∷ []) tolerated)
    ∙ ap (λ b. if b then stops else waits_on) (some_handled-kept raises arrived)
