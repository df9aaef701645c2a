-- ===== src/Client/Start.antt =====
-- The start of a daemon by src/claude_pool/client.py, as far as the settings that the daemon then reads.
use claude_code_cli_local_ga.Prelude.{
  refl, ◌∙◌, sym, subst, ℕ, String, Bool, true, Option, some, ◌≡◌, str_eq, if◌then◌else◌,
}
use claude_code_cli_local_ga.Config.Valid.{create-Holds, from_env-Holds}
use claude_code_cli_local_ga.Config.{from_env, setting, PoolConfig, is_loopback_host}
use claude_code_cli_local_ga.Exn.{Holds, ok, Result}
use claude_code_cli_local_ga.Json.{Json}

-- The environment that _start_daemon gives to the daemon
unfoldable pub daemon_env : String → String → (String → Option String) → String → Option String
daemon_env host port environ key =
    if str_eq key "CLAUDE_POOL_PORT"
    then some port
    else if str_eq key "CLAUDE_POOL_HOST"
    then some host
    else environ key

-- A daemon at this address, which is a loopback address.
abbrev pub IsAt : (String → Option Bool) → String → ℕ → PoolConfig → Type 0
IsAt ip host port c = (c.host ≡ host) × (c.port ≡ port) × (is_loopback_host ip host ≡ true)

ok_eq : (a b : ℕ) → ◌≡◌ {A = Result ℕ} (ok a) (ok b) → a ≡ b
ok_eq a b e = cc

port_read :
    (to_int : String → Option ℕ) (host text : String) (port : ℕ) (environ : String → Option String)
    → to_int text ≡ some port
    → setting (daemon_env host text environ) to_int "CLAUDE_POOL_PORT" 8756 ≡ ok port
unfolding daemon_env setting
port_read to_int host text port environ read = rw read refl

-- A daemon that the client starts reads the client's own host and port, whatever else the environment
-- holds: if its settings are valid at all, it listens where the client calls it, and that is a
-- loopback address. The condition: `int` reads the port back from its text.
pub daemon_env-from_env :
    (ip : String → Option Bool) (to_int to_float : String → Option ℕ) (loads : String → Option Json)
    (scratch host text : String) (port : ℕ) (environ : String → Option String)
    → to_int text ≡ some port
    → Holds
        (from_env ip to_int to_float loads scratch (daemon_env host text environ))
        (IsAt ip host port)
unfolding daemon_env
daemon_env-from_env ip to_int to_float loads scratch host text port environ read =
    from_env-Holds ip to_int to_float loads scratch (daemon_env host text environ)
      (IsAt ip host port)
      λ c here there. create-Holds ip c (IsAt ip host port) λ servable. (
        here,
        ok_eq c.port port (sym there ∙ port_read to_int host text port environ read),
        subst (λ h. is_loopback_host ip h ≡ true) here servable.loopback,
      )
