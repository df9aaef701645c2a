-- ===== src/Config/Valid.antt =====
-- What the validation of src/claude_pool/config.py keeps out of a daemon.
use claude_code_cli_local_ga.Config.{
  or_default, PoolConfig, is_loopback_host, is_filled_list, has_texts, create, from_env, setting,
  command_of,
}
use claude_code_cli_local_ga.Prelude.{
  refl, inl, inr, Bool-cases, ℕ, String, Bool, true, Option, ◌≡◌,
}
use claude_code_cli_local_ga.Json.{Json}
use claude_code_cli_local_ga.Exn.{Result, ok, raise, Holds, ◌>>=◌}

-- The daemon binds a loopback address, and starts workers by a list of texts with a program in it.
pub record IsServable (ip : String → Option Bool) (c : PoolConfig) : Type 0 where
  pub loopback : is_loopback_host ip c.host ≡ true
  pub filled : is_filled_list c.claude_cmd ≡ true
  pub texts : has_texts c.claude_cmd ≡ true

bind-Holds {ℓ} :
    {A : Type ℓ} (r : Result A) (f : A → Result PoolConfig) (P : PoolConfig → Type 0)
    → ((a : A) → r ≡ ok a → Holds (f a) P)
    → Holds (r >>= f) P
bind-Holds (ok a) f P h = h a refl
bind-Holds (raise e) f P h = tt

-- A configuration that is created is the one that was asked for, and servable.
pub create-Holds :
    (ip : String → Option Bool) (c : PoolConfig) (P : PoolConfig → Type 0)
    → (IsServable ip c → P c)
    → Holds (create ip c) P
unfolding create
create-Holds ip c P h = elim (Bool-cases (is_loopback_host ip c.host)) [
  | inr e ↦ rw e tt
  | inl e ↦ elim (Bool-cases (is_filled_list c.claude_cmd)) [
    | inr f ↦ rw (e, f) tt
    | inl f ↦ elim (Bool-cases (has_texts c.claude_cmd)) [
      | inr g ↦ rw (e, f, g) tt
      | inl g ↦ rw (e, f, g) (h (record { loopback = e; filled = f; texts = g }))
    ]
  ]
]

-- What is read from an environment is created with its host, or the default one, and with the port
-- that its setting gives.
pub from_env-Holds :
    (ip : String → Option Bool) (to_int to_float : String → Option ℕ) (loads : String → Option Json)
    (scratch : String) (env : String → Option String) (P : PoolConfig → Type 0)
    → ((c : PoolConfig)
        → c.host ≡ or_default (env "CLAUDE_POOL_HOST") "127.0.0.1"
        → setting env to_int "CLAUDE_POOL_PORT" 8756 ≡ ok c.port
        → Holds (create ip c) P)
    → Holds (from_env ip to_int to_float loads scratch env) P
unfolding from_env
from_env-Holds ip to_int to_float loads scratch env P h =
    bind-Holds (command_of loads (env "CLAUDE_POOL_CLAUDE_CMD_JSON")) _ P λ cmd _.
      bind-Holds (setting env to_int "CLAUDE_POOL_MIN_WORKERS" 4) _ P λ x0 _.
        bind-Holds (setting env to_int "CLAUDE_POOL_MAX_WORKERS" 30) _ P λ x1 _.
          bind-Holds (setting env to_int "CLAUDE_POOL_PORT" 8756) _ P λ x2 port.
            bind-Holds (setting env to_float "CLAUDE_POOL_TIMEOUT_SEC" 120) _ P λ x3 _.
              bind-Holds (setting env to_float "CLAUDE_POOL_ACQUIRE_TIMEOUT_SEC" 60) _ P λ x4 _.
                bind-Holds (setting env to_float "CLAUDE_POOL_IDLE_TIMEOUT_SEC" 60) _ P λ x5 _.
                  bind-Holds (setting env to_float "CLAUDE_POOL_SCALE_DOWN_INTERVAL_SEC" 30) _ P
                    λ x6 _.
                      bind-Holds (setting env to_float "CLAUDE_POOL_IDLE_SCALE_TO_ZERO_SEC" 60) _ P
                        λ x7 _.
                          bind-Holds (setting env to_float "CLAUDE_POOL_JOB_RETENTION_SEC" 600) _ P
                            λ x8 _.
                              bind-Holds (setting env to_int "CLAUDE_POOL_MAX_JOBS" 500) _ P
                                λ x9 _. search h
