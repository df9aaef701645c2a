-- ===== src/Config.antt =====
-- src/claude_pool/config.py: the settings of one daemon, their validation and their reading from the
-- environment. Times are natural numbers of one unit. `ip` stands for `ipaddress.ip_address(host)`
-- with its `is_loopback` (`none` is a ValueError), `to_int` and `to_float` for the conversions of a
-- text, and `loads` for `json.loads`.
pub mod Valid
use claude_code_cli_local_ga.Prelude.{
  none, str_eq, not, if◌then◌else◌, true, false, some, Option, Bool, ℕ, String,
}
use claude_code_cli_local_ga.Json.{Json, arr, str, Items, nil, cons}
use claude_code_cli_local_ga.Exn.{Result, ok, raise, unexpected, ◌>>=◌}

pub record PoolConfig : Type 0 where
  pub min_workers : ℕ
  pub max_workers : ℕ
  pub model : String
  pub host : String
  pub port : ℕ
  pub default_timeout_sec : ℕ
  pub acquire_timeout_sec : ℕ
  pub idle_timeout_sec : ℕ
  pub scale_down_interval_sec : ℕ
  pub idle_scale_to_zero_sec : ℕ
  pub job_retention_sec : ℕ
  pub max_jobs : ℕ
  pub scratch_dir : String
  -- whatever the environment's JSON holds; __post_init__ checks that it is a list of strings
  pub claude_cmd : Json

-- is_loopback_host
unfoldable pub is_loopback_host : (String → Option Bool) → String → Bool
is_loopback_host ip host =
    if str_eq host "localhost" then true else elim (ip host) [ none ↦ false | some b ↦ b ]

-- `all(isinstance(part, str) for part in claude_cmd)`
unfoldable pub all_text : Items → Bool
all_text nil = true
all_text (cons (str s) vs) = all_text vs
all_text (cons v vs) = false

unfoldable pub is_filled_list : Json → Bool
is_filled_list (arr (cons v vs)) = true
is_filled_list v = false

unfoldable pub has_texts : Json → Bool
unfolding all_text
has_texts (arr vs) = all_text vs
has_texts v = false

-- PoolConfig(…), which runs __post_init__
unfoldable pub create : (String → Option Bool) → PoolConfig → Result PoolConfig
unfolding is_loopback_host is_filled_list has_texts
create ip c =
    if not (is_loopback_host ip c.host)
    then raise (unexpected "ValueError")
    else if not (is_filled_list c.claude_cmd)
    then raise (unexpected "ValueError")
    else if not (has_texts c.claude_cmd)
    then raise (unexpected "ValueError")
    else ok c

-- `number(os.environ.get(key, default))`
unfoldable pub setting : (String → Option String) → (String → Option ℕ) → String → ℕ → Result ℕ
setting env number key default = elim (env key) [
  | none ↦ ok default
  | some s ↦ elim (number s) [ none ↦ raise (unexpected "ValueError") | some n ↦ ok n ]
]

abbrev pub or_default : Option String → String → String
or_default none d = d
or_default (some s) d = s

-- The command: an empty variable counts as unset.
unfoldable pub command_of : (String → Option Json) → Option String → Result Json
command_of loads none = ok (arr (cons (str "claude") nil))
command_of loads (some s) =
    if str_eq s ""
    then ok (arr (cons (str "claude") nil))
    else elim (loads s) [ none ↦ raise (unexpected "ValueError") | some v ↦ ok v ]

unfoldable pub scratch_of : String → Option String → String
scratch_of default none = default
scratch_of default (some s) = if str_eq s "" then default else s

-- from_env, with the scratch directory under the home directory given as a text
unfoldable pub from_env :
    (String → Option Bool)
    → (String → Option ℕ)
    → (String → Option ℕ)
    → (String → Option Json)
    → String
    → (String → Option String)
    → Result PoolConfig
unfolding create setting command_of scratch_of
from_env ip to_int to_float loads scratch env = do
  claude_cmd ← command_of loads (env "CLAUDE_POOL_CLAUDE_CMD_JSON")
  min_workers ← setting env to_int "CLAUDE_POOL_MIN_WORKERS" 4
  max_workers ← setting env to_int "CLAUDE_POOL_MAX_WORKERS" 30
  port ← setting env to_int "CLAUDE_POOL_PORT" 8756
  default_timeout ← setting env to_float "CLAUDE_POOL_TIMEOUT_SEC" 120
  acquire_timeout ← setting env to_float "CLAUDE_POOL_ACQUIRE_TIMEOUT_SEC" 60
  idle_timeout ← setting env to_float "CLAUDE_POOL_IDLE_TIMEOUT_SEC" 60
  interval ← setting env to_float "CLAUDE_POOL_SCALE_DOWN_INTERVAL_SEC" 30
  to_zero ← setting env to_float "CLAUDE_POOL_IDLE_SCALE_TO_ZERO_SEC" 60
  retention ← setting env to_float "CLAUDE_POOL_JOB_RETENTION_SEC" 600
  max_jobs ← setting env to_int "CLAUDE_POOL_MAX_JOBS" 500
  create ip (record {
    min_workers = min_workers;
    max_workers = max_workers;
    model = or_default (env "CLAUDE_POOL_MODEL") "sonnet";
    host = or_default (env "CLAUDE_POOL_HOST") "127.0.0.1";
    port = port;
    default_timeout_sec = default_timeout;
    acquire_timeout_sec = acquire_timeout;
    idle_timeout_sec = idle_timeout;
    scale_down_interval_sec = interval;
    idle_scale_to_zero_sec = to_zero;
    job_retention_sec = retention;
    max_jobs = max_jobs;
    scratch_dir = scratch_of scratch (env "CLAUDE_POOL_SCRATCH_DIR");
    claude_cmd = claude_cmd;
  })
