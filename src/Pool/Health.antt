-- ===== src/Pool/Health.antt =====
-- WorkerPool.stats of src/claude_pool/pool.py, which /health reports.
use claude_code_cli_local_ga.Pool.{Json, Pool, Worker}
use claude_code_cli_local_ga.Json.{Json}
use claude_code_cli_local_ga.Prelude.{
  String, ◌+◌, ◌==◌, Option, if◌then◌else◌, ◌-◌, ℕ, ◌≤◌, ◌≡◌, ◌↔◌, refl, Bool, true, List, [], ◌∷◌,
  arith, length, All, ==_iff,
}
use claude_code_cli_local_ga.Pool.System.{System, Reach, boot}
use claude_code_cli_local_ga.Pool.System.Owners.{Reach-IsOwned}
use claude_code_cli_local_ga.Pool.System.Counts.{held, Reach-IsCounted}
use claude_code_cli_local_ga.Config.{PoolConfig}

unfoldable pub count_alive : (ℕ → Bool) → List Worker → ℕ
count_alive living [] = 0
count_alive living (w ∷ ws) = (if living w.pid then 1 else 0) + count_alive living ws

pub record Stats : Type 0 where
  pub min_workers : ℕ
  pub max_workers : ℕ
  pub total : ℕ
  pub idle : ℕ
  pub idle_alive : ℕ
  pub busy : ℕ
  pub healthy : Bool
  pub last_spawn_error : Option String
  pub last_error : Option Json

-- WorkerPool.stats
unfoldable pub stats : (ℕ → Bool) → Pool → Stats
unfolding count_alive
stats living p =
    let alive = count_alive living p.idle in
    record {
      min_workers = p.config.min_workers;
      max_workers = p.config.max_workers;
      total = p.total;
      idle = length p.idle;
      idle_alive = alive;
      busy = p.total - length p.idle;
      healthy = alive == length p.idle;
      last_spawn_error = p.last_spawn_error;
      last_error = p.last_error;
    }

module _ (living : ℕ → Bool) where
  abbrev pub IsAlive : Worker → Type 0
  IsAlive w = living w.pid ≡ true

  count_alive-length : (ws : List Worker) → count_alive living ws ≤ length ws
  unfolding count_alive
  count_alive-length [] = omega arith
  count_alive-length (w ∷ ws) = ground (arith, count_alive-length ws)

  All-IsAlive : (ws : List Worker) → count_alive living ws ≡ length ws → All IsAlive ws
  unfolding count_alive
  All-IsAlive [] h = tt
  All-IsAlive (w ∷ ws) h = ground (arith, count_alive-length ws, All-IsAlive ws)

  All-counted : (ws : List Worker) → All IsAlive ws → count_alive living ws ≡ length ws
  unfolding count_alive
  All-counted [] h = refl
  All-counted (w ∷ ws) h = ground (arith, All-counted ws)

-- Workers that run are counted, if is_alive() says true of all that run.
count_alive-le :
    (living alive : ℕ → Bool)
    → ((pid : ℕ) → living pid ≡ true → alive pid ≡ true)
    → (ws : List Worker) → count_alive living ws ≤ count_alive alive ws
unfolding count_alive
count_alive-le living alive h [] = omega arith
count_alive-le living alive h (w ∷ ws) = ground (arith, count_alive-le living alive h ws, h w.pid)

-- In every reachable state, /health says "healthy" exactly when asyncio has seen no end of the process
-- of an idle worker; "idle_alive" is at least the number of the idle workers whose process runs; and
-- "busy" is the number of the workers that some task holds, or held when it was cancelled.
pub Reach-healthy :
    (config : PoolConfig) (now : ℕ) {s : System}
    → Reach (boot config now) s
    → let report = stats s.alive s.pool in
      ((report.healthy ≡ true) ↔ All (IsAlive s.alive) s.pool.idle)
      × (count_alive s.living s.pool.idle ≤ report.idle_alive)
      × (report.busy ≡ held s)
unfolding stats
Reach-healthy config now {s} r = (
  (
    λ h. All-IsAlive s.alive s.pool.idle ((==_iff _ _).0 h),
    λ h. (==_iff _ _).1 (All-counted s.alive s.pool.idle h),
  ),
  count_alive-le s.living s.alive (λ pid. (Reach-IsOwned config now pid r).seen) s.pool.idle,
  omega (arith, (Reach-IsCounted config now r).exact),
)
