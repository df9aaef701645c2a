-- ===== src/Pool/System/Limit.antt =====
-- How many processes of src/claude_pool/pool.py run at one time.
use claude_code_cli_local_ga.Prelude.{
  ℕ, ◌+◌, ◌≤◌, ◌≡◌, refl, ap, ◌∙◌, max, Bool, true, false, List, [], ◌∷◌, ◌++◌, ◌==◌, if◌then◌else◌,
  All, arith, length, weigh, length-append, weigh-append, Bool-cases, inl, inr,
}
use claude_code_cli_local_ga.Config.{PoolConfig}
use claude_code_cli_local_ga.Pool.{
  Pool, Worker, Spawn, spawned, failed, Acquired, handed, parked, refused, init, notify,
  spawn_and_add_idle, try_spawn, can_grow, grow_by_one, account_release, must_respawn,
  release_locked, acquire_enter, acquire_resume, acquire_cancel, uncount, notify_all, sweep_select,
  stop_mark, stop_take, note_failure, note_success,
}
use claude_code_cli_local_ga.Pool.Acquire.{has_pid, acquire_enter-IsEntry, acquire_resume-IsEntry}
use claude_code_cli_local_ga.Pool.System.{
  System, Step, boots, enters, resumes, grows, settles, Reach, here, next, boot, receive, adopt,
}
use claude_code_cli_local_ga.Pool.System.Counts.{Reach-IsCounted}
use claude_code_cli_local_ga.Pool.System.Owners.{holders, Reach-IsOwned}

abbrev is_pid : ℕ → ℕ → ℕ
is_pid pid other = if pid == other then 1 else 0

-- No number stands twice in the list.
abbrev pub AreDistinct : List ℕ → Type 0
AreDistinct pids = (pid : ℕ) → weigh (is_pid pid) pids ≤ 1

module _ (w : Worker) (ws : List Worker) where
  -- A worker more is a hit more for its own number.
  hits-cons :
      (pids : List ℕ)
      → weigh (λ pid. weigh (has_pid pid) (w ∷ ws)) pids
        ≡ weigh (is_pid w.pid) pids + weigh (λ pid. weigh (has_pid pid) ws) pids
  hits-cons [] = omega arith
  hits-cons (pid ∷ pids) = omega (arith, hits-cons pids)

hits-nil : (pids : List ℕ) → weigh (λ pid. weigh (has_pid pid) []) pids ≡ 0
hits-nil [] = omega arith
hits-nil (pid ∷ pids) = omega (arith, hits-nil pids)

hits-bound :
    (pids : List ℕ) (ws : List Worker)
    → AreDistinct pids
    → weigh (λ pid. weigh (has_pid pid) ws) pids ≤ length ws
hits-bound pids [] d = omega (arith, hits-nil pids)
hits-bound pids (w ∷ ws) d = omega (arith, hits-cons w ws pids, d w.pid, hits-bound pids ws d)

length-hits :
    (pids : List ℕ) (ws : List Worker)
    → All (λ pid. weigh (has_pid pid) ws ≡ 1) pids
    → weigh (λ pid. weigh (has_pid pid) ws) pids ≡ length pids
length-hits [] ws all = omega arith
length-hits (pid ∷ pids) ws (one, all) = omega (arith, one, length-hits pids ws all)

-- Every worker that the code can still come to kill, or could if it had not lost it.
abbrev kept : System → List Worker
kept s = s.pool.idle ++ (s.out ++ (s.sweeping ++ (s.stopping ++ s.lost)))

kept-weigh :
    (pid : ℕ) (s : System)
    → weigh (has_pid pid) (kept s) + weigh (has_pid pid) s.strays ≡ holders pid s
kept-weigh pid s = omega (
  arith,
  weigh-append (has_pid pid) s.pool.idle (s.out ++ (s.sweeping ++ (s.stopping ++ s.lost))),
  weigh-append (has_pid pid) s.out (s.sweeping ++ (s.stopping ++ s.lost)),
  weigh-append (has_pid pid) s.sweeping (s.stopping ++ s.lost),
  weigh-append (has_pid pid) s.stopping s.lost,
)

kept-length :
    (s : System)
    → length (kept s)
      ≡ length s.pool.idle + length s.out + length s.sweeping + length s.stopping + length s.lost
kept-length s = omega (
  arith,
  length-append s.pool.idle (s.out ++ (s.sweeping ++ (s.stopping ++ s.lost))),
  length-append s.out (s.sweeping ++ (s.stopping ++ s.lost)),
  length-append s.sweeping (s.stopping ++ s.lost),
  length-append s.stopping s.lost,
)

-- A process that runs, of a worker whose start() did not raise.
abbrev pub IsKept : System → ℕ → Type 0
IsKept s pid = (s.living pid ≡ true) × (weigh (has_pid pid) s.strays ≡ 0)

All-kept :
    (config : PoolConfig) (now : ℕ) (pids : List ℕ) {s : System}
    → Reach (boot config now) s
    → All (IsKept s) pids
    → All (λ pid. weigh (has_pid pid) (kept s) ≡ 1) pids
All-kept config now [] r all = tt
All-kept config now (pid ∷ pids) {s} r ((living, listed), all) = (
  omega (arith, kept-weigh pid s, (Reach-IsOwned config now pid r).kept living, listed),
  All-kept config now pids r all,
)

-- The configuration of a pool never changes.
receive-config :
    (s : System) (q : Pool) (r : Acquired)
    → q.config ≡ s.pool.config
    → (receive q r s).pool.config ≡ s.pool.config
receive-config s q (handed w) e = e
receive-config s q parked e = e
receive-config s q (refused x) e = e

adopt-pool : (b : Bool) (r : Spawn) (s : System) → (adopt b r s).pool ≡ s.pool
adopt-pool true (spawned w) s = refl
adopt-pool true (failed e) s = refl
adopt-pool false r s = refl

try_spawn-config : (r : Spawn) (p : Pool) → (try_spawn r p).0.config ≡ p.config
unfolding try_spawn spawn_and_add_idle notify
try_spawn-config (spawned w) p = refl
try_spawn-config (failed e) p = refl

grow_by_one-config : (r : Spawn) (p : Pool) → (grow_by_one r p).config ≡ p.config
unfolding grow_by_one
grow_by_one-config r p = elim (Bool-cases (can_grow p)) [
  | inl e ↦ rw e (try_spawn-config r p)
  | inr e ↦ rw e refl
]

release_locked-config :
    (now : ℕ) (r : Spawn) (p : Pool) → (release_locked now r p).config ≡ p.config
unfolding release_locked account_release
release_locked-config now r p = elim (Bool-cases (must_respawn (account_release now p))) [
  | inl e ↦ rw e (try_spawn-config r _)
  | inr e ↦ rw e refl
]

Step-config : {s t : System} → Step s t → t.pool.config ≡ s.pool.config
unfolding spawn_and_add_idle notify acquire_cancel stop_mark stop_take uncount note_failure
    note_success notify_all sweep_select
Step-config {s} (enters e) =
    receive-config s (acquire_enter s.alive s.pool).0 (acquire_enter s.alive s.pool).1
      (acquire_enter-IsEntry s.alive s.pool).same_config
Step-config {s} (resumes e f) =
    receive-config s (acquire_resume s.alive s.pool).0 (acquire_resume s.alive s.pool).1
      (acquire_resume-IsEntry s.alive s.pool).same_config
Step-config {s} (grows r e f g) =
    ap (λ p. p.config) (adopt-pool (can_grow s.pool) r (record s { pool = grow_by_one r s.pool }))
    ∙ grow_by_one-config r s.pool
Step-config {s} (settles now r w before after e f g) =
    ap (λ p. p.config)
      (adopt-pool (must_respawn (account_release now s.pool)) r
        (record s { pool = release_locked now r s.pool; returned = before ++ after }))
    ∙ release_locked-config now r s.pool
Step-config {s} (boots w k e f) = refl
Step-config {s} _ = refl

Reach-config :
    (config : PoolConfig) (now : ℕ) {s : System}
    → Reach (boot config now) s
    → s.pool.config ≡ config
unfolding boot init
Reach-config config now here = refl
Reach-config config now (next r st) = Step-config st ∙ Reach-config config now r

-- In every reachable state: of however many processes run, those of workers whose start() raised left
-- out, there are no more than the larger of min_workers and max_workers, less the spawns that the
-- pool's start() has still to make.
pub Reach-limit :
    (config : PoolConfig) (now : ℕ) (pids : List ℕ) {s : System}
    → Reach (boot config now) s
    → AreDistinct pids
    → All (IsKept s) pids
    → length pids + s.booting ≤ max config.min_workers config.max_workers
Reach-limit config now pids {s} r d all =
    let counted = Reach-IsCounted config now r in
    omega (
      arith,
      ap (λ c. c.min_workers) (Reach-config config now r),
      ap (λ c. c.max_workers) (Reach-config config now r),
      counted.exact,
      counted.capped,
      kept-length s,
      hits-bound pids (kept s) d,
      length-hits pids (kept s) (All-kept config now pids r all),
    )
