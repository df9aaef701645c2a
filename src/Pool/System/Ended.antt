-- ===== src/Pool/System/Ended.antt =====
-- Processes that have ended: release() of src/claude_pool/pool.py leaves none that comes back.
use claude_code_cli_local_ga.Pool.{
  spawn_and_add_idle, release_locked, grow_by_one, Pool, Worker, Spawn, spawned, failed, Acquired,
  handed, parked, refused, acquire_enter, acquire_resume, can_grow, account_release, must_respawn,
}
use claude_code_cli_local_ga.Prelude.{
  ◌∙◌, ◌+◌, Bool, ℕ, ◌<◌, ◌≡◌, ap, true, false, List, ◌∷◌, ◌++◌, arith, weigh, weigh-middle, refl,
}
use claude_code_cli_local_ga.Config.{PoolConfig}
use claude_code_cli_local_ga.Pool.Acquire.{has_pid}
use claude_code_cli_local_ga.Pool.System.{
  System, Step, boots, enters, resumes, grows, releases, settles, sweep_kills, stop_kills, dies,
  start_raises, Reach, here, next, boot, receive, adopt, IsFresh, killed,
}
use claude_code_cli_local_ga.Pool.System.Owners.{Reach-IsOwned}
use claude_code_cli_local_ga.Pool.System.Reuse.{Reach-StaysSpent}

-- A process that was started once and runs no more.
pub record IsOver (pid : ℕ) (s : System) : Type 0 where
  pub used : pid < s.next_pid
  pub silent : s.living pid ≡ false

receive-IsOver :
    (pid : ℕ) (s : System) (q : Pool) (r : Acquired) → IsOver pid s → IsOver pid (receive q r s)
receive-IsOver pid s q (handed w) h = record { used = h.used; silent = h.silent }
receive-IsOver pid s q parked h = record { used = h.used; silent = h.silent }
receive-IsOver pid s q (refused e) h = record { used = h.used; silent = h.silent }

adopt-IsOver :
    (pid : ℕ) (b : Bool) (r : Spawn) (z s : System)
    → z.next_pid ≡ s.next_pid
    → IsFresh r z
    → IsOver pid s
    → IsOver pid (adopt b r s)
adopt-IsOver pid true (spawned w) z s e f h = record {
  used = omega (arith, h.used, e, f);
  silent = ground (arith, h.used, h.silent, e, f);
}
adopt-IsOver pid true (failed x) z s e f h = h
adopt-IsOver pid false r z s e f h = h

killed-silent :
    (pid other : ℕ) (living : ℕ → Bool) → living pid ≡ false → killed other living pid ≡ false
killed-silent pid other living e = ground arith

-- No step starts an ended process again.
Step-IsOver : (pid : ℕ) {s t : System} → Step s t → IsOver pid s → IsOver pid t
Step-IsOver pid {s} (boots w k e f) h =
    adopt-IsOver pid true (spawned w) s
      (record s { pool = spawn_and_add_idle w s.pool; booting = k }) refl f
      (record { used = h.used; silent = h.silent })
Step-IsOver pid {s} (enters e) h =
    receive-IsOver pid s (acquire_enter s.alive s.pool).0 (acquire_enter s.alive s.pool).1 h
Step-IsOver pid {s} (resumes e f) h =
    receive-IsOver pid s (acquire_resume s.alive s.pool).0 (acquire_resume s.alive s.pool).1 h
Step-IsOver pid {s} (grows r e f g) h =
    adopt-IsOver pid (can_grow s.pool) r s (record s { pool = grow_by_one r s.pool }) refl g
      (record { used = h.used; silent = h.silent })
Step-IsOver pid {s} (settles now r w before after e f g) h =
    adopt-IsOver pid (must_respawn (account_release now s.pool)) r s
      (record s { pool = release_locked now r s.pool; returned = before ++ after }) refl g
      (record { used = h.used; silent = h.silent })
Step-IsOver pid {s} (releases w before after e) h = record {
  used = h.used;
  silent = killed-silent pid w.pid s.living h.silent;
}
Step-IsOver pid {s} (sweep_kills w rest e f) h = record {
  used = h.used;
  silent = killed-silent pid w.pid s.living h.silent;
}
Step-IsOver pid {s} (stop_kills w rest e f) h = record {
  used = h.used;
  silent = killed-silent pid w.pid s.living h.silent;
}
Step-IsOver pid {s} (start_raises w e f) h = record {
  used = omega (arith, h.used);
  silent = ground (arith, h.used, h.silent);
}
Step-IsOver pid {s} (dies other) h = record {
  used = h.used;
  silent = killed-silent pid other s.living h.silent;
}
Step-IsOver pid {s} _ h = record { used = h.used; silent = h.silent }

pub Reach-IsOver : (pid : ℕ) {s t : System} → Reach s t → IsOver pid s → IsOver pid t
Reach-IsOver pid here h = h
Reach-IsOver pid (next r st) h = Step-IsOver pid st (Reach-IsOver pid r h)

killed_self : (pid : ℕ) (living : ℕ → Bool) → killed pid living pid ≡ false
killed_self pid living = ground arith

here_once :
    (w : Worker) (before after : List Worker)
    → weigh (has_pid w.pid) (before ++ w ∷ after) ≡ 1 + weigh (has_pid w.pid) (before ++ after)
here_once w before after = ground (arith, weigh-middle (has_pid w.pid) before after w)

-- Nothing more comes of a process: it does not run, and no caller has it or can get it.
pub record IsRetired (pid : ℕ) (s : System) : Type 0 where
  pub silent : s.living pid ≡ false
  pub unheld : weigh (has_pid pid) s.out ≡ 0
  pub unidle : weigh (has_pid pid) s.pool.idle ≡ 0

-- A worker that release() kills is retired, for good.
pub released-IsRetired :
    (config : PoolConfig) (now : ℕ) (w : Worker) (before after : List Worker) {s u : System}
    → Reach (boot config now) s
    → s.out ≡ before ++ w ∷ after
    → Reach
        (record s {
          living = killed w.pid s.living;
          alive = killed w.pid s.alive;
          out = before ++ after;
          returned = w ∷ s.returned;
        })
        u
    → IsRetired w.pid u
released-IsRetired config now w before after {s} {u} r e later =
    let owned = Reach-IsOwned config now w.pid r in
    let held : weigh (has_pid w.pid) s.out ≡ 1 + weigh (has_pid w.pid) (before ++ after) =
      ap (weigh (has_pid w.pid)) e ∙ here_once w before after in
    let used : w.pid < s.next_pid = ground (arith, held, owned.fresh) in
    let over =
      Reach-IsOver w.pid later (record { used = used; silent = killed_self w.pid s.living }) in
    let spent =
      Reach-StaysSpent w.pid later
        (record { used = used; unidle = omega (arith, held, owned.once) }) in
    record {
      silent = over.silent;
      unheld = omega (arith, held, owned.once, spent.1);
      unidle = spent.0.unidle;
    }
