-- ===== src/Pool/System/Orphans.antt =====
-- What stop() of src/claude_pool/pool.py does to the workers that an interrupted sweep has in hand.
use claude_code_cli_local_ga.Pool.{
  release_locked, grow_by_one, spawn_and_add_idle, PoolConfig, account_release, must_respawn,
  can_grow, acquire_resume, Pool, acquire_enter, Worker, Spawn, Acquired, spawned, failed, handed,
  parked, refused,
}
use claude_code_cli_local_ga.Pool.System.{
  cancel_sweep, System, Step, boots, boot_fails, enters, resumes, cancels, grows, releases, settles,
  abandons, sweeps, sweep_kills, sweep_counts, stops, stop_takes, stop_kills, stop_counts,
  notes_failure, notes_success, dies, notices, start_raises, Reach, here, next, boot, receive,
  adopt, killed,
}
use claude_code_cli_local_ga.Config.{PoolConfig}
use claude_code_cli_local_ga.Prelude.{
  false, ◌≤◌, ◌+◌, Bool, weigh, weigh-append, weigh-middle, ap, ◌≡◌, ◌≢◌, ℕ, ◌<◌, true, arith, ◌++◌,
}
use claude_code_cli_local_ga.Pool.Acquire.{has_pid}
use claude_code_cli_local_ga.Pool.System.Owners.{IsOwned, Reach-IsOwned, Step-IsOwned}

-- A worker of a cancelled sweep, and its process runs.
record IsStray (pid : ℕ) (s : System) : Type 0 where
  pub stray : 0 < weigh (has_pid pid) s.lost
  pub runs : s.living pid ≡ true

-- Not this process's own death.
abbrev pub Spares : ℕ → {s t : System} → Step s t → Type 0
Spares pid (dies x) = x ≢ pid
Spares pid _ = Unit

-- The process does not end by itself along the way.
abbrev pub NeverDies : ℕ → {s t : System} → Reach s t → Type 0
NeverDies pid here = Unit
NeverDies pid (next r st) = NeverDies pid r × Spares pid st

killed_ne :
    (x pid : ℕ) (living : ℕ → Bool) → x ≢ pid → living pid ≡ true → killed x living pid ≡ true
killed_ne x pid living n l = ground arith

adopt-IsStray :
    (pid : ℕ) (b : Bool) (r : Spawn) (s : System) → IsStray pid s → IsStray pid (adopt b r s)
adopt-IsStray pid true (spawned w) s h = ground arith
adopt-IsStray pid true (failed e) s h = h
adopt-IsStray pid false r s h = h

receive-IsStray :
    (pid : ℕ) (q : Pool) (r : Acquired) (s : System) → IsStray pid s → IsStray pid (receive q r s)
receive-IsStray pid q (handed w) s h = record { stray = h.stray; runs = h.runs }
receive-IsStray pid q parked s h = record { stray = h.stray; runs = h.runs }
receive-IsStray pid q (refused e) s h = record { stray = h.stray; runs = h.runs }

-- Another worker that is held has another process.
other_pid :
    (pid : ℕ) (s : System) (w : Worker) (n : ℕ)
    → IsOwned pid s
    → 0 < weigh (has_pid pid) s.lost
    → has_pid pid w + n
      ≤ weigh (has_pid pid) s.out + weigh (has_pid pid) s.sweeping + weigh (has_pid pid) s.stopping
    → w.pid ≢ pid
other_pid pid s w n o h k e = ground arith

Step-IsStray :
    (pid : ℕ) {s t : System} (st : Step s t)
    → Spares pid st
    → IsOwned pid s
    → IsStray pid s
    → IsStray pid t
Step-IsStray pid {s} (boots w k e f) p o h =
    adopt-IsStray pid true (spawned w)
      (record s { pool = spawn_and_add_idle w s.pool; booting = k })
      (record { stray = h.stray; runs = h.runs })
Step-IsStray pid {s} boot_fails p o h = record { stray = h.stray; runs = h.runs }
Step-IsStray pid {s} (enters e) p o h = receive-IsStray pid _ (acquire_enter s.alive s.pool).1 s h
Step-IsStray pid {s} (resumes e f) p o h =
    receive-IsStray pid _ (acquire_resume s.alive s.pool).1 s h
Step-IsStray pid {s} (cancels notified passed e) p o h = record { stray = h.stray; runs = h.runs }
Step-IsStray pid {s} (grows r e f g) p o h =
    adopt-IsStray pid (can_grow s.pool) r (record s { pool = grow_by_one r s.pool })
      (record { stray = h.stray; runs = h.runs })
Step-IsStray pid {s} (releases w before after e) p o h = record {
  stray = h.stray;
  runs =
      killed_ne w.pid pid s.living
        (other_pid pid s w (weigh (has_pid pid) (before ++ after)) o h.stray
          (omega (arith, ap (weigh (has_pid pid)) e, weigh-middle (has_pid pid) before after w)))
        h.runs;
}
Step-IsStray pid {s} (settles now r w before after e f g) p o h =
    adopt-IsStray pid (must_respawn (account_release now s.pool)) r
      (record s { pool = release_locked now r s.pool; returned = before ++ after })
      (record { stray = h.stray; runs = h.runs })
Step-IsStray pid {s} (sweeps now d e f) p o h = record { stray = h.stray; runs = h.runs }
Step-IsStray pid {s} (sweep_kills w rest e f) p o h = record {
  stray = h.stray;
  runs =
      killed_ne w.pid pid s.living
        (other_pid pid s w (weigh (has_pid pid) rest) o h.stray
          (omega (arith, ap (weigh (has_pid pid)) e)))
        h.runs;
}
Step-IsStray pid {s} (sweep_counts e) p o h = record { stray = h.stray; runs = h.runs }
Step-IsStray pid {s} stops p o h = record {
  stray = omega (arith, weigh-append (has_pid pid) s.sweeping s.lost, h.stray);
  runs = h.runs;
}
Step-IsStray pid {s} (abandons w before after d e) p o h = record { stray = h.stray; runs = h.runs }
Step-IsStray pid {s} (stop_takes b e f) p o h = record { stray = h.stray; runs = h.runs }
Step-IsStray pid {s} (stop_kills w rest e f) p o h = record {
  stray = h.stray;
  runs =
      killed_ne w.pid pid s.living
        (other_pid pid s w (weigh (has_pid pid) rest) o h.stray
          (omega (arith, ap (weigh (has_pid pid)) e)))
        h.runs;
}
Step-IsStray pid {s} (stop_counts e) p o h = record { stray = h.stray; runs = h.runs }
Step-IsStray pid {s} (notes_failure error) p o h = record { stray = h.stray; runs = h.runs }
Step-IsStray pid {s} notes_success p o h = record { stray = h.stray; runs = h.runs }
Step-IsStray pid {s} (notices x e) p o h = record { stray = h.stray; runs = h.runs }
Step-IsStray pid {s} (start_raises w e f) p o h = record {
  stray = h.stray;
  runs = ground (arith, h.runs);
}
Step-IsStray pid {s} (dies x) p o h = record {
  stray = h.stray;
  runs = killed_ne x pid s.living p h.runs;
}

Reach-IsStray :
    (pid : ℕ) {s t : System} (r : Reach s t)
    → NeverDies pid r
    → IsOwned pid s
    → IsStray pid s
    → IsOwned pid t × IsStray pid t
Reach-IsStray pid here n o h = (o, h)
Reach-IsStray pid (next r st) n o h =
    let (o', h') = Reach-IsStray pid r n.0 o h in
    (Step-IsOwned pid st o', Step-IsStray pid st n.1 o' h')

-- A sweep that stop() cancels leaves the workers that it had taken and not yet killed to nobody:
-- whatever steps follow, the process of such a worker runs on, unless it ends by itself.
pub stop_strays :
    (config : PoolConfig) (now pid : ℕ) {s t : System}
    → Reach (boot config now) s
    → 0 < weigh (has_pid pid) s.sweeping
    → s.living pid ≡ true
    → (r : Reach (cancel_sweep s) t) → NeverDies pid r
    → t.living pid ≡ true
stop_strays config now pid {s} before h l r n =
    (Reach-IsStray pid r n (Step-IsOwned pid stops (Reach-IsOwned config now pid before)) (record {
      stray = omega (arith, weigh-append (has_pid pid) s.sweeping s.lost);
      runs = l;
    })).1.runs
