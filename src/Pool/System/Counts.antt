-- ===== src/Pool/System/Counts.antt =====
-- `_total` against the workers that there are, and the bounds on it.
use claude_code_cli_local_ga.Pool.System.{
  cancel_sweep, System, IsWaiting, Step, boots, boot_fails, enters, resumes, cancels, grows,
  releases, settles, abandons, sweeps, sweep_kills, sweep_counts, stops, stop_takes, stop_kills,
  stop_counts, notes_failure, notes_success, dies, notices, start_raises, Reach, here, next, boot,
  receive, adopt,
}
use claude_code_cli_local_ga.Prelude.{
  ℕ, suc, ◌+◌, ◌≤◌, max, ◌≡◌, refl, ap, Bool, true, false, List, [], ◌∷◌, ◌++◌, arith, length,
  length-append, length-middle,
}
use claude_code_cli_local_ga.Config.{PoolConfig}
use claude_code_cli_local_ga.Json.{Json, null}
use claude_code_cli_local_ga.Pool.{
  Pool, Worker, Spawn, spawned, failed, Acquired, handed, parked, refused, spawn_and_add_idle,
  acquire_cancel, can_grow, grow_by_one, account_release, must_respawn, release_locked, uncount,
  sweep_select, stop_mark, stop_take, note_failure, note_success,
}
use claude_code_cli_local_ga.Pool.Sweep.{sweep_select-IsRound}
use claude_code_cli_local_ga.Pool.Acquire.{IsEntry, acquire_enter-IsEntry, acquire_resume-IsEntry}

-- The workers that tasks hold, and the ones that `_total` counts in spite of a cancelled task.
abbrev pub held : System → ℕ
held s =
    length s.out
    + length s.returned
    + (length s.sweeping + s.swept)
    + (length s.stopping + s.reaped)
    + (length s.lost + s.miscounted)

pub record IsCounted (s : System) : Type 0 where
  pub exact : s.pool.total ≡ length s.pool.idle + held s
  pub capped : s.pool.total + s.booting ≤ max s.pool.config.min_workers s.pool.config.max_workers
  pub notified : s.pool.signalled ≤ s.pool.waiting

boot-IsCounted : (config : PoolConfig) (now : ℕ) → IsCounted (boot config now)
unfolding boot
boot-IsCounted config now = record { exact = refl; capped = omega arith; notified = omega arith }

receive-IsCounted :
    (living : ℕ → Bool) (s : System) (q : Pool) (r : Acquired)
    → IsEntry living s.pool q r
    → IsCounted s
    → IsCounted (receive q r s)
receive-IsCounted living s q (handed w) e h = record {
  exact = omega (arith, h.exact, e.counted (omega (arith, h.exact)));
  capped = rw e.same_config (omega (arith, h.capped, e.shrinks));
  notified = e.waits h.notified;
}
receive-IsCounted living s q parked e h = record {
  exact = omega (arith, h.exact, e.counted (omega (arith, h.exact)));
  capped = rw e.same_config (omega (arith, h.capped, e.shrinks));
  notified = e.waits h.notified;
}
receive-IsCounted living s q (refused x) e h = record {
  exact = omega (arith, h.exact, e.counted (omega (arith, h.exact)));
  capped = rw e.same_config (omega (arith, h.capped, e.shrinks));
  notified = e.waits h.notified;
}

boots-IsCounted :
    (s : System) (w : Worker) (k : ℕ)
    → s.booting ≡ suc k
    → IsCounted s
    → IsCounted
        (adopt true (spawned w) (record s { pool = spawn_and_add_idle w s.pool; booting = k }))
unfolding spawn_and_add_idle
boots-IsCounted s w k e h = ground (arith, length-append s.pool.idle (w ∷ []))

cancels-IsCounted :
    (s : System) (notified passed : Bool)
    → IsWaiting notified s.pool
    → IsCounted s
    → IsCounted (record s { pool = acquire_cancel notified passed s.pool })
unfolding acquire_cancel
cancels-IsCounted s true passed e h = ground arith
cancels-IsCounted s false passed e h = ground arith

grows-IsCounted :
    (s : System) (r : Spawn)
    → s.booting ≡ 0
    → IsCounted s
    → IsCounted (adopt (can_grow s.pool) r (record s { pool = grow_by_one r s.pool }))
unfolding grow_by_one
grows-IsCounted s (spawned w) e h = ground (arith, length-append s.pool.idle (w ∷ []))
grows-IsCounted s (failed x) e h = ground arith

settles-IsCounted :
    (s : System) (now : ℕ) (r : Spawn) (w : Worker) (before after : List Worker)
    → s.booting ≡ 0
    → s.returned ≡ before ++ w ∷ after
    → IsCounted s
    → IsCounted (
        adopt
          (must_respawn (account_release now s.pool))
          r
          (record s { pool = release_locked now r s.pool; returned = before ++ after }))
unfolding release_locked
settles-IsCounted s now (spawned w) v before after e f h =
    ground (arith, length-append s.pool.idle (w ∷ []), ap length f, length-middle before after v)
settles-IsCounted s now (failed x) v before after e f h =
    ground (arith, ap length f, length-middle before after v)

sweeps-IsCounted :
    (s : System) (now : ℕ)
    → s.sweeping ≡ []
    → IsCounted s
    → IsCounted
        (record s { pool = (sweep_select now s.pool).0; sweeping = (sweep_select now s.pool).1 })
unfolding sweep_select
sweeps-IsCounted s now e h = record {
  exact = omega (arith, h.exact, ap length e, (sweep_select-IsRound now s.pool).parted);
  capped = h.capped;
  notified = h.notified;
}

-- A worker that was killed is uncounted: `swept` or `reaped` falls with the count.
uncount-IsCounted :
    (s : System) (swept reaped : ℕ)
    → suc (swept + reaped) ≡ s.swept + s.reaped
    → IsCounted s
    → IsCounted (record s { pool = uncount s.pool; swept = swept; reaped = reaped })
unfolding uncount
uncount-IsCounted s swept reaped e h = ground arith

stops-IsCounted : (s : System) → IsCounted s → IsCounted (cancel_sweep s)
unfolding stop_mark
stops-IsCounted s h = ground (arith, length-append s.sweeping s.lost)

stop_takes-IsCounted :
    (s : System)
    → s.stopping ≡ []
    → IsCounted s
    → IsCounted (record s { pool = (stop_take s.pool).0; stopping = (stop_take s.pool).1 })
unfolding stop_take
stop_takes-IsCounted s e h = ground (arith, ap length e)

notes-IsCounted :
    (s : System) (error : Json)
    → IsCounted s
    → IsCounted (record s { pool = note_failure error s.pool })
      × IsCounted (record s { pool = note_success s.pool })
unfolding note_failure note_success
notes-IsCounted s error h = ground arith

Step-IsCounted : {s t : System} → Step s t → IsCounted s → IsCounted t
Step-IsCounted {s} (boots w k e f) h = boots-IsCounted s w k e h
Step-IsCounted boot_fails h = ground arith
Step-IsCounted {s} (enters e) h =
    receive-IsCounted s.alive s _ _ (acquire_enter-IsEntry s.alive s.pool) h
Step-IsCounted {s} (resumes e f) h =
    receive-IsCounted s.alive s _ _ (acquire_resume-IsEntry s.alive s.pool) h
Step-IsCounted {s} (cancels notified passed e) h = cancels-IsCounted s notified passed e h
Step-IsCounted {s} (grows r e f g) h = grows-IsCounted s r e h
Step-IsCounted {s} (releases w before after e) h = record {
  exact = omega (arith, h.exact, ap length e, length-middle before after w);
  capped = h.capped;
  notified = h.notified;
}
Step-IsCounted {s} (settles now r w before after e f g) h =
    settles-IsCounted s now r w before after e f h
Step-IsCounted {s} (sweeps now d e f) h = sweeps-IsCounted s now e h
Step-IsCounted {s} (sweep_kills w rest e f) h = record {
  exact = omega (arith, h.exact, ap length e);
  capped = h.capped;
  notified = h.notified;
}
Step-IsCounted {s} (sweep_counts e) h = uncount-IsCounted s 0 s.reaped (omega arith) h
Step-IsCounted {s} stops h = stops-IsCounted s h
Step-IsCounted {s} (abandons w before after d e) h = record {
  exact = omega (arith, h.exact, ap length e, length-middle before after w);
  capped = h.capped;
  notified = h.notified;
}
Step-IsCounted {s} (stop_takes b e f) h = stop_takes-IsCounted s f h
Step-IsCounted {s} (stop_kills w rest e f) h = record {
  exact = omega (arith, h.exact, ap length e);
  capped = h.capped;
  notified = h.notified;
}
Step-IsCounted {s} (stop_counts e) h = uncount-IsCounted s s.swept 0 (omega arith) h
Step-IsCounted {s} (notes_failure error) h = (notes-IsCounted s error h).0
Step-IsCounted {s} notes_success h = (notes-IsCounted s null h).1
Step-IsCounted {s} (dies pid) h = record {
  exact = h.exact;
  capped = h.capped;
  notified = h.notified;
}
Step-IsCounted {s} (notices pid e) h = record {
  exact = h.exact;
  capped = h.capped;
  notified = h.notified;
}
Step-IsCounted {s} (start_raises w e f) h = record {
  exact = h.exact;
  capped = h.capped;
  notified = h.notified;
}

-- Whatever the order of requests, grows, releases, sweeps, deaths and the shutdown: `_total` is the
-- number of idle workers and of those that some task still holds, or held when it was cancelled; it
-- never exceeds the larger of `min_workers` and `max_workers`; and no more callers are notified
-- than wait. So no `_total -= 1` of the source is reached at 0.
pub Reach-IsCounted :
    (config : PoolConfig) (now : ℕ) {s : System} → Reach (boot config now) s → IsCounted s
Reach-IsCounted config now here = boot-IsCounted config now
Reach-IsCounted config now (next r st) = Step-IsCounted st (Reach-IsCounted config now r)
