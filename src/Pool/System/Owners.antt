-- ===== src/Pool/System/Owners.antt =====
-- Where the worker of a process that runs is held.
use claude_code_cli_local_ga.Prelude.{
  inr, ==_iff, inl, ◌==◌, Bool-cases, false, suc, ℕ, ◌+◌, ◌≤◌, ◌≡◌, refl, ap, Bool, true, List, [],
  ◌∷◌, ◌++◌, arith, weigh, weigh-append, weigh-middle,
}
use claude_code_cli_local_ga.Pool.System.{
  start_raises, notices, started, cancel_sweep, System, Step, boots, boot_fails, enters, resumes,
  cancels, grows, releases, settles, abandons, sweeps, sweep_kills, sweep_counts, stops, stop_takes,
  stop_kills, stop_counts, notes_failure, notes_success, dies, Reach, here, next, boot, receive,
  adopt, IsFresh, killed,
}
use claude_code_cli_local_ga.Config.{PoolConfig}
use claude_code_cli_local_ga.Pool.{
  Pool, Worker, Spawn, spawned, failed, Acquired, handed, parked, refused, spawn_and_add_idle,
  acquire_cancel, can_grow, grow_by_one, account_release, must_respawn, release_locked, uncount,
  sweep_select, stop_mark, stop_take, note_failure, note_success,
}
use claude_code_cli_local_ga.Pool.Sweep.{sweep_select-weigh}
use claude_code_cli_local_ga.Pool.Acquire.{
  IsEntry, has_pid, acquire_enter-IsEntry, acquire_resume-IsEntry,
}

-- How often the process's worker stands where a process may run.
abbrev pub holders : ℕ → System → ℕ
holders pid s =
    weigh (has_pid pid) s.pool.idle
    + weigh (has_pid pid) s.out
    + weigh (has_pid pid) s.sweeping
    + weigh (has_pid pid) s.stopping
    + weigh (has_pid pid) s.lost
    + weigh (has_pid pid) s.strays

pub record IsOwned (pid : ℕ) (s : System) : Type 0 where
  pub once : holders pid s ≤ 1
  pub fresh : s.next_pid ≤ pid → holders pid s ≡ 0
  pub kept : s.living pid ≡ true → holders pid s ≡ 1
  pub seen : s.living pid ≡ true → s.alive pid ≡ true

boot-IsOwned : (pid : ℕ) (config : PoolConfig) (now : ℕ) → IsOwned pid (boot config now)
unfolding boot
boot-IsOwned pid config now = record {
  once = omega arith;
  fresh = λ _. refl;
  kept = λ e. cc;
  seen = λ e. cc;
}

module _ (pid : ℕ) (s : System) (h : IsOwned pid s) where
  receive-IsOwned :
      (q : Pool) (r : Acquired) → IsEntry s.alive s.pool q r → IsOwned pid (receive q r s)
  receive-IsOwned q (handed w) e = record {
    once = omega (arith, h.once, e.weighed (has_pid pid));
    fresh = λ f. omega (arith, h.fresh f, e.weighed (has_pid pid));
    kept = λ l. omega (arith, h.kept l, e.owned pid (h.seen l));
    seen = h.seen;
  }
  receive-IsOwned q parked e = record {
    once = omega (arith, h.once, e.weighed (has_pid pid));
    fresh = λ f. omega (arith, h.fresh f, e.weighed (has_pid pid));
    kept = λ l. omega (arith, h.kept l, e.owned pid (h.seen l));
    seen = h.seen;
  }
  receive-IsOwned q (refused x) e = record {
    once = omega (arith, h.once, e.weighed (has_pid pid));
    fresh = λ f. omega (arith, h.fresh f, e.weighed (has_pid pid));
    kept = λ l. omega (arith, h.kept l, e.owned pid (h.seen l));
    seen = h.seen;
  }

  boots-IsOwned :
      (w : Worker) (k : ℕ)
      → s.next_pid ≤ w.pid
      → IsOwned pid
          (adopt true (spawned w) (record s { pool = spawn_and_add_idle w s.pool; booting = k }))
  unfolding spawn_and_add_idle
  boots-IsOwned w k f = ground (arith, weigh-append (has_pid pid) s.pool.idle (w ∷ []))

  cancels-IsOwned :
      (notified passed : Bool)
      → IsOwned pid (record s { pool = acquire_cancel notified passed s.pool })
  unfolding acquire_cancel
  cancels-IsOwned notified passed = record {
    once = h.once;
    fresh = h.fresh;
    kept = h.kept;
    seen = h.seen;
  }

  grows-IsOwned :
      (r : Spawn)
      → IsFresh r s
      → IsOwned pid (adopt (can_grow s.pool) r (record s { pool = grow_by_one r s.pool }))
  unfolding grow_by_one
  grows-IsOwned (spawned w) f = ground (arith, weigh-append (has_pid pid) s.pool.idle (w ∷ []))
  grows-IsOwned (failed x) f = ground arith

  settles-IsOwned :
      (now : ℕ) (r : Spawn) (left : List Worker)
      → IsFresh r s
      → IsOwned pid (
          adopt
            (must_respawn (account_release now s.pool))
            r
            (record s { pool = release_locked now r s.pool; returned = left }))
  unfolding release_locked
  settles-IsOwned now (spawned v) left f =
      ground (arith, weigh-append (has_pid pid) s.pool.idle (v ∷ []))
  settles-IsOwned now (failed x) left f = ground arith

  releases-IsOwned :
      (w : Worker) (before after back : List Worker)
      → s.out ≡ before ++ w ∷ after
      → IsOwned pid (record s {
        living = killed w.pid s.living;
        alive = killed w.pid s.alive;
        out = before ++ after;
        returned = back;
      })
  releases-IsOwned w before after back e =
      ground (arith, ap (weigh (has_pid pid)) e, weigh-middle (has_pid pid) before after w)

  sweeps-IsOwned :
      (now : ℕ)
      → s.sweeping ≡ []
      → IsOwned pid
          (record s { pool = (sweep_select now s.pool).0; sweeping = (sweep_select now s.pool).1 })
  sweeps-IsOwned now e =
      ground (arith, ap (weigh (has_pid pid)) e, sweep_select-weigh (has_pid pid) now s.pool)

  sweep_kills-IsOwned :
      (w : Worker) (rest : List Worker)
      → s.sweeping ≡ w ∷ rest
      → IsOwned pid (record s {
        living = killed w.pid s.living;
        alive = killed w.pid s.alive;
        sweeping = rest;
        swept = 1;
      })
  sweep_kills-IsOwned w rest e = ground (arith, ap (weigh (has_pid pid)) e)

  stop_kills-IsOwned :
      (w : Worker) (rest : List Worker)
      → s.stopping ≡ w ∷ rest
      → IsOwned pid (record s {
        living = killed w.pid s.living;
        alive = killed w.pid s.alive;
        stopping = rest;
        reaped = 1;
      })
  stop_kills-IsOwned w rest e = ground (arith, ap (weigh (has_pid pid)) e)

  stops-IsOwned : IsOwned pid (cancel_sweep s)
  unfolding stop_mark
  stops-IsOwned = ground (arith, weigh-append (has_pid pid) s.sweeping s.lost)

  stop_takes-IsOwned :
      s.stopping ≡ []
      → IsOwned pid (record s { pool = (stop_take s.pool).0; stopping = (stop_take s.pool).1 })
  unfolding stop_take
  stop_takes-IsOwned e = ground (arith, ap (weigh (has_pid pid)) e)

  dies-IsOwned : (x : ℕ) → IsOwned pid (record s { living = killed x s.living })
  dies-IsOwned x = record {
    once = h.once;
    fresh = h.fresh;
    kept = λ l. h.kept (ground arith);
    seen = λ l. h.seen (ground arith);
  }

  notices-IsOwned :
      (x : ℕ) → s.living x ≡ false → IsOwned pid (record s { alive = killed x s.alive })
  notices-IsOwned x e = record {
    once = h.once;
    fresh = h.fresh;
    kept = h.kept;
    seen = λ l. elim (Bool-cases (pid == x)) [
      | inl q ↦ absurd (cc (l, e, (==_iff pid x).0 q))
      | inr q ↦ rw q (h.seen l)
    ];
  }

  start_raises-IsOwned :
      (w : Worker)
      → s.next_pid ≤ w.pid
      → IsOwned pid (record s {
        living = started w.pid s.living;
        alive = started w.pid s.alive;
        next_pid = suc w.pid;
        strays = w ∷ s.strays;
      })
  start_raises-IsOwned w f = ground arith

  -- A step that leaves alone the processes and who holds them.
  keeps-IsOwned :
      (t : System)
      → t.living ≡ s.living
      → t.alive ≡ s.alive
      → t.next_pid ≡ s.next_pid
      → holders pid t ≡ holders pid s
      → IsOwned pid t
  keeps-IsOwned t l a n e = record {
    once = omega (arith, h.once);
    fresh = λ f. omega (arith, h.fresh (omega arith));
    kept = λ k. omega (arith, h.kept (rw l at k));
    seen = λ k. rw a (h.seen (rw l at k));
  }

pub Step-IsOwned : (pid : ℕ) {s t : System} → Step s t → IsOwned pid s → IsOwned pid t
unfolding stop_mark uncount note_failure note_success
Step-IsOwned pid {s} (boots w k e f) h = boots-IsOwned pid s h w k f
Step-IsOwned pid {s} boot_fails h = keeps-IsOwned pid s h _ refl refl refl refl
Step-IsOwned pid {s} (start_raises w g f) h = start_raises-IsOwned pid s h w f
Step-IsOwned pid {s} (notices x e) h = notices-IsOwned pid s h x e
Step-IsOwned pid {s} (enters e) h =
    receive-IsOwned pid s h _ _ (acquire_enter-IsEntry s.alive s.pool)
Step-IsOwned pid {s} (resumes e f) h =
    receive-IsOwned pid s h _ _ (acquire_resume-IsEntry s.alive s.pool)
Step-IsOwned pid {s} (cancels notified passed e) h = cancels-IsOwned pid s h notified passed
Step-IsOwned pid {s} (grows r e f g) h = grows-IsOwned pid s h r g
Step-IsOwned pid {s} (releases w before after e) h = releases-IsOwned pid s h w before after _ e
Step-IsOwned pid {s} (settles now r w before after e f g) h =
    settles-IsOwned pid s h now r (before ++ after) g
Step-IsOwned pid {s} (sweeps now d e f) h = sweeps-IsOwned pid s h now e
Step-IsOwned pid {s} (sweep_kills w rest e f) h = sweep_kills-IsOwned pid s h w rest e
Step-IsOwned pid {s} (sweep_counts e) h = keeps-IsOwned pid s h _ refl refl refl refl
Step-IsOwned pid {s} stops h = stops-IsOwned pid s h
Step-IsOwned pid {s} (abandons w before after d e) h = keeps-IsOwned pid s h _ refl refl refl refl
Step-IsOwned pid {s} (stop_takes b e f) h = stop_takes-IsOwned pid s h f
Step-IsOwned pid {s} (stop_kills w rest e f) h = stop_kills-IsOwned pid s h w rest e
Step-IsOwned pid {s} (stop_counts e) h = keeps-IsOwned pid s h _ refl refl refl refl
Step-IsOwned pid {s} (notes_failure error) h = keeps-IsOwned pid s h _ refl refl refl refl
Step-IsOwned pid {s} notes_success h = keeps-IsOwned pid s h _ refl refl refl refl
Step-IsOwned pid {s} (dies x) h = dies-IsOwned pid s h x

-- Whatever the order of requests, grows, releases, sweeps, deaths and the shutdown: every process
-- that runs is that of a worker in exactly one of these places: idle, handed out, taken by the sweep
-- or by stop(), taken by a sweep that stop() cancelled, or dropped as its start() raised when the
-- process ran; and no worker is ever in two of them.
pub Reach-IsOwned :
    (config : PoolConfig) (now pid : ℕ) {s : System} → Reach (boot config now) s → IsOwned pid s
Reach-IsOwned config now pid here = boot-IsOwned pid config now
Reach-IsOwned config now pid (next r st) = Step-IsOwned pid st (Reach-IsOwned config now pid r)
