-- ===== src/Pool/System/Shutdown.antt =====
-- stop() of src/claude_pool/pool.py: what is left to happen after it, and what it leaves behind.
use claude_code_cli_local_ga.Prelude.{
  ◌≤◌, ◌⊎◌, weigh, inl, inr, Bool-cases, ◌++◌, ap, suc, false, ◌-◌, [], arith, true, ◌∙◌, ◌≡◌, List,
  Bool, ℕ, refl,
}
use claude_code_cli_local_ga.Pool.System.{
  cancel_sweep, System, Step, boots, boot_fails, enters, resumes, cancels, grows, releases, settles,
  abandons, sweeps, sweep_kills, sweep_counts, stops, stop_takes, stop_kills, stop_counts,
  notes_failure, notes_success, dies, notices, start_raises, Reach, here, next, boot, receive,
  adopt, account_release, must_respawn, Worker, can_grow, killed, Spawn, Pool, acquire_enter,
  grow_by_one, release_locked,
}
use claude_code_cli_local_ga.Pool.Acquire.{has_pid, resume_cases}
use claude_code_cli_local_ga.Pool.System.Owners.{Reach-IsOwned}
use claude_code_cli_local_ga.Pool.{
  note_success, note_failure, uncount, stop_mark, stop_take, acquire_cancel, PoolConfig,
  pool_unavailable, refused, acquire_resume, wake,
}
use claude_code_cli_local_ga.Config.{PoolConfig}
use claude_code_cli_local_ga.Exn.{pool_unavailable}

-- stop() has passed its section under the lock.
pub record IsClosed (s : System) : Type 0 where
  pub marked : s.pool.stopped ≡ true
  pub emptied : s.pool.idle ≡ []
  pub unswept : s.sweeping ≡ []
  pub booted : s.booting ≡ 0

-- A step out of a closed state: the new state is closed, and no process runs in it that did not
-- run before.
pub record IsQuiet (s t : System) : Type 0 where
  pub closed : IsClosed t
  pub ending : (pid : ℕ) → t.living pid ≡ true → s.living pid ≡ true

killed-le : (x pid : ℕ) (living : ℕ → Bool) → killed x living pid ≡ true → living pid ≡ true
killed-le x pid living e = ground arith

module _ (p : Pool) (stopped : p.stopped ≡ true) where
  enter_stopped :
      (living : ℕ → Bool)
      → acquire_enter living p ≡ (p, refused (pool_unavailable "pool is shutting down"))
  unfolding acquire_enter
  enter_stopped living = rw stopped refl

  can_grow-stopped : can_grow p ≡ false
  unfolding can_grow
  can_grow-stopped = ground arith

  grow_stopped : (r : Spawn) → grow_by_one r p ≡ record p { pending_grows = p.pending_grows - 1 }
  unfolding grow_by_one
  grow_stopped r = ground (arith, can_grow-stopped)

  must_respawn-stopped : must_respawn p ≡ false
  unfolding must_respawn
  must_respawn-stopped = ground arith

  release_stopped : (now : ℕ) (r : Spawn) → release_locked now r p ≡ account_release now p
  unfolding release_locked
  release_stopped now r = ground arith

module _ (s : System) (h : IsClosed s) where
  pool-IsQuiet :
      (p : Pool)
      → p.stopped ≡ s.pool.stopped
      → p.idle ≡ s.pool.idle
      → IsQuiet s (record s { pool = p })
  pool-IsQuiet p a b = record {
    closed = record {
      marked = a ∙ h.marked;
      emptied = b ∙ h.emptied;
      unswept = h.unswept;
      booted = h.booted;
    };
    ending = λ pid l. l;
  }

  enters-IsQuiet :
      IsQuiet s (receive (acquire_enter s.alive s.pool).0 (acquire_enter s.alive s.pool).1 s)
  enters-IsQuiet = rw (enter_stopped s.pool h.marked s.alive) (pool-IsQuiet s.pool refl refl)

  resumes-IsQuiet :
      IsQuiet s (receive (acquire_resume s.alive s.pool).0 (acquire_resume s.alive s.pool).1 s)
  unfolding wake
  resumes-IsQuiet =
      resume_cases s.alive s.pool (λ q r. IsQuiet s (receive q r s))
        (λ e _ _ _. pool-IsQuiet (wake s.pool) refl refl)
        (rw (enter_stopped (wake s.pool) h.marked s.alive) (pool-IsQuiet (wake s.pool) refl refl))

  grows-IsQuiet :
      (r : Spawn) → IsQuiet s (adopt (can_grow s.pool) r (record s { pool = grow_by_one r s.pool }))
  grows-IsQuiet r =
      rw (grow_stopped s.pool h.marked r, (can_grow-stopped s.pool h.marked))
        (pool-IsQuiet _ refl refl)

  settles-IsQuiet :
      (now : ℕ) (r : Spawn) (left : List Worker)
      → IsQuiet s (
          adopt
            (must_respawn (account_release now s.pool))
            r
            (record s { pool = release_locked now r s.pool; returned = left }))
  unfolding account_release
  settles-IsQuiet now r left =
      rw
        (
          release_stopped s.pool h.marked now r,
          must_respawn-stopped (account_release now s.pool) h.marked,
        )
        (record {
          closed = record {
            marked = h.marked;
            emptied = h.emptied;
            unswept = h.unswept;
            booted = h.booted;
          };
          ending = λ pid l. l;
        })

  -- A step that only ends processes and moves workers between the tasks that hold them.
  moves-IsQuiet :
      (t : System)
      → t.pool ≡ s.pool
      → t.sweeping ≡ []
      → t.booting ≡ 0
      → ((pid : ℕ) → t.living pid ≡ true → s.living pid ≡ true)
      → IsQuiet s t
  moves-IsQuiet t a b c d = record {
    closed = record {
      marked = ap (λ (p : Pool). p.stopped) a ∙ h.marked;
      emptied = ap (λ (p : Pool). p.idle) a ∙ h.emptied;
      unswept = b;
      booted = c;
    };
    ending = d;
  }

  stops-IsQuiet : IsQuiet s (cancel_sweep s)
  unfolding stop_mark
  stops-IsQuiet = record {
    closed = record { marked = refl; emptied = h.emptied; unswept = refl; booted = h.booted };
    ending = λ pid l. l;
  }

  stop_takes-IsQuiet :
      IsQuiet s (record s { pool = (stop_take s.pool).0; stopping = (stop_take s.pool).1 })
  unfolding stop_take
  stop_takes-IsQuiet = record {
    closed = record { marked = h.marked; emptied = refl; unswept = h.unswept; booted = h.booted };
    ending = λ pid l. l;
  }

  no_boot : (k : ℕ) → s.booting ≡ suc k → ⊥
  no_boot k e = omega (arith, h.booted)

Step-IsQuiet : {s t : System} → Step s t → IsClosed s → IsQuiet s t
unfolding acquire_cancel uncount note_failure note_success
Step-IsQuiet {s} (boots w k e f) h = absurd (no_boot s h k e)
Step-IsQuiet {s} boot_fails h = moves-IsQuiet s h _ refl h.unswept refl (λ pid l. l)
Step-IsQuiet {s} (enters e) h = enters-IsQuiet s h
Step-IsQuiet {s} (resumes e f) h = resumes-IsQuiet s h
Step-IsQuiet {s} (cancels notified passed e) h = pool-IsQuiet s h _ refl refl
Step-IsQuiet {s} (grows r e f g) h = grows-IsQuiet s h r
Step-IsQuiet {s} (releases w before after e) h =
    moves-IsQuiet s h _ refl h.unswept h.booted (λ pid. killed-le w.pid pid s.living)
Step-IsQuiet {s} (settles now r w before after e f g) h =
    settles-IsQuiet s h now r (before ++ after)
Step-IsQuiet {s} (sweeps now d e f) h = cc (h.marked)
Step-IsQuiet {s} (sweep_kills w rest e f) h = cc (h.unswept)
Step-IsQuiet {s} (sweep_counts e) h = record {
  closed = record {
    marked = h.marked;
    emptied = h.emptied;
    unswept = h.unswept;
    booted = h.booted;
  };
  ending = λ pid l. l;
}
Step-IsQuiet {s} stops h = stops-IsQuiet s h
Step-IsQuiet {s} (abandons w before after d e) h =
    moves-IsQuiet s h _ refl h.unswept h.booted (λ pid l. l)
Step-IsQuiet {s} (stop_takes b e f) h = stop_takes-IsQuiet s h
Step-IsQuiet {s} (stop_kills w rest e f) h =
    moves-IsQuiet s h _ refl h.unswept h.booted (λ pid. killed-le w.pid pid s.living)
Step-IsQuiet {s} (stop_counts e) h = record {
  closed = record {
    marked = h.marked;
    emptied = h.emptied;
    unswept = h.unswept;
    booted = h.booted;
  };
  ending = λ pid l. l;
}
Step-IsQuiet {s} (notes_failure error) h = pool-IsQuiet s h _ refl refl
Step-IsQuiet {s} notes_success h = pool-IsQuiet s h _ refl refl
Step-IsQuiet {s} (notices x e) h = moves-IsQuiet s h _ refl h.unswept h.booted (λ pid l. l)
Step-IsQuiet {s} (start_raises w (inl e) f) h = absurd (omega (arith, h.booted))
Step-IsQuiet {s} (start_raises w (inr e) f) h = absurd (cc (e, h.marked))
Step-IsQuiet {s} (dies x) h =
    moves-IsQuiet s h _ refl h.unswept h.booted (λ pid. killed-le x pid s.living)

-- From the moment that stop() has taken the idle workers, whatever runs on: the pool stays marked,
-- with no idle worker and no sweep, and every process that runs ran at that moment already. No
-- request, release or background grow starts another.
pub Reach-IsQuiet : {s t : System} → Reach s t → IsClosed s → IsQuiet s t
Reach-IsQuiet here h = record { closed = h; ending = λ pid l. l }
Reach-IsQuiet (next r st) h =
    let before = Reach-IsQuiet r h in
    let after = Step-IsQuiet st before.closed in
    record { closed = after.closed; ending = λ pid l. before.ending pid (after.ending pid l) }

-- Once the pool is closed, its callers have given their workers back and stop() has killed what it
-- took, no process runs, unless stop() cancelled a sweep that still held some, but for those of
-- workers that were dropped as their start() raised.
pub closed_no_process :
    (config : PoolConfig) (now : ℕ) {s : System}
    → Reach (boot config now) s
    → IsClosed s
    → s.out ≡ []
    → s.stopping ≡ []
    → s.lost ≡ []
    → (pid : ℕ) → (s.living pid ≡ false) ⊎ (1 ≤ weigh (has_pid pid) s.strays)
closed_no_process config now {s} r h a b c pid = elim (Bool-cases (s.living pid)) [
  | inr dead ↦ inl dead
  | inl alive ↦ inr (
      omega (
        arith,
        (Reach-IsOwned config now pid r).kept alive,
        ap (weigh (has_pid pid)) a,
        ap (weigh (has_pid pid)) b,
        ap (weigh (has_pid pid)) c,
        ap (weigh (has_pid pid)) h.emptied,
        ap (weigh (has_pid pid)) h.unswept,
      ))
]
