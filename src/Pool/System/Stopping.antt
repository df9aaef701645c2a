-- ===== src/Pool/System/Stopping.antt =====
-- stop() of src/claude_pool/pool.py, from its first line to its last.
use claude_code_cli_local_ga.Prelude.{
  Bool, true, ◌⊎◌, ◌≤◌, weigh, arith, ◌++◌, ◌∙◌, ℕ, ◌≡◌, refl, false, List, [], ◌∷◌,
}
use claude_code_cli_local_ga.Config.{PoolConfig}
use claude_code_cli_local_ga.Pool.Acquire.{has_pid, acquire_enter-IsEntry, acquire_resume-IsEntry}
use claude_code_cli_local_ga.Pool.{
  Pool, Spawn, spawned, failed, Acquired, handed, parked, refused, acquire_enter, acquire_resume,
  can_grow, must_respawn, account_release, release_locked, grow_by_one, spawn_and_add_idle, notify,
  notify_all, acquire_cancel, note_failure, note_success, Worker, uncount, stop_take, stop_mark,
}
use claude_code_cli_local_ga.Pool.System.{
  Step, enters, resumes, grows, settles, sweeps, sweep_kills, receive, adopt, System, Reach, here,
  next, boot, stops, stop_takes, stop_kills, stop_counts, cancel_sweep, killed,
}
use claude_code_cli_local_ga.Pool.System.Shutdown.{IsClosed, Reach-IsQuiet, closed_no_process}

-- The last loop of stop(): a kill and a count for each worker taken.
unfoldable pub kill_all : List Worker → System → System
unfolding uncount
kill_all [] s = s
kill_all (w ∷ ws) s = kill_all ws (record s {
  living = killed w.pid s.living;
  alive = killed w.pid s.alive;
  stopping = ws;
  pool = uncount s.pool;
  reaped = 0;
})

-- The section under the lock, after the mark
abbrev pub take_idle : System → System
take_idle s = record s { pool = (stop_take s.pool).0; stopping = (stop_take s.pool).1 }

-- `drains` is what the other tasks come to while stop() waits for the background tasks and then
-- cancels those that are left.
unfoldable pub stop : (System → System) → System → System
unfolding kill_all
stop drains s = let t = take_idle (drains (cancel_sweep s)) in kill_all t.stopping t

pub Reach-trans : {s t u : System} → Reach s t → Reach t u → Reach s u
Reach-trans r here = r
Reach-trans r (next q st) = next (Reach-trans r q) st

kill_one :
    (w : Worker) (ws : List Worker) (s : System)
    → s.stopping ≡ w ∷ ws
    → s.reaped ≡ 0
    → Reach s (record s {
      living = killed w.pid s.living;
      alive = killed w.pid s.alive;
      stopping = ws;
      pool = uncount s.pool;
      reaped = 0;
    })
kill_one w ws s e f = next (next here (stop_kills w ws e f)) (stop_counts refl)

kill_all-Reach :
    (ws : List Worker) (s : System)
    → s.stopping ≡ ws
    → s.reaped ≡ 0
    → Reach s (kill_all ws s) × ((kill_all ws s).stopping ≡ [])
unfolding kill_all
kill_all-Reach [] s e f = (here, e)
kill_all-Reach (w ∷ ws) s e f =
    let rest =
      kill_all-Reach ws
        (record s {
          living = killed w.pid s.living;
          alive = killed w.pid s.alive;
          stopping = ws;
          pool = uncount s.pool;
          reaped = 0;
        })
        refl refl in
    (Reach-trans (kill_one w ws s e f) rest.0, rest.1)

-- What stop() sets first stays so: the pool is marked, and no sweep is under way.
pub record IsMarked (s : System) : Type 0 where
  pub stopped : s.pool.stopped ≡ true
  pub unswept : s.sweeping ≡ []

adopt-IsMarked : (b : Bool) (r : Spawn) (s : System) → IsMarked s → IsMarked (adopt b r s)
adopt-IsMarked true (spawned w) s h = record { stopped = h.stopped; unswept = h.unswept }
adopt-IsMarked true (failed e) s h = h
adopt-IsMarked false r s h = h

receive-IsMarked :
    (s : System) (q : Pool) (r : Acquired)
    → q.stopped ≡ s.pool.stopped
    → IsMarked s
    → IsMarked (receive q r s)
receive-IsMarked s q (handed w) e h = record { stopped = e ∙ h.stopped; unswept = h.unswept }
receive-IsMarked s q parked e h = record { stopped = e ∙ h.stopped; unswept = h.unswept }
receive-IsMarked s q (refused x) e h = record { stopped = e ∙ h.stopped; unswept = h.unswept }

Step-IsMarked : {s t : System} → Step s t → IsMarked s → IsMarked t
unfolding spawn_and_add_idle notify acquire_cancel stop_mark stop_take uncount note_failure
    note_success notify_all grow_by_one release_locked can_grow must_respawn account_release
Step-IsMarked {s} (enters e) h =
    receive-IsMarked s (acquire_enter s.alive s.pool).0 (acquire_enter s.alive s.pool).1
      (acquire_enter-IsEntry s.alive s.pool).same_mark h
Step-IsMarked {s} (resumes e f) h =
    receive-IsMarked s (acquire_resume s.alive s.pool).0 (acquire_resume s.alive s.pool).1
      (acquire_resume-IsEntry s.alive s.pool).same_mark h
Step-IsMarked {s} (grows r e f g) h =
    adopt-IsMarked (can_grow s.pool) r (record s { pool = grow_by_one r s.pool })
      (record { stopped = ground (arith, h.stopped); unswept = h.unswept })
Step-IsMarked {s} (settles now r w before after e f g) h =
    adopt-IsMarked (must_respawn (account_release now s.pool)) r
      (record s { pool = release_locked now r s.pool; returned = before ++ after })
      (record { stopped = ground (arith, h.stopped); unswept = h.unswept })
Step-IsMarked {s} (sweeps now d e f) h = absurd (cc (d, h.stopped))
Step-IsMarked {s} (sweep_kills w rest e f) h = absurd (cc (e, h.unswept))
Step-IsMarked {s} stops h = record { stopped = refl; unswept = refl }
Step-IsMarked {s} _ h = record { stopped = h.stopped; unswept = h.unswept }

Reach-IsMarked : {s t : System} → Reach s t → IsMarked s → IsMarked t
Reach-IsMarked here h = h
Reach-IsMarked (next r st) h = Step-IsMarked st (Reach-IsMarked r h)

-- What stop() may find, so that it takes the idle workers: start() is over, and no other stop() is
-- under way.
pub record IsOpen (s : System) : Type 0 where
  pub booted : s.booting ≡ 0
  pub unstopped : s.stopping ≡ []
  pub unreaped : s.reaped ≡ 0

taken-IsClosed : (s : System) → IsOpen s → IsMarked s → IsClosed (take_idle s)
unfolding stop_take
taken-IsClosed s h m = record {
  marked = m.stopped;
  emptied = refl;
  unswept = m.unswept;
  booted = h.booted;
}

cancel_sweep-IsMarked : (s : System) → IsMarked (cancel_sweep s)
unfolding stop_mark
cancel_sweep-IsMarked s = record { stopped = refl; unswept = refl }

kill_all-kept :
    (ws : List Worker) (s : System)
    → ((kill_all ws s).out ≡ s.out) × ((kill_all ws s).lost ≡ s.lost)
unfolding kill_all
kill_all-kept [] s = (refl, refl)
kill_all-kept (w ∷ ws) s = kill_all-kept ws _

-- The processes that run at most: those of workers that were dropped as their start() raised.
abbrev pub HasOnlyStrays : System → Type 0
HasOnlyStrays s = (pid : ℕ) → (s.living pid ≡ false) ⊎ (1 ≤ weigh (has_pid pid) s.strays)

-- stop(), whatever steps the other tasks make while it waits for the background tasks and cancels
-- those that are left: all that it does are steps of the pool, and it leaves the pool closed. The
-- only processes that then run are those of workers that were dropped as their start() raised. The
-- conditions, at the end of that wait: start() is over, no other stop() is under way, all workers
-- are back, and the sweep held none that it had still to kill when it was cancelled.
pub stop_ends :
    (config : PoolConfig) (now : ℕ) (drains : System → System) {s : System}
    → Reach (boot config now) s
    → Reach (cancel_sweep s) (drains (cancel_sweep s))
    → IsOpen (drains (cancel_sweep s))
    → (drains (cancel_sweep s)).out ≡ []
    → (drains (cancel_sweep s)).lost ≡ []
    → Reach s (stop drains s) × IsClosed (stop drains s) × HasOnlyStrays (stop drains s)
unfolding stop
stop_ends config now drains {s} r waited h back found =
    (all, closed, closed_no_process config now (Reach-trans r all) closed gone ended.1 none_lost)
  where
    d : System
    d = drains (cancel_sweep s)

    t : System
    t = take_idle d

    marked : IsMarked d
    marked = Reach-IsMarked waited (cancel_sweep-IsMarked s)

    ended : Reach t (kill_all t.stopping t) × ((kill_all t.stopping t).stopping ≡ [])
    ended = kill_all-Reach t.stopping t refl h.unreaped

    all : Reach s (stop drains s)
    all =
        Reach-trans (Reach-trans (next here stops) waited)
          (Reach-trans (next here (stop_takes h.booted marked.stopped h.unstopped)) ended.0)

    closed : IsClosed (stop drains s)
    closed = (Reach-IsQuiet ended.0 (taken-IsClosed d h marked)).closed

    gone : (stop drains s).out ≡ []
    gone = (kill_all-kept t.stopping t).0 ∙ back

    none_lost : (stop drains s).lost ≡ []
    none_lost = (kill_all-kept t.stopping t).1 ∙ found
