-- ===== src/Pool/System/Wakeups.antt =====
-- No caller sleeps on while a worker is idle and nobody has been told.
use claude_code_cli_local_ga.Pool.Sweep.{sweep_select-IsRound}
use claude_code_cli_local_ga.Pool.{
  account_release, must_respawn, can_grow, note_success, stop_take, note_failure, release_locked,
  acquire_cancel, sweep_select, stop_mark, uncount, failed, spawned, acquire_resume, Spawn, wake,
  spawn_and_add_idle, grow_by_one, Pool, Worker, Acquired, handed, parked, refused, acquire_enter,
}
use claude_code_cli_local_ga.Prelude.{
  min, if◌then◌else◌, suc, length-append, Bool, true, false, refl, ◌∷◌, [], inr, ℕ, ◌≤◌, ◌<◌, ◌≡◌,
  ◌⊎◌, inl, arith, length,
}
use claude_code_cli_local_ga.Pool.Acquire.{resume_cases, pop_alive-length, pop_alive-none}
use claude_code_cli_local_ga.Pool.System.{
  System, IsWaiting, Step, boots, boot_fails, enters, resumes, cancels, grows, releases, settles,
  abandons, sweeps, sweep_kills, sweep_counts, stops, stop_takes, stop_kills, stop_counts,
  notes_failure, notes_success, dies, notices, start_raises, Reach, here, next, receive, adopt,
  boot,
}
use claude_code_cli_local_ga.Config.{PoolConfig}
use claude_code_cli_local_ga.Exn.{Exn}

-- While the pool is open, at least so many notified callers have still to run as there are idle
-- workers, or all callers that wait if those are fewer.
pub record IsAwake (p : Pool) : Type 0 where
  pub notified : p.signalled ≤ p.waiting
  pub told : (if p.stopped then 0 else min p.waiting (length p.idle)) ≤ p.signalled

boot-IsAwake : (config : PoolConfig) (now : ℕ) → IsAwake (boot config now).pool
unfolding boot
boot-IsAwake config now = record { notified = omega arith; told = omega arith }

-- What a stretch of _acquire that starts its loop does to the waiting.
record IsEntered (p q : Pool) (r : Acquired) : Type 0 where
  pub same_signals : q.signalled ≡ p.signalled
  pub same_mark : q.stopped ≡ p.stopped
  pub grown : p.waiting ≤ q.waiting
  pub shorter : length q.idle ≤ length p.idle
  pub refusal : (e : Exn) → r ≡ refused e → (p.stopped ≡ true) × (q.waiting ≡ p.waiting)
  pub handing :
      (w : Worker) → r ≡ handed w → (q.waiting ≡ p.waiting) × (length q.idle < length p.idle)
  pub parking : r ≡ parked → q.idle ≡ []

enter-IsEntered :
    (living : ℕ → Bool) (p : Pool)
    → IsEntered p (acquire_enter living p).0 (acquire_enter living p).1
unfolding acquire_enter
enter-IsEntered living p = record {
  same_signals = ground arith;
  same_mark = ground arith;
  grown = ground arith;
  shorter = ground (arith, pop_alive-length living p.idle p.total);
  refusal = λ e h. ground arith;
  handing = λ w h. ground (arith, pop_alive-length living p.idle p.total);
  parking = λ h. ground (arith, pop_alive-none living p.idle p.total);
}

entered-IsAwake :
    (p q : Pool) (r : Acquired)
    → IsEntered p q r
    → p.signalled ≤ p.waiting
    → (if p.stopped then 0 else min (suc p.waiting) (length p.idle)) ≤ suc p.signalled
    → IsAwake q
entered-IsAwake p q (handed w) e n h = record {
  notified = omega (arith, e.same_signals, e.grown);
  told = ground (arith, e.same_signals, e.same_mark, e.handing w refl);
}
entered-IsAwake p q parked e n h = record {
  notified = omega (arith, e.same_signals, e.grown);
  told = ground (arith, e.parking refl);
}
entered-IsAwake p q (refused x) e n h = record {
  notified = omega (arith, e.same_signals, e.grown);
  told = ground (arith, e.same_mark, (e.refusal x refl).0);
}

resumed-IsAwake :
    (living : ℕ → Bool) (p : Pool)
    → 0 < p.signalled
    → IsAwake p
    → IsAwake (acquire_resume living p).0
unfolding wake
resumed-IsAwake living p f h =
    resume_cases living p (λ q r. IsAwake q)
      (λ e none_idle _ _. record {
        notified = omega (arith, h.notified);
        told = ground (arith, none_idle);
      })
      (entered-IsAwake (wake p) _ _ (enter-IsEntered living (wake p)) (omega (arith, h.notified))
        (ground (arith, h.told)))

-- Of the steps, only the cancellation of a notified caller depends on what the Condition then does.
abbrev pub PassesOn : {s t : System} → Step s t → Type 0
PassesOn (cancels true passed e) = passed ≡ true
PassesOn _ = Unit

boots-IsAwake : (w : Worker) (p : Pool) → IsAwake p → IsAwake (spawn_and_add_idle w p)
unfolding spawn_and_add_idle
boots-IsAwake w p h = ground (arith, length-append p.idle (w ∷ []))

grows-IsAwake : (r : Spawn) (p : Pool) → IsAwake p → IsAwake (grow_by_one r p)
unfolding grow_by_one
grows-IsAwake (spawned w) p h = ground (arith, length-append p.idle (w ∷ []))
grows-IsAwake (failed x) p h = ground arith

settles-IsAwake : (now : ℕ) (r : Spawn) (p : Pool) → IsAwake p → IsAwake (release_locked now r p)
unfolding release_locked
settles-IsAwake now (spawned w) p h = ground (arith, length-append p.idle (w ∷ []))
settles-IsAwake now (failed x) p h = ground arith

cancels-IsAwake :
    (notified passed : Bool) (p : Pool)
    → IsWaiting notified p
    → notified ≡ false ⊎ passed ≡ true
    → IsAwake p
    → IsAwake (acquire_cancel notified passed p)
unfolding acquire_cancel
cancels-IsAwake true passed p e k h = ground arith
cancels-IsAwake false passed p e k h = ground arith

sweeps-IsAwake : (now : ℕ) (p : Pool) → IsAwake p → IsAwake (sweep_select now p).0
unfolding sweep_select
sweeps-IsAwake now p h = record {
  notified = h.notified;
  told = ground (arith, h.told, (sweep_select-IsRound now p).parted);
}

stops-IsAwake : (p : Pool) → IsAwake p → IsAwake (stop_mark p) × IsAwake (stop_take p).0
unfolding stop_mark stop_take
stops-IsAwake p h = ground arith

-- A step that changes neither the mark nor what callers wait for.
same-IsAwake :
    (p q : Pool)
    → q.idle ≡ p.idle
    → q.waiting ≡ p.waiting
    → q.signalled ≡ p.signalled
    → q.stopped ≡ p.stopped
    → IsAwake p
    → IsAwake q
same-IsAwake p q a b c d h = record {
  notified = omega (arith, h.notified);
  told = ground (arith, h.told);
}

adopt-IsAwake : (b : Bool) (r : Spawn) (s : System) → IsAwake s.pool → IsAwake (adopt b r s).pool
adopt-IsAwake true (spawned w) s h = h
adopt-IsAwake true (failed e) s h = h
adopt-IsAwake false r s h = h

receive-IsAwake : (q : Pool) (r : Acquired) (s : System) → IsAwake q → IsAwake (receive q r s).pool
receive-IsAwake q (handed w) s h = h
receive-IsAwake q parked s h = h
receive-IsAwake q (refused e) s h = h

Step-IsAwake : {s t : System} (st : Step s t) → PassesOn st → IsAwake s.pool → IsAwake t.pool
unfolding uncount note_failure note_success
Step-IsAwake {s} (boots w k e f) _ h = boots-IsAwake w s.pool h
Step-IsAwake {s} boot_fails _ h = h
Step-IsAwake {s} (enters e) _ h =
    receive-IsAwake _ (acquire_enter s.alive s.pool).1 s
      (entered-IsAwake s.pool _ _ (enter-IsEntered s.alive s.pool) h.notified (ground arith))
Step-IsAwake {s} (resumes e f) _ h =
    receive-IsAwake _ (acquire_resume s.alive s.pool).1 s (resumed-IsAwake s.alive s.pool f h)
Step-IsAwake {s} (cancels true passed e) k h = cancels-IsAwake true passed s.pool e (inr k) h
Step-IsAwake {s} (cancels false passed e) k h = cancels-IsAwake false passed s.pool e (inl refl) h
Step-IsAwake {s} (grows r e f g) _ h =
    adopt-IsAwake (can_grow s.pool) r _ (grows-IsAwake r s.pool h)
Step-IsAwake {s} (releases w before after e) _ h = h
Step-IsAwake {s} (settles now r w before after e f g) _ h =
    adopt-IsAwake (must_respawn (account_release now s.pool)) r _ (settles-IsAwake now r s.pool h)
Step-IsAwake {s} (sweeps now d e f) _ h = sweeps-IsAwake now s.pool h
Step-IsAwake {s} (sweep_kills w rest e f) _ h = h
Step-IsAwake {s} (sweep_counts e) _ h = same-IsAwake s.pool _ refl refl refl refl h
Step-IsAwake {s} stops _ h = (stops-IsAwake s.pool h).0
Step-IsAwake {s} (abandons w before after d e) _ h = h
Step-IsAwake {s} (stop_takes b e f) _ h = (stops-IsAwake s.pool h).1
Step-IsAwake {s} (stop_kills w rest e f) _ h = h
Step-IsAwake {s} (stop_counts e) _ h = same-IsAwake s.pool _ refl refl refl refl h
Step-IsAwake {s} (notes_failure error) _ h = same-IsAwake s.pool _ refl refl refl refl h
Step-IsAwake {s} notes_success _ h = same-IsAwake s.pool _ refl refl refl refl h
Step-IsAwake {s} (dies pid) _ h = h
Step-IsAwake {s} (notices pid e) _ h = h
Step-IsAwake {s} (start_raises w e f) _ h = h

-- Every cancelled caller that had been notified passed its notification on.
abbrev pub AllPassOn : {s t : System} → Reach s t → Type 0
AllPassOn here = Unit
AllPassOn (next r st) = AllPassOn r × PassesOn st

-- In every reachable state of an open pool, at least so many notified callers have still to run as
-- there are idle workers, or all waiting callers if those are fewer: no caller sleeps on beside an
-- idle worker. The condition is that `asyncio.Condition` notifies another caller when one that it
-- had notified is cancelled.
pub Reach-IsAwake :
    (config : PoolConfig) (now : ℕ) {s : System} (r : Reach (boot config now) s)
    → AllPassOn r
    → IsAwake s.pool
Reach-IsAwake config now here _ = boot-IsAwake config now
Reach-IsAwake config now (next r st) h = Step-IsAwake st h.1 (Reach-IsAwake config now r h.0)
