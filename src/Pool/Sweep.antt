-- ===== src/Pool/Sweep.antt =====
-- What one round of the scale-down sweep of src/claude_pool/pool.py takes, and what it leaves.
use claude_code_cli_local_ga.Prelude.{
  ℕ, suc, ◌+◌, ◌-◌, ◌≤◌, ◌<◌, min, ◌≡◌, refl, ◌⊎◌, Bool, true, false, List, [], ◌∷◌, arith, length,
  weigh, All, if◌then◌else◌,
}
use claude_code_cli_local_ga.Pool.{Pool, Worker, scan, sweep_select, draining, excess_allowed}

-- Idle for longer than the timeout.
abbrev pub IsStale : ℕ → ℕ → Worker → Type 0
IsStale now timeout w = timeout < now - w.became_idle_at

module _ (now timeout : ℕ) where
  pub scan-weigh :
      (f : Worker → ℕ) (drain : Bool) (allowed killed : ℕ) (ws : List Worker)
      → let (survivors, to_kill) = scan drain now timeout allowed killed ws in
        weigh f survivors + weigh f to_kill ≡ weigh f ws
  unfolding scan
  scan-weigh f drain allowed killed [] = omega arith
  scan-weigh f drain allowed killed (w ∷ ws) =
      ground
        (arith, scan-weigh f drain allowed (suc killed) ws, scan-weigh f drain allowed killed ws)

  scan-length :
      (drain : Bool) (allowed killed : ℕ) (ws : List Worker)
      → let (survivors, to_kill) = scan drain now timeout allowed killed ws in
        (length survivors + length to_kill ≡ length ws)
        × (killed ≤ allowed → killed + length to_kill ≤ allowed)
  unfolding scan
  scan-length drain allowed killed [] = ground arith
  scan-length drain allowed killed (w ∷ ws) =
      ground (arith, scan-length drain allowed (suc killed) ws, scan-length drain allowed killed ws)

  -- Outside a drain only stale workers are taken.
  scan-IsStale :
      (allowed killed : ℕ) (ws : List Worker)
      → All (IsStale now timeout) (scan false now timeout allowed killed ws).1
  unfolding scan
  scan-IsStale allowed killed [] = tt
  scan-IsStale allowed killed (w ∷ ws) =
      ground (arith, scan-IsStale allowed (suc killed) ws, scan-IsStale allowed killed ws)

  -- In a drain everything is taken, in order.
  scan-drain :
      (allowed killed : ℕ) (ws : List Worker)
      → killed + length ws ≤ allowed
      → scan true now timeout allowed killed ws ≡ ([], ws)
  unfolding scan
  scan-drain allowed killed [] h = refl
  scan-drain allowed killed (w ∷ ws) h =
      ground (arith, scan-drain allowed (suc killed) ws (omega arith))

-- A round neither loses nor invents idle workers, whatever is counted of them.
pub sweep_select-weigh :
    (f : Worker → ℕ) (now : ℕ) (p : Pool)
    → weigh f (sweep_select now p).0.idle + weigh f (sweep_select now p).1 ≡ weigh f p.idle
unfolding sweep_select
sweep_select-weigh f now p =
    scan-weigh now p.config.idle_timeout_sec f (draining now p) (excess_allowed now p) 0 p.idle

-- What a round may do, for a pool with these idle workers: `kept` and `to_kill` part them, whatever
-- is counted of the workers.
pub record IsRound (min_workers now timeout : ℕ) (drain : Bool) (idle kept to_kill : List Worker)
    : Type 0 where
  pub parted : length kept + length to_kill ≡ length idle
  pub weighed : (f : Worker → ℕ) → weigh f kept + weigh f to_kill ≡ weigh f idle
  pub drained : drain ≡ true → (kept ≡ []) × (to_kill ≡ idle)
  pub floored : drain ≡ false → min min_workers (length idle) ≤ length kept
  pub stale : drain ≡ false → All (IsStale now timeout) to_kill

scan-IsRound :
    (now timeout n : ℕ) (drain : Bool) (ws : List Worker)
    → let (kept, to_kill) =
        scan drain now timeout (if drain then length ws else length ws - n) 0 ws in
      IsRound n now timeout drain ws kept to_kill
scan-IsRound now timeout n true ws = record {
  parted = (scan-length now timeout true (length ws) 0 ws).0;
  weighed = λ f. scan-weigh now timeout f true (length ws) 0 ws;
  drained = λ _. rw (scan-drain now timeout (length ws) 0 ws (omega arith)) (refl, refl);
  floored = λ e. cc;
  stale = λ e. cc;
}
scan-IsRound now timeout n false ws = record {
  parted = (scan-length now timeout false (length ws - n) 0 ws).0;
  weighed = λ f. scan-weigh now timeout f false (length ws - n) 0 ws;
  drained = λ e. cc;
  floored = λ _.
      let counts = scan-length now timeout false (length ws - n) 0 ws in
      omega (arith, counts.0, counts.1 (omega arith));
  stale = λ _. scan-IsStale now timeout (length ws - n) 0 ws;
}

-- One round of the sweep: whatever is counted of the workers, those that stay and those that are
-- taken have together the count of the idle workers before; so none is lost, doubled or invented. When the pool is draining, every idle
-- worker is taken and none stays. Otherwise at least `min_workers` idle workers stay (all of them,
-- if there are no more), and each one taken was idle for longer than `idle_timeout_sec`.
pub sweep_select-IsRound :
    (now : ℕ) (p : Pool)
    → IsRound p.config.min_workers now p.config.idle_timeout_sec
        (draining now p)
        p.idle
        (sweep_select now p).0.idle
        (sweep_select now p).1
unfolding sweep_select
sweep_select-IsRound now p =
    scan-IsRound now p.config.idle_timeout_sec p.config.min_workers (draining now p) p.idle

draining_needs :
    (now : ℕ) (p : Pool)
    → (p.config.idle_scale_to_zero_sec ≡ 0) ⊎ (length p.idle < p.total)
    → draining now p ≡ false
unfolding draining
draining_needs now p h = ground arith

-- With `idle_scale_to_zero_sec` at 0, or while some worker is not idle, no round drains: at least
-- `min_workers` of the idle workers stay, or all of them if there are no more.
sweep_select_floor :
    (now : ℕ) (p : Pool)
    → (p.config.idle_scale_to_zero_sec ≡ 0) ⊎ (length p.idle < p.total)
    → min p.config.min_workers (length p.idle) ≤ length (sweep_select now p).0.idle
sweep_select_floor now p h = (sweep_select-IsRound now p).floored (draining_needs now p h)
