-- ===== src/Pool/Acquire.antt =====
-- What _acquire of src/claude_pool/pool.py does to the idle workers and to the count of them.
use claude_code_cli_local_ga.Prelude.{
  ℕ, ◌+◌, ◌-◌, ◌≤◌, ◌≡◌, ◌&&◌, refl, inl, inr, Bool, true, false, List, [], ◌∷◌, ◌++◌, arith, ◌==◌,
  ==_iff, ap, length, weigh, All, Bool-cases, if◌then◌else◌, Option, none, some, text_append,
  String,
}
use claude_code_cli_local_ga.Exn.{pool_unavailable}
use claude_code_cli_local_ga.Pool.{
  Pool, Worker, pop_alive, Acquired, handed, parked, refused, acquire_enter, acquire_resume, wake,
  is_empty, give_up_on,
}

abbrev pub IsDead : (ℕ → Bool) → Worker → Type 0
IsDead living w = living w.pid ≡ false

-- 1 for the worker of this process, 0 for any other.
abbrev pub has_pid : ℕ → Worker → ℕ
has_pid pid w = if w.pid == pid then 1 else 0

abbrev pub taken : (Worker → ℕ) → Option Worker → ℕ
taken f none = 0
taken f (some w) = f w

-- The same of how a stretch of _acquire ended.
abbrev pub gained : (Worker → ℕ) → Acquired → ℕ
gained f (handed w) = f w
gained f parked = 0
gained f (refused e) = 0

module _ (living : ℕ → Bool) where
  -- The workers that are dropped are dead, stood in front, and are the ones uncounted.
  abbrev Pops : List Worker → ℕ → Option Worker × List Worker × ℕ → Type 0
  Pops ws total (none, rest, t) = All (IsDead living) ws × (rest ≡ []) × (t ≡ total - length ws)
  Pops ws total (some w, rest, t) =
      (dead : List Worker) × (ws ≡ dead ++ w ∷ rest)
      × All (IsDead living) dead
      × (living w.pid ≡ true)
      × (t ≡ total - length dead)

  Pops-cons :
      (w : Worker) (ws : List Worker) (total : ℕ) (r : Option Worker × List Worker × ℕ)
      → IsDead living w
      → Pops ws (total - 1) r
      → Pops (w ∷ ws) total r
  Pops-cons w ws total (none, rest, t) d h = ((d, h.0), h.1, omega (arith, h.2))
  Pops-cons w ws total (some v, rest, t) d h =
      (w ∷ h.0, ap (λ l. w ∷ l) h.1, (d, h.2), h.3, omega (arith, h.4))

  pop_alive-Pops : (ws : List Worker) (total : ℕ) → Pops ws total (pop_alive living ws total)
  unfolding pop_alive
  pop_alive-Pops [] total = (tt, refl, omega arith)
  pop_alive-Pops (w ∷ ws) total = elim (Bool-cases (living w.pid)) [
    | inl e ↦ rw e ([], refl, tt, e, omega arith)
    | inr e ↦ rw e (Pops-cons w ws total _ e (pop_alive-Pops ws (total - 1)))
  ]

  has_pid-dead : (pid : ℕ) (w : Worker) → living pid ≡ true → IsDead living w → has_pid pid w ≡ 0
  has_pid-dead pid w h d = elim (Bool-cases (w.pid == pid)) [
    | inl e ↦ cc (ap living ((==_iff w.pid pid).0 e))
    | inr e ↦ rw e
  ]

  pop_alive-total :
      (ws : List Worker) (total : ℕ)
      → length ws ≤ total
      → let (found, rest, t) = pop_alive living ws total in
        t + length ws ≡ total + length rest + taken (λ _. 1) found
  unfolding pop_alive
  pop_alive-total [] total h = omega arith
  pop_alive-total (w ∷ ws) total h = ground (arith, pop_alive-total ws (total - 1))

  pop_alive-weigh :
      (f : Worker → ℕ) (ws : List Worker) (total : ℕ)
      → let (found, rest, t) = pop_alive living ws total in
        weigh f rest + taken f found ≤ weigh f ws
  unfolding pop_alive
  pop_alive-weigh f [] total = omega arith
  pop_alive-weigh f (w ∷ ws) total = ground (arith, pop_alive-weigh f ws (total - 1))

  pop_alive-le : (ws : List Worker) (total : ℕ) → (pop_alive living ws total).2 ≤ total
  unfolding pop_alive
  pop_alive-le [] total = omega arith
  pop_alive-le (w ∷ ws) total = ground (arith, pop_alive-le ws (total - 1))

  pub pop_alive-length :
      (ws : List Worker) (total : ℕ)
      → let (found, rest, t) = pop_alive living ws total in
        length rest + taken (λ _. 1) found ≤ length ws
  unfolding pop_alive
  pop_alive-length [] total = omega arith
  pop_alive-length (w ∷ ws) total = ground (arith, pop_alive-length ws (total - 1))

  pub pop_alive-none :
      (ws : List Worker) (total : ℕ)
      → (pop_alive living ws total).0 ≡ none
      → (pop_alive living ws total).1 ≡ []
  unfolding pop_alive
  pop_alive-none [] total h = refl
  pop_alive-none (w ∷ ws) total h = ground (arith, pop_alive-none ws (total - 1))

  pop_alive-alive :
      (w : Worker) (ws : List Worker) (total : ℕ)
      → (pop_alive living ws total).0 ≡ some w
      → living w.pid ≡ true
  unfolding pop_alive
  pop_alive-alive w [] total h = cc
  pop_alive-alive w (v ∷ ws) total h = ground (arith, pop_alive-alive w ws (total - 1))

  -- A process that lives is dropped from no count.
  pop_alive-living :
      (pid : ℕ) (ws : List Worker) (total : ℕ)
      → living pid ≡ true
      → let (found, rest, t) = pop_alive living ws total in
        weigh (has_pid pid) rest + taken (has_pid pid) found ≡ weigh (has_pid pid) ws
  unfolding pop_alive
  pop_alive-living pid [] total h = omega arith
  pop_alive-living pid (w ∷ ws) total h = elim (Bool-cases (living w.pid)) [
    | inl e ↦ rw e (omega arith)
    | inr e ↦ rw e (omega (arith, has_pid-dead pid w h e, pop_alive-living pid ws (total - 1) h))
  ]

-- How a call of _acquire that starts, or goes on, with pool `p` ends in a pool and a result.
pub record IsEntry (living : ℕ → Bool) (p q : Pool) (r : Acquired) : Type 0 where
  pub counted :
      length p.idle ≤ p.total
      → q.total + length p.idle ≡ p.total + length q.idle + gained (λ _. 1) r
  pub weighed : (f : Worker → ℕ) → weigh f q.idle + gained f r ≤ weigh f p.idle
  pub owned :
      (pid : ℕ)
      → living pid ≡ true
      → weigh (has_pid pid) q.idle + gained (has_pid pid) r ≡ weigh (has_pid pid) p.idle
  pub shrinks : q.total ≤ p.total
  pub waits : p.signalled ≤ p.waiting → q.signalled ≤ q.waiting
  pub same_config : q.config ≡ p.config
  pub same_mark : q.stopped ≡ p.stopped
  pub alive : (w : Worker) → r ≡ handed w → living w.pid ≡ true

give_up_cases :
    (living : ℕ → Bool) (P : Pool → Acquired → Type 0) (o : Option String) (q : Pool)
    → ((e : String)
        → o ≡ some e
        → P q (refused (pool_unavailable (text_append "worker spawn failed: " e))))
    → P (acquire_enter living q).0 (acquire_enter living q).1
    → P (give_up_on o q living).0 (give_up_on o q living).1
unfolding give_up_on
give_up_cases living P none q failing again = again
give_up_cases living P (some e) q failing again = failing e refl

module _ (living : ℕ → Bool) (p : Pool) where
  pub acquire_enter-IsEntry : IsEntry living p (acquire_enter living p).0 (acquire_enter living p).1
  unfolding acquire_enter
  acquire_enter-IsEntry = record {
    counted = λ h. ground (arith, pop_alive-total living p.idle p.total h);
    weighed = λ f. ground (arith, pop_alive-weigh living f p.idle p.total);
    owned = λ pid h. ground (arith, pop_alive-living living pid p.idle p.total h);
    shrinks = ground (arith, pop_alive-le living p.idle p.total);
    waits = λ h. ground arith;
    same_config = ground arith;
    same_mark = ground arith;
    alive = λ w h. ground (arith, pop_alive-alive living w p.idle p.total);
  }

module _ (living : ℕ → Bool) (p : Pool) where
  -- A resumed caller fails on a spawn error exactly when nothing is idle and no spawn is under way;
  -- in all other cases it starts its loop again.
  pub resume_cases :
      (P : Pool → Acquired → Type 0)
      → ((e : String)
          → p.idle ≡ []
          → p.pending_grows ≡ 0
          → p.last_spawn_error ≡ some e
          → P (wake p) (refused (pool_unavailable (text_append "worker spawn failed: " e))))
      → P (acquire_enter living (wake p)).0 (acquire_enter living (wake p)).1
      → P (acquire_resume living p).0 (acquire_resume living p).1
  unfolding acquire_resume
  resume_cases P failing again = elim (Bool-cases (is_empty p.idle && (p.pending_grows == 0))) [
    | inr more ↦ rw more again
    | inl stuck ↦ rw stuck (
        give_up_cases living P p.last_spawn_error (wake p)
          (λ e failed. failing e (ground arith) (ground arith) failed) again)
  ]

  pub acquire_resume-IsEntry :
      IsEntry living p (acquire_resume living p).0 (acquire_resume living p).1
  unfolding wake
  acquire_resume-IsEntry =
      resume_cases (IsEntry living p)
        (λ e _ _ _. record {
          counted = λ h. omega arith;
          weighed = λ f. omega arith;
          owned = λ pid h. omega arith;
          shrinks = omega arith;
          waits = λ h. omega arith;
          same_config = refl;
          same_mark = refl;
          alive = λ w h. cc;
        })
        (record {
          counted = enter.counted;
          weighed = enter.weighed;
          owned = enter.owned;
          shrinks = enter.shrinks;
          waits = λ h. enter.waits (omega arith);
          same_config = enter.same_config;
          same_mark = enter.same_mark;
          alive = enter.alive;
        })
    where
      enter :
          IsEntry living
            (wake p)
            (acquire_enter living (wake p)).0
            (acquire_enter living (wake p)).1
      enter = acquire_enter-IsEntry living (wake p)
