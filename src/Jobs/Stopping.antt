-- ===== src/Jobs/Stopping.antt =====
-- shutdown() of src/claude_pool/jobs.py, which the daemon runs before it stops the pool.
use claude_code_cli_local_ga.Prelude.{
  Bool-cases, ℕ, String, true, false, List, [], ◌∷◌, ◌≡◌, refl, arith, inl, inr, some, eq_iff,
  str_eq,
}
use claude_code_cli_local_ga.Jobs.{
  JobStore, Task, Phase, scheduled, executing, over, find_phase, cancel_task, cancel_each, shutdown,
  end_task,
}
use claude_code_cli_local_ga.Jobs.Lookup.{find_phase-put}
use claude_code_cli_local_ga.Jobs.Lives.{is_active}

-- Cancelling one task starts none, and ends that one.
cancel_task-active :
    (x : String) (now : ℕ) (id : String) (phase : Phase) (s : JobStore)
    → is_active (find_phase x (cancel_task now id phase s).tasks) ≡ true
    → (is_active (find_phase x s.tasks) ≡ true)
      × (str_eq id x ≡ true → is_active (some phase) ≡ false)
unfolding cancel_task end_task
cancel_task-active x now id scheduled s h =
    ground (arith, find_phase-put x (record { job_id = id; phase = over }) s.tasks, eq_iff id x)
cancel_task-active x now id executing s h =
    ground (arith, find_phase-put x (record { job_id = id; phase = over }) s.tasks, eq_iff id x)
cancel_task-active x now id over s h = (h, λ _. refl)

cancel_each-active :
    (x : String) (now : ℕ) (ts : List Task) (s : JobStore)
    → is_active (find_phase x (cancel_each now ts s).tasks) ≡ true
    → (is_active (find_phase x s.tasks) ≡ true) × (is_active (find_phase x ts) ≡ false)
unfolding cancel_each find_phase
cancel_each-active x now [] s h = (h, refl)
cancel_each-active x now (t ∷ ts) s h =
    let later = cancel_each-active x now ts (cancel_task now t.job_id t.phase s) h in
    let first = cancel_task-active x now t.job_id t.phase s later.0 in
    (
      first.0,
      elim (Bool-cases (str_eq t.job_id x)) [ inl e ↦ rw e (first.1 e) | inr e ↦ rw e later.1 ],
    )

-- After shutdown() no task of the store is created and not yet run, or inside execute().
pub shutdown_ends :
    (now : ℕ) (s : JobStore) (x : String) → is_active (find_phase x (shutdown now s).tasks) ≡ false
unfolding shutdown
shutdown_ends now s x = elim (Bool-cases (is_active (find_phase x (shutdown now s).tasks))) [
  | inr e ↦ e
  | inl e ↦ let (a, b) = cancel_each-active x now s.tasks s e in cc (a, b)
]
