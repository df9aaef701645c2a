-- ===== src/Jobs/Cancelling.antt =====
-- The answers of cancel() in src/claude_pool/jobs.py, by what has become of the job's task.
use claude_code_cli_local_ga.Jobs.{
  str, put_task, modify, JobStore, Job, Phase, scheduled, executing, over, find, find_phase,
  is_terminal, cancel, cancel_found, revoke, finish, end_task, conclude, cancel_task,
}
use claude_code_cli_local_ga.JobTable.{revoked, put_task}
use claude_code_cli_local_ga.Prelude.{
  inr, inl, Bool-cases, str_eq, if◌then◌else◌, Option, ℕ, ◌≡◌, refl, String, false, some, none,
  arith, eq_iff,
}
use claude_code_cli_local_ga.Jobs.Lookup.{find-modify, find_phase-put}
use claude_code_cli_local_ga.Exn.{cancelled, raise}
use claude_code_cli_local_ga.Jobs.Lives.{is_active}
use claude_code_cli_local_ga.Jobs.History.{find-id}

module _ (now : ℕ) (id : String) (s : JobStore) (job : Job)
    (found : find id s.jobs ≡ some job) where
  job_id : job.id ≡ id
  job_id = find-id id s.jobs job found

  -- A write under the job's id is what is then found there.
  written :
      (f : Job → Job)
      → ((j : Job) → (f j).id ≡ j.id)
      → find id (modify job.id f s.jobs) ≡ some (f job)
  written f h = ground (arith, find-modify id job.id f s.jobs h, found, eq_iff job.id id, job_id)

  -- The job as one that was cancelled now.
  abbrev pub cancelled_now : Job
  cancelled_now = record job { status = revoked; finished_at = some now; error = str "cancelled" }

  -- The job that cancel() answers with, by the phase of its task.
  abbrev pub answered : Option Phase → Job
  answered (some scheduled) = job
  answered (some executing) = cancelled_now
  answered (some over) = if is_terminal job then job else cancelled_now
  answered none = if is_terminal job then job else cancelled_now

  cancel_inactive :
      (phase : Option Phase)
      → is_active phase ≡ false
      → find id (cancel_found now job phase s).jobs
        ≡ some (if is_terminal job then job else cancelled_now)
  unfolding cancel_found finish
  cancel_inactive (some scheduled) a = cc
  cancel_inactive (some executing) a = cc
  cancel_inactive (some over) a = ground (arith, found, written (revoke now) (λ j. refl))
  cancel_inactive none a = ground (arith, found, written (revoke now) (λ j. refl))

  cancel_found-answered :
      (phase : Option Phase) → find id (cancel_found now job phase s).jobs ≡ some (answered phase)
  unfolding cancel_found cancel_task end_task conclude finish
  cancel_found-answered (some scheduled) = found
  cancel_found-answered (some executing) = written (conclude now (raise cancelled)) (λ j. refl)
  cancel_found-answered (some over) = cancel_inactive (some over) refl
  cancel_found-answered none = cancel_inactive none refl

  task_over :
      find_phase id (put_task (record { job_id = job.id; phase = over }) s.tasks) ≡ some over
  task_over = ground (
    arith,
    find_phase-put id (record { job_id = job.id; phase = over }) s.tasks,
    eq_iff job.id id,
    job_id,
  )

  cancel_found-ends :
      (phase : Option Phase)
      → find_phase id s.tasks ≡ phase
      → is_active (find_phase id (cancel_found now job phase s).tasks) ≡ false
  unfolding cancel_found cancel_task end_task
  cancel_found-ends (some scheduled) e = rw task_over refl
  cancel_found-ends (some executing) e = rw task_over refl
  cancel_found-ends (some over) e = ground (arith, e)
  cancel_found-ends none e = ground (arith, e)

  -- Everything under another id.
  abbrev pub IsKept : JobStore → String → Type 0
  IsKept t x = (find x t.jobs ≡ find x s.jobs) × (find_phase x t.tasks ≡ find_phase x s.tasks)

  kept_jobs :
      (x : String) (f : Job → Job)
      → str_eq job.id x ≡ false
      → ((j : Job) → (f j).id ≡ j.id)
      → find x (modify job.id f s.jobs) ≡ find x s.jobs
  kept_jobs x f n h = ground (arith, find-modify x job.id f s.jobs h, n)

  kept_tasks :
      (x : String)
      → str_eq job.id x ≡ false
      → find_phase x (put_task (record { job_id = job.id; phase = over }) s.tasks)
        ≡ find_phase x s.tasks
  kept_tasks x n =
      ground (arith, find_phase-put x (record { job_id = job.id; phase = over }) s.tasks, n)

  cancel_found-IsKept :
      (phase : Option Phase) (x : String)
      → str_eq job.id x ≡ false
      → IsKept (cancel_found now job phase s) x
  unfolding cancel_found cancel_task end_task conclude finish
  cancel_found-IsKept (some scheduled) x n = (refl, kept_tasks x n)
  cancel_found-IsKept (some executing) x n =
      (kept_jobs x (conclude now (raise cancelled)) n (λ j. refl), kept_tasks x n)
  cancel_found-IsKept (some over) x n = elim (Bool-cases (is_terminal job)) [
    | inl t ↦ rw t (refl, refl)
    | inr t ↦ rw t (kept_jobs x (revoke now) n (λ j. refl), refl)
  ]
  cancel_found-IsKept none x n = elim (Bool-cases (is_terminal job)) [
    | inl t ↦ rw t (refl, refl)
    | inr t ↦ rw t (kept_jobs x (revoke now) n (λ j. refl), refl)
  ]

  -- cancel() of a job that is in the store: the answer is the job with the status cancelled,
  -- finished at this time and with the error "cancelled", if its task
  -- is inside execute(), or if it is unfinished and its task is over or gone; it is the job as it was
  -- if it is finished and its task is over or gone, or if its task has not taken its first step. No
  -- task of the job is then at work, and the job and the task of any other id are as they were.
  pub cancel_lem :
      (x : String)
      → str_eq id x ≡ false
      → ((cancel now id s).1 ≡ some (answered (find_phase id s.tasks)))
        × (is_active (find_phase id (cancel now id s).0.tasks) ≡ false)
        × IsKept (cancel now id s).0 x
  unfolding cancel
  cancel_lem x n =
      rw (found, cancel)
        (
          cancel_found-answered (find_phase id s.tasks),
          cancel_found-ends (find_phase id s.tasks) refl,
          cancel_found-IsKept (find_phase id s.tasks) x (rw job_id n),
        )
