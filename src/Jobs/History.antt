-- ===== src/Jobs/History.antt =====
-- Every order of submissions, task steps, cancellations, listings and the shutdown's cancellations
-- of src/claude_pool/jobs.py.
use claude_code_cli_local_ga.Jobs.Lives.{
  revoke-IsSafe, same_phase, is_active, reap-IsSafe, cancel_task-IsSafe, same-IsSafe,
  find_phase-delete, tasks-IsSafe, end-IsSafe, submit-IsSafe, IsLinked, IsSafe,
}
use claude_code_cli_local_ga.Prelude.{
  Bool-cases, if◌then◌else◌, refl, Option, Option-cases, ℕ, ◌≡◌, String, false, some, none, arith,
  eq_iff, List, [], ◌∷◌, inl, inr,
}
use claude_code_cli_local_ga.Jobs.{
  revoke, modify, is_terminal, cancel_task, end_task, Outcome, Result, submit, cancel_found, cancel,
  begin_task, callback, list_jobs, JobStore, Job, Phase, scheduled, executing, over, find,
  find_phase,
}
use claude_code_cli_local_ga.Jobs.Lookup.{find_phase-put}
use claude_code_cli_local_ga.Runner.{Outcome}
use claude_code_cli_local_ga.Exn.{Result}

pub data Step (s : JobStore) : JobStore → Type 0 where
  -- a prompt is submitted, under an id that is new to both dicts
  submits :
      (now : ℕ) (id prompt : String) (timeout_sec : ℕ)
      → find id s.jobs ≡ none
      → find_phase id s.tasks ≡ none
      → Step s (submit now id prompt timeout_sec s).0
  begins : (id : String) → find_phase id s.tasks ≡ some scheduled → Step s (begin_task id s)
  ends :
      (now : ℕ) (id : String) (r : Result Outcome)
      → find_phase id s.tasks ≡ some executing
      → Step s (end_task now id r s)
  calls_back : (id : String) → find_phase id s.tasks ≡ some over → Step s (callback id s)
  cancels : (now : ℕ) (id : String) → Step s (cancel now id s).0
  -- shutdown() cancels one of the tasks
  shuts :
      (now : ℕ) (id : String) (phase : Phase)
      → find_phase id s.tasks ≡ some phase
      → Step s (cancel_task now id phase s)
  lists : (now : ℕ) → Step s (list_jobs now s).0

pub data Reach (s : JobStore) : JobStore → Type 0 where
  here : Reach s s
  next : {t u : JobStore} → Reach s t → Step t u → Reach s u

pub find-id : (id : String) (js : List Job) (j : Job) → find id js ≡ some j → j.id ≡ id
unfolding find
find-id id [] j e = cc
find-id id (k ∷ ks) j e = ground (arith, find-id id ks j, eq_iff k.id id)

-- cancel() of a job that no task runs any more.
revoked-IsSafe :
    (now : ℕ) (id : String) (job : Job) (s : JobStore)
    → find id s.jobs ≡ some job
    → is_active (find_phase id s.tasks) ≡ false
    → IsLinked s
    → IsSafe s (if is_terminal job then s else record s { jobs = modify id (revoke now) s.jobs })
revoked-IsSafe now id job s e a h = elim (Bool-cases (is_terminal job)) [
  | inl t ↦ rw t (same-IsSafe s h)
  | inr r ↦ rw r (revoke-IsSafe now id s (ground (arith, e, r)) a h)
]

cancel_found-IsSafe :
    (now : ℕ) (id : String) (job : Job) (phase : Option Phase) (s : JobStore)
    → job.id ≡ id
    → find id s.jobs ≡ some job
    → find_phase id s.tasks ≡ phase
    → IsLinked s
    → IsSafe s (cancel_found now job phase s)
unfolding cancel_found
cancel_found-IsSafe now id job (some scheduled) s n e f h =
    rw n (cancel_task-IsSafe now id scheduled s f h)
cancel_found-IsSafe now id job (some executing) s n e f h =
    rw n (cancel_task-IsSafe now id executing s f h)
cancel_found-IsSafe now id job (some over) s n e f h = rw n (revoked-IsSafe now id job s e (rw f) h)
cancel_found-IsSafe now id job none s n e f h = rw n (revoked-IsSafe now id job s e (rw f) h)

cancel-IsSafe : (now : ℕ) (id : String) (s : JobStore) → IsLinked s → IsSafe s (cancel now id s).0
unfolding cancel
cancel-IsSafe now id s h = elim (Option-cases (find id s.jobs)) [
  | inl e ↦ rw (e, cancel) (same-IsSafe s h)
  | inr (job, e) ↦
      rw (e, cancel)
        (cancel_found-IsSafe now id job (find_phase id s.tasks) s (find-id id s.jobs job e) e refl
          h)
]

begin-IsSafe :
    (id : String) (s : JobStore)
    → find_phase id s.tasks ≡ some scheduled
    → IsLinked s
    → IsSafe s (begin_task id s)
unfolding begin_task
begin-IsSafe id s e h =
    tasks-IsSafe _ s
      (λ x a. ground (
        arith,
        find_phase-put x (record { job_id = id; phase = executing }) s.tasks,
        same_phase x id s.tasks,
        e,
      ))
      h

callback-IsSafe : (id : String) (s : JobStore) → IsLinked s → IsSafe s (callback id s)
unfolding callback
callback-IsSafe id s h = tasks-IsSafe _ s (λ x a. ground (arith, find_phase-delete x id s.tasks)) h

list-IsSafe : (now : ℕ) (s : JobStore) → IsLinked s → IsSafe s (list_jobs now s).0
unfolding list_jobs
list-IsSafe now s h = reap-IsSafe now s h

Step-IsSafe : {s t : JobStore} → Step s t → IsLinked s → IsSafe s t
Step-IsSafe {s} (submits now id prompt timeout e f) h = submit-IsSafe now id prompt timeout s e f h
Step-IsSafe {s} (begins id e) h = begin-IsSafe id s e h
Step-IsSafe {s} (ends now id r e) h = end-IsSafe now id r s (rw e) h
Step-IsSafe {s} (calls_back id e) h = callback-IsSafe id s h
Step-IsSafe {s} (cancels now id) h = cancel-IsSafe now id s h
Step-IsSafe {s} (shuts now id phase e) h = cancel_task-IsSafe now id phase s e h
Step-IsSafe {s} (lists now) h = list-IsSafe now s h

abbrev pub empty_store : ℕ → ℕ → JobStore
empty_store retention max_jobs = record {
  retention_sec = retention;
  max_jobs = max_jobs;
  jobs = [];
  tasks = [];
}

pub Reach-IsLinked :
    (retention max_jobs : ℕ) {s : JobStore} → Reach (empty_store retention max_jobs) s → IsLinked s
unfolding find_phase
Reach-IsLinked retention max_jobs here = record { keyed = λ x. omega arith; linked = λ x a. cc }
Reach-IsLinked retention max_jobs (next r st) =
    (Step-IsSafe st (Reach-IsLinked retention max_jobs r)).links

-- In every history of the store, each step keeps this: a job whose task is not over is in the store
-- and unfinished; a finished job is afterwards as it was, or gone; and an unfinished job is not
-- dropped.
pub history-IsSafe :
    (retention max_jobs : ℕ) {s t : JobStore}
    → Reach (empty_store retention max_jobs) s
    → Step s t
    → IsSafe s t
history-IsSafe retention max_jobs r st = Step-IsSafe st (Reach-IsLinked retention max_jobs r)
