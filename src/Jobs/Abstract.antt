-- ===== src/Jobs/Abstract.antt =====
-- What the store of src/claude_pool/jobs.py promises, without its dicts: jobs and phases of tasks as
-- functions of an id, and the changes that the two may undergo. The order of the dicts, the expiry and
-- the cap are left open: a finished job may be forgotten at a submission or a listing.
use mathlib.Core.Path.{fun_ext}
use claude_code_cli_local_ga.Prelude.{
  ℕ, String, true, false, Option, none, some, ◌≡◌, refl, ◌⊎◌, inl, inr, sym, ap, ◌∙◌, subst, str_eq,
  eq_iff, Bool-cases, Option-cases, if◌then◌else◌, arith,
}
use claude_code_cli_local_ga.Exn.{Result, ok, raise, cancelled}
use claude_code_cli_local_ga.Runner.{Outcome}
use claude_code_cli_local_ga.Jobs.{
  Job, JobStore, running, Phase, scheduled, executing, over, is_terminal, find, find_phase, submit,
  new_job, reap, begin_task, end_task, callback, cancel, cancel_found, cancel_task, list_jobs,
  conclude, finish, revoke, modify, put_task,
}
use claude_code_cli_local_ga.Jobs.Lookup.{
  find-put, find_phase-put, find-modify, map_job, reap-Fades,
}
use claude_code_cli_local_ga.Jobs.Lives.{
  is_active, is_live, IsLinked, reap-is_live, find_phase-delete,
}
use claude_code_cli_local_ga.Jobs.History.{
  Step, submits, begins, ends, calls_back, cancels, shuts, lists, Reach, empty_store,
  Reach-IsLinked, find-id,
}

abbrev pub Table : Type 0
Table = String → Option Job

abbrev pub Phases : Type 0
Phases = String → Option Phase

-- A function, changed at one id
abbrev pub update {ℓ} : {A : Type ℓ} → (String → A) → String → A → String → A
update f id a x = if str_eq id x then a else f x

-- The second table lacks some finished jobs of the first.
abbrev pub Forgets : Table → Table → Type 0
Forgets f g = (x : String) → (g x ≡ f x) ⊎ ((g x ≡ none) × (is_live (f x) ≡ false))

-- A write that finishes a job.
abbrev pub IsEnding : (Job → Job) → Type 0
IsEnding w = (j : Job) → ((w j).id ≡ j.id) × (is_terminal (w j) ≡ true)

-- One change that the store may make to its jobs `f` and its tasks `p`.
pub data Change (f : Table) (p : Phases) : Table → Phases → Type 0 where
  added :
      (id : String) (job : Job) (g : Table)
      → f id ≡ none
      → p id ≡ none
      → job.id ≡ id
      → job.status ≡ running
      → Forgets f g
      → Change f p (update g id (some job)) (update p id (some scheduled))
  started : (id : String) → p id ≡ some scheduled → Change f p f (update p id (some executing))
  concluded :
      (id : String) (w : Job → Job)
      → p id ≡ some executing
      → IsEnding w
      → Change f p (update f id (map_job w (f id))) (update p id (some over))
  orphaned : (id : String) → p id ≡ some scheduled → Change f p f (update p id (some over))
  removed : (id : String) → p id ≡ some over → Change f p f (update p id none)
  withdrawn :
      (id : String) (w : Job → Job)
      → is_live (f id) ≡ true
      → is_active (p id) ≡ false
      → IsEnding w
      → Change f p (update f id (map_job w (f id))) p
  forgotten : (g : Table) → Forgets f g → Change f p g p

abbrev pub table : JobStore → Table
table s x = find x s.jobs

abbrev pub phases : JobStore → Phases
phases s x = find_phase x s.tasks

-- The change from what one store shows to what another shows.
abbrev pub Changes : JobStore → JobStore → Type 0
Changes s t = Change (table s) (phases s) (table t) (phases t)

to_change :
    {f g h : Table} {p q r : Phases}
    → Change f p g q
    → ((x : String) → h x ≡ g x)
    → ((x : String) → r x ≡ q x)
    → Change f p h r
to_change {f} {g} {h} {p} {q} {r} c a b =
    subst (λ k. Change f p k r) (fun_ext λ x. sym (a x))
      (subst (λ k. Change f p g k) (fun_ext λ x. sym (b x)) c)

pub stays : (s t : JobStore) → t ≡ s → Changes s t
stays s t e = subst (λ u. Changes s u) (sym e) (forgotten (table s) (λ x. inl refl))

reap-Forgets : (now : ℕ) (s : JobStore) → IsLinked s → Forgets (table s) (table (reap now s))
reap-Forgets now s h x = ground (arith, reap-Fades now s x h.keyed, reap-is_live now s x h.keyed)

conclude-IsEnding : (now : ℕ) (r : Result Outcome) → IsEnding (conclude now r)
unfolding conclude finish
conclude-IsEnding now (ok outcome) j = ground arith
conclude-IsEnding now (raise e) j = ground arith

revoke-IsEnding : (now : ℕ) → IsEnding (revoke now)
unfolding finish
revoke-IsEnding now j = (refl, refl)

modified :
    (x id : String) (w : Job → Job) (s : JobStore)
    → IsEnding w
    → find x (modify id w s.jobs) ≡ update (table s) id (map_job w (find id s.jobs)) x
modified x id w s h = elim (Bool-cases (str_eq id x)) [
  | inr e ↦ find-modify x id w s.jobs (λ j. (h j).0) ∙ rw e refl
  | inl e ↦
      find-modify x id w s.jobs (λ j. (h j).0)
      ∙ rw e (ap (λ y. map_job w (find y s.jobs)) (sym ((eq_iff id x).0 e)))
]

put_phase :
    (x id : String) (phase : Phase) (s : JobStore)
    → find_phase x (put_task (record { job_id = id; phase = phase }) s.tasks)
      ≡ update (phases s) id (some phase) x
put_phase x id phase s = find_phase-put x (record { job_id = id; phase = phase }) s.tasks

submit-Changes :
    (now : ℕ) (id prompt : String) (timeout : ℕ) (s : JobStore)
    → find id s.jobs ≡ none
    → find_phase id s.tasks ≡ none
    → IsLinked s
    → Changes s (submit now id prompt timeout s).0
unfolding submit new_job reap
submit-Changes now id prompt timeout s e f h =
    to_change
      (added id (new_job now id prompt timeout) (table (reap now s)) e f refl refl
        (reap-Forgets now s h))
      (λ x. find-put x (new_job now id prompt timeout) (reap now s).jobs)
      (λ x. find_phase-put x (record { job_id = id; phase = scheduled }) s.tasks)

end-Changes :
    (now : ℕ) (id : String) (r : Result Outcome) (s : JobStore)
    → find_phase id s.tasks ≡ some executing
    → Changes s (end_task now id r s)
unfolding end_task
end-Changes now id r s e =
    to_change (concluded id (conclude now r) e (conclude-IsEnding now r))
      (λ x. modified x id (conclude now r) s (conclude-IsEnding now r)) (λ x. put_phase x id over s)

cancel_task-Changes :
    (now : ℕ) (id : String) (phase : Phase) (s : JobStore)
    → find_phase id s.tasks ≡ some phase
    → Changes s (cancel_task now id phase s)
unfolding cancel_task
cancel_task-Changes now id scheduled s e =
    to_change (orphaned id e) (λ x. refl) (λ x. put_phase x id over s)
cancel_task-Changes now id executing s e = end-Changes now id (raise cancelled) s e
cancel_task-Changes now id over s e = stays s s refl

revoke-Changes :
    (now : ℕ) (id : String) (job : Job) (s : JobStore)
    → find id s.jobs ≡ some job
    → is_active (find_phase id s.tasks) ≡ false
    → Changes s (if is_terminal job then s else record s { jobs = modify id (revoke now) s.jobs })
revoke-Changes now id job s e a = elim (Bool-cases (is_terminal job)) [
  | inl t ↦ rw t (stays s s refl)
  | inr t ↦ rw t (
      to_change (withdrawn id (revoke now) (ground (arith, e, t)) a (revoke-IsEnding now))
        (λ x. modified x id (revoke now) s (revoke-IsEnding now)) (λ x. refl))
]

cancel_found-Changes :
    (now : ℕ) (id : String) (job : Job) (phase : Option Phase) (s : JobStore)
    → job.id ≡ id
    → find id s.jobs ≡ some job
    → find_phase id s.tasks ≡ phase
    → Changes s (cancel_found now job phase s)
unfolding cancel_found
cancel_found-Changes now id job (some scheduled) s n e f =
    rw n (cancel_task-Changes now id scheduled s f)
cancel_found-Changes now id job (some executing) s n e f =
    rw n (cancel_task-Changes now id executing s f)
cancel_found-Changes now id job (some over) s n e f = rw n (revoke-Changes now id job s e (rw f))
cancel_found-Changes now id job none s n e f = rw n (revoke-Changes now id job s e (rw f))

cancel-Changes : (now : ℕ) (id : String) (s : JobStore) → Changes s (cancel now id s).0
unfolding cancel
cancel-Changes now id s = elim (Option-cases (find id s.jobs)) [
  | inl e ↦ rw (e, cancel) (stays s s refl)
  | inr (job, e) ↦
      rw (e, cancel)
        (cancel_found-Changes now id job (find_phase id s.tasks) s (find-id id s.jobs job e) e refl)
]

Step-Changes : {s t : JobStore} → Step s t → IsLinked s → Changes s t
unfolding begin_task callback list_jobs reap
Step-Changes {s} (submits now id prompt timeout e f) h =
    submit-Changes now id prompt timeout s e f h
Step-Changes {s} (begins id e) h =
    to_change (started id e) (λ x. refl) (λ x. put_phase x id executing s)
Step-Changes {s} (ends now id r e) h = end-Changes now id r s e
Step-Changes {s} (calls_back id e) h =
    to_change (removed id e) (λ x. refl) (λ x. find_phase-delete x id s.tasks)
Step-Changes {s} (cancels now id) h = cancel-Changes now id s
Step-Changes {s} (shuts now id phase e) h = cancel_task-Changes now id phase s e
Step-Changes {s} (lists now) h =
    to_change (forgotten (table (reap now s)) (reap-Forgets now s h)) (λ x. refl) (λ x. refl)

-- The store refines its description: in every history, each step is a change that the description
-- allows. A job is added as running under an id that neither dict has, with a task that has not
-- started; it is finished once, by its own task or when no task of it is left; and only a finished
-- job is forgotten.
pub history-Changes :
    (retention max_jobs : ℕ) {s t : JobStore}
    → Reach (empty_store retention max_jobs) s
    → Step s t
    → Changes s t
history-Changes retention max_jobs r st = Step-Changes st (Reach-IsLinked retention max_jobs r)
