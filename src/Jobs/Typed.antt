-- ===== src/Jobs/Typed.antt =====
-- The values that src/claude_pool/jobs.py shows of a job, and the operations that keep their types.
use claude_code_cli_local_ga.Prelude.{
  ℕ, String, Option, none, some, List, [], ◌∷◌, refl, All, Bool-cases, inl, inr, str_eq,
  if◌then◌else◌,
}
use claude_code_cli_local_ga.Exn.{Result, ok, raise, cancelled, Holds}
use claude_code_cli_local_ga.Runner.{Outcome}
use claude_code_cli_local_ga.Runner.Typed.{IsText, IsInteger, IsTypedOutcome}
use claude_code_cli_local_ga.Jobs.{
  Job, JobStore, Phase, scheduled, executing, over, find, find_phase, modify, delete, delete_all,
  drop_expired, reap, sort_desc_onto, insert_desc, list_jobs, cancel, cancel_found, cancel_task,
  end_task, conclude, finish, revoke, is_terminal, is_expired, new_job,
}
use claude_code_cli_local_ga.Jobs.Listing.{All-insert_desc}

-- The values of a job, where the documents promise a text or a whole number.
pub record IsTypedJob (j : Job) : Type 0 where
  pub text : IsText j.text
  pub duration : IsInteger j.duration_ms
  pub error : IsText j.error

module _ (P : Job → Type 0) where
  All-delete : (id : String) (js : List Job) → All P js → All P (delete id js)
  unfolding delete
  All-delete id [] h = tt
  All-delete id (k ∷ ks) h = elim (Bool-cases (str_eq k.id id)) [
    | inl e ↦ rw e h.1
    | inr e ↦ rw e (h.0, All-delete id ks h.1)
  ]

  All-delete_all : (fs js : List Job) → All P js → All P (delete_all fs js)
  unfolding delete_all
  All-delete_all [] js h = h
  All-delete_all (f ∷ fs) js h = All-delete_all fs (delete f.id js) (All-delete f.id js h)

  All-drop_expired :
      (now retention : ℕ) (js : List Job) → All P js → All P (drop_expired now retention js)
  unfolding drop_expired
  All-drop_expired now retention [] h = tt
  All-drop_expired now retention (k ∷ ks) h = elim (Bool-cases (is_expired now retention k)) [
    | inl e ↦ rw e (All-drop_expired now retention ks h.1)
    | inr e ↦ rw e (h.0, All-drop_expired now retention ks h.1)
  ]

  All-reap : (now : ℕ) (s : JobStore) → All P s.jobs → All P (reap now s).jobs
  unfolding reap
  All-reap now s h = All-delete_all _ _ (All-drop_expired now s.retention_sec s.jobs h)

  All-sort_desc_onto :
      (key : Job → ℕ) (sorted js : List Job)
      → All P sorted
      → All P js
      → All P (sort_desc_onto key sorted js)
  unfolding sort_desc_onto
  All-sort_desc_onto key sorted [] g h = g
  All-sort_desc_onto key sorted (j ∷ js) g h =
      All-sort_desc_onto key (insert_desc key j sorted) js (All-insert_desc key P j sorted h.0 g)
        h.1

  All-modify :
      (id : String) (w : Job → Job) (js : List Job)
      → ((j : Job) → P j → P (w j))
      → All P js
      → All P (modify id w js)
  unfolding modify
  All-modify id w [] keep h = tt
  All-modify id w (k ∷ ks) keep h = elim (Bool-cases (str_eq k.id id)) [
    | inl e ↦ rw e (keep k h.0, h.1)
    | inr e ↦ rw e (h.0, All-modify id w ks keep h.1)
  ]

pub new_job-typed :
    (now : ℕ) (id prompt : String) (timeout : ℕ) → IsTypedJob (new_job now id prompt timeout)
unfolding new_job
new_job-typed now id prompt timeout = record { text = refl; duration = refl; error = refl }

conclude-typed :
    (now : ℕ) (r : Result Outcome) (j : Job)
    → Holds r IsTypedOutcome
    → IsTypedJob j
    → IsTypedJob (conclude now r j)
unfolding conclude finish
conclude-typed now (raise cancelled) j o h = record {
  text = h.text;
  duration = h.duration;
  error = refl;
}
conclude-typed now (raise e) j o h = record { text = h.text; duration = h.duration; error = refl }
conclude-typed now (ok outcome) j o h = elim (Bool-cases outcome.succeeded) [
  | inl e ↦ rw e (record { text = o.text; duration = o.duration; error = h.error })
  | inr e ↦ rw e (record { text = h.text; duration = o.duration; error = o.error })
]

revoke-typed : (now : ℕ) (j : Job) → IsTypedJob j → IsTypedJob (revoke now j)
unfolding finish
revoke-typed now j h = record { text = h.text; duration = h.duration; error = refl }

-- All jobs of the store have values of the promised types.
abbrev pub IsTypedStore : JobStore → Type 0
IsTypedStore s = All IsTypedJob s.jobs

pub end_task-typed :
    (now : ℕ) (id : String) (r : Result Outcome) (s : JobStore)
    → Holds r IsTypedOutcome
    → IsTypedStore s
    → IsTypedStore (end_task now id r s)
unfolding end_task
end_task-typed now id r s o h =
    All-modify IsTypedJob id (conclude now r) s.jobs (λ j. conclude-typed now r j o) h

cancel_task-typed :
    (now : ℕ) (id : String) (phase : Phase) (s : JobStore)
    → IsTypedStore s
    → IsTypedStore (cancel_task now id phase s)
unfolding cancel_task
cancel_task-typed now id scheduled s h = h
cancel_task-typed now id executing s h = end_task-typed now id (raise cancelled) s tt h
cancel_task-typed now id over s h = h

revoked-typed :
    (now : ℕ) (job : Job) (s : JobStore)
    → IsTypedStore s
    → IsTypedStore
        (if is_terminal job then s else record s { jobs = modify job.id (revoke now) s.jobs })
revoked-typed now job s h = elim (Bool-cases (is_terminal job)) [
  | inl e ↦ rw e h
  | inr e ↦ rw e (All-modify IsTypedJob job.id (revoke now) s.jobs (revoke-typed now) h)
]

cancel_found-typed :
    (now : ℕ) (job : Job) (phase : Option Phase) (s : JobStore)
    → IsTypedStore s
    → IsTypedStore (cancel_found now job phase s)
unfolding cancel_found
cancel_found-typed now job (some scheduled) s h = cancel_task-typed now job.id scheduled s h
cancel_found-typed now job (some executing) s h = cancel_task-typed now job.id executing s h
cancel_found-typed now job (some over) s h = revoked-typed now job s h
cancel_found-typed now job none s h = revoked-typed now job s h

-- A job that is answered has values of the promised types.
abbrev pub IsTypedAnswer : Option Job → Type 0
IsTypedAnswer none = Unit
IsTypedAnswer (some j) = IsTypedJob j

pub find-typed : (id : String) (js : List Job) → All IsTypedJob js → IsTypedAnswer (find id js)
unfolding find
find-typed id [] h = tt
find-typed id (k ∷ ks) h = elim (Bool-cases (str_eq k.id id)) [
  | inl e ↦ rw e h.0
  | inr e ↦ rw e (find-typed id ks h.1)
]

by_found :
    (now : ℕ) (id : String) (found : Option Job) (s : JobStore)
    → IsTypedStore s
    → IsTypedAnswer
        (elim found as (λ _. JobStore × Option Job) [
          | none ↦ (s, none)
          | some job ↦ let t = cancel_found now job (find_phase id s.tasks) s in (t, find id t.jobs)
        ]).1
by_found now id none s h = tt
by_found now id (some job) s h = find-typed id _ (cancel_found-typed now job _ s h)

pub cancel-typed :
    (now : ℕ) (id : String) (s : JobStore) → IsTypedStore s → IsTypedAnswer (cancel now id s).1
unfolding cancel
cancel-typed now id s h = by_found now id (find id s.jobs) s h

pub list_jobs-typed : (now : ℕ) (s : JobStore) → IsTypedStore s → All IsTypedJob (list_jobs now s).1
unfolding list_jobs
list_jobs-typed now s h =
    All-sort_desc_onto IsTypedJob (λ j. j.created_at) [] (reap now s).jobs tt
      (All-reap IsTypedJob now s h)
