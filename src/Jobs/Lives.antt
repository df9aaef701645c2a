-- ===== src/Jobs/Lives.antt =====
-- What the operations of src/claude_pool/jobs.py do to the life of each job.
use claude_code_cli_local_ga.Prelude.{
  ap, max, Option-cases, is_some, ℕ, ◌≤◌, ◌≡◌, refl, String, Bool, true, false, Option, none, some,
  List, [], ◌∷◌, arith, str_eq, eq_iff, if◌then◌else◌, weigh, ◌⊎◌, inl, inr, not,
}
use claude_code_cli_local_ga.Exn.{Result, ok, raise, cancelled}
use claude_code_cli_local_ga.Runner.{Outcome}
use claude_code_cli_local_ga.Jobs.{
  Job, JobStore, Task, Phase, scheduled, executing, over, is_terminal, find, find_phase, put,
  put_task, modify, delete_task, reap, new_job, submit, finish, conclude, end_task, cancel_task,
  revoke,
}
use claude_code_cli_local_ga.Jobs.Table.{has_id}
use claude_code_cli_local_ga.Jobs.Reaping.{IsKeyed, reap-find, reap-IsKeyed}
use claude_code_cli_local_ga.Jobs.Lookup.{find-put, find_phase-put, find-modify, Fades, reap-Fades}

abbrev pub is_active : Option Phase → Bool
is_active (some scheduled) = true
is_active (some executing) = true
is_active (some over) = false
is_active none = false

-- The job is there, and not finished.
abbrev pub is_live : Option Job → Bool
is_live none = false
is_live (some j) = not (is_terminal j)

-- The store is keyed, and the job of each task that is not over is there and not finished.
pub record IsLinked (s : JobStore) : Type 0 where
  pub keyed : IsKeyed s.jobs
  pub linked :
      (id : String) → is_active (find_phase id s.tasks) ≡ true → is_live (find id s.jobs) ≡ true

conclude-id : (now : ℕ) (r : Result Outcome) (j : Job) → (conclude now r j).id ≡ j.id
unfolding conclude
conclude-id now (ok outcome) j = ground arith
conclude-id now (raise e) j = ground arith

put-weigh :
    (x : String) (j : Job) (js : List Job)
    → weigh (has_id x) (put j js) ≤ max (weigh (has_id x) js) (has_id x j)
unfolding put
put-weigh x j [] = omega arith
put-weigh x j (k ∷ ks) =
    ground (arith, put-weigh x j ks, eq_iff k.id j.id, eq_iff k.id x, eq_iff j.id x)

put-IsKeyed : (j : Job) (js : List Job) → IsKeyed js → IsKeyed (put j js)
put-IsKeyed j js k x = ground (arith, put-weigh x j js, k x)

modify-weigh :
    (x id : String) (f : Job → Job) (js : List Job)
    → ((j : Job) → (f j).id ≡ j.id)
    → weigh (has_id x) (modify id f js) ≡ weigh (has_id x) js
unfolding modify
modify-weigh x id f [] h = refl
modify-weigh x id f (j ∷ js) h = ground (arith, modify-weigh x id f js h, h j)

pub reap-is_live :
    (now : ℕ) (s : JobStore) (x : String)
    → IsKeyed s.jobs
    → is_live (find x s.jobs) ≡ true
    → is_live (find x (reap now s).jobs) ≡ true
reap-is_live now s x k h = elim (Option-cases (find x s.jobs)) [
  | inl e ↦ ground (arith, e)
  | inr (j, e) ↦ ground (arith, reap-find now s k x j, e)
]

pub find_phase-delete :
    (x id : String) (ts : List Task)
    → find_phase x (delete_task id ts) ≡ (if str_eq id x then none else find_phase x ts)
unfolding find_phase delete_task
find_phase-delete x id [] = ground arith
find_phase-delete x id (t ∷ ts) =
    ground (arith, find_phase-delete x id ts, eq_iff t.job_id id, eq_iff t.job_id x, eq_iff id x)

-- What a step does to the entry under an id: nothing, or it drops the entry, or the entry was live.
abbrev pub Keeps : Option Job → Option Job → Type 0
Keeps a b = (is_live a ≡ true) ⊎ ((a ≡ none) ⊎ Fades a b)

pub record IsSafe (s t : JobStore) : Type 0 where
  pub links : IsLinked t
  pub keeps : (x : String) → Keeps (find x s.jobs) (find x t.jobs)
  -- a live job stays in the store
  pub stays : (x : String) → is_live (find x s.jobs) ≡ true → is_some (find x t.jobs) ≡ true

same_find : (x id : String) (js : List Job) → str_eq id x ≡ true → find id js ≡ find x js
same_find x id js q = ap (λ y. find y js) ((eq_iff id x).0 q)

subst_find :
    (x id : String) (js : List Job) → find id js ≡ none → str_eq id x ≡ true → find x js ≡ none
subst_find x id js e q = rw (← (eq_iff id x).0 q) e

pub submit-IsSafe :
    (now : ℕ) (id prompt : String) (timeout : ℕ) (s : JobStore)
    → find id s.jobs ≡ none
    → find_phase id s.tasks ≡ none
    → IsLinked s
    → IsSafe s (submit now id prompt timeout s).0
unfolding submit new_job reap
submit-IsSafe now id prompt timeout s e f h = record {
  links = record {
    keyed = put-IsKeyed _ (reap now s).jobs (reap-IsKeyed now s h.keyed);
    linked = λ x a. ground (
      arith,
      find-put x (new_job now id prompt timeout) (reap now s).jobs,
      find_phase-put x (record { job_id = id; phase = scheduled }) s.tasks,
      h.linked x,
      reap-is_live now s x h.keyed,
    );
  };
  keeps = λ x. ground (
    arith,
    find-put x (new_job now id prompt timeout) (reap now s).jobs,
    reap-Fades now s x h.keyed,
    subst_find x id s.jobs e,
    eq_iff id x,
  );
  stays = λ x a. ground (
    arith,
    find-put x (new_job now id prompt timeout) (reap now s).jobs,
    reap-is_live now s x h.keyed a,
  );
}

write-IsSafe :
    (id : String) (f : Job → Job) (s : JobStore)
    → ((j : Job) → (f j).id ≡ j.id)
    → is_live (find id s.jobs) ≡ true
    → IsLinked s
    → IsSafe s (record s {
      jobs = modify id f s.jobs;
      tasks = put_task (record { job_id = id; phase = over }) s.tasks;
    })
write-IsSafe id f s g e h = record {
  links = record {
    keyed = λ x. omega (arith, modify-weigh x id f s.jobs g, h.keyed x);
    linked = λ x a. ground (
      arith,
      find-modify x id f s.jobs g,
      find_phase-put x (record { job_id = id; phase = over }) s.tasks,
      h.linked x,
    );
  };
  keeps = λ x. ground (arith, find-modify x id f s.jobs g, eq_iff id x, same_find x id s.jobs);
  stays = λ x a. ground (arith, find-modify x id f s.jobs g);
}

pub same_phase :
    (x id : String) (ts : List Task) → str_eq id x ≡ true → find_phase id ts ≡ find_phase x ts
same_phase x id ts q = ap (λ y. find_phase y ts) ((eq_iff id x).0 q)

-- The same for a write to the job alone, when no task of it is left.
pub revoke-IsSafe :
    (now : ℕ) (id : String) (s : JobStore)
    → is_live (find id s.jobs) ≡ true
    → is_active (find_phase id s.tasks) ≡ false
    → IsLinked s
    → IsSafe s (record s { jobs = modify id (revoke now) s.jobs })
unfolding finish
revoke-IsSafe now id s e f h = record {
  links = record {
    keyed = λ x. omega (arith, modify-weigh x id (revoke now) s.jobs (λ j. refl), h.keyed x);
    linked = λ x a. ground (
      arith,
      find-modify x id (revoke now) s.jobs (λ j. refl),
      h.linked x a,
      eq_iff id x,
      same_phase x id s.tasks,
    );
  };
  keeps =
      λ x. ground (arith, find-modify x id (revoke now) s.jobs (λ j. refl), same_find x id s.jobs);
  stays = λ x a. ground (arith, find-modify x id (revoke now) s.jobs (λ j. refl));
}

-- A step that writes only to tasks, and makes none active that was not.
pub tasks-IsSafe :
    (ts : List Task) (s : JobStore)
    → ((x : String) → is_active (find_phase x ts) ≡ true → is_active (find_phase x s.tasks) ≡ true)
    → IsLinked s
    → IsSafe s (record s { tasks = ts })
tasks-IsSafe ts s a h = record {
  links = record { keyed = h.keyed; linked = λ x e. h.linked x (a x e) };
  keeps = λ x. inr (inr (inl refl));
  stays = λ x e. ground arith;
}

pub same-IsSafe : (s : JobStore) → IsLinked s → IsSafe s s
same-IsSafe s h = tasks-IsSafe s.tasks s (λ x e. e) h

pub end-IsSafe :
    (now : ℕ) (id : String) (r : Result Outcome) (s : JobStore)
    → is_active (find_phase id s.tasks) ≡ true
    → IsLinked s
    → IsSafe s (end_task now id r s)
unfolding end_task
end-IsSafe now id r s a h = write-IsSafe id (conclude now r) s (conclude-id now r) (h.linked id a) h

pub cancel_task-IsSafe :
    (now : ℕ) (id : String) (phase : Phase) (s : JobStore)
    → find_phase id s.tasks ≡ some phase
    → IsLinked s
    → IsSafe s (cancel_task now id phase s)
unfolding cancel_task
cancel_task-IsSafe now id scheduled s e h =
    tasks-IsSafe _ s
      (λ x a. ground (arith, find_phase-put x (record { job_id = id; phase = over }) s.tasks)) h
cancel_task-IsSafe now id executing s e h = end-IsSafe now id (raise cancelled) s (rw e) h
cancel_task-IsSafe now id over s e h = same-IsSafe s h

is_some_of_live : (o : Option Job) → is_live o ≡ true → is_some o ≡ true
is_some_of_live none e = e
is_some_of_live (some j) e = refl

pub reap-IsSafe : (now : ℕ) (s : JobStore) → IsLinked s → IsSafe s (reap now s)
unfolding reap
reap-IsSafe now s h = record {
  links = record {
    keyed = reap-IsKeyed now s h.keyed;
    linked = λ x a. reap-is_live now s x h.keyed (h.linked x a);
  };
  keeps = λ x. inr (inr (reap-Fades now s x h.keyed));
  stays = λ x a. is_some_of_live _ (reap-is_live now s x h.keyed a);
}
