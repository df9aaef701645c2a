-- ===== src/Jobs/Lookup.antt =====
-- What the writes of src/claude_pool/jobs.py to its two dicts do to a lookup.
use claude_code_cli_local_ga.Prelude.{
  ◌-◌, ℕ, ◌≡◌, refl, String, Option, none, some, List, [], ◌∷◌, arith, str_eq, eq_iff,
  if◌then◌else◌, weigh, ◌⊎◌, inl, length, take,
}
use claude_code_cli_local_ga.Jobs.{
  Job, JobStore, Task, delete, delete_all, drop_expired, find, find_phase, put, put_task, modify,
  reap, sort_onto, terminals, finished_key,
}
use claude_code_cli_local_ga.Jobs.Table.{has_id, delete-le, drop_expired-le}
use claude_code_cli_local_ga.Jobs.Reaping.{IsKeyed}

pub find-put :
    (x : String) (j : Job) (js : List Job)
    → find x (put j js) ≡ (if str_eq j.id x then some j else find x js)
unfolding find put
find-put x j [] = refl
find-put x j (k ∷ ks) =
    ground (arith, find-put x j ks, eq_iff k.id j.id, eq_iff k.id x, eq_iff j.id x)

pub find_phase-put :
    (x : String) (t : Task) (ts : List Task)
    → find_phase x (put_task t ts) ≡ (if str_eq t.job_id x then some t.phase else find_phase x ts)
unfolding find_phase put_task
find_phase-put x t [] = refl
find_phase-put x t (u ∷ us) =
    ground
      (arith, find_phase-put x t us, eq_iff u.job_id t.job_id, eq_iff u.job_id x, eq_iff t.job_id x)

abbrev pub map_job : (Job → Job) → Option Job → Option Job
map_job f none = none
map_job f (some j) = some (f j)

pub find-modify :
    (x id : String) (f : Job → Job) (js : List Job)
    → ((j : Job) → (f j).id ≡ j.id)
    → find x (modify id f js) ≡ (if str_eq id x then map_job f (find x js) else find x js)
unfolding find modify
find-modify x id f [] h = ground arith
find-modify x id f (j ∷ js) h =
    ground (arith, find-modify x id f js h, eq_iff j.id id, eq_iff j.id x, eq_iff id x, h j)

-- The second lookup is the first, or finds nothing.
abbrev pub Fades : Option Job → Option Job → Type 0
Fades a b = (b ≡ a) ⊎ (b ≡ none)

find-none : (x : String) (js : List Job) → weigh (has_id x) js ≡ 0 → find x js ≡ none
unfolding find
find-none x [] h = refl
find-none x (j ∷ js) h = ground (arith, find-none x js)

drop_expired-Fades :
    (now retention : ℕ) (x : String) (js : List Job)
    → IsKeyed js
    → Fades (find x js) (find x (drop_expired now retention js))
unfolding find drop_expired
drop_expired-Fades now retention x [] k = inl refl
drop_expired-Fades now retention x (j ∷ js) k =
    ground
      (arith, drop_expired-Fades now retention x js (λ y. omega (arith, k y)), find-none x js, k x)

delete-Fades :
    (x id : String) (js : List Job) → IsKeyed js → Fades (find x js) (find x (delete id js))
unfolding find delete
delete-Fades x id [] k = inl refl
delete-Fades x id (j ∷ js) k =
    ground (arith, delete-Fades x id js (λ y. omega (arith, k y)), find-none x js, k x)

Fades-trans : (a b c : Option Job) → Fades a b → Fades b c → Fades a c
Fades-trans a b c h k = ground arith

pub delete_all-Fades :
    (x : String) (fs js : List Job) → IsKeyed js → Fades (find x js) (find x (delete_all fs js))
unfolding delete_all
delete_all-Fades x [] js k = inl refl
delete_all-Fades x (f ∷ fs) js k =
    Fades-trans _ (find x (delete f.id js)) _ (delete-Fades x f.id js k) (
      delete_all-Fades x fs (delete f.id js)
        (λ y. omega (arith, k y, delete-le (has_id y) f.id js)))

-- _reap changes no entry: each is as it was, or gone.
pub reap-Fades :
    (now : ℕ) (s : JobStore) (x : String)
    → IsKeyed s.jobs
    → Fades (find x s.jobs) (find x (reap now s).jobs)
unfolding reap
reap-Fades now s x k =
    let kept = drop_expired now s.retention_sec s.jobs in
    Fades-trans _ (find x kept) _ (drop_expired-Fades now s.retention_sec x s.jobs k) (
      delete_all-Fades x
        (take (length kept - s.max_jobs) (sort_onto finished_key [] (terminals kept))) kept
        (λ y. omega (arith, k y, drop_expired-le (has_id y) now s.retention_sec s.jobs)))
