-- ===== src/Jobs/Reaping.antt =====
-- _reap of src/claude_pool/jobs.py: what it keeps, and how much.
use claude_code_cli_local_ga.Prelude.{
  ℕ, ◌+◌, ◌-◌, ◌≤◌, max, ◌≡◌, refl, String, false, some, List, [], ◌∷◌, arith, eq_iff, length,
  weigh, take, length-take,
}
use claude_code_cli_local_ga.Jobs.{
  Job, JobStore, delete, delete_all, sort_onto, terminals, drop_expired, is_terminal, find, reap,
  finished_key,
}
use claude_code_cli_local_ga.Jobs.Table.{
  has_id, runs_as, ends_as, runs, delete-le, sort_onto-weigh, drop_expired-le, take-le,
  drop_expired-runs, terminals-length, delete-has_id, delete-length, delete-runs_as, runs-ends,
  terminals-ends, drop_expired-find, delete-find,
}

-- A dict has one entry for a key.
abbrev pub IsKeyed : List Job → Type 0
IsKeyed js = (id : String) → weigh (has_id id) js ≤ 1

-- Each of `fs` is a finished job of `js`.
abbrev pub AreEnded : List Job → List Job → Type 0
AreEnded fs js = (x : String) → weigh (has_id x) fs ≤ weigh (ends_as x) js

module _ (f : Job) (fs js : List Job) (keyed : IsKeyed js) (ended : AreEnded (f ∷ fs) js) where
  has_id_self : has_id f.id f ≡ 1
  has_id_self = ground (arith, eq_iff f.id f.id)

  head_quiet : weigh (runs_as f.id) js ≡ 0
  head_quiet = omega (arith, has_id_self, runs-ends f.id js, keyed f.id, ended f.id)

  pub head_there : 1 ≤ weigh (has_id f.id) js
  head_there = omega (arith, has_id_self, runs-ends f.id js, ended f.id)

  pub rest-IsKeyed : IsKeyed (delete f.id js)
  rest-IsKeyed x = omega (arith, keyed x, delete-le (has_id x) f.id js)

  pub rest_ended : AreEnded fs (delete f.id js)
  rest_ended x = omega (
    arith,
    ended x,
    runs-ends x js,
    runs-ends x (delete f.id js),
    delete-runs_as x f.id js head_quiet,
    delete-has_id x f.id js head_there,
  )

delete_all-length :
    (fs js : List Job)
    → IsKeyed js
    → AreEnded fs js
    → length (delete_all fs js) + length fs ≡ length js
unfolding delete_all
delete_all-length [] js k e = omega arith
delete_all-length (f ∷ fs) js k e = omega (
  arith,
  delete_all-length fs (delete f.id js) (rest-IsKeyed f fs js k e) (rest_ended f fs js k e),
  delete-length f.id js (head_there f fs js k e),
)

delete_all-find :
    (fs js : List Job) (x : String) (j : Job)
    → IsKeyed js
    → AreEnded fs js
    → find x js ≡ some j
    → is_terminal j ≡ false
    → find x (delete_all fs js) ≡ some j
unfolding delete_all
delete_all-find [] js x j k e h r = h
delete_all-find (f ∷ fs) js x j k e h r =
    delete_all-find fs (delete f.id js) x j (rest-IsKeyed f fs js k e) (rest_ended f fs js k e)
      (delete-find x f.id js j (head_quiet f fs js k e) h r) r

delete_all-le : (g : Job → ℕ) (fs js : List Job) → weigh g (delete_all fs js) ≤ weigh g js
unfolding delete_all
delete_all-le g [] js = omega arith
delete_all-le g (f ∷ fs) js =
    omega (arith, delete_all-le g fs (delete f.id js), delete-le g f.id js)

weigh-length : (js : List Job) → weigh (λ _. 1) js ≡ length js
weigh-length [] = refl
weigh-length (j ∷ js) = omega (arith, weigh-length js)

module _ (now : ℕ) (s : JobStore) (keyed : IsKeyed s.jobs) where
  abbrev pub kept : List Job
  kept = drop_expired now s.retention_sec s.jobs

  abbrev pub doomed : List Job
  doomed = take (length kept - s.max_jobs) (sort_onto finished_key [] (terminals kept))

  pub kept-IsKeyed : IsKeyed kept
  kept-IsKeyed x = omega (arith, keyed x, drop_expired-le (has_id x) now s.retention_sec s.jobs)

  pub doomed_ended : AreEnded doomed kept
  doomed_ended x = omega (
    arith,
    take-le (has_id x) (length kept - s.max_jobs) (sort_onto finished_key [] (terminals kept)),
    sort_onto-weigh (has_id x) finished_key [] (terminals kept),
    terminals-ends x kept,
  )

  pub reap-find :
      (x : String) (j : Job)
      → find x s.jobs ≡ some j
      → is_terminal j ≡ false
      → find x (reap now s).jobs ≡ some j
  unfolding reap
  reap-find x j h r =
      delete_all-find doomed kept x j kept-IsKeyed doomed_ended
        (drop_expired-find now s.retention_sec x s.jobs j h r) r

  -- If no two jobs of the store have one id, at most `max_jobs` jobs stay after reaping, or as many
  -- as there were unfinished ones if these are more.
  pub reap_bound : length (reap now s).jobs ≤ max s.max_jobs (weigh runs s.jobs)
  unfolding reap
  reap_bound = omega (
    arith,
    delete_all-length doomed kept kept-IsKeyed doomed_ended,
    length-take (length kept - s.max_jobs) (sort_onto finished_key [] (terminals kept)),
    sort_onto-weigh (λ _. 1) finished_key [] (terminals kept),
    weigh-length (sort_onto finished_key [] (terminals kept)),
    weigh-length (terminals kept),
    terminals-length kept,
    drop_expired-runs now s.retention_sec s.jobs,
  )

  pub reap-IsKeyed : IsKeyed (reap now s).jobs
  unfolding reap
  reap-IsKeyed x = omega (arith, kept-IsKeyed x, delete_all-le (has_id x) doomed kept)
