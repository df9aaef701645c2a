-- ===== src/Jobs/Submission.antt =====
-- submit() in src/claude_pool/jobs.py: the new job is there, unfinished, and the store stays bounded.
use claude_code_cli_local_ga.Prelude.{
  ℕ, suc, ◌≤◌, max, ◌≡◌, String, some, arith, eq_iff, List, [], ◌∷◌, length, weigh,
}
use claude_code_cli_local_ga.Jobs.{JobStore, Job, find, put, submit, new_job, reap}
use claude_code_cli_local_ga.Jobs.Table.{runs}
use claude_code_cli_local_ga.Jobs.Lookup.{find-put}
use claude_code_cli_local_ga.Jobs.Reaping.{IsKeyed, reap_bound}

length-put : (j : Job) (js : List Job) → length (put j js) ≤ suc (length js)
unfolding put
length-put j [] = omega arith
length-put j (k ∷ ks) = ground (arith, length-put j ks)

-- If no two jobs of the store have one id: the submitted job is found under its id as it was
-- answered, and the store holds at most one job more
-- than `max_jobs`, or than there were unfinished jobs before if these are more.
pub submit_lem :
    (now : ℕ) (id prompt : String) (timeout : ℕ) (s : JobStore)
    → IsKeyed s.jobs
    → let (t, job) = submit now id prompt timeout s in
      (find id t.jobs ≡ some job) × (length t.jobs ≤ suc (max s.max_jobs (weigh runs s.jobs)))
unfolding submit new_job
submit_lem now id prompt timeout s k = (
  ground (arith, find-put id (new_job now id prompt timeout) (reap now s).jobs, eq_iff id id),
  omega (arith, length-put (new_job now id prompt timeout) (reap now s).jobs, reap_bound now s k),
)
