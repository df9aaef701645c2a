-- ===== src/Tests/JobTests.antt =====
-- One job from its submission to its end, with src/claude_pool/jobs.py as modelled in Jobs.
use claude_code_cli_local_ga.Jobs.Reaping.{IsKeyed}
use claude_code_cli_local_ga.Jobs.{
  conclude, is_terminal, list_jobs, Job, JobStore, find, find_phase, put, put_task, submit, new_job,
  begin_task, end_task, callback, cancel, revoke, reap, delete_task, drop_expired, delete_all,
  terminals, sort_onto,
}
use claude_code_cli_local_ga.JobTable.{
  delete, insert_by, modify, finished_key, is_expired, is_terminal,
}
use claude_code_cli_local_ga.Prelude.{true, ℕ, false, suc, ◌≤◌, max, ◌≡◌, refl, some, weigh, length}
use claude_code_cli_local_ga.Jobs.Listing.{list_jobs_lem, IsDescending, keyed_at}
use claude_code_cli_local_ga.Jobs.Abstract.{Changes, history-Changes}
use claude_code_cli_local_ga.Jobs.Lives.{is_active, IsSafe}
use claude_code_cli_local_ga.Json.{str, num}
use claude_code_cli_local_ga.Exn.{ok}
use claude_code_cli_local_ga.Runner.{success}
use claude_code_cli_local_ga.Jobs.Table.{runs}
use claude_code_cli_local_ga.Jobs.Eviction.{reap_order}
use claude_code_cli_local_ga.Jobs.History.{
  Step, Reach, here, next, submits, begins, ends, empty_store, history-IsSafe, Reach-IsLinked,
}
use claude_code_cli_local_ga.Jobs.Cancelling.{cancel_lem, IsKept}
use claude_code_cli_local_ga.Jobs.Submission.{submit_lem}

abbrev store : JobStore
store = empty_store 600 1

abbrev queued : JobStore
queued = (submit 10 "a" "hello" 120 store).0

abbrev pub busy : JobStore
busy = begin_task "a" queued

abbrev pub done : JobStore
done = end_task 20 "a" (ok (success (str "hi") (num 5))) busy

abbrev job : Job
job = new_job 10 "a" "hello" 120

to_queued : Reach store queued
unfolding find find_phase
to_queued = next here (submits 10 "a" "hello" 120 refl refl)

pub to_busy : Reach store busy
unfolding submit find_phase reap
to_busy = next to_queued (begins "a" refl)

finishing : Step busy done
unfolding submit begin_task find_phase reap
finishing = ends 20 "a" (ok (success (str "hi") (num 5))) refl

history-IsSafe_example : IsSafe busy done
history-IsSafe_example = history-IsSafe 600 1 to_busy finishing

pub busy-IsKeyed : IsKeyed busy.jobs
busy-IsKeyed = (Reach-IsLinked 600 1 to_busy).keyed

submit_lem_example :
    let (t, new) = submit 30 "b" "next" 120 busy in
    (find "b" t.jobs ≡ some new) × (length t.jobs ≤ suc (max 1 (weigh runs busy.jobs)))
unfolding begin_task submit reap
submit_lem_example = submit_lem 30 "b" "next" 120 busy busy-IsKeyed

-- A second job is over as well, in a store for one.
abbrev following : JobStore
following = begin_task "b" (submit 21 "b" "next" 120 done).0

abbrev crowded : JobStore
crowded = end_task 25 "b" (ok (success (str "ho") (num 5))) following

to_done : Reach store done
to_done = next to_busy finishing

to_following : Reach store following
unfolding submit reap begin_task end_task find find_phase put put_task modify drop_expired
    is_expired terminals sort_onto insert_by delete_all delete conclude new_job
to_following = next (next to_done (submits 21 "b" "next" 120 refl refl)) (begins "b" refl)

to_crowded : Reach store crowded
unfolding submit reap begin_task end_task find find_phase put put_task modify drop_expired
    is_expired terminals sort_onto insert_by delete_all delete conclude new_job
to_crowded = next to_following (ends 25 "b" (ok (success (str "ho") (num 5))) refl)

abbrev first_done : Job
first_done = conclude 20 (ok (success (str "hi") (num 5))) job

abbrev second_done : Job
second_done = conclude 25 (ok (success (str "ho") (num 5))) (new_job 21 "b" "next" 120)

reap_order_example :
    (is_terminal first_done ≡ true) × (finished_key first_done ≤ finished_key second_done)
unfolding submit reap begin_task end_task find find_phase put put_task modify drop_expired
    is_expired terminals sort_onto insert_by delete_all delete conclude new_job
reap_order_example =
    reap_order 30 crowded (Reach-IsLinked 600 1 to_crowded).keyed "a" "b" first_done second_done
      refl refl refl refl refl

-- The task is over and has had its callback; the job runs by its status.
abbrev stranded : JobStore
stranded = callback "a" (cancel 15 "a" queued).0

stranded_finds : find "a" stranded.jobs ≡ some job
unfolding submit reap drop_expired terminals sort_onto delete_all put find callback cancel
    find_phase put_task
stranded_finds = refl

cancel_lem_example :
    ((cancel 40 "a" stranded).1 ≡ some (revoke 40 job))
    × (is_active (find_phase "a" (cancel 40 "a" stranded).0.tasks) ≡ false)
    × IsKept 40 "a" stranded job stranded_finds (cancel 40 "a" stranded).0 "b"
unfolding submit reap callback cancel find_phase put_task find put drop_expired terminals sort_onto
    delete_all delete_task new_job
cancel_lem_example = cancel_lem 40 "a" stranded job stranded_finds "b" refl

list_jobs_lem_example :
    let (r, js) = list_jobs 30 busy in
    (r ≡ reap 30 busy)
    × IsDescending (λ j. j.created_at) js
    × ((t : ℕ)
        → keyed_at (λ j. j.created_at) t js ≡ keyed_at (λ j. j.created_at) t (reap 30 busy).jobs)
list_jobs_lem_example = list_jobs_lem 30 busy

history-Changes_example : Changes busy done
history-Changes_example = history-Changes 600 1 to_busy finishing
