-- ===== src/Server/Jobs.antt =====
-- The job handlers of src/claude_pool/server.py, one after the other.
use claude_code_cli_local_ga.Prelude.{ℕ, String, text_append, Option, some, ◌≡◌, refl, ap}
use claude_code_cli_local_ga.Json.{Json, str, get_or, null}
use claude_code_cli_local_ga.Jobs.{JobStore, submit, new_job, get}
use claude_code_cli_local_ga.Jobs.Reaping.{IsKeyed}
use claude_code_cli_local_ga.Jobs.Report.{to_dict}
use claude_code_cli_local_ga.Jobs.Submission.{submit_lem}
use claude_code_cli_local_ga.Server.{accepted, read_prompt_request, json_response}
use claude_code_cli_local_ga.Server.Answers.{
  handle_submit_job, submit_prompt, handle_get_job, job_response, add_field,
}

-- If no two jobs of the store have one id, a prompt that POST /jobs accepts is answered with the
-- status 202, the job's id and its location, and GET of that id then answers with the new job.
pub submit-get :
    (to_float : String → Option ℕ) (default now : ℕ) (id prompt : String) (timeout : ℕ)
    (body : Option Json) (s : JobStore)
    → IsKeyed s.jobs
    → read_prompt_request to_float default body ≡ accepted prompt timeout
    → let (t, answer) = handle_submit_job to_float default now id body s in
      (answer.status ≡ 202)
      × (answer.location ≡ some (text_append "/jobs/" id))
      × (get_or "job_id" null answer.body ≡ str id)
      × (handle_get_job id t ≡ json_response 200 (to_dict (new_job now id prompt timeout)))
unfolding handle_submit_job submit_prompt handle_get_job get submit new_job add_field to_dict get_or
submit-get to_float default now id prompt timeout body s k e =
    rw e (refl, refl, refl, ap job_response (submit_lem now id prompt timeout s k).0)
