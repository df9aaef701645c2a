-- ===== src/Client/Calls/Background.antt =====
-- A prompt as a background job and as a blocking request: src/claude_pool/client.py, server.py, jobs.py and
-- runner.py together.
use claude_code_cli_local_ga.Prelude.{
  if◌then◌else◌, ℕ, String, Bool, true, false, Option, none, some, List, ◌∷◌, ◌++◌, ◌≡◌, refl, ap,
  ◌∙◌, inl, inr, All, str_eq, eq_iff, arith,
}
use claude_code_cli_local_ga.Exn.{Result, ok, raise, Returns}
use claude_code_cli_local_ga.Json.{Json, obj, Fields}
use claude_code_cli_local_ga.Worker.{Turn}
use claude_code_cli_local_ga.Pool.{Pool, Worker}
use claude_code_cli_local_ga.Runner.{Outcome, execute}
use claude_code_cli_local_ga.Jobs.{
  Job, JobStore, find, submit, new_job, begin_task, end_task, conclude, finish, get, is_terminal,
}
use claude_code_cli_local_ga.Jobs.Lookup.{find-modify, map_job}
use claude_code_cli_local_ga.Jobs.Reaping.{IsKeyed}
use claude_code_cli_local_ga.Jobs.Report.{to_dict}
use claude_code_cli_local_ga.Jobs.Submission.{submit_lem}
use claude_code_cli_local_ga.Server.Answers.{handle_get_job, job_response, handle_generate}
use claude_code_cli_local_ga.Client.{prompt_payload, Waited, returned, raised, missing, wait}
use claude_code_cli_local_ga.Client.Waiting.{IsEarly, polled, meaning, wait-meaning}
use claude_code_cli_local_ga.Client.Calls.{Called, gave, denied, lacked, generate}
use claude_code_cli_local_ga.Client.Calls.EndToEnd.{IsTold, generate-IsTold}

-- How wait() would end as generate() does.
abbrev pub as_waited : Called Json → Waited
as_waited (gave v) = returned v
as_waited (denied e) = raised e
as_waited (lacked k) = missing k

-- A job whose task has run from its first step to the end of execute()
abbrev pub completed : ℕ → ℕ → String → String → ℕ → Outcome → JobStore → JobStore
completed now done id prompt timeout o s =
    end_task done id (ok o) (begin_task id (submit now id prompt timeout s).0)

conclude-id : (done : ℕ) (o : Outcome) (j : Job) → (conclude done (ok o) j).id ≡ j.id
unfolding conclude finish
conclude-id done o j = ground arith

same_id :
    (id : String) (f : Job → Job) (found : Option Job)
    → (if str_eq id id then map_job f found else found) ≡ map_job f found
same_id id f found = rw ((eq_iff id id).1 refl) refl

completed_job :
    (now done : ℕ) (id prompt : String) (timeout : ℕ) (o : Outcome) (s : JobStore)
    → IsKeyed s.jobs
    → find id (completed now done id prompt timeout o s).jobs
      ≡ some (conclude done (ok o) (new_job now id prompt timeout))
unfolding end_task begin_task submit
completed_job now done id prompt timeout o s k =
    find-modify id id (conclude done (ok o)) (submit now id prompt timeout s).0.jobs
      (conclude-id done o)
    ∙ same_id id (conclude done (ok o)) (find id (submit now id prompt timeout s).0.jobs)
    ∙ ap (map_job (conclude done (ok o))) (submit_lem now id prompt timeout s k).0

conclude_ends : (done : ℕ) (o : Outcome) (j : Job) → is_terminal (conclude done (ok o) j) ≡ true
unfolding conclude finish
conclude_ends done o j = ground arith

-- A finished job means what the caller of generate() is told.
meaning-told :
    (done : ℕ) (o : Outcome) (j : Job) (c : Called Json)
    → IsTold o c
    → meaning (conclude done (ok o) j).status (conclude done (ok o) j) ≡ as_waited c
unfolding conclude finish
meaning-told done o j c (inl (e, told)) = rw (e, told) refl
meaning-told done o j c (inr (f, e, why, told)) = rw (e, why, told) refl

Returns-map :
    {A : Type 0} (r : Result A) (P Q : A → Type 0)
    → ((a : A) → P a → Q a)
    → Returns r P
    → Returns r Q
Returns-map (ok a) P Q f h = f a h
Returns-map (raise e) P Q f h = h

module _ (digits : String → Option ℕ) (shown : ℕ → String) (blank : digits "" ≡ none)
    (read : (n : ℕ) → digits (shown n) ≡ some n) where
  -- A prompt that is not empty, for whatever outcome execute() returns: a caller that submits it as a
  -- background job and waits, however often it has polled the job while it ran and before its
  -- deadline, is returned or raised by wait(), at its first poll after the job's end, exactly what
  -- generate() returns or raises to a caller that sends the prompt in a blocking request. The
  -- conditions: no two jobs of the store have one id, and nothing else is done to the store
  -- meanwhile; a number's text is read back, and "" is no number.
  pub wait-generate :
      (to_float : String → Option ℕ) (p : Pool) (prompt : String) (timeout : Option ℕ)
      (acquired : Result Worker) (ran : Result Turn) (cut : Bool) (o : Outcome)
      (late : Json → String) (deadline : Option ℕ) (now done seen limit_sec : ℕ) (id : String)
      (s : JobStore) (before : List (ℕ × Job)) (after : List (ℕ × Fields))
      → str_eq prompt "" ≡ false
      → (execute p acquired ran cut).result ≡ ok o
      → IsKeyed s.jobs
      → All (IsEarly deadline) before
      → Returns
          (handle_generate to_float shown p
            (some (obj (prompt_payload prompt timeout)))
            acquired
            ran
            cut).result
          (λ r.
            wait late deadline (
              polled before
              ++ (seen, (handle_get_job id (completed now done id prompt limit_sec o s)).body)
                ∷ after)
            ≡ as_waited (generate digits shown r))
  unfolding handle_get_job get
  wait-generate to_float p prompt timeout acquired ran cut o late deadline now done seen limit_sec
        id s before after filled ran_to keyed early =
      let job = conclude done (ok o) (new_job now id prompt limit_sec) in
      let polls : Fields → List (ℕ × Fields) = λ body. polled before ++ (seen, body) ∷ after in
      let waited : wait late deadline (polls (to_dict job)) ≡ meaning job.status job =
        wait-meaning late deadline before seen job after early
          (conclude_ends done o (new_job now id prompt limit_sec)) in
      let shown_job =
        ap (λ j. wait late deadline (polls (job_response j).body))
          (completed_job now done id prompt limit_sec o s keyed) in
      Returns-map _ (λ r. IsTold o (generate digits shown r)) _
        (λ r told.
          shown_job ∙ waited ∙ meaning-told done o (new_job now id prompt limit_sec) _ told)
        (generate-IsTold digits shown blank read to_float p prompt timeout acquired ran cut o filled
          ran_to)
