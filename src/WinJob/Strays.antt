-- ===== src/WinJob/Strays.antt =====
-- What start() of src/claude_pool/worker.py leaves behind when the new process cannot be assigned to
-- the job.
use claude_code_cli_local_ga.WinJob.{assign_closing, ◌>>>◌, Host, assign_process_to_job, start}
use claude_code_cli_local_ga.Prelude.{
  Option, ℕ, String, Bool, true, some, List, ◌≡◌, ap, subst, none, ◌∙◌,
}
use claude_code_cli_local_ga.Exn.{Exn, Result, ok, raise}
use claude_code_cli_local_ga.Config.{PoolConfig}
use claude_code_cli_local_ga.Worker.{build_argv}

module _ {ℓ} {H : Type ℓ} (host : Host H) (running : H → ℕ → Bool) where
  -- Handles and jobs end no process.
  record EndsNone : Type ℓ where
    open_keeps :
        (handle pid : ℕ) (h : H)
        → running h pid ≡ true
        → running (host.open_process handle h).1 pid ≡ true
    assign_keeps :
        (job handle pid : ℕ) (h : H)
        → running h pid ≡ true
        → running (host.assign job handle h).1 pid ≡ true
    close_keeps :
        (handle pid : ℕ) (h : H) → running h pid ≡ true → running (host.close handle h) pid ≡ true

  module _ (ends_none : EndsNone) where
    opened-running :
        (job pid : ℕ) (x : Result ℕ × H)
        → running x.1 pid ≡ true
        → running (x >>> assign_closing host job).1 pid ≡ true
    opened-running job pid (ok handle, g) e =
        ends_none.close_keeps handle pid (host.assign job handle g).1
          (ends_none.assign_keeps job handle pid g e)
    opened-running job pid (raise x, g) e = e

    assign_process_to_job-running :
        (job : Option ℕ) (pid : ℕ) (h : H)
        → running h pid ≡ true
        → running (assign_process_to_job host job pid h).1 pid ≡ true
    unfolding assign_process_to_job
    assign_process_to_job-running none pid h e = e
    assign_process_to_job-running (some job) pid h e =
        opened-running job pid (host.open_process pid h) (ends_none.open_keeps pid pid h e)

    -- When the operating system has started the process of a worker and then refuses to assign it to
    -- the job, start() raises what the assignment raised, and leaves the process running. Conditions:
    -- the new process runs, and calls on handles and jobs end no process.
    start_stray :
        (job : Option ℕ) (cmd : List String) (config : PoolConfig) (now pid : ℕ) (h g k : H)
        (e : Exn)
        → host.spawn (build_argv cmd config.model) config.scratch_dir h ≡ (ok pid, g)
        → running g pid ≡ true
        → assign_process_to_job host job pid g ≡ (raise e, k)
        → (start host job cmd config now h ≡ (raise e, k)) × (running k pid ≡ true)
    unfolding start
    start_stray job cmd config now pid h g k e spawned runs refused = (
      ap
            (λ x. x >>> (λ pid' g'.
              assign_process_to_job host job pid' g'
              >>> (λ _ k'. (ok (record { proc = some pid'; became_idle_at = now }), k'))))
            spawned
          ∙ ap (λ x. x >>> (λ _ k'. (ok (record { proc = some pid; became_idle_at = now }), k')))
              refused,
      subst (λ x. running x.1 pid ≡ true) refused (assign_process_to_job-running job pid g runs),
    )
