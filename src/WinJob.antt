-- ===== src/WinJob.antt =====
-- src/claude_pool/winjob.py, with start(), is_alive() and kill() of src/claude_pool/worker.py. The calls of
-- the operating system (pywin32, and asyncio's subprocesses) are the operations of a Host, which
-- change its state. An integer of flags is given by its bits; the pipes and the creation flags of a
-- process are left to the operation `spawn`.
pub mod Closing
pub mod Strays
use claude_code_cli_local_ga.Prelude.{
  ℕ, String, Bool, true, false, not, Option, none, some, List, [], ◌∷◌, ◌==◌, if◌then◌else◌,
}
use claude_code_cli_local_ga.Exn.{Exn, Result, ok, raise}
use claude_code_cli_local_ga.Config.{PoolConfig}
use claude_code_cli_local_ga.Worker.{build_argv}

pub record Host {ℓ} (H : Type ℓ) : Type ℓ where
  -- CreateJobObject, QueryInformationJobObject and SetInformationJobObject, the two with the
  -- LimitFlags of the basic limits
  pub create_job : H → Result ℕ × H
  pub query_limits : ℕ → H → Result (ℕ → Bool) × H
  pub set_limits : ℕ → (ℕ → Bool) → H → Result (Unit {0}) × H
  -- OpenProcess, AssignProcessToJobObject, and Close of a handle
  pub open_process : ℕ → H → Result ℕ × H
  pub assign : ℕ → ℕ → H → Result (Unit {0}) × H
  pub close : ℕ → H → H
  -- create_subprocess_exec with the command line and the directory; `returncode is not None`; kill()
  -- with the wait() behind it
  pub spawn : List String → String → H → Result ℕ × H
  pub has_ended : ℕ → H → Bool
  pub terminate : ℕ → H → H

-- A call that goes on with the next if it does not raise.
infixl 5 ◌>>>◌
abbrev pub ◌>>>◌ {ℓ} :
    {H : Type ℓ} {A B : Type 0} → Result A × H → (A → H → Result B × H) → Result B × H
(ok a, h) >>> f = f a h
(raise e, h) >>> f = (raise e, h)

-- `flags | (1 << bit)`
abbrev pub with_bit : ℕ → (ℕ → Bool) → ℕ → Bool
with_bit bit flags n = if n == bit then true else flags n

-- A Worker object: its process, if start() has come so far.
pub record Process : Type 0 where
  pub proc : Option ℕ
  pub became_idle_at : ℕ

abbrev pub unstarted : Process
unstarted = record { proc = none; became_idle_at = 0 }

module _ {ℓ} {H : Type ℓ} (host : Host H) where
  -- The rest of create_kill_on_close_job, for a new job
  abbrev limited : ℕ → ℕ → H → Result (Option ℕ) × H
  limited kill_bit job h = host.query_limits job h >>> (λ flags g.
      host.set_limits job (with_bit kill_bit flags) g >>> (λ _ k. (ok (some job), k)))

  unfoldable pub create_kill_on_close_job : Bool → ℕ → H → Result (Option ℕ) × H
  create_kill_on_close_job windows kill_bit h =
      if not windows then (ok none, h) else host.create_job h >>> limited kill_bit

  -- The `try` with its `finally`
  abbrev assign_closing : ℕ → ℕ → H → Result (Unit {0}) × H
  assign_closing job handle h = let (r, g) = host.assign job handle h in (r, host.close handle g)

  unfoldable pub assign_process_to_job : Option ℕ → ℕ → H → Result (Unit {0}) × H
  assign_process_to_job none pid h = (ok tt, h)
  assign_process_to_job (some job) pid h = host.open_process pid h >>> assign_closing job

  -- start(), of a worker of the pool with this job; `claude_cmd` as a list of texts
  unfoldable pub start : Option ℕ → List String → PoolConfig → ℕ → H → Result Process × H
  unfolding assign_process_to_job build_argv
  start job claude_cmd config now h =
      host.spawn (build_argv claude_cmd config.model) config.scratch_dir h >>> (λ pid g.
        assign_process_to_job job pid g
        >>> (λ _ k. (ok (record { proc = some pid; became_idle_at = now }), k)))

  unfoldable pub is_alive : Process → H → Bool
  is_alive w h = elim w.proc [ none ↦ false | some pid ↦ not (host.has_ended pid h) ]

  unfoldable pub kill : Process → H → H
  kill w h = elim w.proc [
    | none ↦ h
    | some pid ↦ if host.has_ended pid h then h else host.terminate pid h
  ]
