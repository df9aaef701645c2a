-- ===== src/WinJob/Closing/Ends.antt =====
-- The job of src/claude_pool/winjob.py holds every worker that start() of src/claude_pool/worker.py
-- returned.
use claude_code_cli_local_ga.Prelude.{
  arith, ℕ, String, Bool, true, false, Option, none, some, List, [], ◌∷◌, ◌≡◌, All, if◌then◌else◌,
  ap, subst,
}
use claude_code_cli_local_ga.Exn.{Result, ok, raise}
use claude_code_cli_local_ga.Config.{PoolConfig}
use claude_code_cli_local_ga.Worker.{build_argv}
use claude_code_cli_local_ga.WinJob.{
  Host, Process, with_bit, limited, assign_closing, create_kill_on_close_job, assign_process_to_job,
  start, kill,
}
use claude_code_cli_local_ga.WinJob.Closing.{
  View, Extends, IsWindows, Lives, born, starts, fails, kills, others, EndsWith, IsMember,
  Extends-refl, Extends-trans, bind-Extends, bind-ok,
}

with_bit-set : (bit : ℕ) (flags : ℕ → Bool) → with_bit bit flags bit ≡ true
with_bit-set bit flags = ground arith

module _ {ℓ} {H : Type ℓ} (host : Host H) (view : View H) (kill_bit : ℕ)
    (windows : IsWindows host view kill_bit) where
  -- The outcome of a start, with its worker in the job
  abbrev IsJoined : ℕ → Result Process × H → Type 0
  IsJoined job (ok w, k) = IsMember host view job k w
  IsJoined job (raise _, k) = Unit

  assign_closing-Extends :
      (job handle : ℕ) (h : H) → Extends host view h (assign_closing host job handle h).1
  assign_closing-Extends job handle h =
      Extends-trans host view (windows.assign_keeps job handle h)
        (windows.close_keeps handle (host.assign job handle h).1)

  assign_process_to_job-Extends :
      (job : Option ℕ) (pid : ℕ) (h : H)
      → Extends host view h (assign_process_to_job host job pid h).1
  unfolding assign_process_to_job
  assign_process_to_job-Extends none pid h = Extends-refl host view h
  assign_process_to_job-Extends (some job) pid h =
      bind-Extends host view h (host.open_process pid h) (assign_closing host job)
        (windows.open_keeps pid h) (assign_closing-Extends job)

  start-Extends :
      (job : Option ℕ) (cmd : List String) (config : PoolConfig) (now : ℕ) (h : H)
      → Extends host view h (start host job cmd config now h).1
  unfolding start
  start-Extends job cmd config now h =
      bind-Extends host view h (host.spawn (build_argv cmd config.model) config.scratch_dir h) _
        (windows.spawn_keeps (build_argv cmd config.model) config.scratch_dir h)
        (λ pid g.
          bind-Extends host view g (assign_process_to_job host job pid g) _
            (assign_process_to_job-Extends job pid g) (λ _ k. Extends-refl host view k))

  kill-Extends : (w : Process) (h : H) → Extends host view h (kill host w h)
  unfolding kill
  kill-Extends w h =
      elim w.proc
        as (λ p. Extends host view h (elim p [
          | none ↦ h
          | some pid ↦ if host.has_ended pid h then h else host.terminate pid h
        ])) [
          | none ↦ Extends-refl host view h
          | some pid ↦
              elim (host.has_ended pid h)
                as (λ b. Extends host view h (if b then h else host.terminate pid h)) [
                  | true ↦ Extends-refl host view h
                  | false ↦ windows.terminate_keeps pid h
                ]
        ]

  assign_process_to_job-member :
      (job pid : ℕ) (g k : H)
      → assign_process_to_job host (some job) pid g ≡ (ok tt, k)
      → view.member k job pid ≡ true
  unfolding assign_process_to_job
  assign_process_to_job-member job pid g k e =
      let (handle, f, opened, closed) =
        bind-ok host view (host.open_process pid g) (assign_closing host job) tt k e in
      let result : (host.assign job handle f).0 ≡ ok tt = ap (λ x. x.0) closed in
      let at_end : host.close handle (host.assign job handle f).1 ≡ k = ap (λ x. x.1) closed in
      let joined =
        windows.assigned job handle pid f (host.assign job handle f).1
          (ap (λ r. (r, (host.assign job handle f).1)) result)
          (windows.opened pid handle g f opened) in
      subst (λ x. view.member x job pid ≡ true) at_end
        ((windows.close_keeps handle (host.assign job handle f).1).members job pid joined)

  -- A worker that start() returns is in the job.
  start-IsMember :
      (job : ℕ) (cmd : List String) (config : PoolConfig) (now : ℕ) (h k : H) (w : Process)
      → start host (some job) cmd config now h ≡ (ok w, k)
      → IsMember host view job k w
  unfolding start
  start-IsMember job cmd config now h k w e =
      let (pid, g, _, assigned) =
        bind-ok host view (host.spawn (build_argv cmd config.model) config.scratch_dir h) _ w k e in
      let (_, g', through, done) =
        bind-ok host view (assign_process_to_job host (some job) pid g) _ w k assigned in
      subst (IsJoined job) done (assign_process_to_job-member job pid g g' through)

  -- The workers of a life are in its job, which kills its members when it closes.
  record IsHeld (job : ℕ) (h : H) (ws : List Process) : Type ℓ where
    closing : view.closes h job ≡ true
    joined : All (IsMember host view job h) ws

  IsMember-Extends :
      (job : ℕ) (h g : H) (w : Process)
      → Extends host view h g
      → IsMember host view job h w
      → IsMember host view job g w
  IsMember-Extends job h g w e =
      elim w.proc
        as (λ p.
          elim p [ none ↦ Unit | some pid ↦ view.member h job pid ≡ true ]
          → elim p [ none ↦ Unit | some pid ↦ view.member g job pid ≡ true ]) [
            | none ↦ (λ m. m)
            | some pid ↦ e.members job pid
          ]

  All-Extends :
      (job : ℕ) (h g : H) (ws : List Process)
      → Extends host view h g
      → All (IsMember host view job h) ws
      → All (IsMember host view job g) ws
  All-Extends job h g [] e m = tt
  All-Extends job h g (w ∷ ws) e (m, ms) =
      (IsMember-Extends job h g w e m, All-Extends job h g ws e ms)

  IsHeld-Extends :
      (job : ℕ) (h g : H) (ws : List Process)
      → Extends host view h g
      → IsHeld job h ws
      → IsHeld job g ws
  IsHeld-Extends job h g ws e held = record {
    closing = e.limits job held.closing;
    joined = All-Extends job h g ws e held.joined;
  }

  start_step :
      (job : ℕ) (cmd : List String) (config : PoolConfig) (now : ℕ) (g k : H) (r : Result Process)
      → start host (some job) cmd config now g ≡ (r, k)
      → Extends host view g k
  start_step job cmd config now g k r e =
      subst (λ x. Extends host view g x.1) e (start-Extends (some job) cmd config now g)

  Lives-IsHeld :
      (job : ℕ) (h k : H) (ws : List Process)
      → view.closes h job ≡ true
      → Lives host view job h k ws
      → IsHeld job k ws
  Lives-IsHeld job h k [] closing born = record { closing = closing; joined = tt }
  Lives-IsHeld job h k (w ∷ ws) closing (starts {g = g} _ cmd config now lives started) =
      let held =
        IsHeld-Extends job g k ws (start_step job cmd config now g k (ok w) started)
          (Lives-IsHeld job h g ws closing lives) in
      record {
        closing = held.closing;
        joined = (start-IsMember job cmd config now g k w started, held.joined);
      }
  Lives-IsHeld job h k ws closing (fails {g = g} e cmd config now lives started) =
      IsHeld-Extends job g k ws (start_step job cmd config now g k (raise e) started)
        (Lives-IsHeld job h g ws closing lives)
  Lives-IsHeld job h k ws closing (kills {g = g} w lives) =
      IsHeld-Extends job g _ ws (kill-Extends w g) (Lives-IsHeld job h g ws closing lives)
  Lives-IsHeld job h k ws closing (others {g = g} lives e) =
      IsHeld-Extends job g k ws e (Lives-IsHeld job h g ws closing lives)

  abbrev IsClosing : Result (Option ℕ) × H → Type 0
  IsClosing (ok (some job), g) = view.closes g job ≡ true
  IsClosing (ok none, g) = Unit
  IsClosing (raise _, g) = Unit

  -- The job that is created kills its members when it closes.
  create_kill_on_close_job-closes :
      (job : ℕ) (h g : H)
      → create_kill_on_close_job host true kill_bit h ≡ (ok (some job), g)
      → view.closes g job ≡ true
  unfolding create_kill_on_close_job
  create_kill_on_close_job-closes job h g e =
      let (made, h1, _, limits) =
        bind-ok host view (host.create_job h) (limited host kill_bit) (some job) g e in
      let (flags, h2, _, written) =
        bind-ok host view (host.query_limits made h1) _ (some job) g limits in
      let (_, h3, set, done) =
        bind-ok host view (host.set_limits made (with_bit kill_bit flags) h2) _ (some job) g
          written in
      subst IsClosing done
        (windows.limited_by made (with_bit kill_bit flags) h2 h3 set (with_bit-set kill_bit flags))

  IsMember-EndsWith :
      (job : ℕ) (h : H) (w : Process)
      → view.closes h job ≡ true
      → IsMember host view job h w
      → EndsWith host view h w
  IsMember-EndsWith job h w closing =
      elim w.proc
        as (λ p.
          elim p [ none ↦ Unit | some pid ↦ view.member h job pid ≡ true ]
          → elim p [ none ↦ Unit | some pid ↦ view.running (view.crash h) pid ≡ false ]) [
            | none ↦ (λ m. tt)
            | some pid ↦ windows.crashed job pid h closing
          ]

  All-EndsWith :
      (job : ℕ) (h : H) (ws : List Process)
      → view.closes h job ≡ true
      → All (IsMember host view job h) ws
      → All (EndsWith host view h) ws
  All-EndsWith job h [] closing m = tt
  All-EndsWith job h (w ∷ ws) closing (m, ms) =
      (IsMember-EndsWith job h w closing m, All-EndsWith job h ws closing ms)

  -- On a host that behaves as Windows documents its calls: when create_kill_on_close_job has
  -- returned a job, and the pool has then started workers in it, with starts that failed, kills and
  -- whatever else leaves the jobs alone in any order, then the process of no worker that start()
  -- returned runs on after the daemon ends, in whatever way it ends.
  pub kill_on_close :
      (job : ℕ) (h g k : H) (ws : List Process)
      → create_kill_on_close_job host true kill_bit h ≡ (ok (some job), g)
      → Lives host view job g k ws
      → All (EndsWith host view k) ws
  kill_on_close job h g k ws created lives =
      let held = Lives-IsHeld job g k ws (create_kill_on_close_job-closes job h g created) lives in
      All-EndsWith job k ws held.closing held.joined
