-- ===== src/WinJob/Closing.antt =====
-- What the kill-on-close job of src/claude_pool/winjob.py is for: no worker outlives the daemon.
pub mod Ends
use claude_code_cli_local_ga.Prelude.{
  ℕ, String, Bool, true, false, none, some, List, [], ◌∷◌, ◌≡◌, refl,
}
use claude_code_cli_local_ga.Exn.{Exn, Result, ok, raise}
use claude_code_cli_local_ga.Config.{PoolConfig}
use claude_code_cli_local_ga.WinJob.{Host, Process, ◌>>>◌, start, kill}

-- What can be seen of the host: whether a job kills its processes when its last handle closes,
-- whether a process is in a job, which process a handle is for, whether a process runs; and the host
-- after the daemon has ended in any way, which closes its handles.
pub record View {ℓ} (H : Type ℓ) : Type ℓ where
  pub closes : H → ℕ → Bool
  pub member : H → ℕ → ℕ → Bool
  pub refers : H → ℕ → ℕ → Bool
  pub running : H → ℕ → Bool
  pub crash : H → H

module _ {ℓ} {H : Type ℓ} (host : Host H) (view : View H) where
  -- A host that has lost no limit of a job and no member of one
  pub record Extends (h g : H) : Type 0 where
    pub limits : (job : ℕ) → view.closes h job ≡ true → view.closes g job ≡ true
    pub members : (job pid : ℕ) → view.member h job pid ≡ true → view.member g job pid ≡ true

  -- What Windows documents of its calls. `kill_bit` is JOB_OBJECT_LIMIT_KILL_ON_JOB_CLOSE.
  pub record IsWindows (kill_bit : ℕ) : Type ℓ where
    pub limited_by :
        (job : ℕ) (bits : ℕ → Bool) (h g : H)
        → host.set_limits job bits h ≡ (ok tt, g)
        → bits kill_bit ≡ true
        → view.closes g job ≡ true
    pub opened :
        (pid handle : ℕ) (h g : H)
        → host.open_process pid h ≡ (ok handle, g)
        → view.refers g handle pid ≡ true
    pub assigned :
        (job handle pid : ℕ) (h g : H)
        → host.assign job handle h ≡ (ok tt, g)
        → view.refers h handle pid ≡ true
        → view.member g job pid ≡ true
    pub spawn_keeps :
        (argv : List String) (cwd : String) (h : H) → Extends h (host.spawn argv cwd h).1
    pub open_keeps : (pid : ℕ) (h : H) → Extends h (host.open_process pid h).1
    pub assign_keeps : (job handle : ℕ) (h : H) → Extends h (host.assign job handle h).1
    pub close_keeps : (handle : ℕ) (h : H) → Extends h (host.close handle h)
    pub terminate_keeps : (pid : ℕ) (h : H) → Extends h (host.terminate pid h)
    pub crashed :
        (job pid : ℕ) (h : H)
        → view.closes h job ≡ true
        → view.member h job pid ≡ true
        → view.running (view.crash h) pid ≡ false

  -- What a pool with this job does to the host, with the workers that start() has returned: starts,
  -- starts that fail, kills, and whatever else leaves the jobs alone.
  pub data Lives (job : ℕ) (h : H) : H → List Process → Type ℓ where
    born : Lives job h h []
    starts :
        {g k : H} {ws : List Process} (w : Process) (claude_cmd : List String) (config : PoolConfig)
        (now : ℕ)
        → Lives job h g ws
        → start host (some job) claude_cmd config now g ≡ (ok w, k)
        → Lives job h k (w ∷ ws)
    fails :
        {g k : H} {ws : List Process} (e : Exn) (claude_cmd : List String) (config : PoolConfig)
        (now : ℕ)
        → Lives job h g ws
        → start host (some job) claude_cmd config now g ≡ (raise e, k)
        → Lives job h k ws
    kills :
        {g : H} {ws : List Process} (w : Process)
        → Lives job h g ws
        → Lives job h (kill host w g) ws
    others : {g k : H} {ws : List Process} → Lives job h g ws → Extends g k → Lives job h k ws

  -- A worker whose process ends with the daemon
  abbrev pub EndsWith : H → Process → Type 0
  EndsWith h w = elim w.proc [ none ↦ Unit | some pid ↦ view.running (view.crash h) pid ≡ false ]

  -- A worker in the job
  abbrev IsMember : ℕ → H → Process → Type 0
  IsMember job h w = elim w.proc [ none ↦ Unit | some pid ↦ view.member h job pid ≡ true ]

  Extends-refl : (h : H) → Extends h h
  Extends-refl h = record { limits = λ job e. e; members = λ job pid e. e }

  Extends-trans : {h g k : H} → Extends h g → Extends g k → Extends h k
  Extends-trans a b = record {
    limits = λ job e. b.limits job (a.limits job e);
    members = λ job pid e. b.members job pid (a.members job pid e);
  }

  bind-Extends :
      {A B : Type 0} (h : H) (x : Result A × H) (f : A → H → Result B × H)
      → Extends h x.1
      → ((a : A) (g : H) → Extends g (f a g).1)
      → Extends h (x >>> f).1
  bind-Extends h (ok a, g) f e next = Extends-trans e (next a g)
  bind-Extends h (raise x, g) f e next = e

  -- A call that goes through has gone through in both its parts.
  bind-ok :
      {A B : Type 0} (x : Result A × H) (f : A → H → Result B × H) (b : B) (k : H)
      → (x >>> f) ≡ (ok b, k)
      → (a : A) × (g : H) × (x ≡ (ok a, g)) × (f a g ≡ (ok b, k))
  bind-ok (ok a, g) f b k e = (a, g, refl, e)
  bind-ok (raise x, g) f b k e = cc
