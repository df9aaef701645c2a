-- ===== src/Daemon/Teardown.antt =====
-- What is left when run_daemon of src/claude_pool/daemon.py has ended.
use claude_code_cli_local_ga.Pool.System.Stopping.{HasOnlyStrays, stop_ends, IsOpen, Reach-trans}
use claude_code_cli_local_ga.Pool.System.{cancel_sweep, here, System, Reach}
use claude_code_cli_local_ga.Daemon.{
  makes_runner, starts_pool, end_course, state_of, fresh, PoolConfig, run_daemon, served, makes_dir,
  perform, serve, until_stop, System, Daemon, Action, unlinks, cleans_up, shuts_jobs, stops_pool,
  effect, Course, reached, cut, tear_down, clean_up, finish,
}
use claude_code_cli_local_ga.Config.{PoolConfig}
use claude_code_cli_local_ga.Prelude.{
  subst, ◌∷◌, All, [], List, inr, inl, ◌∙◌, Option-cases, ℕ, String, Bool, true, false, Option,
  none, some, ◌≡◌, refl,
}
use claude_code_cli_local_ga.Jobs.History.{here}
use claude_code_cli_local_ga.Jobs.{JobStore, find_phase}
use claude_code_cli_local_ga.Jobs.Lives.{is_active}
use claude_code_cli_local_ga.Jobs.Stopping.{shutdown_ends}

-- No task of the store is created and not yet run, or inside execute().
abbrev pub IsSilent : JobStore → Type 0
IsSilent s = (x : String) → is_active (find_phase x s.tasks) ≡ false

-- What the other tasks do while a step is awaited: steps of the pool; they leave the pid file alone.
pub record IsHonest (meanwhile : Action → Daemon → Daemon) (drains : System → System) : Type 0 where
  pub steps : (a : Action) (d : Daemon) → Reach d.pool (meanwhile a d).pool
  pub drained : (s : System) → Reach s (drains s)
  pub filed : (a : Action) (d : Daemon) → (meanwhile a d).file ≡ d.file
  -- once the server is down and the jobs are cancelled, no new job comes
  pub silent : (d : Daemon) → IsSilent d.jobs → IsSilent (meanwhile stops_pool d).jobs

-- A run has come to `pool.stop()`, without a pid file and without a job at work.
abbrev IsDown : Daemon → Course → Type 0
IsDown d (cut t e) = ⊥
IsDown d (reached t error) = Reach d.pool t.pool × (t.file ≡ none) × IsSilent t.jobs

abbrev is_stop : Action → Bool
is_stop stops_pool = true
is_stop a = false

effect-pool :
    (drains : System → System) (now pid : ℕ) (a : Action) (d : Daemon)
    → is_stop a ≡ false
    → (effect drains now pid a d).pool ≡ d.pool
unfolding effect
effect-pool drains now pid stops_pool d n = cc
effect-pool drains now pid a d n = refl

module _ (raises : Action → Option String) (meanwhile : Action → Daemon → Daemon)
    (drains : System → System) (now pid : ℕ) (honest : IsHonest meanwhile drains)
    (shuts : raises shuts_jobs ≡ none) where
  tear_down-IsDown :
      (d : Daemon) (error : Option String)
      → d.file ≡ none
      → IsDown d (tear_down raises meanwhile drains now pid d error)
  unfolding tear_down effect
  tear_down-IsDown d error f =
      rw (shuts, IsDown)
        (
          honest.steps shuts_jobs d,
          honest.filed shuts_jobs d ∙ f,
          shutdown_ends now (meanwhile shuts_jobs d).jobs,
        )

  IsDown-after : (c d : Daemon) (r : Course) → Reach c.pool d.pool → IsDown d r → IsDown c r
  IsDown-after c d (cut t e) q h = h
  IsDown-after c d (reached t error) q h = (Reach-trans q h.0, h.1, h.2)

  clean_up-IsDown :
      (has_runner : Bool) (d : Daemon) (error : Option String)
      → d.file ≡ none
      → IsDown d (clean_up raises meanwhile drains now pid has_runner d error)
  unfolding clean_up effect
  clean_up-IsDown false d error f = tear_down-IsDown d error f
  clean_up-IsDown true d error f = elim (Option-cases (raises cleans_up)) [
    | inl e ↦
        rw (e, IsDown)
          (IsDown-after d (meanwhile cleans_up d) _ (honest.steps cleans_up d)
            (tear_down-IsDown (meanwhile cleans_up d) error (honest.filed cleans_up d ∙ f)))
    | inr (x, e) ↦
        rw (e, IsDown)
          (IsDown-after d (meanwhile cleans_up d) _ (honest.steps cleans_up d)
            (tear_down-IsDown (meanwhile cleans_up d) (some x) (honest.filed cleans_up d ∙ f)))
  ]

  module _ (forgets : raises unlinks ≡ none) where
    finish-IsDown :
        (has_runner : Bool) (d : Daemon) (error : Option String)
        → IsDown d (finish raises meanwhile drains now pid has_runner (d, error))
    unfolding finish effect
    finish-IsDown has_runner d error =
        rw (forgets, IsDown)
          (IsDown-after d (record (meanwhile unlinks d) { file = none }) _ (honest.steps unlinks d)
            (clean_up-IsDown has_runner (record (meanwhile unlinks d) { file = none }) error refl))

    perform-Reach :
        (todo : List Action) (d : Daemon)
        → All (λ a. is_stop a ≡ false) todo
        → Reach d.pool (perform raises meanwhile drains now pid todo d).0.pool
    unfolding perform
    perform-Reach [] d h = here
    perform-Reach (a ∷ rest) d h = elim (Option-cases (raises a)) [
      | inr (x, e) ↦ rw (e, perform) (honest.steps a d)
      | inl e ↦
          rw (e, perform)
            (Reach-trans (honest.steps a d) (
              subst
                (λ q.
                  Reach q
                    (perform raises meanwhile drains now pid rest
                      (effect drains now pid a (meanwhile a d))).0.pool)
                (effect-pool drains now pid a (meanwhile a d) h.0)
                (perform-Reach rest (effect drains now pid a (meanwhile a d)) h.1)))
    ]

    serve-IsDown :
        (d : Daemon) (r : Daemon × Option String)
        → Reach d.pool r.0.pool
        → IsDown d (serve raises meanwhile drains now pid r)
    unfolding serve
    serve-IsDown d (c, some e) q = IsDown-after d c _ q (finish-IsDown false c (some e))
    serve-IsDown d (c, none) q =
        IsDown-after d (perform raises meanwhile drains now pid served c).0 _
          (Reach-trans q (perform-Reach served c (refl, (refl, (refl, (refl, tt))))))
          (finish-IsDown true _ _)

    until_stop-IsDown :
        (d : Daemon)
        → raises makes_dir ≡ none
        → IsDown d (until_stop raises meanwhile drains now pid d)
    unfolding until_stop effect
    until_stop-IsDown d e =
        rw (e, IsDown)
          (serve-IsDown d _ (
            Reach-trans (honest.steps makes_dir d) (
              perform-Reach (starts_pool ∷ makes_runner ∷ []) (meanwhile makes_dir d)
                (refl, (refl, tt)))))

-- By the time that stop() takes the idle workers, the requests and the jobs have given theirs back,
-- and the sweep that it cancelled held none.
pub record IsResting (s : System) : Type 0 where
  pub ready : IsOpen s
  pub back : s.out ≡ []
  pub found : s.lost ≡ []

end_course_down :
    (raises : Action → Option String) (meanwhile : Action → Daemon → Daemon)
    (drains : System → System) (now pid start : ℕ) (config : PoolConfig) (file : Option ℕ)
    → IsHonest meanwhile drains
    → raises stops_pool ≡ none
    → (r : Course) → IsDown (fresh config start file) r
    → IsResting (drains (cancel_sweep (meanwhile stops_pool (state_of r)).pool))
    → let t = (end_course raises meanwhile drains now pid r).0 in
      (t.file ≡ none) × IsSilent t.jobs × HasOnlyStrays t.pool
unfolding end_course effect fresh
end_course_down raises meanwhile drains now pid start config file honest halts (cut d e) down h =
    absurd down
end_course_down raises meanwhile drains now pid start config file honest halts (reached d error)
      down h =
    rw (halts, end_course)
      (
        honest.filed stops_pool d ∙ down.1,
        honest.silent d down.2,
        (stop_ends config start drains (Reach-trans down.0 (honest.steps stops_pool d))
            (honest.drained _) h.ready h.back h.found).2,
      )

-- run_daemon, from a new pool and store, whichever of its other steps raise: if the pid file can be
-- removed, the scratch directory can be made, and the two calls that end the daemon do not raise,
-- then at its end there is no pid file (whatever process the file named), no job is at work, and the
-- only workers' processes that run are those of workers that the pool dropped as their start()
-- raised. The conditions: the other tasks make steps of the pool, also while it is stopped, leave
-- the file alone and submit no job once the jobs are shut; and when the pool's stop() takes the idle
-- workers, the pool's start() is over, no other stop() is under way, all workers are back, and the
-- sweep held none that it had still to kill when it was cancelled.
pub run_daemon_lem :
    (raises : Action → Option String) (meanwhile : Action → Daemon → Daemon)
    (drains : System → System) (now pid start : ℕ) (config : PoolConfig) (file : Option ℕ)
    → IsHonest meanwhile drains
    → raises makes_dir ≡ none
    → raises unlinks ≡ none
    → raises shuts_jobs ≡ none
    → raises stops_pool ≡ none
    → let d = fresh config start file in
      IsResting (
        drains (
          cancel_sweep
            (meanwhile stops_pool (state_of (until_stop raises meanwhile drains now pid d))).pool))
      → let t = (run_daemon raises meanwhile drains now pid (fresh config start file)).0 in
        (t.file ≡ none) × IsSilent t.jobs × HasOnlyStrays t.pool
unfolding run_daemon
run_daemon_lem raises meanwhile drains now pid start config file honest makes forgets shuts halts
      rest =
    end_course_down raises meanwhile drains now pid start config file honest halts _
      (until_stop-IsDown raises meanwhile drains now pid honest shuts forgets _ makes) rest
