-- ===== src/ColdVsWarm/Savings.antt =====
-- What the times of scripts/bench_cold_vs_warm.py measure.
use claude_code_cli_local_ga.Prelude.{
  text_append, if◌then◌else◌, Bool, true, false, Option, none, some, ℕ, ◌+◌, ◌≤◌, max, ◌≡◌, refl,
  ap, String, Bool, true, false, Option, none, some, List, arith,
}
use claude_code_cli_local_ga.Exn.{Result, ok, raise, unexpected}
use claude_code_cli_local_ga.Json.{Json}
use claude_code_cli_local_ga.WinJob.{◌>>>◌}
use claude_code_cli_local_ga.ColdVsWarm.{
  Completed, Machine, prompt, cold_argv, checked, timed, settled, run_cold, run_prewarmed,
}

-- A machine on which a process can answer only when `boot` has passed since its start, and answers a
-- prompt `answer` after that, or after the prompt if this comes later. `ready` is when a process
-- has booted.
pub record IsBooting {ℓ} {H : Type ℓ} (machine : Machine H) (ready : H → ℕ → ℕ) (boot answer : ℕ)
    : Type ℓ where
  pub spawned :
      (argv : List String) (h g : H) (pid : ℕ)
      → machine.spawn argv h ≡ (ok pid, g)
      → (ready g pid ≡ machine.clock h + boot)
        × (machine.clock h ≤ machine.clock g)
        × (machine.clock g ≤ ready g pid)
  pub slept :
      (n pid : ℕ) (g : H)
      → (machine.clock (machine.sleep n g) ≡ machine.clock g + n)
        × (ready (machine.sleep n g) pid ≡ ready g pid)
  pub answered :
      (pid : ℕ) (text : String) (g : H)
      → machine.clock (machine.communicate pid text g).1
        ≡ max (machine.clock g) (ready g pid) + answer

checked-time :
    (loads : String → Option Json) (label : String) (c : Completed) (elapsed t : ℕ)
    → checked loads label c elapsed ≡ ok t
    → t ≡ elapsed
unfolding checked
checked-time loads label c elapsed t e = by_values c.clean (loads c.stdout) e
  where
    by_values :
        (clean : Bool) (read : Option Json)
        → (if clean
            then elim read [ none ↦ raise (unexpected "JSONDecodeError") | some v ↦ ok elapsed ]
            else raise (
                unexpected (
                  text_append "RuntimeError: "
                    (text_append label (text_append " run failed: " c.stderr)))))
          ≡ ok t
        → t ≡ elapsed
    by_values true none q = cc
    by_values true (some v) q = cc
    by_values false read q = cc

module _ {ℓ} {H : Type ℓ} (machine : Machine H) (loads : String → Option Json) (ready : H → ℕ → ℕ)
    (boot answer : ℕ) (booting : IsBooting machine ready boot answer) where
  cold_from :
      (h : H) (x : Result ℕ × H) (t : ℕ) (k : H)
      → machine.spawn cold_argv h ≡ x
      → (x >>> timed machine loads "cold" (machine.clock h)) ≡ (ok t, k)
      → t ≡ boot + answer
  cold_from h (raise e, g) t k s f = cc
  cold_from h (ok pid, g) t k s f =
      let time = checked-time loads "cold" _ _ t (ap (λ x. x.0) f) in
      omega (arith, time, booting.spawned cold_argv h g pid s, booting.answered pid prompt g)

  warm_from :
      (settle : ℕ) (h : H) (x : Result ℕ × H) (t : ℕ) (k : H)
      → boot ≤ settle
      → machine.spawn cold_argv h ≡ x
      → (x >>> settled machine loads settle) ≡ (ok t, k)
      → t ≡ answer
  warm_from settle h (raise e, g) t k b s f = cc
  warm_from settle h (ok pid, g) t k b s f =
      let time = checked-time loads "prewarmed" _ _ t (ap (λ x. x.0) f) in
      omega (
        arith,
        time,
        b,
        booting.spawned cold_argv h g pid s,
        booting.slept settle pid g,
        booting.answered pid prompt (machine.sleep settle g),
      )

  -- On such a machine, when both runs succeed, at whatever moments: if a process has the time to boot
  -- before the prompt comes, the difference of the two times is the time to boot.
  cold-warm :
      (settle c w : ℕ) (h g k l : H)
      → boot ≤ settle
      → run_cold machine loads h ≡ (ok c, k)
      → run_prewarmed machine loads settle g ≡ (ok w, l)
      → c ≡ boot + w
  unfolding run_cold run_prewarmed
  cold-warm settle c w h g k l b e f = omega (
    arith,
    cold_from h (machine.spawn cold_argv h) c k refl e,
    warm_from settle g (machine.spawn cold_argv g) w l b refl f,
  )
