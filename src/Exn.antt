-- ===== src/Exn.antt =====
-- The exceptions that travel through the gateway, and results that may be one of them.
use claude_code_cli_local_ga.Prelude.{String}

pub data Exn : Type 0 where
  pool_unavailable : String → Exn
  worker_error : String → Exn
  timed_out : Exn
  cancelled : Exn
  -- any other exception, by the name of its class
  unexpected : String → Exn

pub data Result {ℓ} (A : Type ℓ) : Type ℓ where
  ok : A → Result A
  raise : Exn → Result A

infixl 5 ◌>>=◌
abbrev pub ◌>>=◌ {ℓ κ} : {A : Type ℓ} {B : Type κ} → Result A → (A → Result B) → Result B
ok a >>= f = f a
raise e >>= f = raise e

-- `r` is a value, and that value has the property.
abbrev pub Returns {ℓ} : {A : Type ℓ} → Result A → (A → Type 0) → Type 0
Returns (ok a) P = P a
Returns (raise e) P = ⊥

-- If `r` is a value, it has the property.
abbrev pub Holds {ℓ} : {A : Type ℓ} → Result A → (A → Type 0) → Type 0
Holds (ok a) P = P a
Holds (raise e) P = Unit
