-- ===== src/Jobs/Listing.antt =====
-- list() of src/claude_pool/jobs.py: the order of the jobs that it returns.
use claude_code_cli_local_ga.Prelude.{
  ◌<◌, ℕ, ◌≤◌, ◌≡◌, refl, sym, ap, ◌∙◌, Bool-cases, inl, inr, List, [], ◌∷◌, ◌++◌, ◌==◌, leb, arith,
  if◌then◌else◌, All,
}
use mathlib.Core.List.{append-nil, append_assoc}
use claude_code_cli_local_ga.Jobs.{Job, JobStore, insert_desc, sort_desc_onto, list_jobs, reap}

-- The jobs with this key, in their order.
abbrev pub keyed_at : (Job → ℕ) → ℕ → List Job → List Job
keyed_at key t [] = []
keyed_at key t (j ∷ js) = if key j == t then j ∷ keyed_at key t js else keyed_at key t js

-- No key is greater than an earlier one.
abbrev pub IsDescending : (Job → ℕ) → List Job → Type 0
IsDescending key [] = Unit
IsDescending key (j ∷ js) = All (λ k. key k ≤ key j) js × IsDescending key js

module _ (key : Job → ℕ) where
  pub All-insert_desc :
      (P : Job → Type 0) (j : Job) (js : List Job) → P j → All P js → All P (insert_desc key j js)
  unfolding insert_desc
  All-insert_desc P j [] p h = (p, tt)
  All-insert_desc P j (k ∷ ks) p h = elim (Bool-cases (leb (key j) (key k))) [
    | inl e ↦ rw e (h.0, All-insert_desc P j ks p h.1)
    | inr e ↦ rw e (p, h)
  ]

  All-le : (a b : ℕ) (js : List Job) → a ≤ b → All (λ k. key k ≤ a) js → All (λ k. key k ≤ b) js
  All-le a b [] l h = tt
  All-le a b (j ∷ js) l h = (omega (arith, h.0), All-le a b js l h.1)

  insert_desc-IsDescending :
      (j : Job) (js : List Job) → IsDescending key js → IsDescending key (insert_desc key j js)
  unfolding insert_desc
  insert_desc-IsDescending j [] h = (tt, tt)
  insert_desc-IsDescending j (k ∷ ks) h = elim (Bool-cases (leb (key j) (key k))) [
    | inl e ↦ rw e (
      All-insert_desc (λ x. key x ≤ key k) j ks (ground arith) h.0,
      insert_desc-IsDescending j ks h.1,
    )
    | inr e ↦ rw e ((ground arith, All-le (key k) (key j) ks (ground arith) h.0), h)
  ]

  keyed_at-above :
      (t a : ℕ) (js : List Job) → a < t → All (λ k. key k ≤ a) js → keyed_at key t js ≡ []
  keyed_at-above t a [] l h = refl
  keyed_at-above t a (j ∷ js) l h = ground (arith, keyed_at-above t a js l h.1, h.0)

  keyed_at-insert_desc :
      (t : ℕ) (j : Job) (js : List Job)
      → IsDescending key js
      → keyed_at key t (insert_desc key j js) ≡ keyed_at key t js ++ keyed_at key t (j ∷ [])
  unfolding insert_desc
  keyed_at-insert_desc t j [] h = refl
  keyed_at-insert_desc t j (k ∷ ks) h = elim (Bool-cases (leb (key j) (key k))) [
    | inl e ↦ elim (Bool-cases (key k == t)) [
      | inl f ↦ rw (e, keyed_at, f) (ap (λ l. k ∷ l) (keyed_at-insert_desc t j ks h.1))
      | inr f ↦ rw (e, keyed_at, f) (keyed_at-insert_desc t j ks h.1)
    ]
    | inr e ↦ elim (Bool-cases (key j == t)) [
      | inl f ↦
          let none_left : keyed_at key t (k ∷ ks) ≡ [] =
            keyed_at-above t (key k) (k ∷ ks) (ground arith) (omega arith, h.0) in
          rw e (rw (none_left, f) refl)
      | inr f ↦ rw e (rw f (sym (append-nil (keyed_at key t (k ∷ ks)))))
    ]
  ]

  keyed_at-cons :
      (t : ℕ) (j : Job) (js : List Job)
      → keyed_at key t (j ∷ []) ++ keyed_at key t js ≡ keyed_at key t (j ∷ js)
  keyed_at-cons t j js = elim (Bool-cases (key j == t)) [ inl f ↦ rw f refl | inr f ↦ rw f refl ]

  sort_desc_onto-lem :
      (sorted js : List Job)
      → IsDescending key sorted
      → IsDescending key (sort_desc_onto key sorted js)
        × ((t : ℕ)
            → keyed_at key t (sort_desc_onto key sorted js)
              ≡ keyed_at key t sorted ++ keyed_at key t js)
  unfolding sort_desc_onto
  sort_desc_onto-lem sorted [] h = (h, λ t. sym (append-nil (keyed_at key t sorted)))
  sort_desc_onto-lem sorted (j ∷ js) h =
      let rest =
        sort_desc_onto-lem (insert_desc key j sorted) js (insert_desc-IsDescending j sorted h) in
      (
        rest.0,
        λ t.
            rest.1 t
            ∙ (ap (λ l. l ++ keyed_at key t js) (keyed_at-insert_desc t j sorted h)
                ∙ (append_assoc (keyed_at key t sorted) (keyed_at key t (j ∷ []))
                      (keyed_at key t js)
                    ∙ ap (λ l. keyed_at key t sorted ++ l) (keyed_at-cons t j js))),
      )

-- list() returns the jobs that reaping leaves, newest first; those that were created at one time stand
-- in the order of the store. The store is then the reaped one.
pub list_jobs_lem :
    (now : ℕ) (s : JobStore)
    → let (r, js) = list_jobs now s in
      (r ≡ reap now s)
      × IsDescending (λ j. j.created_at) js
      × ((t : ℕ)
          → keyed_at (λ j. j.created_at) t js ≡ keyed_at (λ j. j.created_at) t (reap now s).jobs)
unfolding list_jobs
list_jobs_lem now s =
    let sorted = sort_desc_onto-lem (λ j. j.created_at) [] (reap now s).jobs tt in
    (refl, sorted.0, sorted.1)
