-- ===== src/Jobs/Table.antt =====
-- The dict of jobs of src/claude_pool/jobs.py as a table: what its operations do to counts of its
-- entries. A weight `f` gives each job a number; `weigh f` adds them up.
use claude_code_cli_local_ga.Prelude.{
  false, some, ℕ, zero, suc, ◌+◌, ◌≤◌, ◌≡◌, refl, String, List, [], ◌∷◌, arith, str_eq, eq_iff,
  if◌then◌else◌, length, weigh, take,
}
use claude_code_cli_local_ga.Jobs.{
  find, Job, delete, insert_by, sort_onto, terminals, drop_expired, is_terminal,
}

abbrev pub has_id : String → Job → ℕ
has_id id j = if str_eq j.id id then 1 else 0

-- 1 for a job under this id that still runs.
abbrev pub runs_as : String → Job → ℕ
runs_as id j = if str_eq j.id id then (if is_terminal j then 0 else 1) else 0

abbrev pub runs : Job → ℕ
runs j = if is_terminal j then 0 else 1

module _ (f : Job → ℕ) where
  pub delete-le : (id : String) (js : List Job) → weigh f (delete id js) ≤ weigh f js
  unfolding delete
  delete-le id [] = omega arith
  delete-le id (j ∷ js) = ground (arith, delete-le id js)

  insert_by-weigh :
      (key : Job → ℕ) (j : Job) (js : List Job) → weigh f (insert_by key j js) ≡ f j + weigh f js
  unfolding insert_by
  insert_by-weigh key j [] = refl
  insert_by-weigh key j (k ∷ ks) = ground (arith, insert_by-weigh key j ks)

  pub sort_onto-weigh :
      (key : Job → ℕ) (sorted js : List Job)
      → weigh f (sort_onto key sorted js) ≡ weigh f sorted + weigh f js
  unfolding sort_onto
  sort_onto-weigh key sorted [] = omega arith
  sort_onto-weigh key sorted (j ∷ js) =
      omega (arith, sort_onto-weigh key (insert_by key j sorted) js, insert_by-weigh key j sorted)

  pub drop_expired-le :
      (now retention : ℕ) (js : List Job) → weigh f (drop_expired now retention js) ≤ weigh f js
  unfolding drop_expired
  drop_expired-le now retention [] = omega arith
  drop_expired-le now retention (j ∷ js) = ground (arith, drop_expired-le now retention js)

  pub terminals-le : (js : List Job) → weigh f (terminals js) ≤ weigh f js
  unfolding terminals
  terminals-le [] = omega arith
  terminals-le (j ∷ js) = ground (arith, terminals-le js)

  pub take-le : (n : ℕ) (js : List Job) → weigh f (take n js) ≤ weigh f js
  take-le zero js = omega arith
  take-le (suc n) [] = omega arith
  take-le (suc n) (j ∷ js) = omega (arith, take-le n js)

-- What runs is not finished for long.
pub drop_expired-runs :
    (now retention : ℕ) (js : List Job) → weigh runs (drop_expired now retention js) ≡ weigh runs js
unfolding drop_expired
drop_expired-runs now retention [] = refl
drop_expired-runs now retention (j ∷ js) = ground (arith, drop_expired-runs now retention js)

-- Each finished job, and only those.
pub terminals-length : (js : List Job) → length (terminals js) + weigh runs js ≡ length js
unfolding terminals
terminals-length [] = refl
terminals-length (j ∷ js) = ground (arith, terminals-length js)

-- A deletion takes one entry under the id, if there is one, and no other.
pub delete-has_id :
    (x id : String) (js : List Job)
    → 1 ≤ weigh (has_id id) js
    → weigh (has_id x) (delete id js) + (if str_eq id x then 1 else 0) ≡ weigh (has_id x) js
unfolding delete
delete-has_id x id [] h = absurd (omega arith)
delete-has_id x id (j ∷ js) h =
    ground (arith, delete-has_id x id js, eq_iff j.id id, eq_iff j.id x, eq_iff id x)

pub delete-length :
    (id : String) (js : List Job)
    → 1 ≤ weigh (has_id id) js
    → suc (length (delete id js)) ≡ length js
unfolding delete
delete-length id [] h = absurd (omega arith)
delete-length id (j ∷ js) h = ground (arith, delete-length id js)

-- A deletion under an id under which nothing runs leaves all that runs.
pub delete-runs :
    (id : String) (js : List Job)
    → weigh (runs_as id) js ≡ 0
    → weigh runs (delete id js) ≡ weigh runs js
unfolding delete
delete-runs id [] h = refl
delete-runs id (j ∷ js) h = ground (arith, delete-runs id js)

-- 1 for a finished job under this id.
abbrev pub ends_as : String → Job → ℕ
ends_as id j = if str_eq j.id id then (if is_terminal j then 1 else 0) else 0

pub runs-ends :
    (x : String) (js : List Job) → weigh (runs_as x) js + weigh (ends_as x) js ≡ weigh (has_id x) js
runs-ends x [] = refl
runs-ends x (j ∷ js) = ground (arith, runs-ends x js)

pub terminals-ends :
    (x : String) (js : List Job) → weigh (has_id x) (terminals js) ≡ weigh (ends_as x) js
unfolding terminals
terminals-ends x [] = refl
terminals-ends x (j ∷ js) = ground (arith, terminals-ends x js)

pub delete-runs_as :
    (x id : String) (js : List Job)
    → weigh (runs_as id) js ≡ 0
    → weigh (runs_as x) (delete id js) ≡ weigh (runs_as x) js
unfolding delete
delete-runs_as x id [] h = refl
delete-runs_as x id (j ∷ js) h = ground (arith, delete-runs_as x id js)

-- Neither loop of _reap loses a job that runs.
pub drop_expired-find :
    (now retention : ℕ) (x : String) (js : List Job) (j : Job)
    → find x js ≡ some j
    → is_terminal j ≡ false
    → find x (drop_expired now retention js) ≡ some j
unfolding find drop_expired
drop_expired-find now retention x [] j e r = cc
drop_expired-find now retention x (k ∷ ks) j e r =
    ground (arith, drop_expired-find now retention x ks j)

pub delete-find :
    (x id : String) (js : List Job) (j : Job)
    → weigh (runs_as id) js ≡ 0
    → find x js ≡ some j
    → is_terminal j ≡ false
    → find x (delete id js) ≡ some j
unfolding find delete
delete-find x id [] j n e r = cc
delete-find x id (k ∷ ks) j n e r = ground (arith, delete-find x id ks j)
