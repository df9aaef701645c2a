-- ===== src/Jobs/Eviction.antt =====
-- _reap of src/claude_pool/jobs.py: which finished jobs the cap takes.
use claude_code_cli_local_ga.Jobs.{
  delete, Job, JobStore, delete_all, sort_onto, insert_by, terminals, drop_expired, is_expired,
  is_terminal, find, reap, finished_key,
}
use claude_code_cli_local_ga.JobTable.{delete}
use claude_code_cli_local_ga.Prelude.{
  ℕ, zero, suc, ◌+◌, ◌-◌, ◌≤◌, ◌≡◌, refl, String, true, false, none, some, List, [], ◌∷◌, arith,
  str_eq, ◌==◌, leb, if◌then◌else◌, length, weigh, take, drop, All, Bool-cases, inl, inr,
  weigh-take-drop,
}
use claude_code_cli_local_ga.Jobs.Table.{
  has_id, ends_as, delete-has_id, sort_onto-weigh, terminals-le, terminals-ends,
}
use claude_code_cli_local_ga.Jobs.Reaping.{
  IsKeyed, AreEnded, head_there, rest-IsKeyed, rest_ended, kept, doomed, kept-IsKeyed, doomed_ended,
  reap-find,
}
use claude_code_cli_local_ga.Jobs.Lookup.{delete_all-Fades}

-- No key is less than an earlier one.
abbrev IsAscending : (Job → ℕ) → List Job → Type 0
IsAscending key [] = Unit
IsAscending key (j ∷ js) = All (λ k. key j ≤ key k) js × IsAscending key js

-- 1 for a job under this id with another key.
abbrev odd : (Job → ℕ) → String → ℕ → Job → ℕ
odd key x a j = if str_eq j.id x then (if key j == a then 0 else 1) else 0

module _ (key : Job → ℕ) where
  All-insert_by :
      (P : Job → Type 0) (j : Job) (js : List Job) → P j → All P js → All P (insert_by key j js)
  unfolding insert_by
  All-insert_by P j [] p h = (p, tt)
  All-insert_by P j (k ∷ ks) p h = elim (Bool-cases (leb (key k) (key j))) [
    | inl e ↦ rw e (h.0, All-insert_by P j ks p h.1)
    | inr e ↦ rw e (p, h)
  ]

  All-above : (a b : ℕ) (js : List Job) → a ≤ b → All (λ k. b ≤ key k) js → All (λ k. a ≤ key k) js
  All-above a b [] l h = tt
  All-above a b (j ∷ js) l h = (omega (arith, h.0), All-above a b js l h.1)

  insert_by-IsAscending :
      (j : Job) (js : List Job) → IsAscending key js → IsAscending key (insert_by key j js)
  unfolding insert_by
  insert_by-IsAscending j [] h = (tt, tt)
  insert_by-IsAscending j (k ∷ ks) h = elim (Bool-cases (leb (key k) (key j))) [
    | inl e ↦
        rw e (
          All-insert_by (λ x. key k ≤ key x) j ks (ground arith) h.0,
          insert_by-IsAscending j ks h.1,
        )
    | inr e ↦ rw e ((ground arith, All-above (key j) (key k) ks (ground arith) h.0), h)
  ]

  sort_onto-IsAscending :
      (sorted js : List Job) → IsAscending key sorted → IsAscending key (sort_onto key sorted js)
  unfolding sort_onto
  sort_onto-IsAscending sorted [] h = h
  sort_onto-IsAscending sorted (j ∷ js) h =
      sort_onto-IsAscending (insert_by key j sorted) js (insert_by-IsAscending j sorted h)

  -- An entry behind the first `n`, in a list with no key less than `c`
  drop-above :
      (c b : ℕ) (y : String) (n : ℕ) (js : List Job)
      → All (λ m. c ≤ key m) js
      → 1 ≤ weigh (has_id y) (drop n js)
      → weigh (odd key y b) js ≡ 0
      → c ≤ b
  drop-above c b y zero [] h there same = absurd (omega arith)
  drop-above c b y zero (j ∷ js) h there same = ground (arith, h.0, drop-above c b y zero js h.1)
  drop-above c b y (suc n) [] h there same = absurd (omega arith)
  drop-above c b y (suc n) (j ∷ js) h there same = ground (arith, drop-above c b y n js h.1)

  -- Of an ascending list, what is among the first `n` has no greater key than what is behind them.
  take-drop :
      (x y : String) (a b n : ℕ) (js : List Job)
      → IsAscending key js
      → 1 ≤ weigh (has_id x) (take n js)
      → weigh (odd key x a) js ≡ 0
      → 1 ≤ weigh (has_id y) (drop n js)
      → weigh (odd key y b) js ≡ 0
      → a ≤ b
  take-drop x y a b zero js h early samex late samey = absurd (omega arith)
  take-drop x y a b (suc n) [] h early samex late samey = absurd (omega arith)
  take-drop x y a b (suc n) (j ∷ js) h early samex late samey =
      ground (arith, take-drop x y a b n js h.1, drop-above (key j) b y n js h.0)

  odd-le : (x : String) (a : ℕ) (js : List Job) → weigh (odd key x a) js ≤ weigh (has_id x) js
  odd-le x a [] = omega arith
  odd-le x a (j ∷ js) = ground (arith, odd-le x a js)

  odd-none :
      (x : String) (j : Job) (js : List Job)
      → weigh (has_id x) js ≤ 1
      → find x js ≡ some j
      → weigh (odd key x (key j)) js ≡ 0
  unfolding find
  odd-none x j [] k e = refl
  odd-none x j (i ∷ js) k e = ground (arith, odd-le x (key j) js, odd-none x j js)

find-counts : (x : String) (j : Job) (js : List Job) → find x js ≡ some j → 1 ≤ weigh (has_id x) js
unfolding find
find-counts x j [] e = cc
find-counts x j (i ∷ js) e = ground (arith, find-counts x j js)

find-ends :
    (x : String) (j : Job) (js : List Job)
    → find x js ≡ some j
    → is_terminal j ≡ true
    → 1 ≤ weigh (ends_as x) js
unfolding find
find-ends x j [] e t = cc
find-ends x j (i ∷ js) e t = ground (arith, find-ends x j js)

none-counts : (x : String) (js : List Job) → find x js ≡ none → weigh (has_id x) js ≡ 0
unfolding find
none-counts x [] e = refl
none-counts x (i ∷ js) e = ground (arith, none-counts x js)

drop_expired-fresh :
    (now retention : ℕ) (x : String) (j : Job) (js : List Job)
    → find x js ≡ some j
    → is_expired now retention j ≡ false
    → find x (drop_expired now retention js) ≡ some j
unfolding find drop_expired
drop_expired-fresh now retention x j [] e f = cc
drop_expired-fresh now retention x j (i ∷ js) e f =
    ground (arith, drop_expired-fresh now retention x j js)

delete_all-has_id :
    (x : String) (fs js : List Job)
    → IsKeyed js
    → AreEnded fs js
    → weigh (has_id x) (delete_all fs js) + weigh (has_id x) fs ≡ weigh (has_id x) js
unfolding delete_all
delete_all-has_id x [] js k e = omega arith
delete_all-has_id x (f ∷ fs) js k e = omega (
  arith,
  delete_all-has_id x fs (delete f.id js) (rest-IsKeyed f fs js k e) (rest_ended f fs js k e),
  delete-has_id x f.id js (head_there f fs js k e),
)

module _ (now : ℕ) (s : JobStore) (keyed : IsKeyed s.jobs) where
  abbrev sorted : List Job
  sorted = sort_onto finished_key [] (terminals (kept now s keyed))

  abbrev overflow : ℕ
  overflow = length (kept now s keyed) - s.max_jobs

  same_key :
      (x : String) (j : Job)
      → find x (kept now s keyed) ≡ some j
      → weigh (odd finished_key x (finished_key j)) sorted ≡ 0
  same_key x j e = omega (
    arith,
    odd-none finished_key x j (kept now s keyed) (kept-IsKeyed now s keyed x) e,
    terminals-le (odd finished_key x (finished_key j)) (kept now s keyed),
    sort_onto-weigh (odd finished_key x (finished_key j)) finished_key []
        (terminals (kept now s keyed)),
  )

  counted :
      (x : String)
      → weigh (has_id x) (reap now s).jobs + weigh (has_id x) (doomed now s keyed)
        ≡ weigh (has_id x) (kept now s keyed)
  unfolding reap
  counted x =
      delete_all-has_id x (doomed now s keyed) (kept now s keyed) (kept-IsKeyed now s keyed)
        (doomed_ended now s keyed)

  staying :
      (y : String) (k : Job)
      → find y (reap now s).jobs ≡ some k
      → find y (kept now s keyed) ≡ some k
  unfolding reap
  staying y k e = ground (
    arith,
    e,
    delete_all-Fades y (doomed now s keyed) (kept now s keyed) (kept-IsKeyed now s keyed),
  )

  dropped :
      (x : String) (j : Job)
      → find x (kept now s keyed) ≡ some j
      → find x (reap now s).jobs ≡ none
      → 1 ≤ weigh (has_id x) (take overflow sorted)
  dropped x j e gone =
      omega (
        arith,
        find-counts x j (kept now s keyed) e,
        none-counts x (reap now s).jobs gone,
        counted x,
      )

  left :
      (y : String) (k : Job)
      → find y (reap now s).jobs ≡ some k
      → is_terminal k ≡ true
      → 1 ≤ weigh (has_id y) (drop overflow sorted)
  left y k e t = omega (
    arith,
    find-ends y k (kept now s keyed) (staying y k e) t,
    find-counts y k (reap now s).jobs e,
    counted y,
    kept-IsKeyed now s keyed y,
    weigh-take-drop (has_id y) overflow sorted,
    sort_onto-weigh (has_id y) finished_key [] (terminals (kept now s keyed)),
    terminals-ends y (kept now s keyed),
  )

  gone_ended :
      (x : String) (j : Job)
      → find x s.jobs ≡ some j
      → find x (reap now s).jobs ≡ none
      → is_terminal j ≡ true
  gone_ended x j e gone = elim (Bool-cases (is_terminal j)) [
    | inl t ↦ t
    | inr r ↦ cc (reap-find now s keyed x j e r, gone)
  ]

  -- If no two jobs of the store have one id, a job that goes at a reaping without being expired is
  -- finished, and finished no later than each finished job that stays.
  pub reap_order :
      (x y : String) (j k : Job)
      → find x s.jobs ≡ some j
      → is_expired now s.retention_sec j ≡ false
      → find x (reap now s).jobs ≡ none
      → find y (reap now s).jobs ≡ some k
      → is_terminal k ≡ true
      → (is_terminal j ≡ true) × (finished_key j ≤ finished_key k)
  reap_order x y j k e fresh gone stays t =
      let here = drop_expired-fresh now s.retention_sec x j s.jobs e fresh in
      (
        gone_ended x j e gone,
        take-drop finished_key x y (finished_key j) (finished_key k) overflow sorted
            (sort_onto-IsAscending finished_key [] (terminals (kept now s keyed)) tt)
            (dropped x j here gone) (same_key x j here) (left y k stays t)
            (same_key y k (staying y k stays)),
      )
