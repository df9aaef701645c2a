-- ===== src/JobTable.antt =====
-- src/claude_pool/jobs.py: a job, a task, and the operations on `_jobs` and `_tasks` as lists in the
-- order of these dicts.
use claude_code_cli_local_ga.Prelude.{
  ℕ, zero, suc, ◌-◌, String, Bool, true, false, ◌&&◌, Option, none, some, List, [], ◌∷◌, ltb, leb,
  str_eq, if◌then◌else◌,
}
use claude_code_cli_local_ga.Json.{Json}
use claude_code_cli_local_ga.Errors.{Failure}

pub data Status : Type 0 where
  running succeeded failed revoked : Status

pub record Job : Type 0 where
  pub id : String
  pub prompt_preview : String
  pub timeout_sec : ℕ
  pub status : Status
  pub created_at : ℕ
  pub finished_at : Option ℕ
  pub text : Json
  pub duration_ms : Json
  pub error : Json
  pub failure : Option Failure

abbrev pub is_terminal_status : Status → Bool
is_terminal_status running = false
is_terminal_status succeeded = true
is_terminal_status failed = true
is_terminal_status revoked = true

abbrev pub is_terminal : Job → Bool
is_terminal j = is_terminal_status j.status

abbrev pub prompt_preview_chars : ℕ
prompt_preview_chars = 80

-- `text[:n]`
unfoldable pub take_chars : ℕ → String → String
take_chars zero s = String.[]
take_chars (suc n) String.[] = String.[]
take_chars (suc n) (String.◌∷◌ c s) = String.◌∷◌ c (take_chars n s)

-- A task: created and not yet run, inside execute(), or over with its callback still to come.
pub data Phase : Type 0 where
  scheduled executing over : Phase

pub record Task : Type 0 where
  pub job_id : String
  pub phase : Phase

pub record JobStore : Type 0 where
  pub retention_sec : ℕ
  pub max_jobs : ℕ
  pub jobs : List Job
  pub tasks : List Task

-- `dict.get`
unfoldable pub find : String → List Job → Option Job
find id [] = none
find id (j ∷ js) = if str_eq j.id id then some j else find id js

unfoldable pub find_phase : String → List Task → Option Phase
find_phase id [] = none
find_phase id (t ∷ ts) = if str_eq t.job_id id then some t.phase else find_phase id ts

-- `dict[id] = job`: in place under an old key, at the end under a new one
unfoldable pub put : Job → List Job → List Job
put j [] = j ∷ []
put j (k ∷ ks) = if str_eq k.id j.id then j ∷ ks else k ∷ put j ks

unfoldable pub put_task : Task → List Task → List Task
put_task t [] = t ∷ []
put_task t (u ∷ us) = if str_eq u.job_id t.job_id then t ∷ us else u ∷ put_task t us

-- `del dict[id]`, and `dict.pop(id, None)`: a dict has one entry for a key
unfoldable pub delete : String → List Job → List Job
delete id [] = []
delete id (j ∷ js) = if str_eq j.id id then js else j ∷ delete id js

unfoldable pub delete_task : String → List Task → List Task
delete_task id [] = []
delete_task id (t ∷ ts) =
    let rest = delete_task id ts in if str_eq t.job_id id then rest else t ∷ rest

-- A write to the job object under an id.
unfoldable pub modify : String → (Job → Job) → List Job → List Job
modify id f [] = []
modify id f (j ∷ js) = if str_eq j.id id then f j ∷ js else j ∷ modify id f js

-- An insertion behind the entries with the same key, so that the sort below is stable.
unfoldable pub insert_by : (Job → ℕ) → Job → List Job → List Job
insert_by key j [] = j ∷ []
insert_by key j (k ∷ ks) = if leb (key k) (key j) then k ∷ insert_by key j ks else j ∷ k ∷ ks

-- `sorted(…, key=key)`: a stable sort, here by insertion from the left
unfoldable pub sort_onto : (Job → ℕ) → List Job → List Job → List Job
sort_onto key sorted [] = sorted
sort_onto key sorted (j ∷ js) = sort_onto key (insert_by key j sorted) js

unfoldable pub insert_desc : (Job → ℕ) → Job → List Job → List Job
insert_desc key j [] = j ∷ []
insert_desc key j (k ∷ ks) = if leb (key j) (key k) then k ∷ insert_desc key j ks else j ∷ k ∷ ks

-- `sorted(…, key=key, reverse=True)`, which keeps the order of equal keys too
unfoldable pub sort_desc_onto : (Job → ℕ) → List Job → List Job → List Job
sort_desc_onto key sorted [] = sorted
sort_desc_onto key sorted (j ∷ js) = sort_desc_onto key (insert_desc key j sorted) js

-- `job.finished_at or 0.0`
abbrev pub finished_key : Job → ℕ
finished_key j = elim j.finished_at [ none ↦ 0 | some t ↦ t ]

unfoldable pub is_expired : ℕ → ℕ → Job → Bool
is_expired now retention j =
    is_terminal j && elim j.finished_at [ none ↦ false | some t ↦ ltb retention (now - t) ]

-- The first loop of _reap.
unfoldable pub drop_expired : ℕ → ℕ → List Job → List Job
unfolding is_expired
drop_expired now retention [] = []
drop_expired now retention (j ∷ js) =
    let rest = drop_expired now retention js in
    if is_expired now retention j then rest else j ∷ rest

unfoldable pub terminals : List Job → List Job
terminals [] = []
terminals (j ∷ js) = if is_terminal j then j ∷ terminals js else terminals js

unfoldable pub delete_all : List Job → List Job → List Job
unfolding delete
delete_all [] js = js
delete_all (f ∷ fs) js = delete_all fs (delete f.id js)
