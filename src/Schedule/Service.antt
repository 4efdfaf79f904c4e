-- ===== src/Schedule/Service.antt =====
-- internal/schedule/service.go: the table of schedules, the map of jobs and the scheduler's own
-- jobs. `accepts` says which cron expressions the scheduler (gocron) takes; it takes others than
-- isValidCronExpr does.
use memknow.Common.{
  ℕ, suc, Bool, true, false, List, [], ◌∷◌, ◌++◌, Option, none, some, Text, codes, ◌==◌,
  if◌then◌else◌, text_eq, trim_space, lookup, insert, remove,
}
use memknow.Feishu.Message.{IncomingMessage}

pub record Schedule : Type 0 where
  pub id : Text
  pub app_id : Text
  pub name : Text
  pub description : Text
  pub cron_expr : Text
  pub target_type : Text
  pub target_id : Text
  pub command : Text
  pub enabled : Bool
  pub created_by : Text
  pub created_at : ℕ
  pub updated_at : ℕ
  pub last_run_at : Option ℕ

pub record CreateInput : Type 0 where
  pub app_id : Text
  pub name : Text
  pub description : Text
  pub cron_expr : Text
  pub target_type : Text
  pub target_id : Text
  pub command : Text
  pub created_by : Text

-- A job of the scheduler: its id, and the schedule as it was when the job was made.
pub record Job : Type 0 where
  pub job_id : ℕ
  pub task : Schedule

pub record Service : Type 0 where
  pub rows : List Schedule
  pub jobs : List (Text × Job)
  pub system_jobs : List (Text × ℕ)
  pub scheduler : List ℕ
  pub next_job : ℕ
  pub drawn : ℕ
  pub writes : ℕ

-- `(value, error)`.
pub data Result {ℓ} (A : Type ℓ) : Type ℓ where
  ok : A → Result A
  err : Result A

-- ResolveDefaults: the target's type and id.
unfoldable pub resolve_target : IncomingMessage → Text × Text
resolve_target msg =
    if text_eq msg.chat_type (codes "p2p")
    then (codes "p2p", msg.sender_id)
    else (codes "group", msg.chat_id)

-- RemoveJob of the scheduler.
unfoldable pub remove_job : ℕ → List ℕ → List ℕ
remove_job id [] = []
remove_job id (j ∷ l) = if j == id then remove_job id l else j ∷ remove_job id l

-- The job of a schedule is taken out of the scheduler and out of the map.
unfoldable pub drop_job : Service → Text → Service
drop_job s id = elim (lookup id s.jobs) [
  | none ↦ s
  | some job ↦ record s { scheduler = remove_job job.job_id s.scheduler; jobs = remove id s.jobs }
]

unfoldable pub find_row : Text → List Schedule → Option Schedule
find_row id [] = none
find_row id (r ∷ l) = if text_eq r.id id then some r else find_row id l

unfoldable pub delete_rows : Text → List Schedule → List Schedule
delete_rows id [] = []
delete_rows id (r ∷ l) = if text_eq r.id id then delete_rows id l else r ∷ delete_rows id l

unfoldable pub update_rows : Text → (Schedule → Schedule) → List Schedule → List Schedule
update_rows id f [] = []
update_rows id f (r ∷ l) = (if text_eq r.id id then f r else r) ∷ update_rows id f l

unfoldable pub new_schedule : Text → CreateInput → ℕ → Schedule
new_schedule id i now = record {
  id = id;
  app_id = i.app_id;
  name = trim_space i.name;
  description = trim_space i.description;
  cron_expr = trim_space i.cron_expr;
  target_type = trim_space i.target_type;
  target_id = trim_space i.target_id;
  command = trim_space i.command;
  enabled = true;
  created_by = trim_space i.created_by;
  created_at = now;
  updated_at = now;
  last_run_at = none;
}

module _ (accepts : Text → Bool) where
  -- Any old job goes first, also where the new one is refused.
  unfoldable pub schedule_one : Service → Schedule → Service × Bool
  schedule_one s r =
      let s' = drop_job s r.id in
      let job : Job = record { job_id = s'.next_job; task = r } in
      if accepts r.cron_expr
      then (
        record s' {
          scheduler = job.job_id ∷ s'.scheduler;
          jobs = insert r.id job s'.jobs;
          next_job = suc s'.next_job;
        },
        true,
      )
      else (s', false)

  unfoldable pub add_system_job : Service → Text → Text → Service × Bool
  add_system_job s name cron_expr =
      let s' = elim (lookup name s.system_jobs) as (λ _. Service) [
        | none ↦ s
        | some old ↦ record s {
          scheduler = remove_job old s.scheduler;
          system_jobs = remove name s.system_jobs;
        }
      ] in
      if accepts cron_expr
      then (
        record s' {
          scheduler = s'.next_job ∷ s'.scheduler;
          system_jobs = insert name s'.next_job s'.system_jobs;
          next_job = suc s'.next_job;
        },
        true,
      )
      else (s', false)

  -- The loop of Bootstrap over the enabled rows: it stops at the first error.
  unfoldable pub schedule_rows : Service → List Schedule → Service × Bool
  schedule_rows s [] = (s, true)
  schedule_rows s (r ∷ l) =
      let (s', scheduled) = schedule_one s r in
      let after = schedule_rows s' l in
      let rest = schedule_rows s l in
      if r.enabled then (if scheduled then after else (s', false)) else rest

  unfoldable pub bootstrap : Service → Service × Bool
  bootstrap s = schedule_rows s s.rows

  module _ (uuid : ℕ → Text) (write_ok : ℕ → Bool) where
    -- The row is written first; where the scheduler refuses the job it stays.
    unfoldable pub create : Service → CreateInput → ℕ → Service × Result Schedule
    create s i now =
        let r = new_schedule (uuid s.drawn) i now in
        let s' = record s { drawn = suc s.drawn; writes = suc s.writes } in
        let (s'', scheduled) = schedule_one (record s' { rows = s.rows ++ r ∷ [] }) r in
        if write_ok s.writes then (s'', if scheduled then ok r else err) else (s', err)

    -- The job goes also where the deletion of the row fails.
    unfoldable pub delete : Service → Text → Service × Bool
    delete s id =
        let s' = drop_job s id in
        let tried = record s' { writes = suc s'.writes } in
        if write_ok s'.writes
        then (record tried { rows = delete_rows id s'.rows }, true)
        else (tried, false)

    -- `change` is the map of the columns to be set.
    unfoldable pub update : Service → Text → (Schedule → Schedule) → Service × Bool
    update s id change =
        let s' = record s { writes = suc s.writes; rows = update_rows id change s.rows } in
        if write_ok s.writes
        then elim (find_row id s'.rows) [
          | none ↦ (s', false)
          | some r ↦ if r.enabled then schedule_one s' r else (drop_job s' id, true)
        ]
        else (record s { writes = suc s.writes }, false)
