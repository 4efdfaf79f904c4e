-- ===== src/Samples/Schedule.antt =====
-- Samples for internal/schedule.
use memknow.Common.{
  ℕ, ◌≡◌, ◌↔◌, refl, Bool, true, false, [], ◌∷◌, ◌++◌, none, some, Text, codes, length, differ,
  text_eq, fields, trim_space, All, lookup,
}
use memknow.Feishu.Message.{IncomingMessage}
use memknow.Schedule.Cron.{CronRune, is_valid_cron_expr, is_valid_cron_expr_iff}
use memknow.Schedule.Service.{
  Schedule, CreateInput, Service, find_row, drop_job, schedule_one, schedule_rows, bootstrap,
  create,
}
use memknow.Schedule.Plans.{registered, wanted, IsConsistent}
use memknow.Schedule.Jobs.{create-IsConsistent}
use memknow.Schedule.Startup.{bootstrap-IsConsistent}
use memknow.Schedule.Manage.{manage_from_message}
use memknow.Schedule.Outcome.{run_now_lem}
use memknow.Schedule.Runs.{
  Executed, LogStatus, RunTables, completed, run_now, schedule_channel_key, schedule_session, shut,
  started_log,
}
use memknow.Schedule.Ownership.{manage_from_message-foreign}

abbrev uuids : ℕ → Text
uuids n = n ∷ []

abbrev written : ℕ → Bool
written n = true

-- A scheduler that takes every expression, and one that takes none.
abbrev takes_all : Text → Bool
takes_all t = true

abbrev takes_none : Text → Bool
takes_none t = false

abbrev pub row : Schedule
row = record {
  id = codes "r";
  app_id = codes "a";
  name = codes "n";
  description = codes "d";
  cron_expr = codes "0 9 * * *";
  target_type = codes "p2p";
  target_id = codes "u";
  command = codes "c";
  enabled = true;
  created_by = codes "u";
  created_at = 3;
  updated_at = 3;
  last_run_at = none;
}

abbrev empty_service : Service
empty_service = record {
  rows = [];
  jobs = [];
  system_jobs = [];
  scheduler = [];
  next_job = 0;
  drawn = 0;
  writes = 0;
}

-- The service with one row and its job.
abbrev service : Service
service = record empty_service {
  rows = row ∷ [];
  jobs = (codes "r", record { job_id = 0; task = row }) ∷ [];
  scheduler = 0 ∷ [];
  next_job = 1;
}

abbrev input : CreateInput
input = record {
  app_id = codes "a";
  name = codes "n";
  description = codes "d";
  cron_expr = codes "0 8 * * *";
  target_type = codes "p2p";
  target_id = codes "u";
  command = codes "c";
  created_by = codes "u";
}

empty-IsConsistent : IsConsistent empty_service
unfolding registered wanted lookup find_row
empty-IsConsistent id = refl

is_valid_cron_expr_iff_example : (is_valid_cron_expr (codes "0 9 * * *") ≡ true) ↔ (
    (length (fields (trim_space (codes "0 9 * * *"))) ≡ 5)
    × All (All CronRune) (fields (trim_space (codes "0 9 * * *"))))
is_valid_cron_expr_iff_example = is_valid_cron_expr_iff (codes "0 9 * * *")

create-IsConsistent_example : IsConsistent (create takes_all uuids written empty_service input 5).0
create-IsConsistent_example =
    create-IsConsistent takes_all uuids written empty_service input 5 (unfold find_row in refl)
      (λ e. unfold create schedule_one in cc) empty-IsConsistent

bootstrap-IsConsistent_example :
    IsConsistent (bootstrap takes_all (record empty_service { rows = row ∷ [] })).0
bootstrap-IsConsistent_example =
    bootstrap-IsConsistent takes_all (record empty_service { rows = row ∷ [] }) refl
      (unfold find_row in (refl, tt))
      (unfold bootstrap schedule_rows schedule_one drop_job lookup in refl)

abbrev asked : IncomingMessage
asked = record {
  message_id = codes "om1";
  app_id = codes "a";
  channel_key = codes "p2p:oc1:a";
  chat_type = codes "p2p";
  chat_id = codes "oc1";
  thread_id = [];
  mentions_me = false;
  replies_to_me = false;
  names_me = false;
  sender_id = codes "v";
  prompt = codes "删除提醒 n";
  receive_id = codes "oc1";
  receive_type = codes "chat_id";
}

manage_from_message-foreign_example :
    find_row
      (codes "r")
      (manage_from_message
        (λ c. c)
        (λ t. none)
        (λ t. none)
        (λ t. none)
        takes_all
        uuids
        written
        service
        (codes "a")
        asked
        5
        true).0.rows
    ≡ some row
manage_from_message-foreign_example =
    manage_from_message-foreign (λ c. c) (λ t. none) (λ t. none) (λ t. none) takes_all uuids written
      service (codes "a") asked 5 true (codes "r") row (unfold find_row in (refl, tt))
      (unfold find_row text_eq in refl)
      (λ own. differ (codes "u") (codes "v") (unfold text_eq in refl) own.1)

abbrev run_tables : RunTables
run_tables = record {
  rows = row ∷ [];
  sessions = [];
  logs = [];
  channels = [];
  interactive = [];
  replies = [];
  drawn = 0;
  writes = 0;
}

run_now_lem_example :
    ((run_now uuids written
        (λ r. Executed.failed (codes "e"))
        run_tables
        row
        (some (codes "a"))
        true
        8).0.sessions
      ≡ []
        ++ shut 8 (schedule_session (0 ∷ []) (schedule_channel_key row (codes "a")) (codes "u") 8)
          ∷ [])
    × ((run_now uuids written
          (λ r. Executed.failed (codes "e"))
          run_tables
          row
          (some (codes "a"))
          true
          8).0.logs
        ≡ []
          ++ completed LogStatus.log_error []
              (codes "e")
              8
              (started_log (1 ∷ []) (codes "r") (0 ∷ []) 8)
            ∷ [])
run_now_lem_example =
    run_now_lem uuids written (λ n. refl) (λ r. Executed.failed (codes "e")) run_tables row
      (codes "a") true 8 tt tt
