-- ===== src/Schedule/Runs.antt =====
-- internal/schedule/service.go: runNow, the run of a schedule by its job, with ensureChannel,
-- createSession, finishLog and archiveSession. `execute` is the executor on the schedule's command,
-- which keeps a process for the run's session; times are one reading of the clock.
use memknow.Common.{
  ℕ, suc, Bool, true, false, List, [], ◌∷◌, ◌++◌, Option, none, some, Text, codes, if◌then◌else◌,
  is_empty, lookup, insert, text_eq,
}
use memknow.Feishu.Message.{receive_id_type}
use memknow.Manager.Dispatch.{ChannelRow, Reply}
use memknow.Schedule.Service.{Schedule, update_rows}
use memknow.Store.Sessions.{fresh_session, remove_interactive}
use memknow.Store.Tables.{Session, SessionType, archived, update_session}

pub data LogStatus : Type 0 where
  log_ok log_error : LogStatus

pub record ScheduleLog : Type 0 where
  pub id : Text
  pub schedule_id : Text
  pub session_id : Text
  pub status : LogStatus
  pub result_text : Text
  pub error_message : Text
  pub started_at : ℕ
  pub completed_at : Option ℕ

-- The tables that a run writes, the processes of the executor, and what was sent.
pub record RunTables : Type 0 where
  pub rows : List Schedule
  pub sessions : List Session
  pub logs : List ScheduleLog
  pub channels : List (Text × ChannelRow)
  pub interactive : List Text
  pub replies : List Reply
  pub drawn : ℕ
  pub writes : ℕ

-- What the executor returns: the text of its result, or the text of an error.
pub data Executed : Type 0 where
  answered failed : Text → Executed

unfoldable pub schedule_channel_key : Schedule → Text → Text
schedule_channel_key r app_id =
    codes "schedule:" ++ (r.target_type ++ (codes ":" ++ (r.target_id ++ (codes ":" ++ app_id))))

abbrev pub schedule_session : Text → Text → Text → ℕ → Session
schedule_session id key created_by now = record (fresh_session id key created_by [] now) {
  session_type = SessionType.schedule;
}

abbrev pub started_log : Text → Text → Text → ℕ → ScheduleLog
started_log id schedule_id session_id now = record {
  id = id;
  schedule_id = schedule_id;
  session_id = session_id;
  status = log_ok;
  result_text = [];
  error_message = [];
  started_at = now;
  completed_at = none;
}

unfoldable pub update_logs :
    Text → (ScheduleLog → ScheduleLog) → List ScheduleLog → List ScheduleLog
update_logs id f [] = []
update_logs id f (l ∷ ls) = (if text_eq l.id id then f l else l) ∷ update_logs id f ls

abbrev pub completed : LogStatus → Text → Text → ℕ → ScheduleLog → ScheduleLog
completed status text error now row = record row {
  status = status;
  result_text = text;
  error_message = error;
  completed_at = some now;
}

abbrev pub shut : ℕ → Session → Session
shut now s = record s { status = archived; updated_at = now }

module _ (uuid : ℕ → Text) (write_ok : ℕ → Bool) where
  -- A statement that fails is only logged.
  unfoldable pub attempt : RunTables → (RunTables → RunTables) → RunTables
  attempt s change =
      let s' = if write_ok s.writes then change s else s in record s' { writes = suc s.writes }

  -- FirstOrCreate: an old row stays as it is.
  unfoldable pub ensure_schedule_channel : RunTables → Text → Schedule → Text → ℕ → RunTables
  ensure_schedule_channel s key r app_id now = elim (lookup key s.channels) [
    | some row ↦ s
    | none ↦ attempt s (λ x. record x {
      channels =
          insert key
            (record {
              app_id = app_id;
              chat_type = r.target_type;
              chat_id = r.target_id;
              thread_id = [];
              updated_at = now;
            })
            x.channels;
    })
  ]

  unfoldable pub create_schedule_session : RunTables → Text → Text → Text → ℕ → RunTables
  create_schedule_session s id key created_by now =
      attempt s
        (λ x. record x { sessions = x.sessions ++ schedule_session id key created_by now ∷ [] })

  unfoldable pub create_log : RunTables → ScheduleLog → RunTables
  create_log s row = attempt s (λ x. record x { logs = x.logs ++ row ∷ [] })

  unfoldable pub finish_log : RunTables → Text → LogStatus → Text → Text → ℕ → RunTables
  finish_log s id status text error now =
      attempt s (λ x. record x { logs = update_logs id (completed status text error now) x.logs })

  unfoldable pub archive_session : RunTables → Text → ℕ → RunTables
  archive_session s id now =
      attempt s (λ x. record x { sessions = update_session id (shut now) x.sessions })

  -- The text goes to the target if there is one and the app has a sender.
  unfoldable pub send_result_text : RunTables → Schedule → Bool → Text → RunTables
  send_result_text s r has_sender text =
      if is_empty text
      then s
      else if has_sender
      then record s {
        replies =
            s.replies
            ++ record {
              receive_id = r.target_id;
              receive_type = receive_id_type r.target_type r.target_id;
              body = text;
            }
              ∷ [];
      }
      else s

  unfoldable pub mark_run : RunTables → Text → ℕ → RunTables
  mark_run s id now = attempt s (λ x. record x {
    rows = update_rows id (λ row. record row { last_run_at = some now; updated_at = now }) x.rows;
  })

  -- What follows the execution of the session `id` with the log row `log`.
  unfoldable pub settle :
      RunTables → Schedule → Bool → Text → Text → Executed → ℕ → RunTables × Bool
  settle s r has_sender id log (failed error) now =
      (archive_session (finish_log s log log_error [] error now) id now, false)
  settle s r has_sender id log (answered text) now =
      let removed = record s { interactive = remove_interactive id s.interactive } in
      let marked = mark_run (send_result_text removed r has_sender text) r.id now in
      (archive_session (finish_log marked log log_ok text [] now) id now, true)

  -- `app` is the id of the schedule's app where that is known.
  unfoldable pub run_now :
      (Schedule → Executed) → RunTables → Schedule → Option Text → Bool → ℕ → RunTables × Bool
  run_now execute s r none has_sender now = (s, false)
  run_now execute s r (some app_id) has_sender now =
      let key = schedule_channel_key r app_id in
      let s₁ = ensure_schedule_channel s key r app_id now in
      let id = uuid s₁.drawn in
      let log = uuid (suc s₁.drawn) in
      let s₂ =
        create_schedule_session (record s₁ { drawn = suc (suc s₁.drawn) }) id key r.created_by
          now in
      let s₃ = create_log s₂ (started_log log r.id id now) in
      settle (record s₃ { interactive = id ∷ s₃.interactive }) r has_sender id log (execute r) now
