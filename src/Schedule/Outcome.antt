-- ===== src/Schedule/Outcome.antt =====
-- What a run of a schedule leaves in the tables.
use memknow.Common.{
  ℕ, suc, ◌≡◌, ◌≢◌, refl, sym, ap, ◌∙◌, Bool, true, List, [], ◌∷◌, ◌++◌, some, Text, arith,
  text_eq_iff, text_eq_self, All,
}
use memknow.Schedule.Runs.{
  Executed, LogStatus, RunTables, ScheduleLog, answered, archive_session, attempt, completed,
  create_log, create_schedule_session, ensure_schedule_channel, failed, finish_log, log_error,
  log_ok, mark_run, run_now, schedule_channel_key, schedule_session, send_result_text, settle, shut,
  started_log, update_logs,
}
use memknow.Schedule.Service.{Schedule}
use memknow.Store.Sessions.{remove_interactive}
use memknow.Store.Tables.{Session, update_session}

-- The last row alone has the id.
pub update_session-last :
    (id : Text) (f : Session → Session) (l : List Session) (s : Session)
    → All (λ x. x.id ≢ id) l
    → s.id ≡ id
    → update_session id f (l ++ s ∷ []) ≡ l ++ f s ∷ []
unfolding update_session
update_session-last id f [] s a e = rw (← e, text_eq_self s.id) refl
update_session-last id f (x ∷ l) s a e =
    ground (arith, text_eq_iff x.id id, update_session-last id f l s a.1 e, a.0)

update_logs-last :
    (id : Text) (f : ScheduleLog → ScheduleLog) (l : List ScheduleLog) (s : ScheduleLog)
    → All (λ x. x.id ≢ id) l
    → s.id ≡ id
    → update_logs id f (l ++ s ∷ []) ≡ l ++ f s ∷ []
unfolding update_logs
update_logs-last id f [] s a e = rw (← e, text_eq_self s.id) refl
update_logs-last id f (x ∷ l) s a e =
    ground (arith, text_eq_iff x.id id, update_logs-last id f l s a.1 e, a.0)

abbrev pub status_of : Executed → LogStatus
status_of (answered text) = log_ok
status_of (failed error) = log_error

abbrev pub text_of : Executed → Text
text_of (answered text) = text
text_of (failed error) = []

abbrev pub error_of : Executed → Text
error_of (answered text) = []
error_of (failed error) = error

module _ (uuid : ℕ → Text) (write_ok : ℕ → Bool) (all_ok : (n : ℕ) → write_ok n ≡ true) where
  send_result_text-same :
      (s : RunTables) (r : Schedule) (has_sender : Bool) (text : Text)
      → ((send_result_text uuid write_ok s r has_sender text).sessions ≡ s.sessions)
        × ((send_result_text uuid write_ok s r has_sender text).logs ≡ s.logs)
  unfolding send_result_text
  send_result_text-same s r has_sender text = ground arith

  ensure_schedule_channel-same :
      (s : RunTables) (key : Text) (r : Schedule) (app_id : Text) (now : ℕ)
      → let t = ensure_schedule_channel uuid write_ok s key r app_id now in
        (t.sessions ≡ s.sessions) × (t.logs ≡ s.logs) × (t.drawn ≡ s.drawn)
  unfolding ensure_schedule_channel attempt
  ensure_schedule_channel-same s key r app_id now = ground arith

  create_schedule_session-grows :
      (s : RunTables) (id key created_by : Text) (now : ℕ)
      → let t = create_schedule_session uuid write_ok s id key created_by now in
        (t.sessions ≡ s.sessions ++ schedule_session id key created_by now ∷ []) × (t.logs ≡ s.logs)
  unfolding create_schedule_session attempt
  create_schedule_session-grows s id key created_by now = rw (all_ok s.writes) (refl, refl)

  create_log-grows :
      (s : RunTables) (row : ScheduleLog)
      → let t = create_log uuid write_ok s row in
        (t.sessions ≡ s.sessions) × (t.logs ≡ s.logs ++ row ∷ [])
  unfolding create_log attempt
  create_log-grows s row = rw (all_ok s.writes) (refl, refl)

  settle_lem :
      (s : RunTables) (r : Schedule) (has_sender : Bool) (id log : Text) (x : Executed) (now : ℕ)
      (ss : List Session) (ls : List ScheduleLog) (fresh : Session) (row : ScheduleLog)
      → s.sessions ≡ ss ++ fresh ∷ []
      → s.logs ≡ ls ++ row ∷ []
      → All (λ y. y.id ≢ id) ss
      → All (λ y. y.id ≢ log) ls
      → fresh.id ≡ id
      → row.id ≡ log
      → let t = (settle uuid write_ok s r has_sender id log x now).0 in
        (t.sessions ≡ ss ++ shut now fresh ∷ [])
        × (t.logs ≡ ls ++ completed (status_of x) (text_of x) (error_of x) now row ∷ [])
  unfolding settle finish_log archive_session attempt mark_run
  settle_lem s r has_sender id log (failed error) now ss ls fresh row e e' a a' own own' = (
    rw (all_ok s.writes, all_ok (suc s.writes), e)
        (update_session-last id (shut now) ss fresh a own),
    rw (all_ok s.writes, all_ok (suc s.writes), e')
        (update_logs-last log (completed log_error [] error now) ls row a' own'),
  )
  settle_lem s r has_sender id log (answered text) now ss ls fresh row e e' a a' own own' =
      let removed : RunTables = record s { interactive = remove_interactive id s.interactive } in
      let sent : RunTables = send_result_text uuid write_ok removed r has_sender text in
      let same = send_result_text-same removed r has_sender text in
      (
        rw (all_ok sent.writes, all_ok (suc sent.writes), all_ok (suc (suc sent.writes)), same.0, e)
            (update_session-last id (shut now) ss fresh a own),
        rw
            (
              all_ok sent.writes,
              all_ok (suc sent.writes),
              all_ok (suc (suc sent.writes)),
              same.1,
              e',
            )
            (update_logs-last log (completed log_ok text [] now) ls row a' own'),
      )

  -- When the writes succeed and the ids are new, the run of a schedule leaves one session more,
  -- archived, and one log row more, completed, which says whether the execution succeeded, with its
  -- text or its error; the other rows of both tables are as they were.
  pub run_now_lem :
      (execute : Schedule → Executed) (s : RunTables) (r : Schedule) (app_id : Text)
      (has_sender : Bool) (now : ℕ)
      → All (λ y. y.id ≢ uuid s.drawn) s.sessions
      → All (λ y. y.id ≢ uuid (suc s.drawn)) s.logs
      → let t = (run_now uuid write_ok execute s r (some app_id) has_sender now).0 in
        let id = uuid s.drawn in
        let x = execute r in
        (t.sessions
          ≡ s.sessions
            ++ shut now (schedule_session id (schedule_channel_key r app_id) r.created_by now) ∷ [])
        × (t.logs
            ≡ s.logs
              ++ completed
                  (status_of x)
                  (text_of x)
                  (error_of x)
                  now
                  (started_log (uuid (suc s.drawn)) r.id id now)
                ∷ [])
  unfolding run_now
  run_now_lem execute s r app_id has_sender now a a' =
      let key : Text = schedule_channel_key r app_id in
      let s₁ : RunTables = ensure_schedule_channel uuid write_ok s key r app_id now in
      let (same, same', drawn) = ensure_schedule_channel-same s key r app_id now in
      let id : Text = uuid s₁.drawn in
      let log : Text = uuid (suc s₁.drawn) in
      let s₀ : RunTables = record s₁ { drawn = suc (suc s₁.drawn) } in
      let s₂ : RunTables = create_schedule_session uuid write_ok s₀ id key r.created_by now in
      let s₃ : RunTables = create_log uuid write_ok s₂ (started_log log r.id id now) in
      let made = create_schedule_session-grows s₀ id key r.created_by now in
      let logged = create_log-grows s₂ (started_log log r.id id now) in
      settle_lem (record s₃ { interactive = id ∷ s₃.interactive }) r has_sender id log (execute r)
        now s.sessions s.logs (schedule_session (uuid s.drawn) key r.created_by now)
        (started_log (uuid (suc s.drawn)) r.id (uuid s.drawn) now)
        (logged.0 ∙ made.0 ∙ rw (same, drawn) refl) (logged.1 ∙ rw (made.1, same', drawn) refl)
        (rw drawn a) (rw drawn a') (ap uuid (sym drawn)) (ap (λ n. uuid (suc n)) (sym drawn))
