-- ===== src/Turn/Bracket.antt =====
-- A turn from its start to its end: the reactions around it, what it sends between them, and the
-- sessions it leaves.
use memknow.Common.{
  ℕ, suc, ◌≡◌, refl, ◌∙◌, Bool, true, false, List, [], ◌∷◌, ◌++◌, Option, none, some, Text,
  append_assoc, if_keeps, length, trim_space, Option-cases, inl, inr, ◌⊎◌,
}
use memknow.Feishu.Message.{IncomingMessage}
use memknow.Schedule.Manage.{Answer, replied}
use memknow.Schedule.Service.{Schedule, Result, Service, err, ok}
use memknow.Store.Active.{IsSingle}
use memknow.Store.Persist.{record_message}
use memknow.Store.Sessions.{cleanup_interactive_session}
use memknow.Store.Tables.{Session}
use memknow.Turn.Chat.{
  Chat, Outcome, Outgoing, Outside, put, reply_canceled, reply_error, send_text,
}
use memknow.Turn.Commands.{handle_built_in_commands}
use memknow.Turn.Execution.{Live, execute_with_streaming}
use memknow.Turn.Kept.{
  Kept, Kept-quiet, Kept-refl, Kept-trans, answer_on-Kept, handle_built_in_commands-Kept,
  prepare_prompt_with_context-Kept, put-Kept, send_text-Kept,
}
use memknow.Turn.Process.{
  Handled, handled, handled_error, intercept_schedule_ops, maybe_create_schedule,
  maybe_manage_schedule, not_handled, probe_session_id, process, process_prepared, reply_about,
  respond, run_prompt, should_proceed_after_probe, should_probe, notice,
}
use memknow.Turn.Prompt.{Prepared, prepare_prompt_with_context}
use memknow.Turn.Single.{IsSingle-same, record_message-sessions}
use memknow.Turn.Progress.{IsSame-Kept, execute_with_streaming-IsSame}
use memknow.Turn.Answers.{Outcome-cases, finish_and_send_result-Kept}

Result-cases :
    (x : Option (Result Schedule))
    → (x ≡ none) ⊎ ((x ≡ some err) ⊎ ((r : Schedule) × (x ≡ some (ok r))))
Result-cases none = inl refl
Result-cases (some err) = inr (inl refl)
Result-cases (some (ok r)) = inr (inr (r, refl))

Answer-cases :
    (a : Answer) → (a ≡ Answer.not_handled) ⊎ ((a ≡ Answer.failed) ⊎ ((t : Text) × (a ≡ replied t)))
Answer-cases Answer.not_handled = inl refl
Answer-cases Answer.failed = inr (inl refl)
Answer-cases (replied t) = inr (inr (t, refl))

Handled-cases : (h : Handled) → (h ≡ not_handled) ⊎ ((h ≡ handled) ⊎ (h ≡ handled_error))
Handled-cases not_handled = inl refl
Handled-cases handled = inr (inl refl)
Handled-cases handled_error = inr (inr refl)

module _ (o : Outside) (W : Type 0) (all_ok : W → (n : ℕ) → o.write_ok n ≡ true) where
  reply_about-Kept :
      (c : Chat) (sess : Session) (msg : IncomingMessage) (reply : Text) (now : ℕ)
      → Kept W c (reply_about o c sess msg reply now).0
  unfolding reply_about
  reply_about-Kept c sess msg reply now =
      let d : Chat = send_text c msg reply in
      let kept : Kept W c d = send_text-Kept c msg reply in
      if_keeps (λ (x : Chat × Handled). Kept W c x.0) (o.text_ok (length c.outbox)) _ _
        (Kept-trans c d _ kept (
          Kept-quiet d
            (record d {
              store = record_message o.uuid o.write_ok d.store (notice sess.id reply) now;
            })
            refl
            (λ w.
              IsSingle-same d.store
                (record_message o.uuid o.write_ok d.store (notice sess.id reply) now)
                (record_message-sessions o.uuid o.write_ok d.store (notice sess.id reply) now))))
        kept

  maybe_create_schedule-Kept :
      (c : Chat) (sess : Session) (msg : IncomingMessage) (now : ℕ)
      → Kept W c (maybe_create_schedule o c sess msg now).0
  unfolding maybe_create_schedule
  maybe_create_schedule-Kept c sess msg now =
      let created : Service × Option (Result Schedule) = o.create_by_message c.schedules msg in
      let d : Chat = record c { schedules = created.0 } in
      let kept : Kept W c d = Kept-quiet c d refl (λ w v. v) in
      if_keeps (λ (x : Chat × Handled). Kept W c x.0) o.has_schedules _ _
        (elim (Result-cases created.1) [
          | inl e ↦ rw e kept
          | inr (inl e) ↦ rw e kept
          | inr (inr (r, e)) ↦ rw e (Kept-trans c d _ kept (reply_about-Kept d sess msg _ now))
        ])
        (Kept-refl c)

  maybe_manage_schedule-Kept :
      (c : Chat) (sess : Session) (msg : IncomingMessage) (now : ℕ)
      → Kept W c (maybe_manage_schedule o c sess msg now).0
  unfolding maybe_manage_schedule
  maybe_manage_schedule-Kept c sess msg now =
      let managed : Service × Answer = o.manage_by_message c.schedules msg in
      let d : Chat = record c { schedules = managed.0 } in
      let kept : Kept W c d = Kept-quiet c d refl (λ w v. v) in
      if_keeps (λ (x : Chat × Handled). Kept W c x.0) o.has_schedules _ _
        (elim (Answer-cases managed.1) [
          | inl e ↦ rw e kept
          | inr (inl e) ↦ rw e kept
          | inr (inr (reply, e)) ↦
              rw e (Kept-trans c d _ kept (reply_about-Kept d sess msg reply now))
        ])
        (Kept-refl c)

  intercept_schedule_ops-Kept :
      (c : Chat) (sess : Session) (msg : IncomingMessage) (original : Text) (now : ℕ)
      → Kept W c (intercept_schedule_ops o c sess msg original now).0
  unfolding intercept_schedule_ops
  intercept_schedule_ops-Kept c sess msg original now =
      let plain : IncomingMessage = record msg { prompt = original } in
      let created : Chat × Handled = maybe_create_schedule o c sess plain now in
      let kept : Kept W c created.0 = maybe_create_schedule-Kept c sess plain now in
      elim (Handled-cases created.1) [
        | inl e ↦
            rw (e, intercept_schedule_ops)
              (Kept-trans c created.0 _ kept (maybe_manage_schedule-Kept created.0 sess plain now))
        | inr (inl e) ↦ rw (e, intercept_schedule_ops) kept
        | inr (inr e) ↦ rw (e, intercept_schedule_ops) kept
      ]

  run_prompt-Kept :
      (c : Chat) (p : Prepared) (msg : IncomingMessage) (now : ℕ) (read_ok : Bool)
      → Kept W c (run_prompt o c p msg now read_ok)
  unfolding run_prompt reply_canceled reply_error
  run_prompt-Kept c p msg now read_ok =
      let ran : Live × Outcome = execute_with_streaming o c p.session msg p.full_prompt in
      let kept : Kept W c ran.0.chat =
        IsSame-Kept c ran.0.chat (execute_with_streaming-IsSame o c p.session msg p.full_prompt) in
      elim (Outcome-cases ran.1) [
        | inl (r, e) ↦
            rw (e, run_prompt)
              (Kept-trans c ran.0.chat _ kept (
                finish_and_send_result-Kept o W all_ok ran.0 p.session msg r p.original_prompt now
                  read_ok))
        | inr (inl (t, e)) ↦
            rw (e, run_prompt) (Kept-trans c ran.0.chat _ kept (answer_on-Kept ran.0.chat msg _ _))
        | inr (inr (t, e)) ↦
            rw (e, run_prompt) (Kept-trans c ran.0.chat _ kept (answer_on-Kept ran.0.chat msg _ _))
      ]

  process_prepared-Kept :
      (c : Chat) (p : Prepared) (msg : IncomingMessage) (now : ℕ) (read_ok : Bool)
      → Kept W c (process_prepared o c p msg now read_ok)
  unfolding process_prepared reply_error
  process_prepared-Kept c p msg now read_ok =
      let tried : Chat × Handled = intercept_schedule_ops o c p.session msg p.original_prompt now in
      let kept : Kept W c tried.0 =
        intercept_schedule_ops-Kept c p.session msg p.original_prompt now in
      elim (Handled-cases tried.1) [
        | inl e ↦
            rw (e, process_prepared)
              (Kept-trans c tried.0 _ kept (run_prompt-Kept tried.0 p msg now read_ok))
        | inr (inl e) ↦ rw (e, process_prepared) kept
        | inr (inr e) ↦
            rw (e, process_prepared) (Kept-trans c tried.0 _ kept (answer_on-Kept tried.0 msg _ _))
      ]

  should_proceed_after_probe-Kept :
      (c : Chat) (msg : IncomingMessage) → Kept W c (should_proceed_after_probe o c msg).0
  unfolding should_proceed_after_probe cleanup_interactive_session
  should_proceed_after_probe-Kept c msg =
      if_keeps (λ (x : Chat × Bool). Kept W c x.0) (should_probe o msg) _ _
        (Kept-quiet c
          (record c {
            runs = suc c.runs;
            store = cleanup_interactive_session c.store (probe_session_id msg);
          })
          refl (λ w v. v))
        (Kept-refl c)

  respond-Kept :
      (c : Chat) (msg : IncomingMessage) (now : ℕ) (read_ok : Bool)
      → Kept W c (respond o c msg now read_ok)
  unfolding respond
  respond-Kept c msg now read_ok =
      let probed : Chat × Bool = should_proceed_after_probe o c msg in
      let prepared : Chat × Option Prepared =
        prepare_prompt_with_context o probed.0 msg now read_ok in
      let kept : Kept W c probed.0 = should_proceed_after_probe-Kept c msg in
      let kept' : Kept W c prepared.0 =
        Kept-trans c probed.0 prepared.0 kept
          (prepare_prompt_with_context-Kept o W all_ok probed.0 msg now read_ok) in
      if_keeps (Kept W c) probed.1 _ _
        (elim (Option-cases prepared.1) [
          | inl e ↦ rw e kept'
          | inr (p, e) ↦
              rw e (
                Kept-trans c prepared.0 _ kept'
                  (process_prepared-Kept prepared.0 p msg now read_ok))
        ])
        kept

  process-Kept :
      (c : Chat) (msg : IncomingMessage) (now : ℕ) (read_ok : Bool)
      → Kept W c (process o c msg now read_ok)
  unfolding process
  process-Kept c msg now read_ok =
      let seen : Chat = put c (Outgoing.reaction_added msg.message_id) in
      let done : Chat = respond o seen msg now read_ok in
      if_keeps (Kept W c) (handle_built_in_commands o c msg (trim_space msg.prompt) now read_ok).1 _
        _ (handle_built_in_commands-Kept o W all_ok c msg (trim_space msg.prompt) now read_ok)
        (Kept-trans c seen _ (put-Kept c _)
          (Kept-trans seen done _ (respond-Kept seen msg now read_ok) (put-Kept done _)))

-- A whole turn, whatever the message is and whatever the language model, the summarizer and the
-- schedules answer, leaves one active session at most in every channel, if the database takes
-- every write.
pub process-IsSingle :
    (o : Outside)
    → ((n : ℕ) → o.write_ok n ≡ true)
    → (c : Chat) (msg : IncomingMessage) (now : ℕ) (read_ok : Bool) → IsSingle c.store
    → IsSingle (process o c msg now read_ok).store
process-IsSingle o all_ok c msg now read_ok v =
    (process-Kept o Unit (λ w. all_ok) c msg now read_ok).single tt v

-- A message that is no command is acknowledged before anything else is sent and marked as done
-- after everything else, on every path: whatever the database takes or refuses, whatever it finds,
-- and whatever the language model, the schedules and the summarizer answer, errors too. What was
-- sent before stays.
pub process-reactions :
    (o : Outside) (c : Chat) (msg : IncomingMessage) (now : ℕ) (read_ok : Bool)
    → (handle_built_in_commands o c msg (trim_space msg.prompt) now read_ok).1 ≡ false
    → (sent : List Outgoing) × ((process o c msg now read_ok).outbox
        ≡ c.outbox
          ++ Outgoing.reaction_added msg.message_id
            ∷ (sent ++ Outgoing.reaction_done msg.message_id ∷ []))
unfolding process put
process-reactions o c msg now read_ok plain =
    let seen : Chat = put c (Outgoing.reaction_added msg.message_id) in
    let kept = respond-Kept o ⊥ (λ w. elim w [ ]) seen msg now read_ok in
    (
      kept.sent.0,
      rw plain (
          rw kept.sent.1 (
            append_assoc (c.outbox ++ Outgoing.reaction_added msg.message_id ∷ []) kept.sent.0
              (Outgoing.reaction_done msg.message_id ∷ [])
            ∙ append_assoc c.outbox (Outgoing.reaction_added msg.message_id ∷ [])
                (kept.sent.0 ++ Outgoing.reaction_done msg.message_id ∷ []))),
    )
