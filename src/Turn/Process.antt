-- ===== src/Turn/Process.antt =====
-- internal/session/worker.go: process, with the probe and the interception of schedules.
use memknow.Common.{
  ℕ, suc, Bool, true, false, not, ◌&&◌, [], ◌++◌, none, some, Text, codes, if◌then◌else◌, text_eq,
  trim_space, length,
}
use memknow.Feishu.Message.{IncomingMessage, is_group_chat}
use memknow.Schedule.Manage.{Answer, replied}
use memknow.Schedule.Service.{err, ok}
use memknow.Store.Persist.{record_message}
use memknow.Store.Sessions.{cleanup_interactive_session}
use memknow.Store.Tables.{Message, Session, assistant, chat}
use memknow.Turn.Chat.{
  Chat, Outcome, Outgoing, Outside, Request, canceled, failed, finished, put, reply_canceled,
  reply_error, send_text,
}
use memknow.Turn.Commands.{handle_built_in_commands}
use memknow.Turn.Execution.{execute_with_streaming, finish_and_send_result}
use memknow.Turn.Prompt.{Prepared, prepare_prompt_with_context}

abbrev pub notice : Text → Text → Message
notice session_id reply = record {
  id = [];
  session_id = session_id;
  sender_id = [];
  role = assistant;
  content = reply;
  feishu_msg_id = [];
  tool_call_id = [];
  tool_name = [];
  reasoning = [];
  token_count = 0;
  finish_reason = [];
  created_at = 0;
}

unfoldable pub probe_session_id : IncomingMessage → Text
probe_session_id msg = codes "probe:" ++ (msg.channel_key ++ (codes ":" ++ msg.message_id))

-- The instructions around the message are part of the execution.
abbrev pub probe_request : IncomingMessage → Request
probe_request msg = record {
  prompt = msg.prompt;
  session_id = probe_session_id msg;
  session_type = chat;
  claude_session_id = [];
  sender_id = msg.sender_id;
}

-- What an interception of a schedule gives: it is none, it is handled, or it is an error.
pub data Handled : Type 0 where
  not_handled handled handled_error : Handled

module _ (o : Outside) where
  unfoldable pub should_probe : IncomingMessage → Bool
  should_probe msg =
      o.probe_enabled
      && is_group_chat msg.chat_type
      && not msg.mentions_me
      && not msg.replies_to_me
      && not msg.names_me

  unfoldable pub should_respond : Outcome → Bool
  should_respond (Outcome.canceled _) = true
  should_respond (Outcome.failed _) = true
  should_respond (Outcome.finished none) = false
  should_respond (Outcome.finished (some r)) = text_eq (trim_space r.text) (codes "RESPOND")

  -- The probe's session is removed whatever it returns; an error lets the message through.
  unfoldable pub should_proceed_after_probe : Chat → IncomingMessage → Chat × Bool
  should_proceed_after_probe c msg =
      let run = o.execute c.runs (probe_request msg) in
      if should_probe msg
      then (
        record c {
          runs = suc c.runs;
          store = cleanup_interactive_session c.store (probe_session_id msg);
        },
        should_respond run.outcome,
      )
      else (c, true)

  -- The reply about a schedule, which is recorded if it was sent.
  unfoldable pub reply_about : Chat → Session → IncomingMessage → Text → ℕ → Chat × Handled
  reply_about c sess msg reply now =
      let c' = send_text c msg reply in
      if o.text_ok (length c.outbox)
      then (
        record c' { store = record_message o.uuid o.write_ok c'.store (notice sess.id reply) now },
        handled,
      )
      else (c', handled_error)

  unfoldable pub maybe_create_schedule : Chat → Session → IncomingMessage → ℕ → Chat × Handled
  maybe_create_schedule c sess msg now =
      let (schedules, created) = o.create_by_message c.schedules msg in
      let c' = record c { schedules = schedules } in
      if o.has_schedules
      then elim created [
        | none ↦ (c', not_handled)
        | some err ↦ (c', handled_error)
        | some (ok r) ↦
            reply_about c' sess msg
              (codes "✅ 已创建定时任务「" ++ (r.name ++ (codes "」\n执行频率：`" ++ (r.cron_expr ++ codes "`"))))
              now
      ]
      else (c, not_handled)

  unfoldable pub maybe_manage_schedule : Chat → Session → IncomingMessage → ℕ → Chat × Handled
  maybe_manage_schedule c sess msg now =
      let (schedules, answer) = o.manage_by_message c.schedules msg in
      let c' = record c { schedules = schedules } in
      if o.has_schedules
      then elim answer [
        | Answer.not_handled ↦ (c', not_handled)
        | Answer.failed ↦ (c', handled_error)
        | replied reply ↦ reply_about c' sess msg reply now
      ]
      else (c, not_handled)

  -- Both see the prompt without what was found for it.
  unfoldable pub intercept_schedule_ops :
      Chat → Session → IncomingMessage → Text → ℕ → Chat × Handled
  intercept_schedule_ops c sess msg original now =
      let plain = record msg { prompt = original } in
      let (c', created) = maybe_create_schedule c sess plain now in
      elim created [
        | not_handled ↦ maybe_manage_schedule c' sess plain now
        | handled ↦ (c', handled)
        | handled_error ↦ (c', handled_error)
      ]

  unfoldable pub run_prompt : Chat → Prepared → IncomingMessage → ℕ → Bool → Chat
  run_prompt c p msg now read_ok =
      let (l, outcome) = execute_with_streaming o c p.session msg p.full_prompt in
      elim outcome [
        | canceled partial ↦ reply_canceled l.chat msg l.card_msg_id partial
        | failed error ↦ reply_error l.chat msg l.card_msg_id error
        | finished r ↦ finish_and_send_result o l p.session msg r p.original_prompt now read_ok
      ]

  unfoldable pub process_prepared : Chat → Prepared → IncomingMessage → ℕ → Bool → Chat
  process_prepared c p msg now read_ok =
      let (c', intercepted) = intercept_schedule_ops c p.session msg p.original_prompt now in
      elim intercepted [
        | handled ↦ c'
        | handled_error ↦ reply_error c' msg [] o.error_text
        | not_handled ↦ run_prompt c' p msg now read_ok
      ]

  -- Between the two reactions.
  unfoldable pub respond : Chat → IncomingMessage → ℕ → Bool → Chat
  respond c msg now read_ok =
      let (c', proceed) = should_proceed_after_probe c msg in
      let (c'', prepared) = prepare_prompt_with_context o c' msg now read_ok in
      if proceed
      then elim prepared [ none ↦ c'' | some p ↦ process_prepared c'' p msg now read_ok ]
      else c'

  unfoldable pub process : Chat → IncomingMessage → ℕ → Bool → Chat
  process c msg now read_ok =
      let (c', built_in) = handle_built_in_commands o c msg (trim_space msg.prompt) now read_ok in
      if built_in
      then c'
      else put (respond (put c (Outgoing.reaction_added msg.message_id)) msg now read_ok)
          (Outgoing.reaction_done msg.message_id)
