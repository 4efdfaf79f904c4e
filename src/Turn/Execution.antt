-- ===== src/Turn/Execution.antt =====
-- internal/session/worker.go: executeWithStreaming and finishAndSendResult.
use memknow.Common.{
  ℕ, suc, Bool, true, false, not, ◌&&◌, List, [], ◌∷◌, ◌++◌, Option, none, some, Text, codes,
  if◌then◌else◌, is_empty, text_eq,
}
use memknow.Card.Streamer.{
  ProgressEvent, ProgressKind, Streamer, close, flush_pending_debounced, new_compact_card_streamer,
  on_progress, render_final_with_progress,
}
use memknow.Feishu.Message.{IncomingMessage, is_group_chat}
use memknow.Recall.Summary.{summarize}
use memknow.Store.Persist.{ExecuteResult, persist_result}
use memknow.Store.Sessions.{create_summary, handle_new_silent}
use memknow.Store.Tables.{Session}
use memknow.Turn.Chat.{
  Chat, Outcome, Outside, canceled, failed, finished, Request, reply_error, send_result,
}
use memknow.Turn.Commands.{normalized_workspace_mode}

abbrev pub is_tool_use : ProgressKind → Bool
is_tool_use ProgressKind.tool_use = true
is_tool_use _ = false

-- What executeWithStreaming hands on: the chat, the card's id and the card's streamer if any.
pub record Live : Type 0 where
  pub chat : Chat
  pub card_msg_id : Text
  pub streamer : Option Streamer

module _ (o : Outside) where
  -- A streamer that is given up is kept with the cards.
  unfoldable pub close_card : Chat → Option Streamer → ℕ → Chat
  close_card c none now = c
  close_card c (some s) now = record c { cards = c.cards ++ close o.update_ok s now ∷ [] }

  unfoldable pub should_show_visible_progress : Chat → IncomingMessage → Bool
  should_show_visible_progress c msg =
      not (text_eq (normalized_workspace_mode c.workspace_mode) (codes "companion"))
      && not (is_group_chat msg.chat_type)

  -- The first card, if there is to be one.
  unfoldable pub start_card : Chat → IncomingMessage → Live
  start_card c msg =
      let id = o.thinking_id c.thinking in
      let asked = record c { thinking = suc c.thinking } in
      if should_show_visible_progress c msg
      then record {
        chat = asked;
        card_msg_id = id;
        streamer = if is_empty id then none else some (new_compact_card_streamer id);
      }
      else record { chat = c; card_msg_id = []; streamer = none }

  -- A tool use closes the card and opens the next one, or the same again if the next one could not
  -- be posted.
  unfoldable pub next_card : Live → ℕ → Live
  next_card l now =
      let c = close_card l.chat l.streamer now in
      let next = o.thinking_id c.thinking in
      let id = if is_empty next then l.card_msg_id else next in
      record {
        chat = record c { thinking = suc c.thinking };
        card_msg_id = id;
        streamer = some (new_compact_card_streamer id);
      }

  -- The streamer of the new state sees the event; no event: its timer goes off.
  unfoldable pub stream : Option Streamer → Option ProgressEvent → ℕ → Option Streamer
  stream none e now = none
  stream (some s) none now = some (flush_pending_debounced o.update_ok s now)
  stream (some s) (some e) now = some (on_progress o.update_ok o.table o.decode s false e now)

  unfoldable pub handle_event : Live → Option ProgressEvent → ℕ → Live
  handle_event l none now = record l { streamer = stream l.streamer none now }
  handle_event l (some e) now =
      let l' = if not (is_empty l.card_msg_id) && is_tool_use e.kind then next_card l now else l in
      record l' { streamer = stream l'.streamer (some e) now }

  unfoldable pub handle_events : Live → List (ℕ × Option ProgressEvent) → Live
  handle_events l [] = l
  handle_events l ((now, e) ∷ es) = handle_events (handle_event l e now) es

  unfoldable pub request : Session → IncomingMessage → Text → Request
  request sess msg prompt = record {
    prompt = prompt;
    session_id = sess.id;
    session_type = sess.session_type;
    claude_session_id = sess.claude_session_id;
    sender_id = msg.sender_id;
  }

  unfoldable pub execute_with_streaming : Chat → Session → IncomingMessage → Text → Live × Outcome
  execute_with_streaming c sess msg prompt =
      let l = start_card c msg in
      let run = o.execute l.chat.runs (request sess msg prompt) in
      let started = record l { chat = record l.chat { runs = suc l.chat.runs } } in
      let l' = handle_events started run.events in
      (
        record l' {
          chat = close_card l'.chat l'.streamer run.ended_at;
          streamer = elim l'.streamer [
            | none ↦ none
            | some s ↦ some (close o.update_ok s run.ended_at)
          ];
        },
        run.outcome,
      )

  abbrev pub empty_reply : Text
  empty_reply = codes "AI 返回为空，可能是会话上下文过长。请发送 /new 开启新会话后重试"

  -- The second try, in the new session: `none` if it gave no text.
  unfoldable pub retry : Chat → Session → IncomingMessage → Text → Text → ℕ → Chat × Option Text
  retry c sess msg summary original now =
      let prompt = codes "## 前序会话摘要\n" ++ (summary ++ (codes "\n\n## 用户问题\n" ++ original)) in
      let run = o.execute c.runs (request sess msg prompt) in
      let c' = record c { runs = suc c.runs } in
      elim run.outcome [
        | canceled _ ↦ (c', none)
        | failed _ ↦ (c', none)
        | finished none ↦ (c', none)
        | finished (some r) ↦ if is_empty r.text then (c', none) else (
          record c' { store = persist_result o.uuid o.write_ok c'.store sess r now },
          some r.text,
        )
      ]

  -- The session is summarized, a new one takes its place, and the prompt is tried again there.
  unfoldable pub recover : Chat → Session → IncomingMessage → Text → ℕ → Bool → Chat × Option Text
  recover c sess msg original now read_ok = elim (summarize o.summarizer c.store sess.id) [
    | none ↦ (c, none)
    | some summary ↦
        if is_empty summary
        then (c, none)
        else let st = create_summary o.uuid o.write_ok o.channel_key c.store sess.id summary now in
          let (st', made) =
            handle_new_silent o.uuid o.write_ok o.channel_key st msg.sender_id now read_ok in
          elim made [
            | none ↦ (record c { store = st' }, none)
            | some sess' ↦ retry (record c { store = st' }) sess' msg summary original now
          ]
  ]

  unfoldable pub final_text : Text → Option Streamer → ExecuteResult → Text
  final_text card_msg_id none r = r.text
  final_text card_msg_id (some s) r =
      let composed = render_final_with_progress s r.text in
      if not (is_empty card_msg_id) && not s.saw_tool_use && not (is_empty composed)
      then composed
      else r.text

  unfoldable pub finish_and_send_result :
      Live → Session → IncomingMessage → Option ExecuteResult → Text → ℕ → Bool → Chat
  finish_and_send_result l sess msg none original now read_ok = l.chat
  finish_and_send_result l sess msg (some r) original now read_ok =
      let c = record l.chat { store = persist_result o.uuid o.write_ok l.chat.store sess r now } in
      let (c', again) = recover c sess msg original now read_ok in
      if is_empty r.text && o.has_summarizer
      then elim again [
        | none ↦ reply_error c' msg l.card_msg_id empty_reply
        | some text ↦ send_result c' msg l.card_msg_id text
      ]
      else send_result c msg l.card_msg_id (final_text l.card_msg_id l.streamer r)
