-- ===== src/Turn/Chat.antt =====
-- internal/session/worker.go: what a worker holds and sends, and what it calls: sendResult,
-- replyError, replyCanceled and sendModeReply.
use memknow.Common.{ℕ, Bool, List, [], ◌∷◌, ◌++◌, Option, Text, codes, if◌then◌else◌, is_empty}
use memknow.Card.Streamer.{ProgressEvent, Streamer}
use memknow.Feishu.Message.{IncomingMessage}
use memknow.Recall.Search.{Engine}
use memknow.Recall.Summary.{Summarizer}
use memknow.Schedule.Manage.{Answer}
use memknow.Schedule.Service.{Schedule, Service, Result}
use memknow.Store.Persist.{ExecuteResult}
use memknow.Store.Tables.{Store, SessionType}

-- What the worker sends, apart from the progress on a card.
pub data Outgoing : Type 0 where
  -- SendText: whom to, in which kind of id, and what.
  text_sent : Text → Text → Text → Outgoing
  card_updated : Text → Text → Outgoing
  reaction_added : Text → Outgoing
  reaction_done : Text → Outgoing

-- claude.ExecuteRequest, without the paths and the app.
pub record Request : Type 0 where
  pub prompt : Text
  pub session_id : Text
  pub session_type : SessionType
  pub claude_session_id : Text
  pub sender_id : Text

-- What Execute returns: a result or nil, the error of a cancelled context with the text so far, or
-- another error.
pub data Outcome : Type 0 where
  finished : Option ExecuteResult → Outcome
  canceled : Text → Outcome
  failed : Text → Outcome

-- An execution: its events with their times, `none` where the debounce timer of the card goes off,
-- the time of its end and what it returns.
pub record Run : Type 0 where
  pub events : List (ℕ × Option ProgressEvent)
  pub ended_at : ℕ
  pub outcome : Outcome

-- The worker's state, with the tables, the schedules, what was sent (oldest first), the cards that
-- are closed, and the number of executions and of cards asked for.
pub record Chat : Type 0 where
  pub store : Store
  pub schedules : Service
  pub pending_attachment_prompts : List Text
  pub workspace_mode : Text
  pub outbox : List Outgoing
  pub cards : List Streamer
  pub runs : ℕ
  pub thinking : ℕ

-- What the worker calls: the channel it serves, UUIDs and the outcomes of writes; the directory of
-- a session's attachments, the UUIDs drawn for the markers with a prefix, and os.Rename; the
-- outcomes of SendText, SendThinking (the card's id, empty for an error) and UpdateCard; the
-- executor; the summarizer, the retriever with the database's searches, and the memories, which are
-- the texts of `retrieve_memories`; the probe's switch; the writer of the configuration (`some` is
-- an error's text); the manager of schedules, the interface
-- `scheduleManager`; lower case and JSON decoding.
pub record Outside : Type 0 where
  pub channel_key : Text
  pub uuid : ℕ → Text
  pub write_ok : ℕ → Bool
  pub attach_dir : Text → Text
  pub fresh : Text → ℕ → Text
  pub rename : Text → Text → Bool
  pub text_ok : ℕ → Bool
  pub thinking_id : ℕ → Text
  pub update_ok : ℕ → Bool
  pub execute : ℕ → Request → Run
  pub has_summarizer : Bool
  pub summarizer : Summarizer
  pub has_retriever : Bool
  pub engine : Engine
  pub memories : Text → List Text
  pub probe_enabled : Bool
  pub set_mode : Text → Option Text
  pub has_schedules : Bool
  pub create_by_message : Service → IncomingMessage → Service × Option (Result Schedule)
  pub manage_by_message : Service → IncomingMessage → Service × Answer
  pub error_text : Text
  pub table : ℕ → ℕ
  pub decode : Text → Option (List (Text × Text))

unfoldable pub put : Chat → Outgoing → Chat
put c x = record c { outbox = c.outbox ++ x ∷ [] }

unfoldable pub send_text : Chat → IncomingMessage → Text → Chat
send_text c msg body = put c (text_sent msg.receive_id msg.receive_type body)

-- The card with the id if there is one, or a text.
unfoldable pub answer_on : Chat → IncomingMessage → Text → Text → Chat
answer_on c msg card_msg_id body =
    if is_empty card_msg_id then send_text c msg body else put c (card_updated card_msg_id body)

-- Empty text: the language model chose not to respond.
unfoldable pub send_result : Chat → IncomingMessage → Text → Text → Chat
send_result c msg card_msg_id text = if is_empty text then c else answer_on c msg card_msg_id text

unfoldable pub reply_error : Chat → IncomingMessage → Text → Text → Chat
reply_error c msg card_msg_id error = answer_on c msg card_msg_id (codes "❌ 执行出错：" ++ error)

unfoldable pub reply_canceled : Chat → IncomingMessage → Text → Text → Chat
reply_canceled c msg card_msg_id partial =
    answer_on c msg card_msg_id
      (if is_empty partial then codes "已停止当前执行。" else partial ++ codes "\n\n〔已停止〕")
