-- ===== src/Turn/Progress.antt =====
-- The progress on the cards of an execution: it touches neither the tables nor what was sent.
use memknow.Common.{
  ℕ, suc, ◌≡◌, refl, ap, ◌∙◌, not, ◌&&◌, List, [], ◌∷◌, Option, none, some, Text, if_keeps,
  is_empty,
}
use memknow.Card.Streamer.{ProgressEvent, Streamer}
use memknow.Feishu.Message.{IncomingMessage}
use memknow.Store.Tables.{Session}
use memknow.Turn.Chat.{Chat, Outside, Run}
use memknow.Turn.Execution.{
  Live, close_card, execute_with_streaming, handle_event, handle_events, is_tool_use, next_card,
  request, should_show_visible_progress, start_card,
}
use memknow.Turn.Kept.{Kept, Kept-quiet}
use memknow.Turn.Single.{IsSingle-same}

-- The progress of an execution leaves the store and what was sent.
pub record IsSame (c d : Chat) : Type 0 where
  same_store : d.store ≡ c.store
  same_outbox : d.outbox ≡ c.outbox

IsSame-trans : (c d e : Chat) → IsSame c d → IsSame d e → IsSame c e
IsSame-trans c d e k l = record {
  same_store = l.same_store ∙ k.same_store;
  same_outbox = l.same_outbox ∙ k.same_outbox;
}

IsSame-refl : (c : Chat) → IsSame c c
IsSame-refl c = record { same_store = refl; same_outbox = refl }

pub IsSame-Kept : {W : Type 0} (c d : Chat) → IsSame c d → Kept W c d
IsSame-Kept {W} c d k =
    Kept-quiet c d k.same_outbox
      (λ w v. IsSingle-same c.store d.store (ap (λ x. x.sessions) k.same_store) v)

module _ (o : Outside) where
  close_card-IsSame : (c : Chat) (s : Option Streamer) (now : ℕ) → IsSame c (close_card o c s now)
  unfolding close_card
  close_card-IsSame c none now = IsSame-refl c
  close_card-IsSame c (some s) now = record { same_store = refl; same_outbox = refl }

  start_card-IsSame : (c : Chat) (msg : IncomingMessage) → IsSame c (start_card o c msg).chat
  unfolding start_card
  start_card-IsSame c msg =
      if_keeps (λ (l : Live). IsSame c l.chat) (should_show_visible_progress o c msg) _ _
        (record { same_store = refl; same_outbox = refl }) (IsSame-refl c)

  handle_event-IsSame :
      (l : Live) (e : Option ProgressEvent) (now : ℕ) → IsSame l.chat (handle_event o l e now).chat
  unfolding handle_event next_card
  handle_event-IsSame l none now = IsSame-refl l.chat
  handle_event-IsSame l (some e) now =
      if_keeps (λ (l' : Live). IsSame l.chat l'.chat)
        (not (is_empty l.card_msg_id) && is_tool_use e.kind) (next_card o l now) l
        (let k = close_card-IsSame l.chat l.streamer now in
          record { same_store = k.same_store; same_outbox = k.same_outbox })
        (IsSame-refl l.chat)

  handle_events-IsSame :
      (l : Live) (es : List (ℕ × Option ProgressEvent)) → IsSame l.chat (handle_events o l es).chat
  unfolding handle_events
  handle_events-IsSame l [] = IsSame-refl l.chat
  handle_events-IsSame l ((now, e) ∷ es) =
      IsSame-trans l.chat (handle_event o l e now).chat _ (handle_event-IsSame l e now)
        (handle_events-IsSame (handle_event o l e now) es)

  pub execute_with_streaming-IsSame :
      (c : Chat) (sess : Session) (msg : IncomingMessage) (prompt : Text)
      → IsSame c (execute_with_streaming o c sess msg prompt).0.chat
  unfolding execute_with_streaming
  execute_with_streaming-IsSame c sess msg prompt =
      let l : Live = start_card o c msg in
      let run : Run = o.execute l.chat.runs (request o sess msg prompt) in
      let started : Live = record l { chat = record l.chat { runs = suc l.chat.runs } } in
      let l' : Live = handle_events o started run.events in
      let k = start_card-IsSame c msg in
      IsSame-trans c started.chat _
        (record { same_store = k.same_store; same_outbox = k.same_outbox })
        (IsSame-trans started.chat l'.chat _ (handle_events-IsSame started run.events)
          (close_card-IsSame l'.chat l'.streamer run.ended_at))
