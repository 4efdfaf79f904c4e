-- ===== src/Store/Tables.antt =====
-- internal/model/models.go: the rows, and the database as a worker sees it. A write is one
-- statement: it takes effect as a whole or fails and changes nothing, which `write_ok` says by the
-- number of writes before it. Times are readings of the clock.
use memknow.Common.{
  ℕ, suc, Bool, true, false, ◌&&◌, List, [], ◌∷◌, Option, none, some, Text, if◌then◌else◌, text_eq,
  ltb, ◌==◌, ◌||◌,
}

pub data Status : Type 0 where
  active archived : Status

pub data SessionType : Type 0 where
  chat heartbeat schedule : SessionType

-- model.Session, without the estimated cost, which is a float.
pub record Session : Type 0 where
  pub id : Text
  pub channel_key : Text
  pub session_type : SessionType
  pub claude_session_id : Text
  pub status : Status
  pub created_by : Text
  pub title : List ℕ
  pub parent_session_id : Text
  pub input_tokens : ℕ
  pub output_tokens : ℕ
  pub cache_read_tokens : ℕ
  pub cache_write_tokens : ℕ
  pub model : Text
  pub created_at : ℕ
  pub updated_at : ℕ

pub data Role : Type 0 where
  user assistant tool : Role

pub record Message : Type 0 where
  pub id : Text
  pub session_id : Text
  pub sender_id : Text
  pub role : Role
  pub content : Text
  pub feishu_msg_id : Text
  pub tool_call_id : Text
  pub tool_name : Text
  pub reasoning : Text
  pub token_count : ℕ
  pub finish_reason : Text
  pub created_at : ℕ

pub record MessageToolCall : Type 0 where
  pub id : Text
  pub session_id : Text
  pub message_id : Text
  pub call_id : Text
  pub name : Text
  pub input : Text
  pub output : Text
  pub order_index : ℕ
  pub created_at : ℕ

pub record SessionSummary : Type 0 where
  pub id : Text
  pub session_id : Text
  pub channel_key : Text
  pub content : Text
  pub created_at : ℕ

-- The tables, oldest row first; the sessions that have a process of the interactive executor; the
-- number of UUIDs drawn and of writes tried.
pub record Store : Type 0 where
  pub sessions : List Session
  pub messages : List Message
  pub tool_calls : List MessageToolCall
  pub summaries : List SessionSummary
  pub interactive : List Text
  pub drawn : ℕ
  pub writes : ℕ

abbrev pub is_active : Status → Bool
is_active active = true
is_active archived = false

-- `channel_key = ? AND status = 'active'`.
abbrev pub is_active_in : Text → Session → Bool
is_active_in key s = text_eq s.channel_key key && is_active s.status

-- The order of texts in SQLite, and in Go.
unfoldable pub text_ltb : Text → Text → Bool
text_ltb [] [] = false
text_ltb [] (b ∷ t) = true
text_ltb (a ∷ s) [] = false
text_ltb (a ∷ s) (b ∷ t) = ltb a b || (a == b && text_ltb s t)

-- Whether a row comes before another under `ORDER BY created_at DESC, id`.
abbrev pub comes_before : Session → Session → Bool
comes_before s t =
    ltb t.created_at s.created_at || (s.created_at == t.created_at && text_ltb s.id t.id)

abbrev pub better : Session → Option Session → Option Session
better s none = some s
better s (some t) = if comes_before s t then some s else some t

-- `Order("created_at DESC").First`, over the active sessions of a channel.
unfoldable pub find_active : Text → List Session → Option Session
find_active key [] = none
find_active key (s ∷ l) =
    let rest = find_active key l in if is_active_in key s then better s rest else rest

-- The number of active sessions of a channel.
unfoldable pub count_active : Text → List Session → ℕ
count_active key [] = 0
count_active key (s ∷ l) =
    if is_active_in key s then suc (count_active key l) else count_active key l

-- `Updates` of the status of all active sessions of a channel.
unfoldable pub archive_all : Text → ℕ → List Session → List Session
archive_all key now [] = []
archive_all key now (s ∷ l) =
    (if is_active_in key s then record s { status = archived; updated_at = now } else s)
    ∷ archive_all key now l

-- A change of the rows with an id.
unfoldable pub update_session : Text → (Session → Session) → List Session → List Session
update_session id f [] = []
update_session id f (s ∷ l) = (if text_eq s.id id then f s else s) ∷ update_session id f l

module _ (write_ok : ℕ → Bool) where
  -- Whether the next write succeeds.
  unfoldable pub next_ok : Store → Bool
  next_ok st = write_ok st.writes

  unfoldable pub write : Store → (Store → Store) → Store
  write st change =
      let st' = if write_ok st.writes then change st else st in
      record st' { writes = suc st.writes }
