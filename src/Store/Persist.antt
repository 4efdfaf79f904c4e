-- ===== src/Store/Persist.antt =====
-- internal/session/worker.go: persistResult and recordMessage.
use memknow.Common.{
  ℕ, suc, ◌+◌, Bool, not, ◌&&◌, ◌||◌, List, [], ◌∷◌, ◌++◌, Text, codes, if◌then◌else◌, is_empty,
  ltb, decimal,
}
use memknow.Store.Tables.{
  Session, Store, Message, MessageToolCall, assistant, tool, update_session, write,
}

-- claude.ToolUseRecord and claude.ExecuteResult; `has_cost` says that CostUSD is positive.
pub record ToolUseRecord : Type 0 where
  pub name : Text
  pub input : Text
  pub output : Text

pub record ExecuteResult : Type 0 where
  pub text : Text
  pub claude_session_id : Text
  pub has_cost : Bool
  pub reasoning : Text
  pub tool_uses : List ToolUseRecord
  pub input_tokens : ℕ
  pub output_tokens : ℕ
  pub cache_read_tokens : ℕ
  pub cache_write_tokens : ℕ
  pub model : Text
  pub finish_reason : Text

-- `len(updates) > 1`: there is more to write than the time.
unfoldable pub has_updates : Session → ExecuteResult → Bool
has_updates sess r =
    not (is_empty r.claude_session_id)
    || ltb 0 r.input_tokens
    || ltb 0 r.output_tokens
    || ltb 0 r.cache_read_tokens
    || ltb 0 r.cache_write_tokens
    || r.has_cost
    || (not (is_empty r.model) && is_empty sess.model)

-- The update of the row. The model is written if the session in memory has none.
unfoldable pub apply_result : Session → ExecuteResult → ℕ → Session → Session
apply_result sess r now row = record row {
  updated_at = now;
  claude_session_id =
      if is_empty r.claude_session_id then row.claude_session_id else r.claude_session_id;
  input_tokens = row.input_tokens + r.input_tokens;
  output_tokens = row.output_tokens + r.output_tokens;
  cache_read_tokens = row.cache_read_tokens + r.cache_read_tokens;
  cache_write_tokens = row.cache_write_tokens + r.cache_write_tokens;
  model = if not (is_empty r.model) && is_empty sess.model then r.model else row.model;
}

-- "call_%d".
unfoldable pub call_id : ℕ → Text
call_id i = codes "call_" ++ decimal i

abbrev pub assistant_message : Session → ExecuteResult → Text → Message
assistant_message sess r id = record {
  id = id;
  session_id = sess.id;
  sender_id = [];
  role = assistant;
  content = r.text;
  feishu_msg_id = [];
  tool_call_id = [];
  tool_name = [];
  reasoning = r.reasoning;
  token_count = r.output_tokens;
  finish_reason = r.finish_reason;
  created_at = 0;
}

abbrev pub tool_message : Text → ToolUseRecord → ℕ → Text → Message
tool_message session_id t i id = record {
  id = id;
  session_id = session_id;
  sender_id = [];
  role = tool;
  content = t.output;
  feishu_msg_id = [];
  tool_call_id = call_id i;
  tool_name = t.name;
  reasoning = [];
  token_count = 0;
  finish_reason = [];
  created_at = 0;
}

abbrev pub tool_call_row : Text → Text → ToolUseRecord → ℕ → Text → ℕ → MessageToolCall
tool_call_row session_id message_id t i id now = record {
  id = id;
  session_id = session_id;
  message_id = message_id;
  call_id = call_id i;
  name = t.name;
  input = t.input;
  output = t.output;
  order_index = i;
  created_at = now;
}

module _ (uuid : ℕ → Text) (write_ok : ℕ → Bool) where
  -- A message with no id gets the next UUID; the time is filled in.
  unfoldable pub record_message : Store → Message → ℕ → Store
  record_message st m now =
      let named = is_empty m.id in
      let row = record m { id = if named then uuid st.drawn else m.id; created_at = now } in
      let st' = record st { drawn = if named then suc st.drawn else st.drawn } in
      write write_ok st' (λ x. record x { messages = x.messages ++ row ∷ [] })

  unfoldable pub record_call : Store → Text → Text → ToolUseRecord → ℕ → ℕ → Store
  record_call st session_id message_id t i now =
      let row = tool_call_row session_id message_id t i (uuid st.drawn) now in
      write write_ok (record st { drawn = suc st.drawn })
        (λ x. record x { tool_calls = x.tool_calls ++ row ∷ [] })

  unfoldable pub record_output : Store → Text → ToolUseRecord → ℕ → ℕ → Store
  record_output st session_id t i now =
      if is_empty t.output
      then st
      else record_message (record st { drawn = suc st.drawn })
          (tool_message session_id t i (uuid st.drawn)) now

  -- The row of a tool call, and a message for its output if there is one.
  unfoldable pub record_tool_use : Store → Text → Text → ToolUseRecord → ℕ → ℕ → Store
  record_tool_use st session_id message_id t i now =
      record_output (record_call st session_id message_id t i now) session_id t i now

  unfoldable pub record_tool_uses : Store → Text → Text → List ToolUseRecord → ℕ → ℕ → Store
  record_tool_uses st session_id message_id [] i now = st
  record_tool_uses st session_id message_id (t ∷ ts) i now =
      record_tool_uses (record_tool_use st session_id message_id t i now) session_id message_id ts
        (suc i) now

  unfoldable pub update_metadata : Store → Session → ExecuteResult → ℕ → Store
  update_metadata st sess r now =
      if has_updates sess r
      then write write_ok st
          (λ x. record x { sessions = update_session sess.id (apply_result sess r now) x.sessions })
      else st

  unfoldable pub persist_result : Store → Session → ExecuteResult → ℕ → Store
  persist_result st sess r now =
      let st₁ = update_metadata st sess r now in
      let id = uuid st₁.drawn in
      let st₂ =
        record_message (record st₁ { drawn = suc st₁.drawn }) (assistant_message sess r id) now in
      record_tool_uses st₂ sess.id id r.tool_uses 0 now
