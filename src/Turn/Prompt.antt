-- ===== src/Turn/Prompt.antt =====
-- internal/session/worker.go: preparePromptWithContext, with moveAttachments and
-- recordUserMessage.
use memknow.Common.{
  ℕ, suc, Bool, not, ◌&&◌, List, [], ◌∷◌, ◌++◌, Option, none, some, Text, codes, if◌then◌else◌,
  length, ◌==◌, join,
}
use memknow.Feishu.Message.{IncomingMessage}
use memknow.Recall.Retrieve.{recalled_prompt}
use memknow.Store.Persist.{record_message}
use memknow.Store.Sessions.{get_or_create_session, maybe_set_title}
use memknow.Store.Tables.{Message, Session, Store, user}
use memknow.Turn.Chat.{Chat, Outside, send_text}
use memknow.Worker.Attachments.{
  attachment_reply_text, file_prefix, image_prefix, is_attachment_only, replace_paths,
}

-- A session, the prompt with what was attached before, and that prompt with what was found for it.
pub record Prepared : Type 0 where
  pub session : Session
  pub original_prompt : Text
  pub full_prompt : Text

abbrev pub user_message : Session → IncomingMessage → Text → Text → Message
user_message sess msg prompt id = record {
  id = id;
  session_id = sess.id;
  sender_id = msg.sender_id;
  role = user;
  content = prompt;
  feishu_msg_id = msg.message_id;
  tool_call_id = [];
  tool_name = [];
  reasoning = [];
  token_count = 0;
  finish_reason = [];
  created_at = 0;
}

-- "- %s\n" for each memory.
unfoldable pub memory_lines : List Text → Text
memory_lines [] = []
memory_lines (m ∷ ms) = codes "- " ++ (m ++ (codes "\n" ++ memory_lines ms))

unfoldable pub with_memories : List Text → Text → Text
with_memories [] prompt = prompt
with_memories (m ∷ ms) prompt =
    codes "## 相关记忆\n\n" ++ (memory_lines (m ∷ ms) ++ (codes "\n" ++ prompt))

-- The prompts of attachments that wait come first.
unfoldable pub merge_pending : List Text → Text → Text
merge_pending [] prompt = prompt
merge_pending (p ∷ ps) prompt = join (p ∷ ps) (codes "\n") ++ (codes "\n" ++ prompt)

module _ (o : Outside) where
  unfoldable pub move_attachments : Text → Session → Text
  move_attachments prompt sess =
      let dir = o.attach_dir sess.id in
      let images = replace_paths (o.fresh image_prefix) o.rename dir 0 prompt image_prefix in
      replace_paths (o.fresh file_prefix) o.rename dir 0 images file_prefix

  unfoldable pub record_user_message : Store → Session → IncomingMessage → Text → ℕ → Store
  record_user_message st sess msg prompt now =
      record_message o.uuid o.write_ok (record st { drawn = suc st.drawn })
        (user_message sess msg prompt (o.uuid st.drawn)) now

  -- The title is set from the first message with a text.
  unfoldable pub title_session : Store → Session → Text → Store × Session
  title_session st sess prompt =
      if (length sess.title == 0) && not (is_attachment_only prompt)
      then maybe_set_title o.write_ok st sess prompt
      else (st, sess)

  -- A prompt of attachments alone waits for a text; a text takes all that wait with it.
  unfoldable pub prepare_with : Chat → IncomingMessage → Session → Text → ℕ → Chat × Option Prepared
  prepare_with c msg found prompt now =
      let (st, sess) =
        title_session (record_user_message c.store found msg prompt now) found prompt in
      let original = merge_pending c.pending_attachment_prompts prompt in
      let context =
        if o.has_retriever then recalled_prompt o.engine st o.channel_key original else [] in
      if is_attachment_only prompt
      then (
        send_text
            (record c {
              store = st;
              pending_attachment_prompts = c.pending_attachment_prompts ++ prompt ∷ [];
            })
            msg (attachment_reply_text prompt),
        none,
      )
      else (
        record c { store = st; pending_attachment_prompts = [] },
        some (record {
          session = sess;
          original_prompt = original;
          full_prompt = with_memories (o.memories original) (context ++ original);
        }),
      )

  unfoldable pub prepare_prompt_with_context :
      Chat → IncomingMessage → ℕ → Bool → Chat × Option Prepared
  prepare_prompt_with_context c msg now read_ok =
      let (st, r) =
        get_or_create_session o.uuid o.write_ok o.channel_key c.store msg.sender_id now read_ok in
      elim r [
        | none ↦ (record c { store = st }, none)
        | some sess ↦
            prepare_with (record c { store = st }) msg sess (move_attachments msg.prompt sess) now
      ]
