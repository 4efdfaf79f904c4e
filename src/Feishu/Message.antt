-- ===== src/Feishu/Message.antt =====
-- internal/feishu/receiver.go: IncomingMessage, the kinds of chats and the channel keys.
use memknow.Common.{Bool, ◌++◌, Text, codes, if◌then◌else◌, text_eq, has_prefix, ◌||◌}

pub record IncomingMessage : Type 0 where
  pub app_id : Text
  pub channel_key : Text
  pub chat_type : Text
  pub chat_id : Text
  pub thread_id : Text
  pub mentions_me : Bool
  pub replies_to_me : Bool
  pub names_me : Bool
  pub sender_id : Text
  pub message_id : Text
  pub prompt : Text
  pub receive_id : Text
  pub receive_type : Text

-- `case "group", "topic_group", "topic"`, as the handlers test it.
unfoldable pub is_group_chat : Text → Bool
is_group_chat chat_type =
    text_eq chat_type (codes "group")
    || text_eq chat_type (codes "topic_group")
    || text_eq chat_type (codes "topic")

unfoldable pub build_channel_key : Text → Text → Text → Text → Text
build_channel_key chat_type chat_id thread_id app_id =
    if text_eq chat_type (codes "p2p")
    then codes "p2p:" ++ (chat_id ++ (codes ":" ++ app_id))
    else if text_eq chat_type (codes "topic_group") || text_eq chat_type (codes "topic")
    then codes "thread:" ++ (chat_id ++ (codes ":" ++ (thread_id ++ (codes ":" ++ app_id))))
    else codes "group:" ++ (chat_id ++ (codes ":" ++ app_id))

unfoldable pub receive_id_type : Text → Text → Text
receive_id_type target_type target_id =
    if text_eq target_type (codes "p2p")
    then (if has_prefix target_id (codes "oc_") then codes "chat_id" else codes "open_id")
    else codes "chat_id"

unfoldable pub reply_target : Text → Text → Text → Text × Text
reply_target chat_type chat_id sender_open_id =
    if text_eq chat_type (codes "p2p")
    then (sender_open_id, codes "open_id")
    else (chat_id, codes "chat_id")
