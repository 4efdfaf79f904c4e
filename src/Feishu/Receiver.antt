-- ===== src/Feishu/Receiver.antt =====
-- internal/feishu/receiver.go: handleMessage, which decides whether a message is dispatched, with
-- the flags of who is addressed, and AllowedChat of internal/config/config.go. `fold` is the case
-- folding of runes and `is_word` the class `[\p{L}\p{N}_-]` of the regular expression.
use memknow.Common.{
  ℕ, Bool, true, false, not, ◌&&◌, ◌||◌, List, [], ◌∷◌, Option, none, some, Text, codes, ◌==◌,
  if◌then◌else◌, is_empty, text_eq, trim_space, to_lower,
}
use memknow.Feishu.Message.{IncomingMessage, build_channel_key, is_group_chat, reply_target}

-- larkim.MentionEvent and EventMessage: what may be nil is an option, and a missing text is empty
-- where the source reads it by `safeStr`.
pub record MentionEvent : Type 0 where
  pub open_id : Option Text

pub record EventMessage : Type 0 where
  pub message_id : Text
  pub chat_type : Text
  pub chat_id : Text
  pub thread_id : Text
  pub parent_id : Option Text
  pub mentions : List MentionEvent
  pub sender_open_id : Text

-- The sender of a message that is replied to.
pub record ParentSender : Type 0 where
  pub sender_type : Text
  pub id : Text
  pub id_type : Text

-- The app's configuration and the ids of all bots.
pub record ReceiverConfig : Type 0 where
  pub app_id : Text
  pub feishu_app_id : Text
  pub allowed_chats : List Text
  pub bot_ids : List Text

unfoldable pub has_text : List Text → Text → Bool
has_text [] t = false
has_text (x ∷ xs) t = text_eq x t || has_text xs t

abbrev pub no_texts : List Text → Bool
no_texts [] = true
no_texts (_ ∷ _) = false

unfoldable pub allowed_chat : List Text → Text → Bool
allowed_chat allowed chat_id = no_texts allowed || has_text allowed chat_id

unfoldable pub normalize_mentions : List MentionEvent → List Text
normalize_mentions [] = []
normalize_mentions (m ∷ ms) =
    let rest = normalize_mentions ms in
    elim m.open_id [
      | none ↦ rest
      | some id ↦ let open_id = trim_space id in if is_empty open_id then rest else open_id ∷ rest
    ]

unfoldable pub message_mentions_bot : EventMessage → Text → Bool
message_mentions_bot msg bot_open_id =
    let mentions = normalize_mentions msg.mentions in
    let id = trim_space bot_open_id in
    if not (is_empty id) then has_text mentions id else not (no_texts mentions)

-- The id of the message that is replied to, if there is one.
unfoldable pub parent_of : EventMessage → Option Text
parent_of msg = elim msg.parent_id [
  | none ↦ none
  | some id ↦ let parent = trim_space id in if is_empty parent then none else some parent
]

unfoldable pub is_bot_sender : ReceiverConfig → Text → ParentSender → Bool
is_bot_sender cfg bot_open_id p =
    let id = trim_space p.id in
    let id_type = trim_space p.id_type in
    if not (text_eq p.sender_type (codes "app"))
    then false
    else if text_eq id_type (codes "app_id")
    then not (is_empty id) && text_eq id (trim_space cfg.feishu_app_id)
    else if text_eq id_type (codes "open_id") || is_empty id_type
    then (if is_empty (trim_space bot_open_id)
        then not (is_empty id)
        else text_eq id (trim_space bot_open_id))
    else false

unfoldable pub should_ignore_for_other_mention : EventMessage → Bool → Bool
should_ignore_for_other_mention msg mentions_me =
    if mentions_me
    then false
    else is_group_chat msg.chat_type && not (no_texts (normalize_mentions msg.mentions))

abbrev pub is_reply : Option Text → Bool
is_reply none = false
is_reply (some _) = true

unfoldable pub should_ignore_for_other_reply : EventMessage → Bool → Bool
should_ignore_for_other_reply msg replies_to_me =
    if replies_to_me || not (is_reply (parent_of msg)) then false else is_group_chat msg.chat_type

unfoldable pub should_ignore_for_other_name : Text → Bool → Bool → Bool
should_ignore_for_other_name chat_type names_me names_other =
    if names_me || not names_other then false else is_group_chat chat_type

module _ (table : ℕ → ℕ) (fold : ℕ → ℕ) (is_word : ℕ → Bool) where
  -- The id at the start of the text, and no word behind it.
  unfoldable pub matches_here : Text → Text → Bool
  matches_here [] [] = true
  matches_here [] (c ∷ s) = not (is_word c)
  matches_here (b ∷ id) [] = false
  matches_here (b ∷ id) (c ∷ s) = (fold b == fold c) && matches_here id s

  -- `bounded`: no word stands before the text.
  unfoldable pub matches_from : Text → Bool → Text → Bool
  matches_from id bounded [] = bounded && matches_here id []
  matches_from id bounded (c ∷ s) =
      (bounded && matches_here id (c ∷ s)) || matches_from id (not (is_word c)) s

  unfoldable pub contains_standalone_bot_id : Text → Text → Bool
  contains_standalone_bot_id text bot_id =
      let t = trim_space text in
      let id = to_lower table (trim_space bot_id) in
      if is_empty t || is_empty id then false else matches_from id true t

  unfoldable pub names_other_bot : Text → Text → List Text → Bool
  names_other_bot prompt current [] = false
  names_other_bot prompt current (b ∷ bs) =
      let id = trim_space (to_lower table b) in
      let rest = names_other_bot prompt current bs in
      if is_empty id || text_eq id current
      then rest
      else if contains_standalone_bot_id prompt id
      then true
      else rest

  unfoldable pub name_target_flags : ReceiverConfig → Text → Text → Bool × Bool
  name_target_flags cfg prompt chat_type =
      let current = trim_space (to_lower table cfg.app_id) in
      if not (is_group_chat chat_type) || is_empty current
      then (false, false)
      else (contains_standalone_bot_id prompt current, names_other_bot prompt current cfg.bot_ids)

  -- `bot_open_id` is the bot's own id, empty if it could not be found out; `lookup_parent` finds the
  -- sender of a message.
  module _ (cfg : ReceiverConfig) (bot_open_id : Text)
      (lookup_parent : Text → Option ParentSender) where
    unfoldable pub is_reply_to_bot : EventMessage → Bool
    is_reply_to_bot msg = elim (parent_of msg) [
      | none ↦ false
      | some id ↦ elim (lookup_parent id) [
        | none ↦ false
        | some p ↦ is_bot_sender cfg bot_open_id p
      ]
    ]

    unfoldable pub direct_address_flags : EventMessage → Bool × Bool
    direct_address_flags msg =
        if is_group_chat msg.chat_type
        then (message_mentions_bot msg bot_open_id, is_reply_to_bot msg)
        else (false, false)

    -- `parsed` is what parseContent returns, `none` for an error. The result is the message that is
    -- dispatched.
    unfoldable pub handle_message : EventMessage → Option Text → Option IncomingMessage
    handle_message msg none = none
    handle_message msg (some prompt) =
        let (receive_id, receive_type) =
          reply_target msg.chat_type msg.chat_id msg.sender_open_id in
        let (mentions_me, replies_to_me) = direct_address_flags msg in
        let (names_me, names_other) = name_target_flags cfg prompt msg.chat_type in
        if not (allowed_chat cfg.allowed_chats msg.chat_id)
        then none
        else if is_empty prompt
        then none
        else if should_ignore_for_other_mention msg mentions_me
        then none
        else if should_ignore_for_other_reply msg replies_to_me
        then none
        else if should_ignore_for_other_name msg.chat_type names_me names_other
        then none
        else some (record {
          app_id = cfg.app_id;
          channel_key = build_channel_key msg.chat_type msg.chat_id msg.thread_id cfg.app_id;
          chat_type = msg.chat_type;
          chat_id = msg.chat_id;
          thread_id = msg.thread_id;
          mentions_me = mentions_me;
          replies_to_me = replies_to_me;
          names_me = names_me;
          sender_id = msg.sender_open_id;
          message_id = msg.message_id;
          prompt = prompt;
          receive_id = receive_id;
          receive_type = receive_type;
        })
