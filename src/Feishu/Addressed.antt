-- ===== src/Feishu/Addressed.antt =====
-- Which messages of a group reach the manager.
use memknow.Common.{
  ℕ, ◌≡◌, ◌↔◌, ◌⊎◌, Bool, true, false, not, ◌&&◌, List, [], ◌∷◌, Option, none, some, Text, arith,
  is_empty,
}
use memknow.Feishu.Message.{IncomingMessage, is_group_chat}
use memknow.Feishu.Receiver.{
  EventMessage, ParentSender, ReceiverConfig, allowed_chat, direct_address_flags, handle_message,
  is_reply, message_mentions_bot, is_reply_to_bot, name_target_flags, no_texts, normalize_mentions,
  parent_of, should_ignore_for_other_mention, should_ignore_for_other_name,
  should_ignore_for_other_reply,
}

abbrev pub is_dispatched : Option IncomingMessage → Bool
is_dispatched none = false
is_dispatched (some m) = true

no_texts_iff : (l : List Text) → (no_texts l ≡ true) ↔ (l ≡ [])
no_texts_iff [] = ground arith
no_texts_iff (t ∷ l) = ground arith

is_reply_iff : (p : Option Text) → (is_reply p ≡ false) ↔ (p ≡ none)
is_reply_iff none = ground arith
is_reply_iff (some t) = ground arith

module _ (table : ℕ → ℕ) (fold : ℕ → ℕ) (is_word : ℕ → Bool) (cfg : ReceiverConfig)
    (bot_open_id : Text) (lookup_parent : Text → Option ParentSender) where
  -- The conditions as they stand in the code.
  handle_message-tests :
      (msg : EventMessage) (prompt : Text)
      → is_dispatched
          (handle_message table fold is_word cfg bot_open_id lookup_parent msg (some prompt))
        ≡ (let (mentions_me, replies_to_me) =
              direct_address_flags table fold is_word cfg bot_open_id lookup_parent msg in
            let (names_me, names_other) =
              name_target_flags table fold is_word cfg prompt msg.chat_type in
            allowed_chat cfg.allowed_chats msg.chat_id
            && not (is_empty prompt)
            && not (should_ignore_for_other_mention msg mentions_me)
            && not (should_ignore_for_other_reply msg replies_to_me)
            && not (should_ignore_for_other_name msg.chat_type names_me names_other))
  unfolding handle_message
  handle_message-tests msg prompt = ground arith

  -- A group's message is dispatched exactly if the chat is allowed, it is not empty, it mentions
  -- the bot or nobody, replies to the bot or to nothing, and names this bot or no other.
  pub handle_message-group_iff :
      (msg : EventMessage) (prompt : Text)
      → is_group_chat msg.chat_type ≡ true
      → let (names_me, names_other) =
          name_target_flags table fold is_word cfg prompt msg.chat_type in
        (is_dispatched
            (handle_message table fold is_word cfg bot_open_id lookup_parent msg (some prompt))
          ≡ true)
        ↔ ((allowed_chat cfg.allowed_chats msg.chat_id ≡ true)
            × (is_empty prompt ≡ false)
            × ((message_mentions_bot msg bot_open_id ≡ true)
                ⊎ (normalize_mentions msg.mentions ≡ []))
            × ((is_reply_to_bot table fold is_word cfg bot_open_id lookup_parent msg ≡ true)
                ⊎ (parent_of msg ≡ none))
            × ((names_me ≡ true) ⊎ (names_other ≡ false)))
  unfolding direct_address_flags should_ignore_for_other_mention should_ignore_for_other_reply
      should_ignore_for_other_name
  handle_message-group_iff msg prompt group = ground (
    arith,
    handle_message-tests msg prompt,
    no_texts_iff (normalize_mentions msg.mentions),
    is_reply_iff (parent_of msg),
  )

  -- A message that is dispatched from a chat of two is any message that is not empty, of an allowed
  -- chat, with no flag set.
  handle_message-p2p_iff :
      (msg : EventMessage) (prompt : Text)
      → is_group_chat msg.chat_type ≡ false
      → (is_dispatched
            (handle_message table fold is_word cfg bot_open_id lookup_parent msg (some prompt))
          ≡ true)
        ↔ ((allowed_chat cfg.allowed_chats msg.chat_id ≡ true) × (is_empty prompt ≡ false))
  unfolding direct_address_flags should_ignore_for_other_mention should_ignore_for_other_reply
      should_ignore_for_other_name
  handle_message-p2p_iff msg prompt single = ground (arith, handle_message-tests msg prompt)
