-- ===== src/Samples/Feishu.antt =====
-- Samples for internal/feishu.
use memknow.Common.{
  ℕ, zero, suc, length, ◌≤◌, ◌≡◌, ◌↔◌, ◌⊎◌, refl, Bool, true, false, [], ◌∷◌, none, some, codes,
  trim_space, to_lower, is_empty, text_eq, contains, All,
}
use memknow.Feishu.Addressed.{handle_message-group_iff, is_dispatched}
use memknow.Feishu.Message.{is_group_chat}
use memknow.Feishu.Marks.{IsPlainRune}
use memknow.Feishu.Outbound.{
  IsSent, IsShown, is_card, send_text-IsSent, normalize_feishu_card_text-bounded,
}
use memknow.Feishu.Reply.{
  Content, Response, build_reply_content, send_text, strip_markdown_to_plain_text, plain,
}
use memknow.Feishu.Sender.{normalize_feishu_card_text, sanitize_outbound_text}
use memknow.Feishu.Receiver.{
  EventMessage, ReceiverConfig, allowed_chat, contains_standalone_bot_id, handle_message,
  is_reply_to_bot, message_mentions_bot, name_target_flags, normalize_mentions, parent_of,
  matches_from, matches_here,
}

abbrev config : ReceiverConfig
config = record {
  app_id = codes "bot1";
  feishu_app_id = codes "cli1";
  allowed_chats = [];
  bot_ids = codes "bot1" ∷ codes "bot2" ∷ [];
}

abbrev asking : EventMessage
asking = record {
  message_id = codes "om1";
  chat_type = codes "group";
  chat_id = codes "oc1";
  thread_id = [];
  parent_id = none;
  mentions = record { open_id = some (codes "ou_bot") } ∷ [];
  sender_open_id = codes "ou1";
}

abbrev is_letter : ℕ → Bool
is_letter c = true

bot_alone :
    contains_standalone_bot_id (λ c. c) (λ c. c) is_letter (codes "bot1") (codes "bot1") ≡ true
unfolding contains_standalone_bot_id matches_from matches_here trim_space to_lower
bot_alone = refl

handle_message-group_iff_example :
    (is_dispatched (
        handle_message
          (λ c. c)
          (λ c. c)
          is_letter
          config
          (codes "ou_bot")
          (λ id. none)
          asking
          (some (codes "hi")))
      ≡ true)
    ↔ ((allowed_chat [] (codes "oc1") ≡ true)
        × (is_empty (codes "hi") ≡ false)
        × ((message_mentions_bot asking (codes "ou_bot") ≡ true)
            ⊎ (normalize_mentions asking.mentions ≡ []))
        × ((is_reply_to_bot (λ c. c) (λ c. c) is_letter config (codes "ou_bot") (λ id. none) asking
              ≡ true)
            ⊎ (parent_of asking ≡ none))
        × (((name_target_flags (λ c. c) (λ c. c) is_letter config (codes "hi") (codes "group")).0
              ≡ true)
            ⊎ ((name_target_flags (λ c. c) (λ c. c) is_letter config (codes "hi") (codes "group")).1
                ≡ false)))
handle_message-group_iff_example =
    handle_message-group_iff (λ c. c) (λ c. c) is_letter config (codes "ou_bot") (λ id. none) asking
      (codes "hi") (unfold is_group_chat text_eq in refl)

-- A first message that Feishu does not accept, and a second one that it does.
abbrev answers : ℕ → Content → Response
answers zero c = Response.refused (codes "bad")
answers (suc n) c = Response.created (some (codes "om9"))

send_text-IsSent_example :
    let first =
      build_reply_content (λ t. none) (λ t. none) (λ t. false) answers (codes "# Plan\n```x```") in
    let cleaned = sanitize_outbound_text (codes "# Plan\n```x```") in
    let stripped =
      sanitize_outbound_text (strip_markdown_to_plain_text (codes "# Plan\n```x```")) in
    IsSent
      (λ t. none)
      (λ t. none)
      (λ t. false)
      answers
      []
      first
      (plain stripped)
      (send_text (λ t. none) (λ t. none) (λ t. false) answers [] (codes "# Plan\n```x```"))
    × IsShown cleaned first
    × ((contains cleaned (codes "```") ≡ false) ⊎ (is_card first ≡ true))
    × All IsPlainRune stripped
send_text-IsSent_example =
    send_text-IsSent (λ t. none) (λ t. none) (λ t. false) answers [] (codes "# Plan\n```x```")

normalize_feishu_card_text-bounded_example :
    let n = length (normalize_feishu_card_text (λ t. none) (λ t. none) (codes "# Plan")) in
    (1 ≤ n) × (n ≤ 8004)
normalize_feishu_card_text-bounded_example =
    normalize_feishu_card_text-bounded (λ t. none) (λ t. none) (codes "# Plan")
