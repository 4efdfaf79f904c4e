-- ===== src/Feishu/Outbound.antt =====
-- What is sent to Feishu: the size of a card's text, the runes of a message, and the messages that
-- one text becomes.
use memknow.Common.{
  ℕ, ◌-◌, ◌≤◌, ◌≡◌, ◌⊎◌, inl, inr, refl, Bool, true, false, List, [], ◌∷◌, ◌++◌, Option, none, some,
  Text, codes, arith, if◌then◌else◌, is_empty, leb, length, drop, length-drop, trim_space,
  Bool-cases, Option-cases, if_cases, if_keeps, All, not, contains,
}
use memknow.Feishu.Sender.{
  sanitize_outbound_text, extract_readable_from_json, process_feishu_card_markdown,
  normalize_feishu_card_text,
}
use memknow.Feishu.Reply.{
  contains_markdown, has_complex_markdown, Content, Response, SendResult, plain, card, post,
  falls_back, failure_text, final_result, build_reply_content, send_text, send_plain_text, deliver,
  strip_markdown_to_plain_text,
}
use memknow.Feishu.Marks.{IsPlainRune, strip-IsPlainRune, contains-contains_markdown}

-- A text that is not empty, or the text that stands for it.
bounded_tail :
    (content : Text)
    → let r =
        if is_empty content
        then codes "Thinking..."
        else if leb (length content) 8000
        then content
        else codes "...\n" ++ drop (length content - 8000) content in
      (1 ≤ length r) × (length r ≤ 8004)
bounded_tail [] = (omega arith, omega arith)
bounded_tail (c ∷ s) =
    if_cases (λ (r : Text). (1 ≤ length r) × (length r ≤ 8004)) (leb (length (c ∷ s)) 8000) _ _
      (λ e. (omega arith, ground arith))
      (λ e. (omega arith, ground (arith, length-drop (length (c ∷ s) - 8000) (c ∷ s))))

-- Feishu's kind of a message.
abbrev pub is_plain : Content → Bool
is_plain (plain text) = true
is_plain (card text) = false
is_plain (post text) = false

-- What a message shows of a cleaned text: the text, or on a card what fits.
abbrev pub IsShown : Text → Content → Type 0
IsShown text (plain shown) = shown ≡ text
IsShown text (post shown) = shown ≡ text
IsShown text (card shown) = (1 ≤ length shown) × (length shown ≤ 8004)

abbrev pub is_post : Content → Bool
is_post (post text) = true
is_post (plain text) = false
is_post (card text) = false

abbrev pub is_card : Content → Bool
is_card (card text) = true
is_card (plain text) = false
is_card (post text) = false

module _ (decode_object : Text → Option (List (Text × Option Text)))
    (decode_array : Text → Option (List (Option Text))) where
  -- The text of a card is never empty and has at most 8004 runes: 8000 and the mark of a cut.
  pub normalize_feishu_card_text-bounded :
      (text : Text)
      → let n = length (normalize_feishu_card_text decode_object decode_array text) in
        (1 ≤ n) × (n ≤ 8004)
  unfolding normalize_feishu_card_text
  normalize_feishu_card_text-bounded text = bounded_tail (
      trim_space (
        process_feishu_card_markdown
          (sanitize_outbound_text (extract_readable_from_json decode_object decode_array text))))

  module _ (post_invalid : Text → Bool) (answer : ℕ → Content → Response) where
    -- A message with this error has another text: a card, and a post whose format the error
    -- complains of.
    abbrev pub HasOtherText : Content → Text → Type 0
    HasOtherText content error =
        (is_card content ≡ true) ⊎ ((is_post content ≡ true) × (post_invalid error ≡ true))

    abbrev pub HasNoOtherText : Content → Text → Type 0
    HasNoOtherText content error =
        (is_plain content ≡ true) ⊎ ((is_post content ≡ true) × (post_invalid error ≡ false))

    falls_back-cases :
        (content : Content) (error : Text)
        → ((falls_back decode_object decode_array post_invalid answer content error ≡ true)
            × HasOtherText content error)
          ⊎ ((falls_back decode_object decode_array post_invalid answer content error ≡ false)
              × HasNoOtherText content error)
    falls_back-cases (plain text) error = inr (refl, inl refl)
    falls_back-cases (card text) error = inl (refl, inl refl)
    falls_back-cases (post text) error = elim (Bool-cases (post_invalid error)) [
      | inl e ↦ inl (e, inr (refl, e))
      | inr e ↦ inr (e, inr (refl, e))
    ]

    -- The calls and the result of sending a content: the message, and if Feishu does not take it
    -- and it has another text, the message of that text; the result is that of the last message.
    abbrev pub IsSent : List Content → Content → Content → List Content × SendResult → Type 0
    IsSent calls content stripped r =
        (((r.0 ≡ calls ++ content ∷ []) × (r.1 ≡ final_result (answer (length calls) content)))
          × ((failure_text (answer (length calls) content) ≡ none)
              ⊎ ((error : Text) × (failure_text (answer (length calls) content) ≡ some error)
                  × HasNoOtherText content error)))
        ⊎ (((r.0 ≡ (calls ++ content ∷ []) ++ stripped ∷ [])
              × (r.1 ≡ final_result (answer (length (calls ++ content ∷ [])) stripped)))
            × ((error : Text) × (failure_text (answer (length calls) content) ≡ some error)
                × HasOtherText content error))

    deliver-IsSent :
        (calls : List Content) (content : Content) (fallback : Text)
        → IsSent calls content
            (plain (sanitize_outbound_text fallback))
            (deliver decode_object decode_array post_invalid answer calls content fallback)
    unfolding deliver send_plain_text
    deliver-IsSent calls content fallback =
        elim (Option-cases (failure_text (answer (length calls) content))) [
          | inl e ↦ rw (e, deliver) (inl ((refl, refl), inl refl))
          | inr (error, e) ↦
              rw (e, deliver)
                (elim (falls_back-cases content error) [
                  | inl (f, h) ↦ rw f (inr ((refl, refl), (error, refl, h)))
                  | inr (f, h) ↦ rw f (inl ((refl, refl), inr (error, refl, h)))
                ])
        ]

    build_reply_content-IsShown :
        (text : Text)
        → IsShown
            (sanitize_outbound_text text)
            (build_reply_content decode_object decode_array post_invalid answer text)
    unfolding build_reply_content
    build_reply_content-IsShown text =
        let s = sanitize_outbound_text text in
        if_keeps (IsShown s) (not (contains_markdown s)) _ _ refl (
          if_keeps (IsShown s) (has_complex_markdown s) _ _ (normalize_feishu_card_text-bounded s)
            refl)

    build_reply_content-is_card :
        (text : Text)
        → (contains (sanitize_outbound_text text) (codes "```") ≡ false)
          ⊎ (is_card (build_reply_content decode_object decode_array post_invalid answer text)
              ≡ true)
    unfolding build_reply_content has_complex_markdown
    build_reply_content-is_card text =
        let s = sanitize_outbound_text text in
        elim (Bool-cases (contains s (codes "```"))) [
          | inl e ↦ inr (rw (e, contains-contains_markdown s e) refl)
          | inr e ↦ inl e
        ]

    -- SendText asks Feishu for one message, or for a second one: exactly where the first was not
    -- accepted and is a card, or a post whose format Feishu complains of. The result is that of the
    -- last message. The first shows the cleaned text, or is a card of 1 to 8004 runes, as it is
    -- wherever the text has a code block; the second is the text stripped of its Markdown, without
    -- a backtick.
    pub send_text-IsSent :
        (calls : List Content) (text : Text)
        → let first = build_reply_content decode_object decode_array post_invalid answer text in
          let cleaned = sanitize_outbound_text text in
          let stripped = sanitize_outbound_text (strip_markdown_to_plain_text text) in
          IsSent calls first
            (plain stripped)
            (send_text decode_object decode_array post_invalid answer calls text)
          × IsShown cleaned first
          × ((contains cleaned (codes "```") ≡ false) ⊎ (is_card first ≡ true))
          × All IsPlainRune stripped
    unfolding send_text
    send_text-IsSent calls text = (
      deliver-IsSent calls (build_reply_content decode_object decode_array post_invalid answer text)
          (strip_markdown_to_plain_text text),
      build_reply_content-IsShown text,
      build_reply_content-is_card text,
      strip-IsPlainRune text,
    )
