-- ===== src/Turn/Recovery.antt =====
-- The answer that a result gets, and the attachments that wait for a text.
use memknow.Common.{
  ℕ, ◌≡◌, refl, sym, ap, ◌∙◌, Bool, true, false, ◌&&◌, List, [], ◌∷◌, ◌++◌, map, All, append-nil,
  append_assoc, Option, none, some, Text, codes, arith, is_empty, join, Option-cases, Bool-cases,
  inl, inr, ◌⊎◌,
}
use memknow.Feishu.Message.{IncomingMessage}
use memknow.Store.Persist.{ExecuteResult, persist_result}
use memknow.Store.Tables.{Session}
use memknow.Turn.Chat.{Chat, Outgoing, Outside, put, reply_error, send_text}
use memknow.Turn.Execution.{Live, final_text, finish_and_send_result, recover}
use memknow.Turn.Prompt.{Prepared, merge_pending, prepare_with}
use memknow.Worker.Attachments.{attachment_reply_text, is_attachment_only}
use memknow.Turn.SecondTry.{
  answer_to, IsSecond, error_reply, is_empty-final_text, outbox-answer_on, outbox-send_result,
  blank_result, outbox-recover,
}

merge_pending-append :
    (l : List Text) (a : Text) (r : List Text) (prompt : Text)
    → merge_pending (l ++ a ∷ r) prompt ≡ join (l ++ a ∷ r) (codes "\n") ++ (codes "\n" ++ prompt)
unfolding merge_pending
merge_pending-append [] a r prompt = refl
merge_pending-append (b ∷ l) a r prompt = refl

-- What a message of attachments alone brings to preparing it: the message, its session, its
-- prompt and the time.
pub record Attached : Type 0 where
  pub message : IncomingMessage
  pub session : Session
  pub prompt : Text
  pub at : ℕ

-- What is sent for it.
abbrev pub acknowledged : Attached → Outgoing
acknowledged a =
    Outgoing.text_sent a.message.receive_id a.message.receive_type (attachment_reply_text a.prompt)

abbrev pub IsWaiting : Attached → Type 0
IsWaiting a = is_attachment_only a.prompt ≡ true

abbrev pub prompt_of : Attached → Text
prompt_of a = a.prompt

module _ (o : Outside) where
  -- A result with a text is answered by its final text. An empty one is answered, where the worker
  -- has a summarizer, by the text that the language model gives in a second try of the prompt, or by
  -- an error where there is none; without a summarizer it is not answered. The answer goes to the
  -- message's card or, without a card, to its chat, and nothing else is sent.
  pub finish_and_send_result-answers :
      (l : Live) (sess : Session) (msg : IncomingMessage) (r : ExecuteResult) (original : Text)
      (now : ℕ) (read_ok : Bool)
      → let sent = (finish_and_send_result o l sess msg (some r) original now read_ok).outbox in
        let stored = persist_result o.uuid o.write_ok l.chat.store sess r now in
        let again =
          (recover o (record l.chat { store = stored }) sess msg original now read_ok).1 in
        ((is_empty r.text ≡ false)
          × (sent
              ≡ l.chat.outbox
                ++ answer_to msg l.card_msg_id (final_text o l.card_msg_id l.streamer r) ∷ []))
        ⊎ (((is_empty r.text ≡ true) × (o.has_summarizer ≡ false) × (sent ≡ l.chat.outbox))
            ⊎ ((is_empty r.text ≡ true)
                × (o.has_summarizer ≡ true)
                × ((body : Text) × (sent ≡ l.chat.outbox ++ answer_to msg l.card_msg_id body ∷ [])
                    × (((again ≡ some body) × IsSecond o original body)
                        ⊎ ((again ≡ none) × (body ≡ error_reply o))))))
  unfolding finish_and_send_result reply_error
  finish_and_send_result-answers l sess msg r original now read_ok =
      let c : Chat = record l.chat {
        store = persist_result o.uuid o.write_ok l.chat.store sess r now;
      } in
      let recovered : Chat × Option Text = recover o c sess msg original now read_ok in
      let (same, second) = outbox-recover o c sess msg original now read_ok in
      elim (Bool-cases (is_empty r.text)) [
        | inr full ↦ inl (
          full,
          rw full (
              outbox-send_result o c msg l.card_msg_id (final_text o l.card_msg_id l.streamer r)
                (is_empty-final_text o l.card_msg_id l.streamer r ∙ full)),
        )
        | inl empty ↦ elim (Bool-cases o.has_summarizer) [
          | inr without ↦
              let test : (is_empty r.text && o.has_summarizer) ≡ false = ground arith in
              inr (
                inl (
                  empty,
                  without,
                  rw test (
                      blank_result o c msg l.card_msg_id _
                        (is_empty-final_text o l.card_msg_id l.streamer r ∙ empty)),
                ))
          | inl has ↦
              let test : (is_empty r.text && o.has_summarizer) ≡ true = ground arith in
              elim (Option-cases recovered.1) [
                | inl e ↦ inr (
                    inr (
                      empty,
                      has,
                      (
                        error_reply o,
                        rw (test, e)
                            (outbox-answer_on o recovered.0 msg l.card_msg_id _
                              ∙ ap (λ x. x ++ answer_to msg l.card_msg_id (error_reply o) ∷ [])
                                  same),
                        inr (e, refl),
                      ),
                    ))
                | inr (text, e) ↦ inr (
                    inr (
                      empty,
                      has,
                      (
                        text,
                        rw (test, e)
                            (outbox-send_result o recovered.0 msg l.card_msg_id text
                                (second text e).1.1.1.4
                              ∙ ap (λ x. x ++ answer_to msg l.card_msg_id text ∷ []) same),
                        inl (e, second text e),
                      ),
                    ))
              ]
        ]
      ]

  prepare_with_waits :
      (c : Chat) (msg : IncomingMessage) (sess : Session) (prompt : Text) (now : ℕ)
      → is_attachment_only prompt ≡ true
      → let x = prepare_with o c msg sess prompt now in
        (x.1 ≡ none)
        × (x.0.pending_attachment_prompts ≡ c.pending_attachment_prompts ++ prompt ∷ [])
        × (x.0.outbox
            ≡ c.outbox
              ++ Outgoing.text_sent msg.receive_id msg.receive_type (attachment_reply_text prompt)
                ∷ [])
  unfolding prepare_with send_text put
  prepare_with_waits c msg sess prompt now h = rw h (refl, refl, refl)

  prepare_with_merges :
      (c : Chat) (msg : IncomingMessage) (sess : Session) (prompt : Text) (now : ℕ)
      → is_attachment_only prompt ≡ false
      → let x = prepare_with o c msg sess prompt now in
        (x.0.pending_attachment_prompts ≡ [])
        × ((q : Prepared) × (x.1 ≡ some q)
            × (q.original_prompt ≡ merge_pending c.pending_attachment_prompts prompt))
  unfolding prepare_with
  prepare_with_merges c msg sess prompt now h = rw h (refl, (_, refl, refl))

  -- The chat after some of them, and whether one of their turns went on.
  unfoldable pub prepare_all : Chat → List Attached → Chat × Bool
  unfolding prepare_with
  prepare_all c [] = (c, false)
  prepare_all c (a ∷ l) =
      let x = prepare_with o c a.message a.session a.prompt a.at in
      let rest = prepare_all x.0 l in elim x.1 [ none ↦ rest | some p ↦ (rest.0, true) ]

  prepare_all-waits :
      (c : Chat) (l : List Attached)
      → All IsWaiting l
      → let x = prepare_all c l in
        (x.1 ≡ false)
        × (x.0.outbox ≡ c.outbox ++ map acknowledged l)
        × (x.0.pending_attachment_prompts ≡ c.pending_attachment_prompts ++ map prompt_of l)
  unfolding prepare_all
  prepare_all-waits c [] h =
      (refl, sym (append-nil c.outbox), sym (append-nil c.pending_attachment_prompts))
  prepare_all-waits c (a ∷ l) h =
      let x : Chat × Option Prepared = prepare_with o c a.message a.session a.prompt a.at in
      let (stopped, kept, told) = prepare_with_waits c a.message a.session a.prompt a.at h.0 in
      let (none_on, sent, waiting) = prepare_all-waits x.0 l h.1 in
      rw (stopped, prepare_all)
        (
          none_on,
          sent
              ∙ ap (λ y. y ++ map acknowledged l) told
              ∙ append_assoc c.outbox (acknowledged a ∷ []) (map acknowledged l),
          waiting
              ∙ ap (λ y. y ++ map prompt_of l) kept
              ∙ append_assoc c.pending_attachment_prompts (a.prompt ∷ []) (map prompt_of l),
        )

  -- Messages of attachments alone, any number of them, are kept for later and acknowledged one by
  -- one, each to its own chat, and the turn of none goes further; the next message with a text takes
  -- all that are kept with it, in their order, each on a line of its own before the text, and none
  -- is kept any longer.
  pub prepare_with-attachments :
      (c : Chat) (a : Attached) (l : List Attached) (msg : IncomingMessage) (sess : Session)
      (prompt : Text) (later : ℕ)
      → All IsWaiting (a ∷ l)
      → is_attachment_only prompt ≡ false
      → let (c', went_on) = prepare_all c (a ∷ l) in
        let (c'', p) = prepare_with o c' msg sess prompt later in
        (went_on ≡ false)
        × (c'.outbox ≡ c.outbox ++ map acknowledged (a ∷ l))
        × (c''.pending_attachment_prompts ≡ [])
        × ((q : Prepared) × (p ≡ some q)
            × (q.original_prompt
                ≡ join (c.pending_attachment_prompts ++ map prompt_of (a ∷ l)) (codes "\n")
                  ++ (codes "\n" ++ prompt)))
  prepare_with-attachments c a l msg sess prompt later h k =
      let (stopped, told, kept) = prepare_all-waits c (a ∷ l) h in
      let x : Chat × Bool = prepare_all c (a ∷ l) in
      let (empty, (q, merged, e)) = prepare_with_merges x.0 msg sess prompt later k in
      (
        stopped,
        told,
        empty,
        (
          q,
          merged,
          e
              ∙ ap (λ y. merge_pending y prompt) kept
              ∙ merge_pending-append c.pending_attachment_prompts a.prompt (map prompt_of l) prompt,
        ),
      )
