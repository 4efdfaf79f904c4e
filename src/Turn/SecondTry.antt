-- ===== src/Turn/SecondTry.antt =====
-- The second try of a prompt whose result is empty, and the answer to a message.
use mathlib.Core.Option.{some-injective, none-ne-some}
use memknow.Common.{
  ℕ, ◌≡◌, refl, sym, ap, ◌∙◌, Bool, true, false, not, ◌&&◌, [], ◌∷◌, ◌++◌, append_assoc, Option,
  none, some, Text, codes, arith, if◌then◌else◌, if_keeps, if_cases, is_empty, trim_space,
  trim_left, trim_right, subst, Option-cases, Bool-cases, inl, inr,
}
use memknow.Card.Streamer.{Streamer, render_final_with_progress}
use memknow.Feishu.Message.{IncomingMessage}
use memknow.Recall.Summary.{summarize}
use memknow.Store.Persist.{ExecuteResult}
use memknow.Store.Sessions.{create_summary, handle_new_silent}
use memknow.Store.Tables.{Session, Store}
use memknow.Turn.Answers.{Outcome-cases}
use memknow.Turn.Chat.{
  Chat, Outcome, Outgoing, Outside, Request, answer_on, put, send_result, send_text,
}
use memknow.Turn.Execution.{empty_reply, final_text, recover, request, retry}

is_empty_nil : (t : Text) → is_empty t ≡ true → t ≡ []
is_empty_nil [] h = refl
is_empty_nil (c ∷ t) h = cc

final-nil : (s : Streamer) → render_final_with_progress s [] ≡ []
unfolding render_final_with_progress trim_space trim_right trim_left
final-nil s = refl

-- The answer to a message: on its card if there is one, else as a text to its chat.
abbrev pub answer_to : IncomingMessage → Text → Text → Outgoing
answer_to msg card body =
    if is_empty card
    then Outgoing.text_sent msg.receive_id msg.receive_type body
    else Outgoing.card_updated card body

module _ (o : Outside) where
  pub is_empty-final_text :
      (card : Text) (s : Option Streamer) (r : ExecuteResult)
      → is_empty (final_text o card s r) ≡ is_empty r.text
  unfolding final_text
  is_empty-final_text card none r = refl
  is_empty-final_text card (some s) r =
      let composed : Text = render_final_with_progress s r.text in
      if_cases (λ (t : Text). is_empty t ≡ is_empty r.text)
        (not (is_empty card) && not s.saw_tool_use && not (is_empty composed)) _ _
        (λ used. elim (Bool-cases (is_empty r.text)) [
          | inl e ↦
              let blank : r.text ≡ [] = is_empty_nil r.text e in
              ap is_empty (ap (render_final_with_progress s) blank ∙ final-nil s)
              ∙ sym (ap is_empty blank)
          | inr e ↦ ground arith
        ])
        (λ _. refl)

  -- A text that the language model gives in a second try: some run finishes with it, it is not
  -- empty, and its prompt ends with the message's.
  abbrev pub IsSecond : Text → Text → Type 0
  IsSecond original text =
      (n : ℕ) × ((r : ExecuteResult) × ((req : Request) × ((before : Text) × ((o.execute n
                req).outcome
              ≡ Outcome.finished (some r))
            × (req.prompt ≡ before ++ original)
            × (text ≡ r.text)
            × (is_empty text ≡ false))))

  -- What an empty result without a second text is answered by.
  abbrev pub error_reply : Text
  error_reply = codes "❌ 执行出错：" ++ empty_reply o

  pub outbox-answer_on :
      (c : Chat) (msg : IncomingMessage) (card body : Text)
      → (answer_on c msg card body).outbox ≡ c.outbox ++ answer_to msg card body ∷ []
  unfolding answer_on send_text put
  outbox-answer_on c msg card body = elim (Bool-cases (is_empty card)) [
    | inl e ↦ rw (e, answer_on) refl
    | inr e ↦ rw (e, answer_on) refl
  ]

  pub outbox-send_result :
      (c : Chat) (msg : IncomingMessage) (card text : Text)
      → is_empty text ≡ false
      → (send_result c msg card text).outbox ≡ c.outbox ++ answer_to msg card text ∷ []
  unfolding send_result
  outbox-send_result c msg card text e = rw (e, send_result) (outbox-answer_on c msg card text)

  pub blank_result :
      (c : Chat) (msg : IncomingMessage) (card text : Text)
      → is_empty text ≡ true
      → (send_result c msg card text).outbox ≡ c.outbox
  unfolding send_result
  blank_result c msg card text e = rw (e, send_result) refl

  outbox-retry :
      (c : Chat) (sess : Session) (msg : IncomingMessage) (summary original : Text) (now : ℕ)
      → ((retry o c sess msg summary original now).0.outbox ≡ c.outbox)
        × ((t : Text) → (retry o c sess msg summary original now).1 ≡ some t → IsSecond original t)
  unfolding retry request
  outbox-retry c sess msg summary original now =
      let prompt : Text = codes "## 前序会话摘要\n" ++ (summary ++ (codes "\n\n## 用户问题\n" ++ original)) in
      let before : Text = codes "## 前序会话摘要\n" ++ (summary ++ codes "\n\n## 用户问题\n") in
      let split : prompt ≡ before ++ original =
        ap (λ x. codes "## 前序会话摘要\n" ++ x)
          (sym (append_assoc summary (codes "\n\n## 用户问题\n") original))
        ∙ sym (append_assoc (codes "## 前序会话摘要\n") (summary ++ codes "\n\n## 用户问题\n") original) in
      elim (Outcome-cases (o.execute c.runs (request o sess msg prompt)).outcome) [
        | inr (inl (t, e)) ↦ rw (e, retry) (refl, λ t h. elim (none-ne-some t h) [ ])
        | inr (inr (t, e)) ↦ rw (e, retry) (refl, λ t h. elim (none-ne-some t h) [ ])
        | inl (none, e) ↦ rw (e, retry) (refl, λ t h. elim (none-ne-some t h) [ ])
        | inl (some r, e) ↦
            rw (e, retry)
              (if_cases
                (λ (x : Chat × Option Text).
                  (x.0.outbox ≡ c.outbox) × ((t : Text) → x.1 ≡ some t → IsSecond original t))
                (is_empty r.text) _ _ (λ _. (refl, λ t h. elim (none-ne-some t h) [ ]))
                (λ full. (
                  refl,
                  λ t h.
                      subst (IsSecond original) (some-injective r.text t h)
                        (c.runs, (r, (request o sess msg prompt, (before, e, split, refl, full)))),
                )))
      ]

  pub outbox-recover :
      (c : Chat) (sess : Session) (msg : IncomingMessage) (original : Text) (now : ℕ)
      (read_ok : Bool)
      → ((recover o c sess msg original now read_ok).0.outbox ≡ c.outbox)
        × ((t : Text)
            → (recover o c sess msg original now read_ok).1 ≡ some t
            → IsSecond original t)
  unfolding recover
  outbox-recover c sess msg original now read_ok =
      elim (Option-cases (summarize o.summarizer c.store sess.id)) [
        | inl e ↦ rw (e, recover) (refl, λ t h. elim (none-ne-some t h) [ ])
        | inr (summary, e) ↦
            let st : Store =
              create_summary o.uuid o.write_ok o.channel_key c.store sess.id summary now in
            let made : Store × Option Session =
              handle_new_silent o.uuid o.write_ok o.channel_key st msg.sender_id now read_ok in
            rw (e, recover)
              (if_keeps
                (λ (x : Chat × Option Text).
                  (x.0.outbox ≡ c.outbox) × ((t : Text) → x.1 ≡ some t → IsSecond original t))
                (is_empty summary) _ _ (refl, λ t h. elim (none-ne-some t h) [ ])
                (elim (Option-cases made.1) [
                  | inl e' ↦ rw e' (refl, λ t h. elim (none-ne-some t h) [ ])
                  | inr (sess', e') ↦
                      rw e'
                        (outbox-retry (record c { store = made.0 }) sess' msg summary original now)
                ]))
      ]
