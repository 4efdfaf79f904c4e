-- ===== src/Turn/Answers.antt =====
-- The answers to an execution, with the recovery from an empty one.
use memknow.Common.{
  ℕ, suc, ◌≡◌, refl, Bool, true, ◌&&◌, ◌++◌, Option, none, some, Text, codes, if_keeps, is_empty,
  Option-cases, inl, inr, ◌⊎◌,
}
use memknow.Feishu.Message.{IncomingMessage}
use memknow.Recall.Summary.{summarize}
use memknow.Store.Active.{handle_new_silent-IsSingle}
use memknow.Store.Persist.{ExecuteResult, persist_result}
use memknow.Store.Sessions.{create_summary, handle_new_silent}
use memknow.Store.Tables.{Session, Store}
use memknow.Turn.Chat.{Chat, Outcome, Outside, canceled, failed, finished, reply_error}
use memknow.Turn.Execution.{Live, finish_and_send_result, recover, request, retry}
use memknow.Turn.Kept.{Kept, Kept-quiet, Kept-refl, Kept-trans, answer_on-Kept, send_result-Kept}
use memknow.Turn.Single.{IsSingle-same, create_summary-sessions, persist_result-IsSingle}

pub Outcome-cases :
    (x : Outcome)
    → ((r : Option ExecuteResult) × (x ≡ finished r))
      ⊎ (((t : Text) × (x ≡ canceled t)) ⊎ ((t : Text) × (x ≡ failed t)))
Outcome-cases (finished r) = inl (r, refl)
Outcome-cases (canceled t) = inr (inl (t, refl))
Outcome-cases (failed t) = inr (inr (t, refl))

module _ (o : Outside) (W : Type 0) (all_ok : W → (n : ℕ) → o.write_ok n ≡ true) where
  persist-Kept :
      (c : Chat) (sess : Session) (r : ExecuteResult) (now : ℕ)
      → Kept W c (record c { store = persist_result o.uuid o.write_ok c.store sess r now })
  persist-Kept c sess r now =
      Kept-quiet c _ refl
        (λ w. persist_result-IsSingle o.uuid o.write_ok (all_ok w) c.store sess r now)

  retry-Kept :
      (c : Chat) (sess : Session) (msg : IncomingMessage) (summary original : Text) (now : ℕ)
      → Kept W c (retry o c sess msg summary original now).0
  unfolding retry
  retry-Kept c sess msg summary original now =
      let prompt : Text = codes "## 前序会话摘要\n" ++ (summary ++ (codes "\n\n## 用户问题\n" ++ original)) in
      let d : Chat = record c { runs = suc c.runs } in
      let kept : Kept W c d = Kept-quiet c d refl (λ w v. v) in
      elim (Outcome-cases (o.execute c.runs (request o sess msg prompt)).outcome) [
        | inr (inl (t, e)) ↦ rw (e, retry) kept
        | inr (inr (t, e)) ↦ rw (e, retry) kept
        | inl (none, e) ↦ rw (e, retry) kept
        | inl (some r, e) ↦
            rw (e, retry)
              (if_keeps (λ (x : Chat × Option Text). Kept W c x.0) (is_empty r.text) _ _ kept
                (Kept-trans c d _ kept (persist-Kept d sess r now)))
      ]

  recover-Kept :
      (c : Chat) (sess : Session) (msg : IncomingMessage) (original : Text) (now : ℕ)
      (read_ok : Bool)
      → Kept W c (recover o c sess msg original now read_ok).0
  unfolding recover
  recover-Kept c sess msg original now read_ok =
      elim (Option-cases (summarize o.summarizer c.store sess.id)) [
        | inl e ↦ rw (e, recover) (Kept-refl c)
        | inr (summary, e) ↦
            let st : Store =
              create_summary o.uuid o.write_ok o.channel_key c.store sess.id summary now in
            let made : Store × Option Session =
              handle_new_silent o.uuid o.write_ok o.channel_key st msg.sender_id now read_ok in
            let d : Chat = record c { store = made.0 } in
            let kept : Kept W c d = Kept-quiet c d refl (λ w v.
              handle_new_silent-IsSingle o.uuid o.write_ok o.channel_key st msg.sender_id now
                read_ok (all_ok w st.writes)
                (IsSingle-same c.store st
                  (create_summary-sessions o.uuid o.write_ok o.channel_key c.store sess.id summary
                    now)
                  v)) in
            rw (e, recover)
              (if_keeps (λ (x : Chat × Option Text). Kept W c x.0) (is_empty summary) _ _
                (Kept-refl c)
                (elim (Option-cases made.1) [
                  | inl e' ↦ rw e' kept
                  | inr (sess', e') ↦
                      rw e' (Kept-trans c d _ kept (retry-Kept d sess' msg summary original now))
                ]))
      ]

  pub finish_and_send_result-Kept :
      (l : Live) (sess : Session) (msg : IncomingMessage) (r : Option ExecuteResult)
      (original : Text) (now : ℕ) (read_ok : Bool)
      → Kept W l.chat (finish_and_send_result o l sess msg r original now read_ok)
  unfolding finish_and_send_result reply_error
  finish_and_send_result-Kept l sess msg none original now read_ok = Kept-refl l.chat
  finish_and_send_result-Kept l sess msg (some r) original now read_ok =
      let c : Chat = record l.chat {
        store = persist_result o.uuid o.write_ok l.chat.store sess r now;
      } in
      let recovered : Chat × Option Text = recover o c sess msg original now read_ok in
      let kept : Kept W l.chat recovered.0 =
        Kept-trans l.chat c recovered.0 (persist-Kept l.chat sess r now)
          (recover-Kept c sess msg original now read_ok) in
      if_keeps (Kept W l.chat) (is_empty r.text && o.has_summarizer) _ _
        (elim (Option-cases recovered.1) [
          | inl e ↦ rw e (Kept-trans l.chat recovered.0 _ kept (answer_on-Kept recovered.0 msg _ _))
          | inr (text, e) ↦
              rw e (Kept-trans l.chat recovered.0 _ kept (send_result-Kept recovered.0 msg _ text))
        ])
        (Kept-trans l.chat c _ (persist-Kept l.chat sess r now) (send_result-Kept c msg _ _))
