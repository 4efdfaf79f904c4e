-- ===== src/Turn/Kept.antt =====
-- What a turn leaves: nothing that was sent is lost, and every channel has one active session at
-- most.
use memknow.Common.{
  ℕ, ◌≡◌, refl, sym, ap, ◌∙◌, Bool, true, not, ◌&&◌, List, [], ◌∷◌, ◌++◌, Option, Text, codes,
  append_assoc, append-nil, if◌then◌else◌, if_keeps, is_empty, text_eq, length, has_prefix,
  Option-cases, inl, inr, ◌⊎◌, ◌==◌,
}
use memknow.Feishu.Message.{IncomingMessage}
use memknow.Recall.Summary.{summarize}
use memknow.Store.Active.{IsSingle, get_or_create_session-IsSingle, handle_new_silent-IsSingle}
use memknow.Store.Sessions.{get_or_create_session, handle_new_silent, id_of, maybe_async_summarize}
use memknow.Store.Tables.{Session, Store, find_active}
use memknow.Turn.Chat.{Chat, Outgoing, Outside, put, send_text, answer_on, send_result}
use memknow.Turn.Commands.{
  ModeCommand, no_command, show_only, bad_argument, change_to, handle_built_in_commands,
  handle_mode_command, handle_new, handle_search, parse_mode_command,
}
use memknow.Turn.Prompt.{
  Prepared, prepare_prompt_with_context, prepare_with, record_user_message, title_session,
  move_attachments,
}
use memknow.Worker.Attachments.{is_attachment_only}
use memknow.Turn.Single.{
  IsSingle-same, maybe_async_summarize-sessions, maybe_set_title-IsSingle, record_message-sessions,
}

-- From one state of a chat to a later one. `W` says that the database takes every write, which the
-- sessions rest on and what is sent does not.
pub record Kept (W : Type 0) (c c' : Chat) : Type 0 where
  pub sent : (new : List Outgoing) × (c'.outbox ≡ c.outbox ++ new)
  pub single : W → IsSingle c.store → IsSingle c'.store

pub Kept-refl : {W : Type 0} (c : Chat) → Kept W c c
Kept-refl {W} c = record { sent = ([], sym (append-nil c.outbox)); single = λ w v. v }

pub Kept-trans : {W : Type 0} (c d e : Chat) → Kept W c d → Kept W d e → Kept W c e
Kept-trans {W} c d e k l = record {
  sent = (
    k.sent.0 ++ l.sent.0,
    l.sent.1 ∙ ap (λ x. x ++ l.sent.0) k.sent.1 ∙ append_assoc c.outbox k.sent.0 l.sent.0,
  );
  single = λ w v. l.single w (k.single w v);
}

-- A change of the store and of what is not sent.
pub Kept-quiet :
    {W : Type 0} (c d : Chat)
    → d.outbox ≡ c.outbox
    → (W → IsSingle c.store → IsSingle d.store)
    → Kept W c d
Kept-quiet {W} c d e f = record { sent = ([], e ∙ sym (append-nil c.outbox)); single = f }

pub put-Kept : {W : Type 0} (c : Chat) (x : Outgoing) → Kept W c (put c x)
unfolding put
put-Kept {W} c x = record { sent = (x ∷ [], refl); single = λ w v. v }

pub send_text-Kept :
    {W : Type 0} (c : Chat) (msg : IncomingMessage) (body : Text) → Kept W c (send_text c msg body)
unfolding send_text
send_text-Kept {W} c msg body = put-Kept c _

pub answer_on-Kept :
    {W : Type 0} (c : Chat) (msg : IncomingMessage) (card body : Text)
    → Kept W c (answer_on c msg card body)
unfolding answer_on
answer_on-Kept {W} c msg card body =
    if_keeps (Kept W c) (is_empty card) _ _ (send_text-Kept c msg body) (put-Kept c _)

pub send_result-Kept :
    {W : Type 0} (c : Chat) (msg : IncomingMessage) (card text : Text)
    → Kept W c (send_result c msg card text)
unfolding send_result
send_result-Kept {W} c msg card text =
    if_keeps (Kept W c) (is_empty text) _ _ (Kept-refl c) (answer_on-Kept c msg card text)

ModeCommand-cases :
    (m : ModeCommand)
    → (m ≡ no_command) ⊎ ((m ≡ show_only) ⊎ ((m ≡ bad_argument) ⊎ ((t : Text) × (m ≡ change_to t))))
ModeCommand-cases no_command = inl refl
ModeCommand-cases show_only = inr (inl refl)
ModeCommand-cases bad_argument = inr (inr (inl refl))
ModeCommand-cases (change_to t) = inr (inr (inr (t, refl)))

module _ (o : Outside) (W : Type 0) (all_ok : W → (n : ℕ) → o.write_ok n ≡ true) where
  handle_mode_command-Kept :
      (c : Chat) (msg : IncomingMessage) (trimmed : Text)
      → Kept W c (handle_mode_command o c msg trimmed).0
  unfolding handle_mode_command
  handle_mode_command-Kept c msg trimmed = elim (ModeCommand-cases (parse_mode_command trimmed)) [
    | inl e ↦ rw (e, handle_mode_command) (Kept-refl c)
    | inr (inl e) ↦ rw (e, handle_mode_command) (send_text-Kept c msg _)
    | inr (inr (inl e)) ↦ rw (e, handle_mode_command) (send_text-Kept c msg _)
    | inr (inr (inr (mode, e))) ↦ elim (Option-cases (o.set_mode mode)) [
      | inl none_wrong ↦
          rw (e, none_wrong, handle_mode_command)
            (Kept-trans c (record c { workspace_mode = mode }) _
              (Kept-quiet c (record c { workspace_mode = mode }) refl (λ w v. v))
              (send_text-Kept (record c { workspace_mode = mode }) msg _))
      | inr (error, wrong) ↦ rw (e, wrong, handle_mode_command) (send_text-Kept c msg _)
    ]
  ]

  handle_new-Kept :
      (c : Chat) (msg : IncomingMessage) (now : ℕ) (read_ok : Bool)
      → Kept W c (handle_new o c msg now read_ok)
  unfolding handle_new
  handle_new-Kept c msg now read_ok =
      let st : Store =
        (handle_new_silent o.uuid o.write_ok o.channel_key c.store msg.sender_id now read_ok).0 in
      let d : Chat = record c { store = st } in
      let e : Chat = send_text d msg (codes "✅ 已开启新会话") in
      let old : Text = if read_ok then id_of (find_active o.channel_key c.store.sessions) else [] in
      let made : Kept W c e =
        Kept-trans c d e
          (Kept-quiet c d refl (λ w.
            handle_new_silent-IsSingle o.uuid o.write_ok o.channel_key c.store msg.sender_id now
              read_ok (all_ok w c.store.writes)))
          (send_text-Kept d msg _) in
      let after : Store =
        maybe_async_summarize o.uuid o.write_ok o.channel_key st old o.has_summarizer
          (summarize o.summarizer st old) now in
      if_keeps (Kept W c) (is_empty old) _ _ made (
        Kept-trans c e _ made (
          Kept-quiet e (record e { store = after }) refl
            (λ w v.
              IsSingle-same st after
                (maybe_async_summarize-sessions o.uuid o.write_ok o.channel_key st old
                  o.has_summarizer (summarize o.summarizer st old) now)
                (unfold send_text put in v))))

  pub handle_built_in_commands-Kept :
      (c : Chat) (msg : IncomingMessage) (trimmed : Text) (now : ℕ) (read_ok : Bool)
      → Kept W c (handle_built_in_commands o c msg trimmed now read_ok).0
  unfolding handle_built_in_commands handle_search
  handle_built_in_commands-Kept c msg trimmed now read_ok =
      let cleared : Chat = record c { pending_attachment_prompts = [] } in
      let kept : Chat × Bool → Type 0 = λ x. Kept W c x.0 in
      if_keeps kept (text_eq trimmed (codes "/new")) _ _
        (Kept-trans c cleared _ (Kept-quiet c cleared refl (λ w v. v))
          (handle_new-Kept cleared msg now read_ok))
        (if_keeps kept (handle_mode_command o c msg trimmed).1 _ _
          (handle_mode_command-Kept c msg trimmed)
          (if_keeps kept (has_prefix trimmed (codes "/search ")) _ _ (send_text-Kept c msg _)
            (Kept-refl c)))

  title_session-IsSingle :
      (st : Store) (sess : Session) (prompt : Text)
      → IsSingle st
      → IsSingle (title_session o st sess prompt).0
  unfolding title_session
  title_session-IsSingle st sess prompt v =
      if_keeps (λ (x : Store × Session). IsSingle x.0)
        ((length sess.title == 0) && not (is_attachment_only prompt)) _ _
        (maybe_set_title-IsSingle o.uuid o.write_ok st sess prompt v) v

  prepare_with-Kept :
      (c : Chat) (msg : IncomingMessage) (found : Session) (prompt : Text) (now : ℕ)
      → Kept W c (prepare_with o c msg found prompt now).0
  unfolding prepare_with record_user_message
  prepare_with-Kept c msg found prompt now =
      let recorded : Store = record_user_message o c.store found msg prompt now in
      let st : Store = (title_session o recorded found prompt).0 in
      let single : W → IsSingle c.store → IsSingle st = λ w v.
        title_session-IsSingle recorded found prompt
          (IsSingle-same c.store recorded (record_message-sessions o.uuid o.write_ok _ _ now) v) in
      let waiting : Chat = record c {
        store = st;
        pending_attachment_prompts = c.pending_attachment_prompts ++ prompt ∷ [];
      } in
      if_keeps (λ (x : Chat × Option Prepared). Kept W c x.0) (is_attachment_only prompt) _ _
        (Kept-trans c waiting _ (Kept-quiet c waiting refl single) (send_text-Kept waiting msg _))
        (Kept-quiet c _ refl single)

  pub prepare_prompt_with_context-Kept :
      (c : Chat) (msg : IncomingMessage) (now : ℕ) (read_ok : Bool)
      → Kept W c (prepare_prompt_with_context o c msg now read_ok).0
  unfolding prepare_prompt_with_context
  prepare_prompt_with_context-Kept c msg now read_ok =
      let got : Store × Option Session =
        get_or_create_session o.uuid o.write_ok o.channel_key c.store msg.sender_id now read_ok in
      let d : Chat = record c { store = got.0 } in
      let kept : Kept W c d = Kept-quiet c d refl (λ w.
        get_or_create_session-IsSingle o.uuid o.write_ok o.channel_key c.store msg.sender_id now
          read_ok) in
      elim (Option-cases got.1) [
        | inl nothing ↦ rw (nothing, prepare_prompt_with_context) kept
        | inr (sess, found) ↦
            rw (found, prepare_prompt_with_context)
              (Kept-trans c d _ kept
                (prepare_with-Kept d msg sess (move_attachments o msg.prompt sess) now))
      ]
