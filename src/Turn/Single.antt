-- ===== src/Turn/Single.antt =====
-- What the writes of a turn leave of the sessions: one active session at most in every channel.
use memknow.Common.{
  ℕ, ◌≤◌, ◌≡◌, refl, Bool, true, List, [], ◌∷◌, Option, none, some, Text, arith, if_keeps, length,
  ◌==◌,
}
use memknow.Store.Active.{IsSingle}
use memknow.Store.Persist.{ExecuteResult, apply_result, has_updates, persist_result, record_message}
use memknow.Store.Records.{persist_result-sessions}
use memknow.Store.Sessions.{
  cleanup_interactive_session, create_summary, maybe_async_summarize, maybe_set_title,
}
use memknow.Worker.Attachments.{generate_title}
use memknow.Store.Tables.{Message, Session, Store, count_active, update_session, write}

-- A change of rows that leaves their channels and their status leaves the counts.
count_active-update_session :
    (key id : Text) (f : Session → Session) (l : List Session)
    → ((s : Session) → (f s).channel_key ≡ s.channel_key)
    → ((s : Session) → (f s).status ≡ s.status)
    → count_active key (update_session id f l) ≡ count_active key l
unfolding count_active update_session
count_active-update_session key id f [] k t = refl
count_active-update_session key id f (s ∷ l) k t =
    ground (arith, count_active-update_session key id f l k t, k s, t s)

pub IsSingle-same : (st st' : Store) → st'.sessions ≡ st.sessions → IsSingle st → IsSingle st'
IsSingle-same st st' e v j = rw e (v j)

IsSingle-update :
    (st st' : Store) (id : Text) (f : Session → Session)
    → ((s : Session) → (f s).channel_key ≡ s.channel_key)
    → ((s : Session) → (f s).status ≡ s.status)
    → st'.sessions ≡ update_session id f st.sessions
    → IsSingle st
    → IsSingle st'
IsSingle-update st st' id f k t e v j =
    rw (e, count_active-update_session j id f st.sessions k t) (v j)

module _ (uuid : ℕ → Text) (write_ok : ℕ → Bool) where
  pub record_message-sessions :
      (st : Store) (m : Message) (now : ℕ)
      → (record_message uuid write_ok st m now).sessions ≡ st.sessions
  unfolding record_message write
  record_message-sessions st m now = ground arith

  pub create_summary-sessions :
      (key : Text) (st : Store) (id text : Text) (now : ℕ)
      → (create_summary uuid write_ok key st id text now).sessions ≡ st.sessions
  unfolding create_summary write
  create_summary-sessions key st id text now = ground arith

  pub maybe_async_summarize-sessions :
      (key : Text) (st : Store) (id : Text) (enabled : Bool) (summary : Option Text) (now : ℕ)
      → (maybe_async_summarize uuid write_ok key st id enabled summary now).sessions ≡ st.sessions
  unfolding maybe_async_summarize cleanup_interactive_session
  maybe_async_summarize-sessions key st id enabled none now = ground arith
  maybe_async_summarize-sessions key st id enabled (some text) now =
      ground (arith, create_summary-sessions key st id text now)

  pub maybe_set_title-IsSingle :
      (st : Store) (sess : Session) (prompt : Text)
      → IsSingle st
      → IsSingle (maybe_set_title write_ok st sess prompt).0
  unfolding maybe_set_title write
  maybe_set_title-IsSingle st sess prompt v =
      let title = generate_title prompt in
      let changed : Store = record st {
        sessions = update_session sess.id (λ s. record s { title = title }) st.sessions;
      } in
      if_keeps (λ (x : Store × Session). IsSingle x.0) (length title == 0) _ _ v
        (λ j.
          if_keeps (λ (x : Store). count_active j x.sessions ≤ 1) (write_ok st.writes) changed st
            (IsSingle-update st changed sess.id (λ s. record s { title = title }) (λ s. refl)
              (λ s. refl) refl v j)
            (v j))

  pub persist_result-IsSingle :
      (all_ok : (n : ℕ) → write_ok n ≡ true) (st : Store) (sess : Session) (r : ExecuteResult)
      (now : ℕ)
      → IsSingle st
      → IsSingle (persist_result uuid write_ok st sess r now)
  persist_result-IsSingle all_ok st sess r now v j =
      rw (persist_result-sessions uuid write_ok all_ok st sess r now) (
        if_keeps (λ (l : List Session). count_active j l ≤ 1) (has_updates sess r) _ _
          (rw
            (count_active-update_session j sess.id (apply_result sess r now) st.sessions
              (λ s. unfold apply_result in refl) (λ s. unfold apply_result in refl))
            (v j))
          (v j))
