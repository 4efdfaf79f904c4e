-- ===== src/Store/Sessions.antt =====
-- internal/session/worker.go: getOrCreateSession, handleNewSilent, maybeAsyncSummarize and
-- maybeSetTitle.
use memknow.Common.{
  ℕ, suc, Bool, List, [], ◌∷◌, ◌++◌, Option, none, some, Text, if◌then◌else◌, text_eq, is_empty,
  ltb, length, ◌==◌,
}
use memknow.Store.Tables.{
  Session, chat, active, Store, SessionSummary, Message, find_active, archive_all, update_session,
  next_ok, write,
}
use memknow.Worker.Attachments.{generate_title}

-- RemoveSession of the interactive executor.
unfoldable pub remove_interactive : Text → List Text → List Text
remove_interactive id [] = []
remove_interactive id (x ∷ l) =
    if text_eq x id then remove_interactive id l else x ∷ remove_interactive id l

unfoldable pub cleanup_interactive_session : Store → Text → Store
cleanup_interactive_session st id = record st { interactive = remove_interactive id st.interactive }

-- A row of `sessions` as the worker fills it; the rest are Go's zero values.
abbrev pub fresh_session : Text → Text → Text → Text → ℕ → Session
fresh_session id key sender parent now = record {
  id = id;
  channel_key = key;
  session_type = chat;
  claude_session_id = [];
  status = active;
  created_by = sender;
  title = [];
  parent_session_id = parent;
  input_tokens = 0;
  output_tokens = 0;
  cache_read_tokens = 0;
  cache_write_tokens = 0;
  model = [];
  created_at = now;
  updated_at = now;
}

-- What `First` fills in: the id of the row found, or the zero value.
abbrev pub id_of : Option Session → Text
id_of none = []
id_of (some s) = s.id

-- `uuid n` is the n-th UUID that is drawn. A session comes with its channel's key.
module _ (uuid : ℕ → Text) (write_ok : ℕ → Bool) (key : Text) where
  -- The row is created under the next id; `none` if the write fails.
  unfoldable pub create_session : Store → Text → Text → ℕ → Store × Option Session
  create_session st sender parent now =
      let sess = fresh_session (uuid st.drawn) key sender parent now in
      let st' = record st { drawn = suc st.drawn } in
      (
        write write_ok st' (λ x. record x { sessions = x.sessions ++ sess ∷ [] }),
        if next_ok write_ok st' then some sess else none,
      )

  -- `read_ok`: the query does not fail for another reason than that there is no row.
  unfoldable pub get_or_create_session : Store → Text → ℕ → Bool → Store × Option Session
  get_or_create_session st sender now read_ok =
      if read_ok
      then elim (find_active key st.sessions) [
        | some s ↦ (st, some s)
        | none ↦ create_session st sender [] now
      ]
      else (st, none)

  -- All active sessions of the channel are archived, whose update may fail, and the old session's
  -- process is removed.
  unfoldable pub archive_current : Store → Text → ℕ → Store
  archive_current st old now =
      let st' = write write_ok st (λ x. record x { sessions = archive_all key now x.sessions }) in
      if is_empty old then st' else cleanup_interactive_session st' old

  -- The first query's error is not looked at: `oldSess` is then empty.
  unfoldable pub handle_new_silent : Store → Text → ℕ → Bool → Store × Option Session
  handle_new_silent st sender now read_ok =
      let old = if read_ok then id_of (find_active key st.sessions) else [] in
      create_session (archive_current st old now) sender old now

  -- The row of a summary under the next id; errors are not looked at.
  unfoldable pub create_summary : Store → Text → Text → ℕ → Store
  create_summary st session_id text now =
      let row : SessionSummary = record {
        id = uuid st.drawn;
        session_id = session_id;
        channel_key = key;
        content = text;
        created_at = now;
      } in
      write write_ok (record st { drawn = suc st.drawn })
        (λ x. record x { summaries = x.summaries ++ row ∷ [] })

  unfoldable pub count_messages : Text → List Message → ℕ
  count_messages id [] = 0
  count_messages id (m ∷ l) =
      if text_eq m.session_id id then suc (count_messages id l) else count_messages id l

  -- `summary` is what the summarizer returns, `none` for an error; `enabled` whether there is one.
  unfoldable pub maybe_async_summarize : Store → Text → Bool → Option Text → ℕ → Store
  maybe_async_summarize st id enabled summary now =
      let st' = elim summary as (λ _. Store) [
        | none ↦ st
        | some text ↦ if is_empty text then st else create_summary st id text now
      ] in
      if enabled
      then (if ltb (count_messages id st.messages) 3
          then cleanup_interactive_session st id
          else cleanup_interactive_session st' id)
      else st

-- The row's title, and the title of the session in memory if the write succeeds.
unfoldable pub maybe_set_title : (ℕ → Bool) → Store → Session → Text → Store × Session
maybe_set_title write_ok st sess prompt =
    let title = generate_title prompt in
    if length title == 0 then (st, sess) else (
      write write_ok st (λ x. record x {
        sessions = update_session sess.id (λ s. record s { title = title }) x.sessions;
      }),
      if next_ok write_ok st then record sess { title = title } else sess,
    )
