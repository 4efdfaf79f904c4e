-- ===== src/Heartbeat/Run.antt =====
-- What a heartbeat leaves in the table of sessions.
use memknow.Common.{
  ℕ, suc, ◌≡◌, ◌≢◌, refl, ◌∙◌, sym, ap, subst, not, Bool, true, false, List, [], ◌∷◌, ◌++◌, Option,
  none, some, Text, arith, if◌then◌else◌, is_empty, trim_space, All, if_keeps,
}
use memknow.Manager.Dispatch.{ChannelRow}
use memknow.Schedule.Outcome.{update_session-last}
use memknow.Schedule.Runs.{Executed, answered, failed, shut}
use memknow.Store.Tables.{update_session}
use memknow.Heartbeat.Service.{
  HeartbeatConfig, HeartTables, heartbeat_channel_key, heartbeat_session, try_write, ensure_channel,
  create_heartbeat_session, archive_heartbeat_session, notify, run_once,
}

-- A prompt that can be read and is not empty.
abbrev pub has_prompt : Option Text → Bool
has_prompt none = false
has_prompt (some t) = not (is_empty t)

module _ (uuid : ℕ → Text) (write_ok : ℕ → Bool) (tied : List ChannelRow → List ChannelRow)
    (cfg : HeartbeatConfig) where
  notify-sessions :
      (s : HeartTables) (app_id : Text) (has_sender read_ok : Bool) (id : Text) (x : Executed)
      → (notify uuid write_ok tied cfg s app_id has_sender read_ok id x).sessions ≡ s.sessions
  unfolding notify
  notify-sessions s app_id has_sender read_ok id (failed error) = refl
  notify-sessions s app_id has_sender read_ok id (answered text) =
      if_keeps (λ (t : HeartTables). t.sessions ≡ s.sessions) (is_empty (trim_space text)) _ _ refl
        (if_keeps (λ (t : HeartTables). t.sessions ≡ s.sessions) has_sender _ _ refl refl)

  ensure_channel-same :
      (s : HeartTables) (key app_id : Text) (now : ℕ)
      → let t = ensure_channel uuid write_ok s key app_id now in
        (t.sessions ≡ s.sessions) × (t.drawn ≡ s.drawn)
  unfolding ensure_channel try_write
  ensure_channel-same s key app_id now = ground arith

  archive_heartbeat_session-sessions :
      ((n : ℕ) → write_ok n ≡ true)
      → (s : HeartTables) (id : Text) (now : ℕ)
      → (archive_heartbeat_session uuid write_ok s id now).sessions
        ≡ update_session id (shut now) s.sessions
  unfolding archive_heartbeat_session try_write
  archive_heartbeat_session-sessions all_ok s id now = rw (all_ok s.writes) refl

  create_heartbeat_session-sessions :
      ((n : ℕ) → write_ok n ≡ true)
      → (s : HeartTables) (id key : Text) (now : ℕ)
      → (create_heartbeat_session uuid write_ok s id key now).sessions
        ≡ s.sessions ++ heartbeat_session id key now ∷ []
  unfolding create_heartbeat_session try_write
  create_heartbeat_session-sessions all_ok s id key now = rw (all_ok s.writes) refl

  -- When the writes succeed and the id is new, a heartbeat with a prompt leaves one session more,
  -- archived, whether or not the execution succeeds and whatever becomes of its result; a heartbeat
  -- whose prompt cannot be read or is empty leaves the sessions as they were.
  pub run_once-sessions :
      ((n : ℕ) → write_ok n ≡ true)
      → (execute : Text → Text → Executed) (s : HeartTables) (app_id : Text) (prompt : Option Text)
        (has_sender read_ok : Bool) (now : ℕ)
      → All (λ y. y.id ≢ uuid s.drawn) s.sessions
      → let t = run_once uuid write_ok tied cfg execute s app_id prompt has_sender read_ok now in
        let fresh = heartbeat_session (uuid s.drawn) (heartbeat_channel_key app_id) now in
        t.sessions ≡ (if has_prompt prompt then s.sessions ++ shut now fresh ∷ [] else s.sessions)
  unfolding run_once
  run_once-sessions all_ok execute s app_id none has_sender read_ok now new = refl
  run_once-sessions all_ok execute s app_id (some []) has_sender read_ok now new = refl
  run_once-sessions all_ok execute s app_id (some (c ∷ rest)) has_sender read_ok now new =
      let key = heartbeat_channel_key app_id in
      let s₁ = ensure_channel uuid write_ok s key app_id now in
      let same = ensure_channel-same s key app_id now in
      let id = uuid s₁.drawn in
      let s₀ : HeartTables = record s₁ { drawn = suc s₁.drawn } in
      let s₂ = create_heartbeat_session uuid write_ok s₀ id key now in
      let s₃ : HeartTables = record s₂ { interactive = id ∷ s₂.interactive } in
      let s₄ =
        notify uuid write_ok tied cfg s₃ app_id has_sender read_ok id (execute (c ∷ rest) id) in
      let fresh = λ (i : Text). heartbeat_session i key now in
      let rows : s₄.sessions ≡ s.sessions ++ fresh id ∷ [] =
        notify-sessions s₃ app_id has_sender read_ok id (execute (c ∷ rest) id)
        ∙ create_heartbeat_session-sessions all_ok s₀ id key now
        ∙ ap (λ l. l ++ fresh id ∷ []) same.0 in
      let apart = subst (λ n. All (λ y. y.id ≢ uuid n) s.sessions) (sym same.1) new in
      archive_heartbeat_session-sessions all_ok s₄ id now
      ∙ ap (update_session id (shut now)) rows
      ∙ update_session-last id (shut now) s.sessions (fresh id) apart refl
      ∙ ap (λ n. s.sessions ++ shut now (fresh (uuid n)) ∷ []) same.1
