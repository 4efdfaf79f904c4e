-- ===== src/Heartbeat/Service.antt =====
-- internal/heartbeat/service.go: Start, Stop and Restart of the loops, and runOnce with its helpers.
-- `Executed` is what the executor returns, which keeps a process for the run's session until
-- RemoveSession; times are one reading of the clock.
use memknow.Common.{
  ℕ, suc, Bool, not, ◌&&◌, ◌||◌, List, [], ◌∷◌, ◌++◌, Option, none, some, Text, codes,
  if◌then◌else◌, text_eq, is_empty, ltb, length, lookup, insert, trim_space, sort_by,
}
use memknow.Feishu.Message.{receive_id_type}
use memknow.Manager.Dispatch.{ChannelRow, Reply}
use memknow.Recall.Format.{member}
use memknow.Schedule.Runs.{Executed, answered, failed, shut}
use memknow.Store.Sessions.{fresh_session, remove_interactive}
use memknow.Store.Tables.{Session, SessionType, update_session}

-- config.HeartbeatConfig.
pub record HeartbeatConfig : Type 0 where
  pub enabled : Bool
  pub interval_minutes : ℕ
  pub notify_target_type : Text
  pub notify_target_id : Text

pub record NotifyTarget : Type 0 where
  pub chat_type : Text
  pub chat_id : Text

-- A loop runs until its context is cancelled: the number of the context, which counts the loops
-- started, stands for its CancelFunc.
pub record Loops : Type 0 where
  pub loops : List (Text × ℕ)
  pub started : List Text
  pub cancelled : List ℕ

unfoldable pub should_enable : HeartbeatConfig → Bool
should_enable cfg = cfg.enabled && ltb 0 cfg.interval_minutes

-- A round of Start for an app: one loop for each app.
unfoldable pub start_app : HeartbeatConfig → Loops → Text → Loops
unfolding should_enable lookup insert
start_app cfg s app_id =
    let n = length s.started in
    if not (should_enable cfg) then s else elim (lookup app_id s.loops) [
      | some _ ↦ s
      | none ↦ record s { loops = insert app_id n s.loops; started = s.started ++ app_id ∷ [] }
    ]

unfoldable pub start : HeartbeatConfig → List Text → Loops → Loops
unfolding start_app
start cfg [] s = s
start cfg (a ∷ apps) s = start cfg apps (start_app cfg s a)

unfoldable pub cancel_all : List (Text × ℕ) → List ℕ → List ℕ
cancel_all [] out = out
cancel_all ((app_id, n) ∷ l) out = cancel_all l (n ∷ out)

unfoldable pub stop : Loops → Loops
unfolding cancel_all
stop s = record s { loops = []; cancelled = cancel_all s.loops s.cancelled }

unfoldable pub restart : HeartbeatConfig → List Text → Loops → Loops
unfolding start stop
restart cfg apps s = start cfg apps (stop s)

-- The tables that a run writes, the processes of the executor, what was sent, and the numbers of
-- UUIDs drawn, writes and messages tried.
pub record HeartTables : Type 0 where
  pub sessions : List Session
  pub channels : List (Text × ChannelRow)
  pub interactive : List Text
  pub replies : List Reply
  pub drawn : ℕ
  pub writes : ℕ

abbrev pub heartbeat_channel_key : Text → Text
heartbeat_channel_key app_id = codes "heartbeat:" ++ app_id

abbrev pub heartbeat_session : Text → Text → ℕ → Session
heartbeat_session id key now = record (fresh_session id key [] [] now) {
  session_type = SessionType.heartbeat;
}

abbrev pub heartbeat_channel : Text → ℕ → ChannelRow
heartbeat_channel app_id now = record {
  app_id = app_id;
  chat_type = codes "system";
  chat_id = codes "__heartbeat__";
  thread_id = [];
  updated_at = now;
}

-- The configured target, where its type is one of two.
unfoldable pub notify_target : HeartbeatConfig → Option NotifyTarget
unfolding trim_space
notify_target cfg =
    let t = trim_space cfg.notify_target_type in
    let id = trim_space cfg.notify_target_id in
    if is_empty t || is_empty id
    then none
    else if text_eq t (codes "p2p") || text_eq t (codes "group")
    then some (record { chat_type = t; chat_id = id })
    else none

-- The loop over the channels of single chats: each chat once.
unfoldable pub distinct_targets : List Text → List ChannelRow → List NotifyTarget
unfolding member
distinct_targets seen [] = []
distinct_targets seen (c ∷ l) =
    let skipped = distinct_targets seen l in
    let rest = distinct_targets (c.chat_id ∷ seen) l in
    if is_empty c.chat_id
    then skipped
    else if member c.chat_id seen
    then skipped
    else record { chat_type = codes "p2p"; chat_id = c.chat_id } ∷ rest

unfoldable pub p2p_channels : Text → List (Text × ChannelRow) → List ChannelRow
p2p_channels app_id [] = []
p2p_channels app_id ((key, c) ∷ l) =
    let rest = p2p_channels app_id l in
    if text_eq c.app_id app_id && text_eq c.chat_type (codes "p2p") then c ∷ rest else rest

abbrev pub more_recent : ChannelRow → ChannelRow → Bool
more_recent c d = ltb d.updated_at c.updated_at

-- `tied` is the order of channels with the same time; `read_ok` the outcome of the query.
unfoldable pub notify_targets :
    (tied : List ChannelRow → List ChannelRow) (read_ok : Bool)
    → HeartbeatConfig
    → List (Text × ChannelRow)
    → Text
    → List NotifyTarget
unfolding notify_target distinct_targets p2p_channels sort_by
notify_targets tied read_ok cfg channels app_id = elim (notify_target cfg) [
  | some t ↦ t ∷ []
  | none ↦
      if read_ok
      then distinct_targets [] (sort_by more_recent (tied (p2p_channels app_id channels)))
      else []
]

-- SendText to each target in turn; an error is only logged.
unfoldable pub notify_all : List NotifyTarget → Text → List Reply → List Reply
unfolding receive_id_type
notify_all [] text replies = replies
notify_all (t ∷ l) text replies = notify_all l text (
    replies
    ++ record {
      receive_id = t.chat_id;
      receive_type = receive_id_type t.chat_type t.chat_id;
      body = text;
    }
      ∷ [])

module _ (uuid : ℕ → Text) (write_ok : ℕ → Bool) where
  -- A statement that fails is only logged.
  unfoldable pub try_write : HeartTables → (HeartTables → HeartTables) → HeartTables
  try_write s change =
      let s' = if write_ok s.writes then change s else s in record s' { writes = suc s.writes }

  -- FirstOrCreate: an old row stays as it is.
  unfoldable pub ensure_channel : HeartTables → Text → Text → ℕ → HeartTables
  unfolding try_write lookup insert
  ensure_channel s key app_id now = elim (lookup key s.channels) [
    | some row ↦ s
    | none ↦
        try_write s
          (λ x. record x { channels = insert key (heartbeat_channel app_id now) x.channels })
  ]

  unfoldable pub create_heartbeat_session : HeartTables → Text → Text → ℕ → HeartTables
  unfolding try_write
  create_heartbeat_session s id key now =
      try_write s (λ x. record x { sessions = x.sessions ++ heartbeat_session id key now ∷ [] })

  unfoldable pub archive_heartbeat_session : HeartTables → Text → ℕ → HeartTables
  unfolding try_write update_session
  archive_heartbeat_session s id now =
      try_write s (λ x. record x { sessions = update_session id (shut now) x.sessions })

  module _ (tied : List ChannelRow → List ChannelRow) (cfg : HeartbeatConfig) where
    -- What follows an execution; `has_sender` says that the app has a sender.
    unfoldable pub notify : HeartTables → Text → Bool → Bool → Text → Executed → HeartTables
    unfolding notify_targets notify_all remove_interactive trim_space
    notify s app_id has_sender read_ok id (failed error) = s
    notify s app_id has_sender read_ok id (answered text) =
        let s' = record s { interactive = remove_interactive id s.interactive } in
        let targets = notify_targets tied read_ok cfg s'.channels app_id in
        let t = trim_space text in
        if is_empty t
        then s'
        else if has_sender
        then record s' { replies = notify_all targets t s'.replies }
        else s'

    -- `prompt` is the content of the prompt file, `none` where it cannot be read.
    unfoldable pub run_once :
        (Text → Text → Executed) → HeartTables → Text → Option Text → Bool → Bool → ℕ → HeartTables
    unfolding ensure_channel create_heartbeat_session notify archive_heartbeat_session
    run_once execute s app_id none has_sender read_ok now = s
    run_once execute s app_id (some prompt) has_sender read_ok now =
        let key = heartbeat_channel_key app_id in
        let s₁ = ensure_channel s key app_id now in
        let id = uuid s₁.drawn in
        let s₂ = create_heartbeat_session (record s₁ { drawn = suc s₁.drawn }) id key now in
        let s₃ = record s₂ { interactive = id ∷ s₂.interactive } in
        let s₄ = notify s₃ app_id has_sender read_ok id (execute prompt id) in
        if is_empty prompt then s else archive_heartbeat_session s₄ id now
