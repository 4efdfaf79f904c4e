-- ===== src/Manager/Dispatch.antt =====
-- internal/session/manager.go: Dispatch, the workers' queues and the running execution of each.
use memknow.Common.{
  ℕ, suc, Bool, true, false, List, [], ◌∷◌, ◌++◌, Option, none, some, Text, codes, ltb, ◌==◌,
  if◌then◌else◌, lookup, insert, text_eq, trim_space, length,
}
use memknow.Feishu.Message.{IncomingMessage}
use memknow.Manager.Dedup.{Recent, is_duplicate}

-- The capacity of a worker's channel of messages.
abbrev pub queue_size : ℕ
queue_size = 64

-- A worker: what waits in its queue, oldest first, the id of its last run, the run whose cancel
-- function it holds, and the runs that were cancelled by a stop.
pub record Worker : Type 0 where
  pub app_id : Text
  pub queue : List IncomingMessage
  pub current_run_id : ℕ
  pub current_run_cancel : Option ℕ
  pub stopped : List ℕ

-- A row of the table of channels, as `ensureChannel` writes it.
pub record ChannelRow : Type 0 where
  pub app_id : Text
  pub chat_type : Text
  pub chat_id : Text
  pub thread_id : Text
  pub updated_at : ℕ

-- A text sent by the manager: whom to, in which kind of id, and what.
pub record Reply : Type 0 where
  pub receive_id : Text
  pub receive_type : Text
  pub body : Text

pub record Manager : Type 0 where
  pub app_registry : List (Text × Unit {0})
  pub senders : List (Text × Unit {0})
  pub workers : List (Text × Worker)
  pub running : ℕ  -- the count of the wait group
  pub recent : Recent
  pub channels : List (Text × ChannelRow)
  pub replies : List Reply

-- beginCurrentRun: the new run's id is what its end hands back.
unfoldable pub begin_current_run : Worker → Worker × ℕ
begin_current_run w =
    let run_id = suc w.current_run_id in
    (record w { current_run_id = run_id; current_run_cancel = some run_id }, run_id)

-- The function that beginCurrentRun returns; the run's own context ends with it in any case.
unfoldable pub finish_current_run : Worker → ℕ → Worker
finish_current_run w run_id =
    if w.current_run_id == run_id then record w { current_run_cancel = none } else w

unfoldable pub stop_current_execution : Worker → Worker × Bool
stop_current_execution w = elim w.current_run_cancel [
  | none ↦ (w, false)
  | some run ↦ (record w { current_run_cancel = none; stopped = run ∷ w.stopped }, true)
]

abbrev pub stopped_text : Text
stopped_text = codes "已停止当前执行。"

abbrev pub idle_text : Text
idle_text = codes "当前没有正在执行的任务。"

-- handleStop: the worker is stopped also where no sender can answer.
unfoldable pub stop_worker : Manager → Text → Manager × Bool
stop_worker m key = elim (lookup key m.workers) [
  | none ↦ (m, false)
  | some w ↦
      let (w', done) = stop_current_execution w in
      (record m { workers = insert key w' m.workers }, done)
]

unfoldable pub send_reply : Manager → IncomingMessage → Text → Manager
send_reply m msg text = elim (lookup msg.app_id m.senders) [
  | none ↦ m
  | some _ ↦ record m {
    replies =
        m.replies
        ++ record { receive_id = msg.receive_id; receive_type = msg.receive_type; body = text }
          ∷ [];
  }
]

unfoldable pub handle_stop : Manager → IncomingMessage → Manager
handle_stop m msg =
    let (m', done) = stop_worker m msg.channel_key in
    send_reply m' msg (if done then stopped_text else idle_text)

unfoldable pub handle_immediate_built_in_command : Manager → IncomingMessage → Option Manager
handle_immediate_built_in_command m msg =
    if text_eq (trim_space msg.prompt) (codes "/stop") then some (handle_stop m msg) else none

-- FirstOrCreate with Assign: an old row keeps its app, a new one is written whole. `stored` is
-- the outcome of the database.
unfoldable pub ensure_channel : Manager → IncomingMessage → ℕ → Bool → Manager
ensure_channel m msg now stored =
    let app = elim (lookup msg.channel_key m.channels) as (λ _. Text) [
      | none ↦ msg.app_id
      | some row ↦ row.app_id
    ] in
    let row : ChannelRow = record {
      app_id = app;
      chat_type = msg.chat_type;
      chat_id = msg.chat_id;
      thread_id = msg.thread_id;
      updated_at = now;
    } in
    if stored then record m { channels = insert msg.channel_key row m.channels } else m

abbrev pub new_worker : Text → Worker
new_worker app_id = record {
  app_id = app_id;
  queue = [];
  current_run_id = 0;
  current_run_cancel = none;
  stopped = [];
}

-- The manager with the channel's worker, or `none` where there can be none.
unfoldable pub get_or_create_worker :
    Manager → IncomingMessage → ℕ → Bool → Option (Manager × Worker)
get_or_create_worker m msg now stored = elim (lookup msg.channel_key m.workers) [
  | some w ↦ some (m, w)
  | none ↦ elim (lookup msg.app_id m.app_registry) [
    | none ↦ none
    | some _ ↦ elim (lookup msg.app_id m.senders) [
      | none ↦ none
      | some _ ↦
          let m' = ensure_channel m msg now stored in
          let w = new_worker msg.app_id in
          some (
            record m' { workers = insert msg.channel_key w m'.workers; running = suc m'.running },
            w,
          )
    ]
  ]
]

-- The `select` with a default: a message for a full queue is dropped.
unfoldable pub offer : Worker → IncomingMessage → Worker
offer w msg =
    if ltb (length w.queue) queue_size then record w { queue = w.queue ++ msg ∷ [] } else w

unfoldable pub enqueue : Manager → IncomingMessage → ℕ → Bool → Manager
enqueue m msg now stored = elim (get_or_create_worker m msg now stored) [
  | none ↦ m
  | some (m', w) ↦ record m' { workers = insert msg.channel_key (offer w msg) m'.workers }
]

-- Dispatch. It never returns an error.
unfoldable pub dispatch : Manager → IncomingMessage → ℕ → Bool → Manager
dispatch m msg now stored =
    let (recent, duplicate) = is_duplicate m.recent msg.message_id now in
    let m' = record m { recent = recent } in
    if duplicate then m' else elim (handle_immediate_built_in_command m' msg) [
      | some done ↦ done
      | none ↦ enqueue m' msg now stored
    ]
