-- ===== src/Manager/Routing.antt =====
-- What Dispatch does to the workers: the bound of the queues, the order of the messages, and the
-- independence of the channels.
use memknow.Common.{
  ℕ, suc, ◌≤◌, ◌≡◌, refl, sym, subst, ◌⊎◌, inl, inr, Bool, List, [], ◌∷◌, none, some, Text, arith,
  length, length-append, length-insert_new, length-insert_old, lookup, insert, lookup-insert,
  text_eq, text_eq_self, if◌then◌else◌, Option-cases, Bool-cases, if_keeps,
}
use memknow.Feishu.Message.{IncomingMessage}
use memknow.Manager.Dedup.{is_duplicate}
use memknow.Manager.Dispatch.{
  Manager, Worker, queue_size, offer, enqueue, dispatch, get_or_create_worker, ensure_channel,
  handle_stop, stop_worker, send_reply, stop_current_execution, handle_immediate_built_in_command,
  new_worker, stopped_text, idle_text,
}

-- What holds of a manager between two messages: no queue is longer than its channel's capacity,
-- and the wait group counts the workers.
pub record IsSound (m : Manager) : Type 0 where
  pub queues_bounded :
      (key : Text) (w : Worker) → lookup key m.workers ≡ some w → length w.queue ≤ queue_size
  pub workers_counted : m.running ≡ length m.workers

length-offer :
    (w : Worker) (msg : IncomingMessage)
    → length w.queue ≤ queue_size
    → length (offer w msg).queue ≤ queue_size
unfolding offer
length-offer w msg h = ground (arith, length-append w.queue (msg ∷ []))

queue-stop : (w : Worker) → (stop_current_execution w).0.queue ≡ w.queue
unfolding stop_current_execution
queue-stop w = ground arith

-- A worker put in the place of another, or of none, with the count kept.
insert-bounded :
    (ws : List (Text × Worker)) (k : Text) (v : Worker)
    → ((key : Text) (w : Worker) → lookup key ws ≡ some w → length w.queue ≤ queue_size)
    → length v.queue ≤ queue_size
    → (key : Text) (w : Worker) → lookup key (insert k v ws) ≡ some w
    → length w.queue ≤ queue_size
insert-bounded ws k v h b key w e = elim (Bool-cases (text_eq k key)) [
  | inl same ↦ ground (arith, lookup-insert k key v ws)
  | inr other ↦ h key w (ground (arith, lookup-insert k key v ws))
]

ensure_channel-workers :
    (m : Manager) (msg : IncomingMessage) (now : ℕ) (stored : Bool)
    → ((ensure_channel m msg now stored).workers ≡ m.workers)
      × ((ensure_channel m msg now stored).running ≡ m.running)
unfolding ensure_channel
ensure_channel-workers m msg now stored = ground arith

-- The worker is the channel's own, or a new one in a place that was free.
pub get_or_create_worker_cases :
    (m m' : Manager) (w : Worker) (msg : IncomingMessage) (now : ℕ) (stored : Bool)
    → get_or_create_worker m msg now stored ≡ some (m', w)
    → ((m' ≡ m) × (lookup msg.channel_key m.workers ≡ some w))
      ⊎ ((lookup msg.channel_key m.workers ≡ none)
          × (w ≡ new_worker msg.app_id)
          × (m'.workers ≡ insert msg.channel_key w m.workers)
          × (m'.running ≡ suc m.running))
unfolding get_or_create_worker
get_or_create_worker_cases m m' w msg now stored e =
    ground (arith, ensure_channel-workers m msg now stored)

-- A worker in the place of the channel's own, or of the new one.
replace-IsSound :
    (m : Manager) (k : Text) (w v : Worker)
    → IsSound m
    → lookup k m.workers ≡ some w
    → length v.queue ≤ queue_size
    → IsSound (record m { workers = insert k v m.workers })
replace-IsSound m k w v s e h = record {
  queues_bounded = insert-bounded m.workers k v s.queues_bounded h;
  workers_counted = omega (arith, s.workers_counted, length-insert_old k v w m.workers e);
}

get_or_create_worker-IsSound :
    (m m' : Manager) (w : Worker) (msg : IncomingMessage) (now : ℕ) (stored : Bool)
    → IsSound m
    → get_or_create_worker m msg now stored ≡ some (m', w)
    → IsSound m' × (lookup msg.channel_key m'.workers ≡ some w)
get_or_create_worker-IsSound m m' w msg now stored v e =
    elim (get_or_create_worker_cases m m' w msg now stored e) [
      | inl (same, found) ↦ (subst IsSound (sym same) v, rw same found)
      | inr (free, new, ws, n) ↦ (
        record {
          queues_bounded =
              rw ws (
                insert-bounded m.workers msg.channel_key w v.queues_bounded (rw new (omega arith)));
          workers_counted =
              rw (ws, n)
                (omega
                  (arith, v.workers_counted, length-insert_new msg.channel_key w m.workers free));
        },
        rw (ws, lookup-insert, text_eq_self),
      )
    ]

enqueue-IsSound :
    (m : Manager) (msg : IncomingMessage) (now : ℕ) (stored : Bool)
    → IsSound m
    → IsSound (enqueue m msg now stored)
unfolding enqueue
enqueue-IsSound m msg now stored v = elim (Option-cases (get_or_create_worker m msg now stored)) [
  | inl e ↦ rw (e, enqueue) v
  | inr ((m', w), e) ↦
      let (s, found) = get_or_create_worker-IsSound m m' w msg now stored v e in
      rw (e, enqueue)
        (replace-IsSound m' msg.channel_key w (offer w msg) s found
          (length-offer w msg (s.queues_bounded msg.channel_key w found)))
]

stop_worker-IsSound : (m : Manager) (k : Text) → IsSound m → IsSound (stop_worker m k).0
unfolding stop_worker
stop_worker-IsSound m k v = elim (Option-cases (lookup k m.workers)) [
  | inl e ↦ rw (e, stop_worker) v
  | inr (w, e) ↦
      rw (e, stop_worker)
        (replace-IsSound m k w (stop_current_execution w).0 v e
          (rw (queue-stop w) (v.queues_bounded k w e)))
]

pub send_reply-workers :
    (m : Manager) (msg : IncomingMessage) (t : Text)
    → ((send_reply m msg t).workers ≡ m.workers) × ((send_reply m msg t).running ≡ m.running)
unfolding send_reply
send_reply-workers m msg t = ground arith

same-IsSound :
    (m m' : Manager) → (m'.workers ≡ m.workers) × (m'.running ≡ m.running) → IsSound m → IsSound m'
same-IsSound m m' (e, e') v = record {
  queues_bounded = rw e v.queues_bounded;
  workers_counted = rw (e, e') v.workers_counted;
}

command-IsSound :
    (m done : Manager) (msg : IncomingMessage)
    → IsSound m
    → handle_immediate_built_in_command m msg ≡ some done
    → IsSound done
unfolding handle_immediate_built_in_command handle_stop
command-IsSound m done msg v e =
    let stopped : Manager = (stop_worker m msg.channel_key).0 in
    let text = if (stop_worker m msg.channel_key).1 then stopped_text else idle_text in
    subst IsSound (ground arith) (
      same-IsSound stopped (send_reply stopped msg text) (send_reply-workers stopped msg text)
        (stop_worker-IsSound m msg.channel_key v))

-- A message that is dispatched, whatever it is, keeps every queue within its 64 places and the
-- wait group equal to the number of registered workers.
pub dispatch-IsSound :
    (m : Manager) (msg : IncomingMessage) (now : ℕ) (stored : Bool)
    → IsSound m
    → IsSound (dispatch m msg now stored)
unfolding dispatch
dispatch-IsSound m msg now stored v =
    let m' : Manager = record m { recent = (is_duplicate m.recent msg.message_id now).0 } in
    let s : IsSound m' = same-IsSound m m' (refl, refl) v in
    if_keeps IsSound (is_duplicate m.recent msg.message_id now).1 _ _ s
      (elim (Option-cases (handle_immediate_built_in_command m' msg)) [
        | inl e ↦ rw (e, dispatch) (enqueue-IsSound m' msg now stored s)
        | inr (done, e) ↦ rw (e, dispatch) (command-IsSound m' done msg s e)
      ])
