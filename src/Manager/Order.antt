-- ===== src/Manager/Order.antt =====
-- Which worker a message reaches: its channel's own, behind what waits there, and no other.
use memknow.Common.{
  ℕ, ◌≡◌, ◌≢◌, refl, ◌∙◌, ap, ◌⊎◌, inl, inr, Bool, false, List, [], ◌∷◌, ◌++◌, none, some, Text,
  codes, arith, ltb, length, lookup, insert, lookup-insert, text_eq, text_eq_iff, text_eq_self,
  trim_space, if◌then◌else◌, Option-cases, if_keeps,
}
use memknow.Feishu.Message.{IncomingMessage}
use memknow.Manager.Dedup.{is_duplicate}
use memknow.Manager.Dispatch.{
  Manager, Worker, queue_size, offer, enqueue, dispatch, get_or_create_worker, handle_stop,
  stop_worker, send_reply, stop_current_execution, handle_immediate_built_in_command, new_worker,
  stopped_text, idle_text,
}
use memknow.Manager.Routing.{get_or_create_worker_cases, send_reply-workers}

-- The worker that a message is for: its channel's own, or a new one.
abbrev pub own_worker : Manager → IncomingMessage → Worker
own_worker m msg = elim (lookup msg.channel_key m.workers) [
  | none ↦ new_worker msg.app_id
  | some w ↦ w
]

-- There is a worker for the message, or one can be started.
abbrev pub Reachable : Manager → IncomingMessage → Type 0
Reachable m msg =
    (lookup msg.channel_key m.workers ≢ none)
    ⊎ ((lookup msg.app_id m.app_registry ≢ none) × (lookup msg.app_id m.senders ≢ none))

lookup-insert_other {ℓ} :
    {V : Type ℓ} (k j : Text) (v : V) (m : List (Text × V))
    → k ≢ j
    → lookup j (insert k v m) ≡ lookup j m
lookup-insert_other k j v m ne = ground (arith, lookup-insert k j v m, text_eq_iff k j)

offer_lem :
    (w : Worker) (msg : IncomingMessage)
    → offer w msg ≡ record w {
      queue = if ltb (length w.queue) queue_size then w.queue ++ msg ∷ [] else w.queue;
    }
unfolding offer
offer_lem w msg = ground arith

get_or_create_worker-ne-none :
    (m : Manager) (msg : IncomingMessage) (now : ℕ) (stored : Bool)
    → Reachable m msg
    → get_or_create_worker m msg now stored ≢ none
unfolding get_or_create_worker
get_or_create_worker-ne-none m msg now stored r = ground arith

get_or_create_worker-own :
    (m m' : Manager) (w : Worker) (msg : IncomingMessage) (now : ℕ) (stored : Bool)
    → get_or_create_worker m msg now stored ≡ some (m', w)
    → w ≡ own_worker m msg
get_or_create_worker-own m m' w msg now stored e =
    elim (get_or_create_worker_cases m m' w msg now stored e) [
      | inl (same, found) ↦ rw (found, own_worker)
      | inr (free, new, ws, n) ↦ rw (free, own_worker) new
    ]

get_or_create_worker-other :
    (m m' : Manager) (w : Worker) (msg : IncomingMessage) (now : ℕ) (stored : Bool) (j : Text)
    → msg.channel_key ≢ j
    → get_or_create_worker m msg now stored ≡ some (m', w)
    → lookup j m'.workers ≡ lookup j m.workers
get_or_create_worker-other m m' w msg now stored j ne e =
    elim (get_or_create_worker_cases m m' w msg now stored e) [
      | inl (same, found) ↦ rw same
      | inr (free, new, ws, n) ↦ rw ws (lookup-insert_other msg.channel_key j w m.workers ne)
    ]

enqueue-own :
    (m : Manager) (msg : IncomingMessage) (now : ℕ) (stored : Bool)
    → Reachable m msg
    → lookup msg.channel_key (enqueue m msg now stored).workers
      ≡ some (offer (own_worker m msg) msg)
unfolding enqueue
enqueue-own m msg now stored r = elim (Option-cases (get_or_create_worker m msg now stored)) [
  | inl e ↦ absurd (get_or_create_worker-ne-none m msg now stored r e)
  | inr ((m', w), e) ↦
      rw (e, enqueue)
        (rw (lookup-insert, text_eq_self)
          (ap (λ v. some (offer v msg)) (get_or_create_worker-own m m' w msg now stored e)))
]

enqueue-other :
    (m : Manager) (msg : IncomingMessage) (now : ℕ) (stored : Bool) (j : Text)
    → msg.channel_key ≢ j
    → lookup j (enqueue m msg now stored).workers ≡ lookup j m.workers
unfolding enqueue
enqueue-other m msg now stored j ne = elim (Option-cases (get_or_create_worker m msg now stored)) [
  | inl e ↦ rw (e, enqueue)
  | inr ((m', w), e) ↦
      rw (e, enqueue)
        (lookup-insert_other msg.channel_key j (offer w msg) m'.workers ne
          ∙ get_or_create_worker-other m m' w msg now stored j ne e)
]

stop_worker-other :
    (m : Manager) (k j : Text) → k ≢ j → lookup j (stop_worker m k).0.workers ≡ lookup j m.workers
unfolding stop_worker
stop_worker-other m k j ne = elim (Option-cases (lookup k m.workers)) [
  | inl e ↦ rw (e, stop_worker)
  | inr (w, e) ↦
      rw (e, stop_worker) (lookup-insert_other k j (stop_current_execution w).0 m.workers ne)
]

command-other :
    (m done : Manager) (msg : IncomingMessage) (j : Text)
    → msg.channel_key ≢ j
    → handle_immediate_built_in_command m msg ≡ some done
    → lookup j done.workers ≡ lookup j m.workers
unfolding handle_immediate_built_in_command handle_stop
command-other m done msg j ne e =
    let stopped : Manager = (stop_worker m msg.channel_key).0 in
    let text = if (stop_worker m msg.channel_key).1 then stopped_text else idle_text in
    let answered : done ≡ send_reply stopped msg text = ground arith in
    rw (answered, (send_reply-workers stopped msg text).0)
      (stop_worker-other m msg.channel_key j ne)

-- A message changes the worker of no channel but its own.
pub dispatch-other :
    (m : Manager) (msg : IncomingMessage) (now : ℕ) (stored : Bool) (j : Text)
    → msg.channel_key ≢ j
    → lookup j (dispatch m msg now stored).workers ≡ lookup j m.workers
unfolding dispatch
dispatch-other m msg now stored j ne =
    let m' : Manager = record m { recent = (is_duplicate m.recent msg.message_id now).0 } in
    if_keeps (λ (x : Manager). lookup j x.workers ≡ lookup j m.workers)
      (is_duplicate m.recent msg.message_id now).1 _ _ refl
      (elim (Option-cases (handle_immediate_built_in_command m' msg)) [
        | inl e ↦ rw (e, dispatch) (enqueue-other m' msg now stored j ne)
        | inr (done, e) ↦ rw (e, dispatch) (command-other m' done msg j ne e)
      ])

-- A message that is no duplicate and no stop, for which there is a worker or can be one, stands at
-- the end of its channel's queue, behind all that waits there; if the queue is full it is dropped
-- and the queue is as it was.
pub dispatch-own :
    (m : Manager) (msg : IncomingMessage) (now : ℕ) (stored : Bool)
    → (is_duplicate m.recent msg.message_id now).1 ≡ false
    → trim_space msg.prompt ≢ codes "/stop"
    → Reachable m msg
    → let w = own_worker m msg in
      let queue = if ltb (length w.queue) queue_size then w.queue ++ msg ∷ [] else w.queue in
      lookup msg.channel_key (dispatch m msg now stored).workers ≡ some (record w { queue = queue })
unfolding dispatch handle_immediate_built_in_command
dispatch-own m msg now stored new other r =
    let m' : Manager = record m { recent = (is_duplicate m.recent msg.message_id now).0 } in
    let text : text_eq (trim_space msg.prompt) (codes "/stop") ≡ false =
      ground (arith, text_eq_iff (trim_space msg.prompt) (codes "/stop")) in
    rw new (rw text (enqueue-own m' msg now stored r ∙ ap some (offer_lem (own_worker m msg) msg)))
