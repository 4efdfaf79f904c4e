-- ===== src/Samples/Manager.antt =====
-- Samples for internal/session/manager.go and the loop of internal/session/worker.go.
use memknow.Common.{
  ℕ, zero, suc, differ, ◌≡◌, refl, inr, true, false, [], ◌∷◌, some, none, codes, arith, length,
  text_eq, trim_space, lookup,
}
use memknow.Feishu.Message.{IncomingMessage}
use memknow.Manager.Dedup.{
  Recent, is_duplicate, is_duplicate_all, seen_recently, is_duplicate_again,
}
use memknow.Manager.Dispatch.{Manager, Worker, dispatch}
use memknow.Manager.Order.{own_worker, dispatch-own}
use memknow.Manager.Routing.{IsSound, dispatch-IsSound}
use memknow.Manager.Stop.{IsOrdered, Action, act_all, act_all-IsOrdered}
use memknow.Manager.Lifecycle.{
  Life, Step, Reach, started, KeepsOrder, Reach-KeepsOrder, idle_exit_drops,
}

abbrev message : IncomingMessage
message = record {
  message_id = codes "om1";
  app_id = codes "app";
  channel_key = codes "p2p:oc1:app";
  chat_type = codes "p2p";
  chat_id = codes "oc1";
  thread_id = [];
  mentions_me = false;
  replies_to_me = false;
  names_me = false;
  sender_id = codes "ou1";
  prompt = codes "hi";
  receive_id = codes "oc1";
  receive_type = codes "chat_id";
}

-- A manager with one app and no worker yet.
abbrev manager : Manager
manager = record {
  app_registry = (codes "app", tt) ∷ [];
  senders = (codes "app", tt) ∷ [];
  workers = [];
  running = 0;
  recent = [];
  channels = [];
  replies = [];
}

dispatch-own_example :
    lookup (codes "p2p:oc1:app") (dispatch manager message 5 true).workers
    ≡ some (record (own_worker manager message) { queue = message ∷ [] })
unfolding lookup
dispatch-own_example =
    dispatch-own manager message 5 true (unfold is_duplicate seen_recently lookup in refl)
      (differ _ _ (unfold trim_space text_eq in refl))
      (inr ((λ e. unfold lookup text_eq in cc), (λ e. unfold lookup text_eq in cc)))

dispatch-IsSound_example : IsSound (dispatch manager message 5 true)
dispatch-IsSound_example = dispatch-IsSound manager message 5 true (record {
  queues_bounded = λ key w e. absurd (unfold lookup text_eq in cc);
  workers_counted = refl;
})

is_duplicate_again_example :
    is_duplicate
      (is_duplicate_all (is_duplicate [] (codes "om1") 3).0 ((codes "om2", 4) ∷ []))
      (codes "om1")
      9
    ≡ (is_duplicate_all (is_duplicate [] (codes "om1") 3).0 ((codes "om2", 4) ∷ []), true)
is_duplicate_again_example =
    is_duplicate_again [] (codes "om1") 3 9 ((codes "om2", 4) ∷ [])
      (unfold is_duplicate seen_recently lookup in refl) ((differ _ _ (unfold text_eq in refl)), tt)
      (omega arith) (omega arith)

-- A memory with the given number of entries, none of them of the empty id.
filler : ℕ → Recent
filler zero = []
filler (suc n) = (codes "m", n) ∷ filler n

length-filler : (n : ℕ) → length (filler n) ≡ n
unfolding filler
length-filler zero = refl
length-filler (suc n) = ground (arith, length-filler n)

lookup-filler : (n : ℕ) → lookup [] (filler n) ≡ none
unfolding filler lookup text_eq
lookup-filler zero = refl
lookup-filler (suc n) = lookup-filler n

abbrev fresh_worker : Worker
fresh_worker = record {
  app_id = codes "app";
  queue = [];
  current_run_id = 0;
  current_run_cancel = none;
  stopped = [];
}

act_all-IsOrdered_example : IsOrdered (
    act_all fresh_worker
      (Action.begin ∷ Action.stop ∷ Action.finish 1 ∷ Action.begin ∷ Action.stop ∷ []))
act_all-IsOrdered_example =
    act_all-IsOrdered fresh_worker
      (Action.begin ∷ Action.stop ∷ Action.finish 1 ∷ Action.begin ∷ Action.stop ∷ [])
      (record { stops_ordered = tt; cancel_current = λ r e. cc; cancel_fresh = λ r e. cc })

-- A worker that has taken the message 7 out of its queue.
abbrev holding : Life ℕ
holding = record {
  queue = [];
  busy = some 7;
  fired = false;
  alive = true;
  registered = true;
  accepted = 7 ∷ [];
  processed = [];
}

holding-Reach : Reach (started ℕ) holding
unfolding started
holding-Reach =
    Reach.next (Reach.next Reach.here (Step.arrive 7 (omega arith)))
      (Step.receive 7 [] refl refl refl)

Reach-KeepsOrder_example : KeepsOrder holding
Reach-KeepsOrder_example = Reach-KeepsOrder holding-Reach

-- The same worker with the message 8 in its queue.
abbrev waiting : Life ℕ
waiting = record holding { queue = 8 ∷ []; accepted = 7 ∷ 8 ∷ [] }

idle_exit_drops_example :
    (t : Life ℕ) × Reach waiting t
    × (t.queue ≡ 8 ∷ [])
    × (t.processed ≡ 7 ∷ [])
    × ((u : Life ℕ) → Reach t u → u.processed ≡ t.processed)
idle_exit_drops_example = idle_exit_drops waiting 7 refl refl
