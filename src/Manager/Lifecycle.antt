-- ===== src/Manager/Lifecycle.antt =====
-- internal/session/worker.go: the loop of Worker.run, and the messages that Dispatch hands it, as
-- a step relation. `select` takes any case that is ready. The timer is set anew when a message is
-- taken out of the queue, so it may go off while that message is processed.
use memknow.Common.{
  ◌<◌, ◌≡◌, refl, Bool, true, false, List, [], ◌∷◌, ◌++◌, Option, none, some, arith, length,
  append_assoc,
}
use memknow.Manager.Dispatch.{queue_size}

-- One worker from its start: what waits, what is being processed, whether the idle timer has gone
-- off, whether the goroutine runs, whether the manager knows the worker, and, as a record of what
-- has happened, the messages that were taken in and those that were processed.
pub record Life (A : Type 0) : Type 0 where
  pub queue : List A
  pub busy : Option A
  pub fired : Bool
  pub alive : Bool
  pub registered : Bool
  pub accepted : List A
  pub processed : List A

pub data Step {A : Type 0} (s : Life A) : Life A → Type 0 where
  -- Dispatch puts a message into a queue that has room. It may hold a worker that the manager has
  -- forgotten since it looked.
  arrive :
      (a : A)
      → length s.queue < queue_size
      → Step s (record s { queue = s.queue ++ a ∷ []; accepted = s.accepted ++ a ∷ [] })
  -- `case msg := <-w.queue`, with the timer set anew.
  receive :
      (a : A) (rest : List A)
      → s.alive ≡ true
      → s.busy ≡ none
      → s.queue ≡ a ∷ rest
      → Step s (record s { queue = rest; busy = some a; fired = false })
  -- `process` returns.
  return :
      (a : A)
      → s.busy ≡ some a
      → Step s (record s { busy = none; processed = s.processed ++ a ∷ [] })
  -- The idle time is over.
  fire : s.alive ≡ true → Step s (record s { fired = true })
  -- `case <-timer.C`.
  idle : s.alive ≡ true → s.busy ≡ none → s.fired ≡ true → Step s (record s { alive = false })
  -- `case <-w.stopCh`, `case <-ctx.Done()`.
  cancel : s.alive ≡ true → s.busy ≡ none → Step s (record s { alive = false })
  -- `onExit`: the manager forgets the worker.
  unregister : s.alive ≡ false → Step s (record s { registered = false })

pub data Reach {A : Type 0} (s : Life A) : Life A → Type 0 where
  here : Reach s s
  next : {t u : Life A} → Reach s t → Step t u → Reach s u

unfoldable pub started : (A : Type 0) → Life A
started A = record {
  queue = [];
  busy = none;
  fired = false;
  alive = true;
  registered = true;
  accepted = [];
  processed = [];
}

-- What the worker has in hand.
abbrev pub in_hand : {A : Type 0} → Option A → List A
in_hand none = []
in_hand (some a) = a ∷ []

-- The messages that were taken in are those processed, the one in hand and those that wait.
abbrev pub KeepsOrder : {A : Type 0} → Life A → Type 0
KeepsOrder s = s.accepted ≡ s.processed ++ (in_hand s.busy ++ s.queue)

module _ {A : Type 0} where
  Step-KeepsOrder : {s t : Life A} → Step s t → KeepsOrder s → KeepsOrder t
  Step-KeepsOrder {s} (arrive a room) k = rw k (simp append_assoc)
  Step-KeepsOrder {s} (receive a rest alive free e) k = ground arith
  Step-KeepsOrder {s} (return a e) k = ground (arith, append_assoc s.processed (a ∷ []) s.queue)
  Step-KeepsOrder (fire alive) k = k
  Step-KeepsOrder (idle alive free fired) k = k
  Step-KeepsOrder (cancel alive free) k = k
  Step-KeepsOrder (unregister dead) k = k

  Reach-KeepsOrder_from : {s t : Life A} → Reach s t → KeepsOrder s → KeepsOrder t
  Reach-KeepsOrder_from here k = k
  Reach-KeepsOrder_from (next r st) k = Step-KeepsOrder st (Reach-KeepsOrder_from r k)

  -- At any time in a worker's life the messages that it took in are, in the order of their
  -- arrival, those it has processed, the one it is processing and those that wait in its queue:
  -- none is processed twice, out of turn, or removed from the queue unprocessed.
  pub Reach-KeepsOrder : {t : Life A} → Reach (started A) t → KeepsOrder t
  unfolding started
  Reach-KeepsOrder r = Reach-KeepsOrder_from r refl

  -- Once the goroutine has ended, and holds no message, it processes nothing more.
  abbrev IsOver : Life A → Life A → Type 0
  IsOver s t = (t.alive ≡ false) × (t.busy ≡ none) × (t.processed ≡ s.processed)

  Step-IsOver : (s : Life A) {t u : Life A} → Step t u → IsOver s t → IsOver s u
  Step-IsOver s (arrive a room) o = o
  Step-IsOver s (receive a rest alive free e) o = cc
  Step-IsOver s (return a e) o = cc
  Step-IsOver s (fire alive) o = o
  Step-IsOver s (idle alive free fired) o = cc
  Step-IsOver s (cancel alive free) o = cc
  Step-IsOver s (unregister dead) o = o

  Reach-IsOver :
      (s : Life A) → s.alive ≡ false → s.busy ≡ none → {t : Life A} → Reach s t → IsOver s t
  Reach-IsOver s dead free here = (dead, free, refl)
  Reach-IsOver s dead free (next r st) = Step-IsOver s st (Reach-IsOver s dead free r)

  idle_exit : Life A → A → Life A
  idle_exit s a = record s {
    busy = none;
    fired = true;
    alive = false;
    processed = s.processed ++ a ∷ [];
  }

  idle_exit-Reach :
      (s : Life A) (a : A) → s.alive ≡ true → s.busy ≡ some a → Reach s (idle_exit s a)
  unfolding idle_exit
  idle_exit-Reach s a alive busy =
      next (next (next here (fire alive)) (return a busy)) (idle alive refl refl)

  -- Whatever waits in the queue while a message is processed can be lost: the idle time may run
  -- out during the processing, the worker may then end although its queue is not empty, and from
  -- there on no continuation processes anything.
  pub idle_exit_drops :
      (s : Life A) (a : A)
      → s.alive ≡ true
      → s.busy ≡ some a
      → (t : Life A) × Reach s t
        × (t.queue ≡ s.queue)
        × (t.processed ≡ s.processed ++ a ∷ [])
        × ((u : Life A) → Reach t u → u.processed ≡ t.processed)
  idle_exit_drops s a alive busy = (
    idle_exit s a,
    idle_exit-Reach s a alive busy,
    unfold idle_exit in refl,
    unfold idle_exit in refl,
    λ u r. (Reach-IsOver (idle_exit s a) (unfold idle_exit in refl) (unfold idle_exit in refl) r).2,
  )
