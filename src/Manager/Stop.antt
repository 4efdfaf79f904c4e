-- ===== src/Manager/Stop.antt =====
-- The runs of a worker and the stop command: which run a stop cancels, and that it does so once.
use memknow.Common.{
  ℕ, suc, ◌≤◌, ◌<◌, ◌≡◌, subst, sym, true, false, List, [], ◌∷◌, none, some, arith, ◌==◌, if_keeps,
  Option-cases, inl, inr,
}
use memknow.Manager.Dispatch.{Worker, begin_current_run, finish_current_run, stop_current_execution}

-- Numbers that fall along the list, all below a bound.
abbrev pub Falling : ℕ → List ℕ → Type 0
Falling bound [] = Unit {0}
Falling bound (x ∷ xs) = (x < bound) × Falling x xs

Falling-mono : (a b : ℕ) (xs : List ℕ) → a ≤ b → Falling a xs → Falling b xs
Falling-mono a b [] h f = tt
Falling-mono a b (x ∷ xs) h f = (omega arith, f.1)

-- What the mutex guards: the cancel function is the newest run's, which was not stopped before,
-- and the runs that were stopped are runs that began, each stopped once, in their order.
pub record IsOrdered (w : Worker) : Type 0 where
  pub stops_ordered : Falling (suc w.current_run_id) w.stopped
  pub cancel_current : (r : ℕ) → w.current_run_cancel ≡ some r → r ≡ w.current_run_id
  pub cancel_fresh : (r : ℕ) → w.current_run_cancel ≡ some r → Falling r w.stopped

-- Who holds the mutex: a run that begins, a run that ends, or a stop.
pub data Action : Type 0 where
  begin : Action
  finish : ℕ → Action
  stop : Action

unfoldable pub act : Worker → Action → Worker
act w begin = (begin_current_run w).0
act w (finish run) = finish_current_run w run
act w stop = (stop_current_execution w).0

unfoldable pub act_all : Worker → List Action → Worker
act_all w [] = w
act_all w (a ∷ as') = act_all (act w a) as'

stop_idle : (w : Worker) → w.current_run_cancel ≡ none → (stop_current_execution w).0 ≡ w
unfolding stop_current_execution
stop_idle w e = ground arith

act-IsOrdered : (w : Worker) (a : Action) → IsOrdered w → IsOrdered (act w a)
unfolding act begin_current_run finish_current_run stop_current_execution
act-IsOrdered w begin v = record {
  stops_ordered = Falling-mono _ _ w.stopped (omega arith) v.stops_ordered;
  cancel_current = λ r e. ground arith;
  cancel_fresh =
      λ r e. let newest : r ≡ suc w.current_run_id = ground arith in rw newest v.stops_ordered;
}
act-IsOrdered w (finish run) v =
    if_keeps IsOrdered (w.current_run_id == run) _ _
      (record {
        stops_ordered = v.stops_ordered;
        cancel_current = λ r e. cc;
        cancel_fresh = λ r e. cc;
      })
      v
act-IsOrdered w stop v = elim (Option-cases w.current_run_cancel) [
  | inl e ↦ subst IsOrdered (sym (stop_idle w e)) v
  | inr (run, e) ↦
      rw (e, stop_current_execution)
        (record {
          stops_ordered = (omega (arith, v.cancel_current run e), v.cancel_fresh run e);
          cancel_current = λ r e'. cc;
          cancel_fresh = λ r e'. cc;
        })
]

-- Whatever the order in which runs begin and end and stops arrive, a stop cancels the newest run
-- only, and no run is stopped twice.
pub act_all-IsOrdered : (w : Worker) (as' : List Action) → IsOrdered w → IsOrdered (act_all w as')
unfolding act_all
act_all-IsOrdered w [] v = v
act_all-IsOrdered w (a ∷ as') v = act_all-IsOrdered (act w a) as' (act-IsOrdered w a v)

-- A stop that arrives while a run goes on cancels that run and says so; a second stop, and a stop
-- after the run's own end, find nothing to cancel.
stop_current_execution_once :
    (w : Worker)
    → let (begun, run) = begin_current_run w in
      let (halted, done) = stop_current_execution begun in
      (done ≡ true)
      × (halted.stopped ≡ run ∷ w.stopped)
      × ((stop_current_execution halted).1 ≡ false)
      × ((stop_current_execution (finish_current_run begun run)).1 ≡ false)
unfolding begin_current_run stop_current_execution finish_current_run
stop_current_execution_once w = ground arith
