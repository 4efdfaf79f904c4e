-- ===== src/Card/Calls.antt =====
-- The methods of a compactCardStreamer as a schedule: who calls them is a run's progress, the
-- debounce timer and the end of the run, in any order, each at a reading of the clock.
use memknow.Common.{ℕ, Bool, Text, Option, List, [], ◌∷◌}
use memknow.Card.Streamer.{Streamer, ProgressEvent, on_progress, flush_pending_debounced, close}

-- The methods of a streamer, as the timer, the run and its end call them.
pub data Method : Type 0 where
  progress : Bool → ProgressEvent → Method
  timer : Method
  finish : Method

module _ (updates : ℕ → Bool) (table : ℕ → ℕ) (decode : Text → Option (List (Text × Text))) where
  unfoldable pub step : Streamer → ℕ × Method → Streamer
  step s (now, progress cancelled e) = on_progress updates table decode s cancelled e now
  step s (now, timer) = flush_pending_debounced updates s now
  step s (now, finish) = close updates s now

  unfoldable pub run : Streamer → List (ℕ × Method) → Streamer
  run s [] = s
  run s (m ∷ ms) = run (step s m) ms
