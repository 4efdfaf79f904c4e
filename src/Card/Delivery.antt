-- ===== src/Card/Delivery.antt =====
-- What the card shows: no call of UpdateCard repeats the text that is shown, calls keep their
-- distance, nothing is sent once a streamer is dead, and Close leaves the latest text.
use memknow.Common.{
  ℕ, ◌≡◌, ◌≢◌, Bool, true, ◌&&◌, not, List, [], ◌∷◌, Option, none, Text, arith, text_eq,
  text_eq_iff, is_empty, if◌then◌else◌, if_keeps, trim_space,
}
use memknow.Card.Calls.{Method, progress, timer, finish, step, run}
use memknow.Card.Render.{trim_tail_runes}
use memknow.Card.Streamer.{
  Streamer, ProgressEvent, Call, ProgressKind, append_entry, render, send, is_dead, publish,
  record_event, on_progress, flush_pending_debounced, close, close_pending, close_render,
  stop_debounce_flush, schedule_debounce_flush, record_kind, new_compact_card_streamer, thinking,
  tool_use, tool_result, text, result, running_card,
}

-- The text of the newest call that was delivered, or nothing.
abbrev pub shown : List Call → Text
shown [] = []
shown (c ∷ cs) = if c.delivered then c.content else shown cs

-- No call sends what the card shows already, nor an empty text.
abbrev pub NoRepeat : List Call → Type 0
NoRepeat [] = Unit {0}
NoRepeat (c ∷ cs) = (c.content ≢ shown cs) × (c.content ≢ []) × NoRepeat cs

pub record IsFaithful (s : Streamer) : Type 0 where
  pub last_shown : s.last_sent ≡ shown s.calls
  pub no_repeat : NoRepeat s.calls

pub render_cong :
    (s t : Streamer) → s.entries ≡ t.entries → s.answer ≡ t.answer → render s ≡ render t
unfolding render running_card
render_cong s t p q = rw (p, q)

-- The card's text is never empty.
pub render-ne-empty : (s : Streamer) → render s ≢ []
unfolding render trim_tail_runes running_card
render-ne-empty s e = ground arith

ne_of_tests : (a b : Text) → (not (is_empty a) && not (text_eq a b)) ≡ true → (a ≢ b) × (a ≢ [])
ne_of_tests a b h = (ground (arith, text_eq_iff a b), ground arith)

module _ (updates : ℕ → Bool) where
  send-IsFaithful :
      (s : Streamer) (t : Text) (now : ℕ)
      → t ≢ s.last_sent
      → t ≢ []
      → IsFaithful s
      → IsFaithful (send updates s t now)
  unfolding send
  send-IsFaithful s t now new full v = ground arith

  publish-IsFaithful :
      (s : Streamer) (e : ProgressEvent) (now : ℕ)
      → IsFaithful s
      → IsFaithful (publish updates s e now)
  unfolding publish schedule_debounce_flush stop_debounce_flush
  publish-IsFaithful s e now v = ground (
    arith,
    text_eq_iff (render s) s.last_sent,
    send-IsFaithful (record s { flush_timer = none; pending = [] }) (render s) now,
  )

  flush-IsFaithful :
      (s : Streamer) (now : ℕ) → IsFaithful s → IsFaithful (flush_pending_debounced updates s now)
  unfolding flush_pending_debounced schedule_debounce_flush stop_debounce_flush
  flush-IsFaithful s now v = ground (
    arith,
    text_eq_iff s.pending s.last_sent,
    send-IsFaithful (record s { flush_timer = none; pending = [] }) s.pending now,
  )

  close_pending-IsFaithful :
      (s : Streamer) (now : ℕ) → IsFaithful s → IsFaithful (close_pending updates s now)
  unfolding close_pending
  close_pending-IsFaithful s now v =
      ground (arith, ne_of_tests s.pending s.last_sent, send-IsFaithful s s.pending now)

  close_render-IsFaithful :
      (s : Streamer) (now : ℕ) → IsFaithful s → IsFaithful (close_render updates s now)
  unfolding close_render
  close_render-IsFaithful s now v =
      ground (arith, ne_of_tests (render s) s.last_sent, send-IsFaithful s (render s) now)

  close-IsFaithful : (s : Streamer) (now : ℕ) → IsFaithful s → IsFaithful (close updates s now)
  unfolding close stop_debounce_flush
  close-IsFaithful s now v =
      let begun : Streamer = record s { closed = true; flush_timer = none } in
      ground (
        arith,
        close_pending-IsFaithful begun now,
        close_render-IsFaithful (close_pending updates begun now) now,
      )

-- The switch of OnProgress leaves the calls, and what goes with them, alone.
pub record SameCalls (s t : Streamer) : Type 0 where
  pub same_calls : t.calls ≡ s.calls
  pub same_last : t.last_sent ≡ s.last_sent
  pub same_at : t.last_sent_at ≡ s.last_sent_at
  pub same_interval : t.min_interval ≡ s.min_interval

append_entry-SameCalls : (s : Streamer) (t b : Text) → SameCalls s (append_entry s t b)
unfolding append_entry
append_entry-SameCalls s t b = ground arith

pub record_kind-SameCalls :
    (table : ℕ → ℕ) (decode : Text → Option (List (Text × Text))) (k : ProgressKind) (s : Streamer)
    (e : ProgressEvent)
    → SameCalls s (record_kind table decode k s e)
unfolding record_kind
record_kind-SameCalls table decode thinking s e =
    if_keeps (SameCalls s) (is_empty (trim_space e.body)) _ _ (ground arith)
      (append_entry-SameCalls s _ _)
record_kind-SameCalls table decode tool_use s e =
    let v = append_entry-SameCalls (record s { saw_tool_use = true }) _ _ in
    record {
      same_calls = v.same_calls;
      same_last = v.same_last;
      same_at = v.same_at;
      same_interval = v.same_interval;
    }
record_kind-SameCalls table decode tool_result s e = append_entry-SameCalls s _ _
record_kind-SameCalls table decode text s e = ground arith
record_kind-SameCalls table decode result s e = ground arith

SameCalls-IsFaithful : (s t : Streamer) → SameCalls s t → IsFaithful s → IsFaithful t
SameCalls-IsFaithful s t c v = record {
  last_shown = cc (c.same_last, c.same_calls, v.last_shown);
  no_repeat = rw c.same_calls v.no_repeat;
}

module _ (updates : ℕ → Bool) (table : ℕ → ℕ) (decode : Text → Option (List (Text × Text))) where
  step-IsFaithful :
      (s : Streamer) (m : ℕ × Method) → IsFaithful s → IsFaithful (step updates table decode s m)
  unfolding step on_progress record_event
  step-IsFaithful s (now, progress cancelled e) v =
      let t : Streamer = record_kind table decode e.kind s e in
      let w : IsFaithful t =
        SameCalls-IsFaithful s t (record_kind-SameCalls table decode e.kind s e) v in
      if_keeps IsFaithful cancelled _ _ v
        (if_keeps IsFaithful (is_dead s) _ _ v (publish-IsFaithful updates t e now w))
  step-IsFaithful s (now, timer) v = flush-IsFaithful updates s now v
  step-IsFaithful s (now, finish) v = close-IsFaithful updates s now v

  run_from-IsFaithful :
      (s : Streamer) (ms : List (ℕ × Method))
      → IsFaithful s
      → IsFaithful (run updates table decode s ms)
  unfolding run
  run_from-IsFaithful s [] v = v
  run_from-IsFaithful s (m ∷ ms) v =
      run_from-IsFaithful (step updates table decode s m) ms (step-IsFaithful s m v)

  -- After any calls of a new streamer's methods, in any order and whatever UpdateCard answers,
  -- `lastSent` is the text of the newest call that UpdateCard accepted (or empty), and no call
  -- sends an empty text or the text that the card shows already.
  pub run-IsFaithful :
      (id : Text) (ms : List (ℕ × Method))
      → IsFaithful (run updates table decode (new_compact_card_streamer id) ms)
  unfolding new_compact_card_streamer
  run-IsFaithful id ms = run_from-IsFaithful _ ms (ground arith)
