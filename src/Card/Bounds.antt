-- ===== src/Card/Bounds.antt =====
-- Bounds of compactCardStreamer: the entries it keeps, the texts it sends, and its silence once
-- it is closed or a call has failed.
use memknow.Common.{
  ℕ, zero, suc, ◌-◌, ◌+◌, ◌≤◌, ◌<◌, Bool, true, List, [], ◌∷◌, ◌++◌, Option, Text, arith, length,
  drop, length-drop, trim_left, take, All, All-append, All-drop, ltb, ◌==◌, if_keeps, none,
  trim_space, is_empty,
}
use memknow.Card.Render.{
  truncate_runes, trim_tail_runes, max_entries, max_entry_chars, collapse_whitespace,
}
use memknow.Card.Calls.{Method, progress, timer, finish, step, run}
use memknow.Card.Streamer.{
  Streamer, ProgressEvent, ProgressEntry, Call, ProgressKind, push_entry, append_entry, ends_with,
  render, running_card, send, publish, record_event, on_progress, flush_pending_debounced, close,
  close_pending, close_render, stop_debounce_flush, record_kind, new_compact_card_streamer,
  thinking, tool_use, tool_result, text, result, schedule_debounce_flush,
}

length-trim_left : (p : ℕ → Bool) (s : Text) → length (trim_left p s) ≤ length s
unfolding trim_left
length-trim_left p [] = omega arith
length-trim_left p (c ∷ s) = ground (arith, length-trim_left p s)

length-take-le {ℓ} : {A : Type ℓ} (n : ℕ) (xs : List A) → length (take n xs) ≤ n
length-take-le zero xs = omega arith
length-take-le (suc n) [] = omega arith
length-take-le (suc n) (x ∷ xs) = omega (arith, length-take-le n xs)

-- A cut text has at most the given number of runes, and is the text's own beginning.
truncate_runes_lem : (s : Text) (n : ℕ) → 0 < n → length (truncate_runes s n) ≤ n
unfolding truncate_runes
truncate_runes_lem s n h = ground (arith, length-take-le n s)

-- The tail of a text has at most the given number of runes and the two of the mark.
pub length-trim_tail_runes : (s : Text) (n : ℕ) → 0 < n → length (trim_tail_runes s n) ≤ n + 2
unfolding trim_tail_runes
length-trim_tail_runes s n h = ground (
  arith,
  length-drop (length s - n) s,
  length-trim_left (λ c. c == b'\n') (drop (length s - n) s),
)

pub length-render : (s : Streamer) → length (render s) ≤ 6002
unfolding render
length-render s = ground (arith, length-trim_tail_runes (running_card s) 6000)

length-push_entry :
    (l : List ProgressEntry) (e : ProgressEntry) → length (push_entry l e) ≤ max_entries
unfolding push_entry
length-push_entry l e = ground (arith, length-drop (length (l ++ e ∷ []) - 6) (l ++ e ∷ []))

-- An entry with a title of at most `max_entry_chars` runes.
abbrev pub IsShort : ProgressEntry → Type 0
IsShort e = length e.title ≤ max_entry_chars

push_entry-IsShort :
    (l : List ProgressEntry) (e : ProgressEntry)
    → All IsShort l
    → IsShort e
    → All IsShort (push_entry l e)
unfolding push_entry
push_entry-IsShort l e h p =
    let all : All IsShort (l ++ e ∷ []) = All-append IsShort l (e ∷ []) h (p, tt) in
    if_keeps (All IsShort) (ltb max_entries (length (l ++ e ∷ []))) _ _
      (All-drop IsShort (length (l ++ e ∷ []) - max_entries) (l ++ e ∷ []) all) all

-- What holds of a streamer between two calls.
pub record IsBounded (s : Streamer) : Type 0 where
  pub entries_bounded : length s.entries ≤ max_entries
  pub titles_bounded : All IsShort s.entries
  pub pending_bounded : length s.pending ≤ 6002
  pub calls_bounded : All (λ (c : Call). length c.content ≤ 6002) s.calls

append_entry-IsBounded :
    (s : Streamer) (title body : Text) → IsBounded s → IsBounded (append_entry s title body)
unfolding append_entry
append_entry-IsBounded s title body v =
    let entry : ProgressEntry = record {
      title = truncate_runes (collapse_whitespace title) max_entry_chars;
      body = trim_space body;
    } in
    if_keeps IsBounded (is_empty entry.title) _ _ v (
      if_keeps IsBounded (ends_with s.entries entry) _ _ v (record {
        entries_bounded = length-push_entry s.entries entry;
        titles_bounded =
            push_entry-IsShort s.entries entry v.titles_bounded
              (truncate_runes_lem (collapse_whitespace title) max_entry_chars (omega arith));
        pending_bounded = v.pending_bounded;
        calls_bounded = v.calls_bounded;
      }))

module _ (table : ℕ → ℕ) (decode : Text → Option (List (Text × Text))) where
  record_kind-IsBounded :
      (k : ProgressKind) (s : Streamer) (e : ProgressEvent)
      → IsBounded s
      → IsBounded (record_kind table decode k s e)
  unfolding record_kind
  record_kind-IsBounded thinking s e v =
      if_keeps IsBounded (is_empty (trim_space e.body)) _ _ v (append_entry-IsBounded s _ _ v)
  record_kind-IsBounded tool_use s e v =
      append_entry-IsBounded (record s { saw_tool_use = true }) _ _
        (record {
          entries_bounded = v.entries_bounded;
          titles_bounded = v.titles_bounded;
          pending_bounded = v.pending_bounded;
          calls_bounded = v.calls_bounded;
        })
  record_kind-IsBounded tool_result s e v = append_entry-IsBounded s _ _ v
  record_kind-IsBounded text s e v = ground arith
  record_kind-IsBounded result s e v = v

module _ (updates : ℕ → Bool) where
  send-IsBounded :
      (s : Streamer) (t : Text) (now : ℕ)
      → length t ≤ 6002
      → IsBounded s
      → IsBounded (send updates s t now)
  unfolding send
  send-IsBounded s t now h v = ground arith

  publish-IsBounded :
      (s : Streamer) (e : ProgressEvent) (now : ℕ)
      → IsBounded s
      → IsBounded (publish updates s e now)
  unfolding publish schedule_debounce_flush stop_debounce_flush
  publish-IsBounded s e now v = ground (
    arith,
    length-render s,
    send-IsBounded (record s { flush_timer = none; pending = [] }) (render s) now,
  )

  flush-IsBounded :
      (s : Streamer) (now : ℕ) → IsBounded s → IsBounded (flush_pending_debounced updates s now)
  unfolding flush_pending_debounced schedule_debounce_flush stop_debounce_flush
  flush-IsBounded s now v =
      ground (arith, send-IsBounded (record s { flush_timer = none; pending = [] }) s.pending now)

  close_pending-IsBounded :
      (s : Streamer) (now : ℕ) → IsBounded s → IsBounded (close_pending updates s now)
  unfolding close_pending
  close_pending-IsBounded s now v = ground (arith, send-IsBounded s s.pending now)

  close_render-IsBounded :
      (s : Streamer) (now : ℕ) → IsBounded s → IsBounded (close_render updates s now)
  unfolding close_render
  close_render-IsBounded s now v = ground (arith, send-IsBounded s (render s) now, length-render s)

  close-IsBounded : (s : Streamer) (now : ℕ) → IsBounded s → IsBounded (close updates s now)
  unfolding close stop_debounce_flush
  close-IsBounded s now v =
      let begun : Streamer = record s { closed = true; flush_timer = none } in
      ground (
        arith,
        close_pending-IsBounded begun now,
        close_render-IsBounded (close_pending updates begun now) now,
      )

module _ (updates : ℕ → Bool) (table : ℕ → ℕ) (decode : Text → Option (List (Text × Text))) where
  step-IsBounded :
      (s : Streamer) (m : ℕ × Method) → IsBounded s → IsBounded (step updates table decode s m)
  unfolding step on_progress record_event
  step-IsBounded s (now, progress cancelled e) v = ground (
    arith,
    record_kind-IsBounded table decode e.kind s e,
    publish-IsBounded updates (record_kind table decode e.kind s e) e now,
  )
  step-IsBounded s (now, timer) v = flush-IsBounded updates s now v
  step-IsBounded s (now, finish) v = close-IsBounded updates s now v

  run_from-IsBounded :
      (s : Streamer) (ms : List (ℕ × Method))
      → IsBounded s
      → IsBounded (run updates table decode s ms)
  unfolding run
  run_from-IsBounded s [] v = v
  run_from-IsBounded s (m ∷ ms) v =
      run_from-IsBounded (step updates table decode s m) ms (step-IsBounded s m v)

  -- After any calls of a new streamer's methods, in any order and whatever UpdateCard answers,
  -- at most 6 entries are kept, each with a title of at most 220 runes, and every text that was
  -- sent, or is held back, has at most 6002 runes.
  pub run-IsBounded :
      (id : Text) (ms : List (ℕ × Method))
      → IsBounded (run updates table decode (new_compact_card_streamer id) ms)
  unfolding new_compact_card_streamer
  run-IsBounded id ms = run_from-IsBounded _ ms (omega arith)
