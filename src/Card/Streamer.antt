-- ===== src/Card/Streamer.antt =====
-- internal/session/compact_stream.go: compactCardStreamer. Each method takes the clock's reading
-- and returns the new state; times are milliseconds. The mutex makes each method one step. The
-- calls of UpdateCard are kept in `calls`, newest first, each with its outcome.
use memknow.Common.{
  ℕ, ◌-◌, ◌+◌, Bool, true, false, ◌&&◌, ◌||◌, not, List, [], ◌∷◌, ◌++◌, Option, none, some, Text,
  codes, ltb, ◌==◌, if◌then◌else◌, is_empty, text_eq, trim_space, contains, length, drop,
}
use memknow.Card.Render.{
  max_chars, preview_chars, max_entries, max_entry_chars, truncate_runes, trim_tail_runes,
  collapse_whitespace, format_tool_input_preview, format_tool_output_preview,
}

-- claude.ProgressKind; `result` is handled by no case of OnProgress.
pub data ProgressKind : Type 0 where
  thinking tool_use tool_result text result : ProgressKind

pub record ProgressEvent : Type 0 where
  pub kind : ProgressKind
  pub body : Text
  pub tool_name : Text
  pub tool_input : Text

pub record ProgressEntry : Type 0 where
  pub title : Text
  pub body : Text

pub record Call : Type 0 where
  pub content : Text
  pub at : ℕ
  pub delivered : Bool

pub record Streamer : Type 0 where
  pub message_id : Text
  pub min_interval : ℕ
  pub debounce_delay : ℕ
  pub failed : Bool
  pub closed : Bool
  pub entries : List ProgressEntry
  pub answer : Text
  pub saw_tool_use : Bool
  pub last_sent : Text
  pub last_sent_at : Option ℕ
  pub pending : Text
  pub flush_timer : Option ℕ
  pub calls : List Call

unfoldable pub new_compact_card_streamer : Text → Streamer
new_compact_card_streamer message_id = record {
  message_id = message_id;
  min_interval = 2000;
  debounce_delay = 600;
  failed = false;
  closed = false;
  entries = [];
  answer = [];
  saw_tool_use = false;
  last_sent = [];
  last_sent_at = none;
  pending = [];
  flush_timer = none;
  calls = [];
}

unfoldable pub entry_eq : ProgressEntry → ProgressEntry → Bool
entry_eq a b = text_eq a.title b.title && text_eq a.body b.body

-- Whether the last of the entries is this one.
abbrev pub ends_with : List ProgressEntry → ProgressEntry → Bool
ends_with [] e = false
ends_with (x ∷ []) e = entry_eq x e
ends_with (x ∷ y ∷ l) e = ends_with (y ∷ l) e

-- `append`, then only the last `max_entries` are kept.
unfoldable pub push_entry : List ProgressEntry → ProgressEntry → List ProgressEntry
push_entry entries entry =
    let all = entries ++ entry ∷ [] in
    if ltb max_entries (length all) then drop (length all - max_entries) all else all

unfoldable pub append_entry : Streamer → Text → Text → Streamer
append_entry s name content =
    let title = truncate_runes (collapse_whitespace name) max_entry_chars in
    let entry : ProgressEntry = record { title = title; body = trim_space content } in
    if is_empty title
    then s
    else if ends_with s.entries entry
    then s
    else record s { entries = push_entry s.entries entry }

unfoldable pub render_entry : ProgressEntry → Text
render_entry e =
    codes "**"
    ++ (e.title ++ (codes "**" ++ (if is_empty e.body then [] else codes "\n" ++ e.body)))

unfoldable pub render_entries : List ProgressEntry → Text
render_entries [] = []
render_entries (e ∷ []) = render_entry e
render_entries (e ∷ f ∷ l) = render_entry e ++ (codes "\n\n" ++ render_entries (f ∷ l))

-- The card's text before it is cut.
unfoldable pub running_card : Streamer → Text
running_card s =
    let progress =
      if length s.entries == 0
      then []
      else codes "\n\nRecent progress:\n" ++ render_entries s.entries in
    let answer = trim_space s.answer in
    let output =
      if is_empty answer
      then []
      else codes "\n\nCurrent output (streaming):\n" ++ trim_tail_runes answer preview_chars in
    codes "⏳ **Running...**" ++ (progress ++ output)

-- renderLocked.
unfoldable pub render : Streamer → Text
render s = trim_tail_runes (running_card s) max_chars

unfoldable pub render_final_with_progress : Streamer → Text → Text
render_final_with_progress s final =
    let final_text = trim_space final in
    if is_empty final_text
    then []
    else if length s.entries == 0
    then final_text
    else trim_tail_runes
        (codes "Recent progress:\n"
          ++ (render_entries s.entries ++ (codes "\n\nFinal output:\n" ++ final_text)))
        max_chars

unfoldable pub should_force_flush : ProgressEvent → Bool
should_force_flush e = elim e.kind [
  | tool_use ↦ true
  | tool_result ↦ true
  | text ↦ contains e.body (codes "\n")
  | _ ↦ false
]

-- A delay of zero or less schedules nothing; a running timer is set anew.
unfoldable pub schedule_debounce_flush : Streamer → ℕ → ℕ → Streamer
schedule_debounce_flush s delay now =
    if delay == 0 then s else record s { flush_timer = some (now + delay) }

unfoldable pub stop_debounce_flush : Streamer → Streamer
stop_debounce_flush s = record s { flush_timer = none }

-- `!s.lastSentAt.IsZero() && s.minInterval > 0 && now.Sub(s.lastSentAt) < s.minInterval`.
unfoldable pub too_early : Streamer → ℕ → Bool
too_early s now = elim s.last_sent_at [
  | none ↦ false
  | some last ↦ ltb 0 s.min_interval && ltb (now - last) s.min_interval
]

-- No method does anything more.
unfoldable pub is_dead : Streamer → Bool
is_dead s = s.failed || s.closed || is_empty s.message_id

-- " `name`" behind a title, if the tool has a name.
unfoldable pub quoted : Text → Text
quoted tool =
    let name = trim_space tool in if is_empty name then [] else codes " `" ++ (name ++ codes "`")

-- `table` is Unicode's lower case, and `decode` reads a JSON object.
module _ (table : ℕ → ℕ) (decode : Text → Option (List (Text × Text))) where
  -- The `switch` of OnProgress.
  unfoldable pub record_kind : ProgressKind → Streamer → ProgressEvent → Streamer
  record_kind thinking s e =
      let thought = trim_space e.body in
      if is_empty thought
      then s
      else append_entry s (codes "Thinking")
          (truncate_runes (collapse_whitespace thought) max_entry_chars)
  record_kind tool_use s e =
      let input = trim_space e.tool_input in
      append_entry (record s { saw_tool_use = true }) (codes "Tool call" ++ quoted e.tool_name)
        (if is_empty input then [] else format_tool_input_preview table decode e.tool_name input)
  record_kind tool_result s e =
      let output = trim_space e.body in
      append_entry s (codes "Tool result" ++ quoted e.tool_name)
        (if is_empty output then [] else format_tool_output_preview output)
  record_kind text s e = record s { answer = s.answer ++ e.body }
  record_kind result s e = s

  unfoldable pub record_event : Streamer → ProgressEvent → Streamer
  record_event s e = record_kind e.kind s e

abbrev pub is_text : ProgressKind → Bool
is_text text = true
is_text _ = false

-- `updates` says of each call of UpdateCard, by the number of calls before it, whether it
-- succeeds.
module _ (updates : ℕ → Bool) where
  -- sendLocked.
  unfoldable pub send : Streamer → Text → ℕ → Streamer
  send s content now =
      let ok = updates (length s.calls) in
      let s' = record s {
        calls = record { content = content; at = now; delivered = ok } ∷ s.calls;
      } in
      if ok
      then record s' { last_sent = content; last_sent_at = some now }
      else record s' { failed = true }

  -- What OnProgress does behind its `switch`.
  unfoldable pub publish : Streamer → ProgressEvent → ℕ → Streamer
  publish s e now =
      let shown = render s in
      let forced = should_force_flush e in
      let s' = stop_debounce_flush s in
      if is_empty shown || text_eq shown s.last_sent
      then s
      else if is_text e.kind && not forced && ltb 0 s.debounce_delay
      then schedule_debounce_flush (record s { pending = shown }) s.debounce_delay now
      else if too_early s' now && not forced
      then record s' { pending = shown }
      else send (record s' { pending = [] }) shown now

  unfoldable pub flush_pending_debounced : Streamer → ℕ → Streamer
  flush_pending_debounced s₀ now =
      let s = stop_debounce_flush s₀ in
      if is_dead s
      then s
      else if is_empty s.pending || text_eq s.pending s.last_sent
      then s
      else if too_early s now
      then elim s.last_sent_at [
        | none ↦ s
        | some last ↦ schedule_debounce_flush s (s.min_interval - (now - last)) now
      ]
      else send (record s { pending = [] }) s.pending now

  -- The first half of Close: the text that was held back.
  unfoldable pub close_pending : Streamer → ℕ → Streamer
  close_pending s now =
      if not (is_empty s.pending) && not (text_eq s.pending s.last_sent)
      then record (send s s.pending now) { pending = [] }
      else s

  -- The second half: what the card should show in the end.
  unfoldable pub close_render : Streamer → ℕ → Streamer
  close_render s now =
      let shown = render s in
      if not (is_empty shown) && not (text_eq shown s.last_sent) then send s shown now else s

  unfoldable pub close : Streamer → ℕ → Streamer
  close s now =
      if is_dead s
      then s
      else close_render (close_pending (stop_debounce_flush (record s { closed = true })) now) now

-- `cancelled`: the context is done.
module _ (updates : ℕ → Bool) (table : ℕ → ℕ) (decode : Text → Option (List (Text × Text))) where
  unfoldable pub on_progress : Streamer → Bool → ProgressEvent → ℕ → Streamer
  on_progress s cancelled e now =
      if cancelled
      then s
      else if is_dead s
      then s
      else publish updates (record_event table decode s e) e now
