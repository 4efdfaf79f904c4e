-- ===== src/Samples/Card.antt =====
-- Samples for internal/session/compact_stream.go.
use memknow.Common.{
  ℕ, ◌≡◌, refl, Bool, true, false, List, [], ◌∷◌, Option, none, Text, codes, trim_space, contains,
  index, has_prefix,
}
use memknow.Card.Render.{
  trim_tail_runes, collapse_whitespace, strip_line_no, format_tool_output_preview,
}
use memknow.Card.Streamer.{
  Streamer, ProgressEvent, ProgressKind, new_compact_card_streamer, render, should_force_flush,
  running_card,
}
use memknow.Card.Calls.{progress, timer, finish, step, run}
use memknow.Card.Bounds.{IsBounded, run-IsBounded}
use memknow.Card.Delivery.{IsFaithful, run-IsFaithful}
use memknow.Card.Pace.{Paced, step-Paced}

abbrev all_delivered : ℕ → Bool
all_delivered n = true

abbrev no_table : ℕ → ℕ
no_table c = c

abbrev no_json : Text → Option (List (Text × Text))
no_json t = none

abbrev hello : ProgressEvent
hello = record { kind = ProgressKind.text; body = codes "hi"; tool_name = []; tool_input = [] }

abbrev card : Streamer
unfolding new_compact_card_streamer
card = new_compact_card_streamer (codes "m1")

-- A card with an answer that has not been sent.
abbrev answering : Streamer
answering = record card { answer = codes "hi" }

abbrev shut : Streamer
shut = record card { closed = true }

render-answering : render answering ≡ codes "⏳ **Running...**\n\nCurrent output (streaming):\nhi"
unfolding new_compact_card_streamer render running_card trim_tail_runes trim_space
render-answering = refl

collapse_runs : collapse_whitespace (codes " a \n b c ") ≡ codes "a b c"
unfolding collapse_whitespace
collapse_runs = refl

line_no_dropped : strip_line_no (codes "12\t  x := 1") ≡ codes "x := 1"
unfolding strip_line_no
line_no_dropped = refl

preview_kept : format_tool_output_preview (codes "1 a\n2 \n3 b\n") ≡ codes "```text\na\nb\n```"
unfolding format_tool_output_preview
preview_kept = refl

run-IsBounded_example : IsBounded (
    run all_delivered no_table no_json
      (new_compact_card_streamer (codes "m1"))
      ((0, progress false hello) ∷ (700, timer) ∷ (900, finish) ∷ []))
run-IsBounded_example =
    run-IsBounded all_delivered no_table no_json (codes "m1")
      ((0, progress false hello) ∷ (700, timer) ∷ (900, finish) ∷ [])

run-IsFaithful_example : IsFaithful (
    run all_delivered no_table no_json
      (new_compact_card_streamer (codes "m1"))
      ((0, progress false hello) ∷ (700, timer) ∷ (900, finish) ∷ []))
run-IsFaithful_example =
    run-IsFaithful all_delivered no_table no_json (codes "m1")
      ((0, progress false hello) ∷ (700, timer) ∷ (900, finish) ∷ [])

step-Paced_example :
    Paced card 5 (step all_delivered no_table no_json card (5, progress false hello))
unfolding new_compact_card_streamer
step-Paced_example =
    step-Paced all_delivered no_table no_json card 5 (progress false hello)
      (unfold should_force_flush contains index has_prefix in refl)
