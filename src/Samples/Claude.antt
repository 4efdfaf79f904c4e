-- ===== src/Samples/Claude.antt =====
-- Samples for internal/claude/interactive.go.
use memknow.Common.{◌≡◌, refl, List, [], ◌∷◌, ◌++◌, map, codes}
use memknow.Card.Streamer.{ProgressEvent, ProgressKind}
use memknow.Claude.Collect.{
  Read, signal_of, event_of, call_of, collect_result_lem, output_event, said, take_events,
  take_events-parallel, use_event, used,
}
use memknow.Claude.Session.{Collected, Signal, Usage, collect_result, fresh_turn, no_usage}
use memknow.Store.Persist.{ExecuteResult}

abbrev usage : Usage
usage = record {
  input_tokens = 7;
  output_tokens = 3;
  cache_read_tokens = 2;
  cache_write_tokens = 1;
  model = codes "m";
  finish_reason = codes "end_turn";
}

abbrev answer : ProgressEvent
answer = record { kind = ProgressKind.text; body = codes "ok"; tool_name = []; tool_input = [] }

abbrev finished : ProgressEvent
finished = record { kind = ProgressKind.result; body = []; tool_name = []; tool_input = [] }

abbrev turn : List Read
turn =
    (no_usage, use_event (codes "Read") (codes "{}"))
    ∷ (no_usage, output_event (codes "x"))
    ∷ (usage, answer)
    ∷ []

collect_result_lem_example :
    (r : ExecuteResult) × (collect_result
        (codes "c1")
        (map signal_of turn ++ Signal.event usage finished ∷ [])
      ≡ Collected.complete r)
    × (r.text ≡ said (map event_of turn))
    × (map call_of r.tool_uses ≡ used (map event_of turn))
    × (r.claude_session_id ≡ codes "c1")
    × ((r.input_tokens ≡ 7) × (r.output_tokens ≡ 3))
    × ((r.cache_read_tokens ≡ 2) × (r.cache_write_tokens ≡ 1))
    × ((r.model ≡ codes "m") × (r.finish_reason ≡ codes "end_turn"))
collect_result_lem_example =
    collect_result_lem (codes "c1") turn usage finished [] (refl, (refl, (refl, tt))) refl

take_events-parallel_example :
    (take_events fresh_turn (
      use_event (codes "Read") (codes "a")
      ∷ use_event (codes "Bash") (codes "b")
      ∷ output_event (codes "x")
      ∷ output_event (codes "y")
      ∷ [])).tool_uses
    ≡ ([] ++ record { name = codes "Read"; input = codes "a"; output = [] } ∷ [])
      ++ record { name = codes "Bash"; input = codes "b"; output = codes "x" } ∷ []
take_events-parallel_example =
    take_events-parallel fresh_turn (codes "Read") (codes "Bash") (codes "a") (codes "b")
      (codes "x") (codes "y") refl
