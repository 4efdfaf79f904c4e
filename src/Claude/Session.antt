-- ===== src/Claude/Session.antt =====
-- internal/claude/interactive.go: collectResult and resetTurnState, which make a result of the
-- events of a turn. What handleResult has written by the time that an event or the end of the
-- process is seen comes with that signal.
use memknow.Common.{
  ℕ, Bool, true, false, List, [], ◌∷◌, ◌++◌, Text, codes, if◌then◌else◌, is_empty, trim_space,
}
use memknow.Card.Streamer.{ProgressEvent, ProgressKind}
use memknow.Store.Persist.{ExecuteResult, ToolUseRecord}

-- What handleResult writes: the usage, the model and the reason.
pub record Usage : Type 0 where
  pub input_tokens : ℕ
  pub output_tokens : ℕ
  pub cache_read_tokens : ℕ
  pub cache_write_tokens : ℕ
  pub model : Text
  pub finish_reason : Text

-- The state of a turn, with the text of its result.
pub record TurnState : Type 0 where
  pub text : Text
  pub text_buf : Text
  pub reasoning_buf : Text
  pub tool_uses : List ToolUseRecord

-- What the loop of collectResult meets: an event, the end of the process seen by its channel of
-- events or by `done`, and the end of the context.
pub data Signal : Type 0 where
  event : Usage → ProgressEvent → Signal
  process_done : Usage → Signal
  events_closed context_done : Signal

-- How collectResult returns: a result, with the error of a closed session or of the context.
pub data Collected : Type 0 where
  complete closed_unexpectedly cancelled : ExecuteResult → Collected
  waiting : TurnState → Collected

abbrev pub fresh_turn : TurnState
fresh_turn = record { text = []; text_buf = []; reasoning_buf = []; tool_uses = [] }

abbrev pub no_usage : Usage
no_usage = record {
  input_tokens = 0;
  output_tokens = 0;
  cache_read_tokens = 0;
  cache_write_tokens = 0;
  model = [];
  finish_reason = [];
}

-- A tool's result goes to the last tool use, if that has no output yet.
unfoldable pub fill_last : List ToolUseRecord → Text → List ToolUseRecord
fill_last [] output = []
fill_last (u ∷ []) output = (if is_empty u.output then record u { output = output } else u) ∷ []
fill_last (u ∷ v ∷ us) output = u ∷ fill_last (v ∷ us) output

-- What the switch does before it goes on; `collect` returns at an event of the result.
unfoldable pub take_kind : ProgressKind → TurnState → ProgressEvent → TurnState
take_kind ProgressKind.text t e = record t {
  text = t.text ++ e.body;
  text_buf = t.text_buf ++ e.body;
}
take_kind ProgressKind.thinking t e = record t {
  reasoning_buf =
      (if is_empty t.reasoning_buf then t.reasoning_buf else t.reasoning_buf ++ codes "\n")
      ++ e.body;
}
take_kind ProgressKind.tool_use t e = record t {
  tool_uses = t.tool_uses ++ record { name = e.tool_name; input = e.tool_input; output = [] } ∷ [];
}
take_kind ProgressKind.tool_result t e = record t { tool_uses = fill_last t.tool_uses e.body }
take_kind ProgressKind.result t e = t

unfoldable pub take_event : TurnState → ProgressEvent → TurnState
take_event t e = take_kind e.kind t e

-- The result with all that the turn gathered; the cost is not read from the stream.
unfoldable pub full_result : Text → TurnState → Usage → ExecuteResult
full_result session_id t u = record {
  text = t.text;
  claude_session_id = session_id;
  has_cost = false;
  reasoning = trim_space t.reasoning_buf;
  tool_uses = t.tool_uses;
  input_tokens = u.input_tokens;
  output_tokens = u.output_tokens;
  cache_read_tokens = u.cache_read_tokens;
  cache_write_tokens = u.cache_write_tokens;
  model = u.model;
  finish_reason = u.finish_reason;
}

-- The result of a turn that is broken off has the text alone.
unfoldable pub text_result : TurnState → ExecuteResult
text_result t = record (full_result [] fresh_turn no_usage) { text = t.text }

abbrev pub is_result : ProgressKind → Bool
is_result ProgressKind.result = true
is_result _ = false

-- The loop, for the id that the process has reported. Where the signals end it still waits.
unfoldable pub collect : Text → TurnState → List Signal → Collected
collect session_id t [] = waiting t
collect session_id t (event u e ∷ ss) =
    let rest = collect session_id (take_event t e) ss in
    if is_result e.kind then complete (full_result session_id t u) else rest
collect session_id t (events_closed ∷ ss) = closed_unexpectedly (text_result t)
collect session_id t (process_done u ∷ ss) = complete (full_result session_id t u)
collect session_id t (context_done ∷ ss) = cancelled (text_result t)

unfoldable pub collect_result : Text → List Signal → Collected
collect_result session_id ss = collect session_id fresh_turn ss
