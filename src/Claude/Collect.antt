-- ===== src/Claude/Collect.antt =====
-- What the result of a turn holds of the turn's events.
use memknow.Common.{
  ◌≡◌, refl, sym, ap, ◌∙◌, true, false, All, List, [], ◌∷◌, ◌++◌, map, Text, arith, is_empty,
  append_assoc, append-nil,
}
use memknow.Card.Streamer.{ProgressEvent, ProgressKind}
use memknow.Claude.Session.{
  Collected, Signal, TurnState, Usage, collect, collect_result, fill_last, fresh_turn, full_result,
  is_result, take_event, take_kind,
}
use memknow.Store.Persist.{ExecuteResult, ToolUseRecord}

abbrev pub said_by : ProgressKind → Text → Text
said_by ProgressKind.text body = body
said_by _ body = []

-- The texts that the turn's events say, in their order.
unfoldable pub said : List ProgressEvent → Text
said [] = []
said (e ∷ es) = said_by e.kind e.body ++ said es

abbrev pub used_by : ProgressKind → ProgressEvent → List (Text × Text)
used_by ProgressKind.tool_use e = (e.tool_name, e.tool_input) ∷ []
used_by _ e = []

-- The tools that the turn's events use, in their order, each with its input.
unfoldable pub used : List ProgressEvent → List (Text × Text)
used [] = []
used (e ∷ es) = used_by e.kind e ++ used es

abbrev pub call_of : ToolUseRecord → Text × Text
call_of u = (u.name, u.input)

map-append : (l r : List ToolUseRecord) → map call_of (l ++ r) ≡ map call_of l ++ map call_of r
map-append [] r = refl
map-append (u ∷ l) r = ap (λ x. call_of u ∷ x) (map-append l r)

calls-fill_last :
    (us : List ToolUseRecord) (output : Text) → map call_of (fill_last us output) ≡ map call_of us
unfolding fill_last
calls-fill_last [] output = refl
calls-fill_last (u ∷ []) output = ground arith
calls-fill_last (u ∷ v ∷ us) output = ap (λ x. call_of u ∷ x) (calls-fill_last (v ∷ us) output)

-- The state after a list of events.
unfoldable pub take_events : TurnState → List ProgressEvent → TurnState
take_events t [] = t
take_events t (e ∷ es) = take_events (take_event t e) es

-- An event with what handleResult has written by then.
abbrev pub Read : Type 0
Read = Usage × ProgressEvent

abbrev pub signal_of : Read → Signal
signal_of x = Signal.event x.0 x.1

abbrev pub event_of : Read → ProgressEvent
event_of x = x.1

-- An event after which the loop goes on.
abbrev pub GoesOn : Read → Type 0
GoesOn x = is_result x.1.kind ≡ false

collect-events :
    (id : Text) (t : TurnState) (es : List Read) (u : Usage) (e : ProgressEvent)
    (rest : List Signal)
    → All GoesOn es
    → is_result e.kind ≡ true
    → collect id t (map signal_of es ++ Signal.event u e ∷ rest)
      ≡ Collected.complete (full_result id (take_events t (map event_of es)) u)
unfolding collect take_events
collect-events id t [] u e rest h r = rw r refl
collect-events id t ((v, d) ∷ es) u e rest h r =
    rw h.0 (collect-events id (take_event t d) es u e rest h.1 r)

text-take_kind :
    (k : ProgressKind) (t : TurnState) (e : ProgressEvent)
    → (take_kind k t e).text ≡ t.text ++ said_by k e.body
unfolding take_kind
text-take_kind ProgressKind.text t e = refl
text-take_kind ProgressKind.thinking t e = sym (append-nil t.text)
text-take_kind ProgressKind.tool_use t e = sym (append-nil t.text)
text-take_kind ProgressKind.tool_result t e = sym (append-nil t.text)
text-take_kind ProgressKind.result t e = sym (append-nil t.text)

text-take_events :
    (t : TurnState) (es : List ProgressEvent) → (take_events t es).text ≡ t.text ++ said es
unfolding take_events said take_event
text-take_events t [] = sym (append-nil t.text)
text-take_events t (e ∷ es) =
    text-take_events (take_kind e.kind t e) es
    ∙ ap (λ x. x ++ said es) (text-take_kind e.kind t e)
    ∙ append_assoc t.text (said_by e.kind e.body) (said es)

calls-take_kind :
    (k : ProgressKind) (t : TurnState) (e : ProgressEvent)
    → map call_of (take_kind k t e).tool_uses ≡ map call_of t.tool_uses ++ used_by k e
unfolding take_kind
calls-take_kind ProgressKind.text t e = sym (append-nil (map call_of t.tool_uses))
calls-take_kind ProgressKind.thinking t e = sym (append-nil (map call_of t.tool_uses))
calls-take_kind ProgressKind.tool_use t e = map-append t.tool_uses _
calls-take_kind ProgressKind.tool_result t e =
    calls-fill_last t.tool_uses e.body ∙ sym (append-nil (map call_of t.tool_uses))
calls-take_kind ProgressKind.result t e = sym (append-nil (map call_of t.tool_uses))

calls-take_events :
    (t : TurnState) (es : List ProgressEvent)
    → map call_of (take_events t es).tool_uses ≡ map call_of t.tool_uses ++ used es
unfolding take_events used take_event
calls-take_events t [] = sym (append-nil (map call_of t.tool_uses))
calls-take_events t (e ∷ es) =
    calls-take_events (take_kind e.kind t e) es
    ∙ ap (λ x. x ++ used es) (calls-take_kind e.kind t e)
    ∙ append_assoc (map call_of t.tool_uses) (used_by e.kind e) (used es)

-- A turn whose events end with that of the result gives a result that says all texts of the turn
-- and lists all its tool uses, each with its name and input, in their order and no others, with the
-- four counts of tokens, the model and the reason that the command line has reported by then and
-- the id of its session; what comes later is not looked at.
pub collect_result_lem :
    (id : Text) (es : List Read) (u : Usage) (e : ProgressEvent) (rest : List Signal)
    → All GoesOn es
    → is_result e.kind ≡ true
    → (r : ExecuteResult) × (collect_result id (map signal_of es ++ Signal.event u e ∷ rest)
        ≡ Collected.complete r)
      × (r.text ≡ said (map event_of es))
      × (map call_of r.tool_uses ≡ used (map event_of es))
      × (r.claude_session_id ≡ id)
      × ((r.input_tokens ≡ u.input_tokens) × (r.output_tokens ≡ u.output_tokens))
      × ((r.cache_read_tokens ≡ u.cache_read_tokens)
          × (r.cache_write_tokens ≡ u.cache_write_tokens))
      × ((r.model ≡ u.model) × (r.finish_reason ≡ u.finish_reason))
unfolding collect_result full_result
collect_result_lem id es u e rest h r = (
  full_result id (take_events fresh_turn (map event_of es)) u,
  collect-events id fresh_turn es u e rest h r,
  text-take_events fresh_turn (map event_of es),
  calls-take_events fresh_turn (map event_of es),
  refl,
  (refl, refl),
  (refl, refl),
  (refl, refl),
)

abbrev pub use_event : Text → Text → ProgressEvent
use_event name input = record {
  kind = ProgressKind.tool_use;
  body = [];
  tool_name = name;
  tool_input = input;
}

abbrev pub output_event : Text → ProgressEvent
output_event output = record {
  kind = ProgressKind.tool_result;
  body = output;
  tool_name = [];
  tool_input = [];
}

fill_last-append :
    (us : List ToolUseRecord) (u : ToolUseRecord) (output : Text)
    → fill_last (us ++ u ∷ []) output ≡ us ++ fill_last (u ∷ []) output
unfolding fill_last
fill_last-append [] u output = refl
fill_last-append (v ∷ []) u output = refl
fill_last-append (v ∷ w ∷ us) u output = ap (λ x. v ∷ x) (fill_last-append (w ∷ us) u output)

-- When the language model uses two tools at once, the output of the first is recorded as that of
-- the second, the first is left without one, and the output of the second is lost.
pub take_events-parallel :
    (t : TurnState) (name name' input input' output output' : Text)
    → is_empty output ≡ false
    → (take_events t (
        use_event name input
        ∷ use_event name' input'
        ∷ output_event output
        ∷ output_event output'
        ∷ [])).tool_uses
      ≡ (t.tool_uses ++ record { name = name; input = input; output = [] } ∷ [])
        ++ record { name = name'; input = input'; output = output } ∷ []
unfolding take_events take_event take_kind
take_events-parallel t name name' input input' output output' h =
    let us : List ToolUseRecord =
      t.tool_uses ++ record { name = name; input = input; output = [] } ∷ [] in
    let u : ToolUseRecord = record { name = name'; input = input'; output = [] } in
    let v : ToolUseRecord = record { name = name'; input = input'; output = output } in
    ap (λ x. fill_last x output') (fill_last-append us u output)
    ∙ unfold fill_last in (fill_last-append us v output' ∙ ap (λ x. us ++ x) (rw h refl))
