-- ===== src/Store/Records.antt =====
-- What a result leaves in the tables: the calls and messages of its tools, and the tokens.
use memknow.Common.{
  ℕ, suc, ◌≡◌, refl, ap, ◌∙◌, Bool, true, false, List, [], ◌∷◌, ◌++◌, Text, arith, if◌then◌else◌,
  is_empty, append_assoc, append-nil, Bool-cases, inl, inr, subst,
}
use memknow.Store.Tables.{
  Session, Store, Message, MessageToolCall, tool, assistant, update_session, write,
}
use memknow.Store.Persist.{
  ToolUseRecord, ExecuteResult, has_updates, apply_result, call_id, record_message, tool_message,
  tool_call_row, record_tool_use, record_call, record_output, update_metadata, record_tool_uses,
  persist_result, assistant_message,
}

-- The calls of a result, numbered from `i`, as the last rows of the table.
abbrev pub CallsFrom : Text → ℕ → List ToolUseRecord → List MessageToolCall → Type 0
CallsFrom id i [] [] = Unit {0}
CallsFrom id i (t ∷ ts) (c ∷ cs) =
    (c.message_id ≡ id)
    × (c.order_index ≡ i)
    × (c.call_id ≡ call_id i)
    × (c.name ≡ t.name)
    × (c.input ≡ t.input)
    × (c.output ≡ t.output)
    × CallsFrom id (suc i) ts cs
CallsFrom id i _ _ = ⊥

-- A row for the output of a tool in the session.
abbrev pub IsOutput : Text → ℕ → ToolUseRecord → Message → Type 0
IsOutput sid i t m =
    (m.session_id ≡ sid)
    × (m.role ≡ tool)
    × (m.content ≡ t.output)
    × (m.tool_name ≡ t.name)
    × (m.tool_call_id ≡ call_id i)

-- The rows for the outputs of the tools from the `i`-th on, one for each that is not empty.
pub data OutputsFrom (sid : Text) : ℕ → List ToolUseRecord → List Message → Type 0 where
  done : {i : ℕ} → OutputsFrom sid i [] []
  silent :
      {i : ℕ} {t : ToolUseRecord} {ts : List ToolUseRecord} {ms : List Message}
      → is_empty t.output ≡ true
      → OutputsFrom sid (suc i) ts ms
      → OutputsFrom sid i (t ∷ ts) ms
  shown :
      {i : ℕ} {t : ToolUseRecord} {m : Message} {ts : List ToolUseRecord} {ms : List Message}
      → is_empty t.output ≡ false
      → IsOutput sid i t m
      → OutputsFrom sid (suc i) ts ms
      → OutputsFrom sid i (t ∷ ts) (m ∷ ms)

-- From one store to another `cs` are added to the calls and `ms` to the messages.
record Grows (s t : Store) (cs : List MessageToolCall) (ms : List Message) : Type 0 where
  calls : t.tool_calls ≡ s.tool_calls ++ cs
  messages : t.messages ≡ s.messages ++ ms
  sessions : t.sessions ≡ s.sessions

Grows-trans :
    {s t u : Store} {cs ds : List MessageToolCall} {ms ns : List Message}
    → Grows s t cs ms
    → Grows t u ds ns
    → Grows s u (cs ++ ds) (ms ++ ns)
Grows-trans {s} {t} {u} {cs} {ds} {ms} {ns} g h = record {
  calls = h.calls ∙ ap (λ x. x ++ ds) g.calls ∙ append_assoc s.tool_calls cs ds;
  messages = h.messages ∙ ap (λ x. x ++ ns) g.messages ∙ append_assoc s.messages ms ns;
  sessions = h.sessions ∙ g.sessions;
}

-- The row that record_message stores: the message with an id and the time.
abbrev pub stored_row : (uuid : ℕ → Text) → Store → Message → ℕ → Message
stored_row uuid st m now = record m {
  id = if is_empty m.id then uuid st.drawn else m.id;
  created_at = now;
}

module _ (uuid : ℕ → Text) (write_ok : ℕ → Bool) (all_ok : (n : ℕ) → write_ok n ≡ true) where
  record_message-Grows :
      (st : Store) (m : Message) (now : ℕ)
      → Grows st (record_message uuid write_ok st m now) [] (stored_row uuid st m now ∷ [])
  unfolding record_message write
  record_message-Grows st m now = record {
    calls = rw (all_ok st.writes, append-nil);
    messages = rw (all_ok st.writes);
    sessions = rw (all_ok st.writes);
  }

  record_call-Grows :
      (st : Store) (sid mid : Text) (t : ToolUseRecord) (i now : ℕ)
      → Grows st
          (record_call uuid write_ok st sid mid t i now)
          (tool_call_row sid mid t i (uuid st.drawn) now ∷ [])
          []
  unfolding record_call write
  record_call-Grows st sid mid t i now = record {
    calls = rw (all_ok st.writes);
    messages = rw (all_ok st.writes, append-nil);
    sessions = rw (all_ok st.writes);
  }

  -- The row of an output comes before those of the tools behind it.
  record_output-Grows :
      (st : Store) (sid : Text) (t : ToolUseRecord) (i now : ℕ) (ts : List ToolUseRecord)
      → (new : List Message) × Grows st (record_output uuid write_ok st sid t i now) [] new
        × ((ms : List Message)
            → OutputsFrom sid (suc i) ts ms
            → OutputsFrom sid i (t ∷ ts) (new ++ ms))
  unfolding record_output
  record_output-Grows st sid t i now ts = elim (Bool-cases (is_empty t.output)) [
    | inl e ↦ (
      [],
      rw e (record { calls = rw append-nil; messages = rw append-nil; sessions = refl }),
      λ ms rest. silent e rest,
    )
    | inr e ↦
        let drawn : Store = record st { drawn = suc st.drawn } in
        let m = tool_message sid t i (uuid st.drawn) in
        let g = record_message-Grows drawn m now in
        (
          stored_row uuid drawn m now ∷ [],
          rw e (record { calls = g.calls; messages = g.messages; sessions = g.sessions }),
          λ ms rest. shown e (refl, refl, refl, refl, refl) rest,
        )
  ]

  record_tool_uses-Grows :
      (st : Store) (sid mid : Text) (ts : List ToolUseRecord) (i now : ℕ)
      → (cs : List MessageToolCall) × CallsFrom mid i ts cs
        × ((ms : List Message) × OutputsFrom sid i ts ms
            × Grows st (record_tool_uses uuid write_ok st sid mid ts i now) cs ms)
  unfolding record_tool_uses record_tool_use
  record_tool_uses-Grows st sid mid [] i now = (
    [],
    tt,
    ([], done, record { calls = rw append-nil; messages = rw append-nil; sessions = refl }),
  )
  record_tool_uses-Grows st sid mid (t ∷ ts) i now =
      let st₁ = record_call uuid write_ok st sid mid t i now in
      let st₂ = record_output uuid write_ok st₁ sid t i now in
      let (new, said, before) = record_output-Grows st₁ sid t i now ts in
      let (cs, numbered, (ms, rows, rest)) = record_tool_uses-Grows st₂ sid mid ts (suc i) now in
      let row = tool_call_row sid mid t i (uuid st.drawn) now in
      let g = Grows-trans (Grows-trans (record_call-Grows st sid mid t i now) said) rest in
      (
        row ∷ cs,
        (refl, refl, refl, refl, refl, refl, numbered),
        (
          new ++ ms,
          before ms rows,
          record { calls = g.calls; messages = g.messages; sessions = g.sessions },
        ),
      )

  update_metadata-tables :
      (st : Store) (sess : Session) (r : ExecuteResult) (now : ℕ)
      → let st' = update_metadata uuid write_ok st sess r now in
        (st'.tool_calls ≡ st.tool_calls)
        × (st'.messages ≡ st.messages)
        × (st'.sessions ≡ (
            if has_updates sess r
            then update_session sess.id (apply_result sess r now) st.sessions
            else st.sessions))
        × (st'.drawn ≡ st.drawn)
  unfolding update_metadata write
  update_metadata-tables st sess r now = ground (arith, all_ok st.writes)

  -- When the writes succeed, a result adds one row for each tool use, in their order, numbered
  -- from 0 by `order_index` and by the call's id, with the tool's name, input and output, all under
  -- the id of one assistant message; and it adds that message, with the text and the reasoning of
  -- the result, and behind it one message for each output that is not empty, in their order, with
  -- the output, the tool's name and the call's id. All messages are the session's. The id that is
  -- drawn is not empty.
  pub persist_result-calls :
      (st : Store) (sess : Session) (r : ExecuteResult) (now : ℕ)
      → is_empty (uuid st.drawn) ≡ false
      → let st' = persist_result uuid write_ok st sess r now in
        (cs : List MessageToolCall) × CallsFrom (uuid st.drawn) 0 r.tool_uses cs
        × (st'.tool_calls ≡ st.tool_calls ++ cs)
        × ((m : Message) × ((ms : List Message) × OutputsFrom sess.id 0 r.tool_uses ms
              × (st'.messages ≡ st.messages ++ m ∷ ms)
              × ((m.id ≡ uuid st.drawn)
                  × (m.session_id ≡ sess.id)
                  × (m.role ≡ assistant)
                  × (m.content ≡ r.text)
                  × (m.reasoning ≡ r.reasoning))))
  unfolding persist_result
  persist_result-calls st sess r now full =
      let st₁ : Store = update_metadata uuid write_ok st sess r now in
      let (same_calls, same_messages, changed, same_drawn) = update_metadata-tables st sess r now in
      let named : Store = record st₁ { drawn = suc st₁.drawn } in
      let said = assistant_message sess r (uuid st₁.drawn) in
      let st₂ : Store = record_message uuid write_ok named said now in
      let g = record_message-Grows named said now in
      let (cs, numbered, (ms, rows, h)) =
        record_tool_uses-Grows st₂ sess.id (uuid st₁.drawn) r.tool_uses 0 now in
      (
        cs,
        subst (λ d. CallsFrom (uuid d) 0 r.tool_uses cs) same_drawn numbered,
        h.calls ∙ ap (λ x. x ++ cs) (g.calls ∙ append-nil _ ∙ same_calls),
        (
          stored_row uuid named said now,
          (
            ms,
            rows,
            h.messages
                ∙ ap (λ x. x ++ ms) g.messages
                ∙ append_assoc st₁.messages (stored_row uuid named said now ∷ []) ms
                ∙ ap (λ x. x ++ stored_row uuid named said now ∷ ms) same_messages,
            (rw (same_drawn, full) refl, refl, refl, refl, refl),
          ),
        ),
      )

  -- The rows of the sessions change by the update alone.
  pub persist_result-sessions :
      (st : Store) (sess : Session) (r : ExecuteResult) (now : ℕ)
      → (persist_result uuid write_ok st sess r now).sessions ≡ (
          if has_updates sess r
          then update_session sess.id (apply_result sess r now) st.sessions
          else st.sessions)
  unfolding persist_result
  persist_result-sessions st sess r now =
      let st₁ : Store = update_metadata uuid write_ok st sess r now in
      let (same_calls, same_messages, changed, same_drawn) = update_metadata-tables st sess r now in
      let named : Store = record st₁ { drawn = suc st₁.drawn } in
      let said = assistant_message sess r (uuid st₁.drawn) in
      let (cs, numbered, (ms, rows, h)) =
        record_tool_uses-Grows (record_message uuid write_ok named said now) sess.id
          (uuid st₁.drawn) r.tool_uses 0 now in
      h.sessions ∙ (record_message-Grows named said now).sessions ∙ changed
