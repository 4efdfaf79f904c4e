-- ===== src/Samples/Store.antt =====
-- Samples for the sessions and the records of internal/session/worker.go.
use memknow.Common.{
  ℕ, zero, suc, ◌+◌, ◌≡◌, refl, Bool, true, false, List, [], ◌∷◌, ◌++◌, some, Text, codes, arith,
  text_eq,
}
use memknow.Store.Tables.{Session, Store, Message, Role, MessageToolCall, find_active, count_active}
use memknow.Store.Sessions.{fresh_session, handle_new_silent}
use memknow.Store.Persist.{ExecuteResult, persist_result}
use memknow.Store.Archived.{Archives}
use memknow.Store.Active.{IsSingle, handle_new_silent_lem}
use memknow.Store.Records.{CallsFrom, OutputsFrom, persist_result-calls}
use memknow.Store.Tokens.{count_id, sum_of, persist_result-tokens}

abbrev ids : ℕ → Text
ids n = n ∷ []

abbrev all_ok : ℕ → Bool
all_ok n = true

abbrev old_session : Session
old_session = fresh_session (codes "s1") (codes "ch") (codes "u1") [] 3

-- A store with one session, active in the channel "ch".
abbrev store : Store
store = record {
  sessions = old_session ∷ [];
  messages = [];
  tool_calls = [];
  summaries = [];
  interactive = codes "s1" ∷ [];
  drawn = 0;
  writes = 0;
}

-- The first write fails, the others succeed.
abbrev first_fails : ℕ → Bool
first_fails zero = false
first_fails (suc n) = true

store-IsSingle : IsSingle store
unfolding count_active
store-IsSingle key = ground arith

handle_new_silent_lem_example :
    let (st', r) = handle_new_silent ids all_ok (codes "ch") store (codes "u1") 9 true in
    let s = fresh_session (0 ∷ []) (codes "ch") (codes "u1") (codes "s1") 9 in
    (r ≡ some s)
    × ((rows : List Session) × (st'.sessions ≡ rows ++ s ∷ [])
        × Archives (codes "ch") 9 store.sessions rows)
    × (find_active (codes "ch") st'.sessions ≡ some s)
    × (count_active (codes "ch") st'.sessions ≡ 1)
unfolding find_active text_eq
handle_new_silent_lem_example =
    handle_new_silent_lem ids all_ok (codes "ch") store (codes "u1") 9 true refl refl

abbrev result : ExecuteResult
result = record {
  text = codes "done";
  claude_session_id = codes "c1";
  has_cost = false;
  reasoning = [];
  tool_uses =
      record { name = codes "Read"; input = codes "{}"; output = codes "x" }
      ∷ record { name = codes "Bash"; input = codes "{}"; output = [] }
      ∷ [];
  input_tokens = 7;
  output_tokens = 5;
  cache_read_tokens = 0;
  cache_write_tokens = 0;
  model = codes "m";
  finish_reason = codes "stop";
}

persist_result-calls_example :
    let st' = persist_result ids all_ok store old_session result 9 in
    (cs : List MessageToolCall) × CallsFrom (0 ∷ []) 0 result.tool_uses cs
    × (st'.tool_calls ≡ [] ++ cs)
    × ((m : Message) × ((ms : List Message) × OutputsFrom (codes "s1") 0 result.tool_uses ms
          × (st'.messages ≡ store.messages ++ m ∷ ms)
          × ((m.id ≡ 0 ∷ [])
              × (m.session_id ≡ codes "s1")
              × (m.role ≡ Role.assistant)
              × (m.content ≡ result.text)
              × (m.reasoning ≡ result.reasoning))))
persist_result-calls_example =
    persist_result-calls ids all_ok (λ n. refl) store old_session result 9 refl

persist_result-tokens_example :
    let old = store.sessions in
    let rows = (persist_result ids all_ok store old_session result 9).sessions in
    (sum_of (λ s. s.input_tokens) (codes "s1") rows
      ≡ sum_of (λ s. s.input_tokens) (codes "s1") old + 7)
    × (sum_of (λ s. s.output_tokens) (codes "s1") rows
        ≡ sum_of (λ s. s.output_tokens) (codes "s1") old + 5)
    × (sum_of (λ s. s.cache_read_tokens) (codes "s1") rows
        ≡ sum_of (λ s. s.cache_read_tokens) (codes "s1") old + 0)
    × (sum_of (λ s. s.cache_write_tokens) (codes "s1") rows
        ≡ sum_of (λ s. s.cache_write_tokens) (codes "s1") old + 0)
persist_result-tokens_example =
    persist_result-tokens ids all_ok (λ n. refl) store old_session result 9
      (unfold count_id text_eq in refl)
