-- ===== src/Samples/Recall.antt =====
-- Searches, recalled history, memory files and the keys of channels at concrete inputs.
use memknow.Common.{
  ℕ, ◌≡◌, ◌≤◌, refl, true, false, List, [], ◌∷◌, some, Text, codes, arith, ◌==◌, ◌||◌, length, All,
  AllPairs, InOrder, Rearranges, lookup, KeysDiffer, text_eq, is_space, differ, if◌then◌else◌,
}
use mathlib.Core.List.Permᴰ
use memknow.Feishu.Message.{build_channel_key}
use memknow.Heartbeat.Service.{heartbeat_channel_key}
use memknow.Recall.AppId.{app_id-round_trip}
use memknow.Recall.Best.{IsTop, KeyDiffers}
use memknow.Recall.Complete.{IsAnswered, fuse_scored_complete}
use memknow.Recall.Format.{group_matches_by_session}
use memknow.Recall.Grouped.{HasItem, IsGroup, group_matches_by_session-IsGrouped}
use memknow.Recall.Limits.{count_session, fuse_scored-best}
use memknow.Recall.Matches.{
  SearchMatch, ScoredMatch, beats, normalize_snippet, trim_to, fuse_scored,
}
use memknow.Recall.Memory.{extract_memory_keywords, search_memories_db}
use memknow.Recall.MemoryFiles.{sync_memory_files}
use memknow.Recall.Own.{IsOwn}
use memknow.Recall.Phrases.{IsBalanced}
use memknow.Recall.Query.{sanitize_fts5_query}
use memknow.Recall.Recalled.{IsOwnSummary, retrieve-IsOwn}
use memknow.Recall.Relevant.{IsRelevant, search_memories_db-IsRelevant}
use memknow.Recall.Retrieve.{ContextPayload, retrieve}
use memknow.Recall.Sanitized.{sanitize_fts5_query-IsBalanced}
use memknow.Recall.Search.{like}
use memknow.Recall.Summary.{app_id_from_channel_key}
use memknow.Recall.SyncRows.{Rows, synced_row}
use memknow.Recall.Synced.{sync_memory_files-rows}
use memknow.Samples.Schedule.{row}
use memknow.Samples.Turn.{engine, tables}
use memknow.Schedule.Runs.{schedule_channel_key}
use memknow.Store.Sessions.{fresh_session}
use memknow.Store.Tables.{Role, Status, Store}

-- Rows and entries in the order in which they are stored.
as_is : {A : Type 0} → Rearranges {A = A} (λ l. l)
as_is l = Permᴰ.refl l

abbrev hit : Text → Text → ℕ → SearchMatch
hit sid text at = record {
  role = codes "user";
  content = text;
  created_at = at;
  session_id = sid;
  session_title = [];
  snippet = text;
}

sanitize_test :
    sanitize_fts5_query (λ c. false) (codes "say \"hello world\" (it's a well-known AND")
    ≡ codes "say \"hello world\"  it's a \"well-known\""
unfolding sanitize_fts5_query
sanitize_test = refl

bigram_test :
    sanitize_fts5_query (λ c. c == 0x90E8 || c == 0x7F72 || c == 0x811A) (codes "部署脚 v1.2")
    ≡ codes "\"部署\" OR \"署脚\" OR \"v1.2\""
unfolding sanitize_fts5_query
bigram_test = refl

like_test : like (codes "100 percent") (codes "%0_p%") ≡ true
unfolding like
like_test = refl

trim_to_test : trim_to (codes "abcdef") 3 ≡ codes "abc..."
unfolding trim_to
trim_to_test = refl

normalize_test : normalize_snippet (codes "...deploy >>>script<<<  now") ≡ codes "deploy script now"
unfolding normalize_snippet
normalize_test = refl

keyword_test :
    extract_memory_keywords (λ c. c) (codes "Deploy, the deploy-script: a")
    ≡ codes "deploy" ∷ codes "the" ∷ codes "script" ∷ []
unfolding extract_memory_keywords text_eq
keyword_test = refl

-- Two matches of one message and one of another session.
abbrev found : List ScoredMatch
found =
    record { match = hit (codes "s1") (codes "deploy") 3; score = 100 }
    ∷ record { match = hit (codes "s1") (codes "deploy") 3; score = 70 }
    ∷ record { match = hit (codes "s2") (codes "deploy it") 5; score = 70 }
    ∷ []

fuse_scored-best_example :
    let l = fuse_scored (λ c. c) (λ m. m) found 12 in
    All (IsTop (λ c. c) found) l
    × AllPairs (KeyDiffers (λ c. c)) l
    × AllPairs (InOrder beats) l
    × (length l ≤ 12)
    × (count_session (codes "s1") l ≤ 3)
fuse_scored-best_example = fuse_scored-best (λ c. c) (λ m. m) as_is found 12 (codes "s1") refl

fuse_scored_complete_example :
    All (IsAnswered (λ c. c) (fuse_scored (λ c. c) (λ m. m) found 12)) found
unfolding fuse_scored text_eq
fuse_scored_complete_example = fuse_scored_complete (λ c. c) (λ m. m) as_is found 12 (omega arith)

abbrev matches : List SearchMatch
matches =
    hit (codes "s1") (codes "deploy") 3
    ∷ hit (codes "s1") (codes "Deploy ") 4
    ∷ hit (codes "s2") (codes "deploy it") 5
    ∷ []

group_matches_by_session-IsGrouped_example :
    let groups = group_matches_by_session (λ c. c) matches 5 2 in
    (length groups ≤ 5)
    × KeysDiffer groups
    × All HasItem groups
    × All (IsGroup (λ c. c) 2 matches) groups
group_matches_by_session-IsGrouped_example = group_matches_by_session-IsGrouped (λ c. c) matches 5 2

sanitize_fts5_query-IsBalanced_example :
    IsBalanced (sanitize_fts5_query (λ c. false) (codes "say \"hello (it's"))
sanitize_fts5_query-IsBalanced_example =
    sanitize_fts5_query-IsBalanced (λ c. false) refl (codes "say \"hello (it's")

-- An archived session of the channel with one message of its user.
abbrev past : Store
past = record tables {
  sessions =
      record (fresh_session (codes "s1") (codes "ch") (codes "u1") [] 3) {
        status = Status.archived;
      }
      ∷ [];
  messages =
      record {
        id = codes "m1";
        session_id = codes "s1";
        sender_id = codes "u1";
        role = Role.user;
        content = codes "deploy now";
        feishu_msg_id = [];
        tool_call_id = [];
        tool_name = [];
        reasoning = [];
        token_count = 0;
        finish_reason = [];
        created_at = 4;
      }
      ∷ [];
}

-- The index and LIKE both find the message; the merge keeps what the index found.
abbrev recalled : ContextPayload
recalled = record {
  summaries = [];
  matches =
      record (hit (codes "s1") (codes "deploy now") 4) { snippet = codes ">>>deploy<<< now" } ∷ [];
}

retrieve_test : retrieve engine past (codes "ch") (codes "deploy") ≡ some recalled
unfolding retrieve text_eq
retrieve_test = refl

retrieve-IsOwn_example :
    All (IsOwnSummary past (codes "ch") engine) recalled.summaries
    × (length recalled.summaries ≤ 3)
    × All (IsOwn past (codes "ch")) recalled.matches
    × (length recalled.matches ≤ 12)
retrieve-IsOwn_example =
    retrieve-IsOwn past (codes "ch") engine as_is (λ q. as_is) as_is as_is (codes "deploy") recalled
      retrieve_test

abbrev memory_rows : Rows
memory_rows =
    (codes "MEMORY.md", record { content = codes "likes tea"; updated_at = 2 })
    ∷ (codes "memory/old.md", record { content = codes "gone"; updated_at = 2 })
    ∷ []

abbrev memory_texts : List (Text × Text)
memory_texts =
    (codes "MEMORY.md", codes "likes tea") ∷ (codes "memory/new.md", codes "deploys on Friday") ∷ []

sync_memory_files-rows_example :
    let r = sync_memory_files (λ n. true) (λ l. l) true 9 memory_texts memory_rows in
    lookup (codes "memory/new.md") r.0 ≡ (
      if r.1
      then synced_row 9
          (lookup (codes "memory/new.md") memory_rows)
          (lookup (codes "memory/new.md") memory_texts)
      else lookup (codes "memory/new.md") memory_rows)
unfolding text_eq
sync_memory_files-rows_example =
    sync_memory_files-rows (λ n. true) (λ l. l) as_is true 9 memory_texts memory_rows
      (codes "memory/new.md") ((differ _ _ refl, tt), (tt, tt)) ((differ _ _ refl, tt), (tt, tt))

search_memories_db-IsRelevant_example :
    let texts = search_memories_db (λ c. c) (λ l. l) (λ l. l) true memory_rows (codes "tea time") in
    (length texts ≤ 3)
    × All
        (IsRelevant (λ c. c) memory_rows (extract_memory_keywords (λ c. c) (codes "tea time")))
        texts
search_memories_db-IsRelevant_example =
    search_memories_db-IsRelevant (λ c. c) (λ l. l) (λ l. l) as_is as_is true memory_rows
      (codes "tea time")

app_id-round_trip_example :
    let app = codes "a1" in
    (app_id_from_channel_key (build_channel_key (codes "p2p") (codes "oc:1") [] app) ≡ app)
    × (app_id_from_channel_key (schedule_channel_key row app) ≡ app)
    × (app_id_from_channel_key (heartbeat_channel_key app) ≡ app)
unfolding is_space
app_id-round_trip_example =
    app_id-round_trip (codes "a1") (codes "p2p") (codes "oc:1") [] row
      ((ground arith, refl), ((ground arith, refl), tt))
