-- ===== src/Recall/Summary.antt =====
-- internal/session/summary.go: Summarize, findAppConfig and appIDFromChannelKey.
use memknow.Common.{
  Bool, List, [], ◌∷◌, ◌++◌, Option, none, some, ◌>>=◌, Text, codes, if◌then◌else◌, text_eq,
  is_empty, ltb, length, trim_space, has_prefix, trim_prefix, split, byte_length, cut, sort_by,
}
use memknow.Store.Tables.{Store, Message, Role}
use memknow.Recall.Search.{session_row}

-- config.AppConfig, as far as the summarizer reads it.
pub record SummaryApp : Type 0 where
  pub id : Text
  pub workspace_dir : Text

-- claude.ExecuteRequest of a summary, which has no other field set.
pub record SummaryRequest : Type 0 where
  pub prompt : Text
  pub session_id : Text
  pub app : SummaryApp

-- The summarizer: its configured apps, the executor (`none` is an error, the context's deadline of
-- two minutes included), whether the query for the messages succeeds, and the order of messages of
-- one time.
pub record Summarizer : Type 0 where
  pub apps : List SummaryApp
  pub execute : SummaryRequest → Option Text
  pub read_ok : Bool
  pub tied : List Message → List Message

unfoldable pub last_of : List Text → Text
last_of [] = []
last_of (p ∷ []) = p
last_of (p ∷ q ∷ l) = last_of (q ∷ l)

-- The app of a key without blanks around it.
unfoldable pub app_id_of : Text → Text
unfolding has_prefix trim_prefix split last_of
app_id_of ck =
    let parts = split ck (codes ":") in
    if is_empty ck
    then []
    else if has_prefix ck (codes "heartbeat:")
    then trim_prefix ck (codes "heartbeat:")
    else if ltb (length parts) 3
    then []
    else last_of parts

unfoldable pub app_id_from_channel_key : Text → Text
unfolding trim_space app_id_of
app_id_from_channel_key channel_key = app_id_of (trim_space channel_key)

unfoldable pub find_app_config : List SummaryApp → Text → Option SummaryApp
find_app_config [] app_id = none
find_app_config (a ∷ l) app_id = if text_eq a.id app_id then some a else find_app_config l app_id

unfoldable pub dialogue_line : Message → Text
dialogue_line m = elim m.role [
  | Role.user ↦ codes "User: " ++ (m.content ++ codes "\n")
  | Role.assistant ↦
      codes "Assistant: "
      ++ (m.content
          ++ ((if is_empty m.reasoning
                then []
                else codes "\n[Reasoning: " ++ (m.reasoning ++ codes "]"))
              ++ codes "\n"))
  | Role.tool ↦ codes "Tool (" ++ (m.tool_name ++ (codes "): " ++ (m.content ++ codes "\n")))
]

unfoldable pub dialogue_of : List Message → Text
unfolding dialogue_line
dialogue_of [] = []
dialogue_of (m ∷ l) = dialogue_line m ++ dialogue_of l

-- A dialogue that is too long is cut at a byte.
unfoldable pub truncate_dialogue : Text → Text
unfolding byte_length cut
truncate_dialogue dialogue =
    if ltb 12000 (byte_length dialogue)
    then cut 12000 dialogue ++ codes "\n...[truncated]"
    else dialogue

unfoldable pub session_messages : Text → List Message → List Message
session_messages id [] = []
session_messages id (m ∷ l) =
    let rest = session_messages id l in if text_eq m.session_id id then m ∷ rest else rest

abbrev pub older : Message → Message → Bool
older m n = ltb m.created_at n.created_at

abbrev pub summary_prompt : Text → Text
summary_prompt dialogue = codes "请用 1-3 句话总结以下对话的核心内容和结论。不要包含寒暄，只保留事实和决策：\n\n" ++ dialogue

module _ (s : Summarizer) where
  abbrev pub loaded : Store → Text → Option (List Message)
  loaded st id =
      if s.read_ok then some (sort_by older (s.tied (session_messages id st.messages))) else none

  -- The request to the executor for a dialogue, if the channel's app is configured.
  unfoldable pub summary_request : Text → Text → List Message → Option SummaryRequest
  unfolding app_id_from_channel_key find_app_config dialogue_of truncate_dialogue
  summary_request id key messages =
      let app_id = app_id_from_channel_key key in
      if is_empty app_id then none else elim (find_app_config s.apps app_id) [
        | none ↦ none
        | some app ↦ some (record {
          prompt = summary_prompt (truncate_dialogue (dialogue_of messages));
          session_id = id ++ codes "-summary";
          app = app;
        })
      ]

  unfoldable pub summary_of : Text → Text → List Message → Option Text
  unfolding summary_request trim_space
  summary_of id key [] = some []
  summary_of id key (m ∷ l) = do
    request ← summary_request id key (m ∷ l)
    text ← s.execute request
    some (trim_space text)

  -- `none` is an error; no messages give an empty summary.
  unfoldable pub summarize : Store → Text → Option Text
  unfolding session_row session_messages sort_by summary_of
  summarize st id = do
    sess ← session_row id st.sessions
    messages ← loaded st id
    summary_of id sess.channel_key messages
