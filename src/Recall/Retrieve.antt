-- ===== src/Recall/Retrieve.antt =====
-- internal/session/retriever.go, context_payload.go and worker.go: what is recalled for a message,
-- and the answer to /search.
use memknow.Common.{
  Bool, false, ◌&&◌, List, [], ◌∷◌, ◌++◌, Option, none, some, ◌>>=◌, Text, codes, if◌then◌else◌,
  text_eq, is_empty, ltb, ◌==◌, length, take, trim_space, sort_by,
}
use mathlib.Core.Option
use memknow.Store.Tables.{Store, SessionSummary, chat, archived}
use memknow.Recall.Matches.{SearchMatch, ScoredMatch, fuse_scored_matches}
use memknow.Recall.Format.{
  Group, group_matches_by_session, session_display_name, role_name, match_excerpt,
  format_search_results,
}
use memknow.Recall.Search.{
  Engine, score_from, type_eq, session_row, newer_summary, search_messages_with_status,
  search_messages_like_with_status, search_summary_matches,
}

-- ContextPayload.
pub record ContextPayload : Type 0 where
  pub summaries : List SessionSummary
  pub matches : List SearchMatch

module _ (e : Engine) where
  -- The summaries of chat sessions of the channel.
  unfoldable pub channel_summaries : Store → Text → List SessionSummary → List SessionSummary
  unfolding session_row
  channel_summaries st key [] = []
  channel_summaries st key (ss ∷ l) =
      let rest = channel_summaries st key l in
      let is_chat : Bool = elim (session_row ss.session_id st.sessions) [
        | none ↦ false
        | some s ↦ type_eq s.session_type chat
      ] in
      if text_eq ss.channel_key key && is_chat then ss ∷ rest else rest

  unfoldable pub recent_summaries : Store → Text → Option (List SessionSummary)
  unfolding channel_summaries sort_by
  recent_summaries st key =
      if e.summaries_ok
      then some (
          take 3 (channel_summaries st key (sort_by newer_summary (e.tied_summaries st.summaries))))
      else none

  -- The candidates of the three routes.
  unfoldable pub candidates : Store → Text → Text → Option (List ScoredMatch)
  unfolding search_messages_with_status search_messages_like_with_status search_summary_matches
      score_from
  candidates st key q = do
    fts ← search_messages_with_status e st key q (some archived) (some chat) 12
    likes ← search_messages_like_with_status e st key q (some archived) (some chat) 12
    hits ← search_summary_matches e st key q (some chat) 8
    some (score_from 100 fts ++ (score_from 70 likes ++ score_from 50 hits))

  unfoldable pub recalled_matches : Store → Text → Text → Option (List SearchMatch)
  unfolding candidates fuse_scored_matches
  recalled_matches st key q =
      if is_empty q
      then some []
      else Option.map (λ l. fuse_scored_matches e.table e.arrange l 12) (candidates st key q)

  -- `none` for an error.
  unfoldable pub retrieve : Store → Text → Text → Option ContextPayload
  unfolding recent_summaries recalled_matches trim_space
  retrieve st key query = do
    summaries ← recent_summaries st key
    matches ← recalled_matches st key (trim_space query)
    some (record { summaries = summaries; matches = matches })

  unfoldable pub summary_lines : List SessionSummary → Text
  summary_lines [] = []
  summary_lines (s ∷ l) =
      codes "- [会话摘要] "
      ++ (e.day s.created_at ++ (codes ": " ++ (s.content ++ (codes "\n" ++ summary_lines l))))

  unfoldable pub history_items : List SearchMatch → Text
  unfolding match_excerpt
  history_items [] = []
  history_items (m ∷ l) =
      codes "  - ["
      ++ (role_name m
          ++ (codes "] "
              ++ (e.day m.created_at
                  ++ (codes ": " ++ (match_excerpt m 200 ++ (codes "\n" ++ history_items l))))))

  unfoldable pub history_lines : List (Text × Group) → Text
  unfolding history_items session_display_name
  history_lines [] = []
  history_lines ((sid, g) ∷ l) =
      codes "- "
      ++ (session_display_name sid g.session_title
          ++ (codes "\n" ++ (history_items g.items ++ history_lines l)))

  unfoldable pub is_empty_payload : ContextPayload → Bool
  is_empty_payload p = length p.summaries == 0 && length p.matches == 0

  unfoldable pub to_prompt : ContextPayload → Text
  unfolding is_empty_payload summary_lines history_lines group_matches_by_session
  to_prompt p =
      let groups = group_matches_by_session e.table p.matches 5 3 in
      let history =
        (if length p.summaries == 0 then [] else codes "\n")
        ++ (codes "### 历史片段\n" ++ history_lines groups) in
      if is_empty_payload p
      then []
      else codes "## 相关历史记录\n\n"
        ++ (summary_lines p.summaries
            ++ ((if length groups == 0 then [] else history) ++ codes "\n"))

  -- A search that finds few matches looks a second time; an error of that search is only logged.
  unfoldable pub with_likes : Store → Text → Text → List SearchMatch → List SearchMatch
  unfolding search_messages_like_with_status score_from fuse_scored_matches
  with_likes st key q matches =
      if ltb (length matches) 5
      then elim (search_messages_like_with_status e st key q none (some chat) 5) [
        | none ↦ matches
        | some likes ↦
            fuse_scored_matches e.table e.arrange (score_from 100 matches ++ score_from 70 likes) 5
      ]
      else matches

  -- The matches that /search shows; `none` for an error of the full text search.
  unfoldable pub search_all : Store → Text → Text → Option (List SearchMatch)
  unfolding search_messages_with_status with_likes
  search_all st key q =
      Option.map (with_likes st key q) (search_messages_with_status e st key q none (some chat) 5)

  -- handleSearch of a query that is not blank: the text that is sent.
  unfoldable pub search_reply : Store → Text → Text → Text
  unfolding search_all format_search_results
  search_reply st key q = elim (search_all st key q) [
    | none ↦ codes "搜索失败，请稍后重试"
    | some matches ↦
        if length matches == 0
        then codes "未找到相关历史消息"
        else format_search_results e.table e.clock q matches
  ]

  -- What goes before the message: nothing where nothing is found, or the search fails.
  unfoldable pub recalled_prompt : Store → Text → Text → Text
  unfolding retrieve to_prompt
  recalled_prompt st key q = elim (retrieve st key q) [ none ↦ [] | some p ↦ to_prompt p ]
