-- ===== src/Recall/Search.antt =====
-- internal/session/search.go, retriever.go and worker.go: the searches over the messages and the
-- summaries of a channel, what is recalled for a message, and the answer to /search.
use memknow.Common.{
  ℕ, ◌-◌, Bool, true, false, ◌&&◌, ◌||◌, List, [], ◌∷◌, ◌++◌, Option, none, some, Text, codes,
  if◌then◌else◌, text_eq, is_empty, ltb, ◌==◌, take, trim_space, to_lower, sort_by,
}
use memknow.Store.Tables.{
  Store, Session, Message, SessionSummary, Role, Status, SessionType, chat, heartbeat, schedule,
  active, archived,
}
use memknow.Recall.Matches.{SearchMatch, ScoredMatch, trim_to}
use memknow.Recall.Query.{sanitize_fts5_query}

-- SQLite's `lower`, and its LIKE: `%` stands for any text, `_` for any rune, and ASCII letters
-- match in either case.
unfoldable pub sqlite_lower : Text → Text
unfolding to_lower
sqlite_lower s = to_lower (λ c. c) s

unfoldable pub any_suffix : (Text → Bool) → Text → Bool
any_suffix f [] = f []
any_suffix f (c ∷ s) = f (c ∷ s) || any_suffix f s

abbrev pub like_rune : ℕ → (Text → Bool) → Text → Bool
like_rune p f [] = false
like_rune p f (c ∷ s) = (p == b'_' || p == c) && f s

unfoldable pub like_lower : Text → Text → Bool
unfolding any_suffix
like_lower [] = is_empty
like_lower (p ∷ ps) =
    let rest = like_lower ps in if p == b'%' then any_suffix rest else like_rune p rest

unfoldable pub like : Text → Text → Bool
unfolding like_lower sqlite_lower
like s pattern = like_lower (sqlite_lower pattern) (sqlite_lower s)

abbrev pub role_text : Role → Text
role_text Role.user = codes "user"
role_text Role.assistant = codes "assistant"
role_text Role.tool = codes "tool"

abbrev pub type_eq : SessionType → SessionType → Bool
type_eq chat chat = true
type_eq heartbeat heartbeat = true
type_eq schedule schedule = true
type_eq _ _ = false

abbrev pub status_eq : Status → Status → Bool
status_eq active active = true
status_eq archived archived = true
status_eq _ _ = false

-- A filter that is not set lets everything through.
abbrev pub type_passes : Option SessionType → Session → Bool
type_passes none s = true
type_passes (some t) s = type_eq s.session_type t

abbrev pub status_passes : Option Status → Session → Bool
status_passes none s = true
status_passes (some t) s = status_eq s.status t

-- The row of a session, whose id is the primary key.
unfoldable pub session_row : Text → List Session → Option Session
session_row id [] = none
session_row id (s ∷ l) = if text_eq s.id id then some s else session_row id l

-- What SQLite and Go's standard library do: the order of rows that are equal under ORDER BY, the
-- outcomes of the queries, the full text index, the reading of a title's bytes as a text, the order of a map's entries,
-- lower case, and the two formats of times. Of the index a query asks whether it is well formed
-- (`index_ok`), the rows in the order of `bm25` (`ranked`), and for a row that matches the result of
-- `snippet` (`index_match`).
pub record Engine : Type 0 where
  pub tied_messages : List Message → List Message
  pub tied_summaries : List SessionSummary → List SessionSummary
  pub summaries_ok : Bool
  pub like_ok : Bool
  pub hits_ok : Bool
  pub index_ok : Text → Bool
  pub ranked : Text → List Message → List Message
  pub index_match : Text → Message → Option Text
  pub title_text : List ℕ → Text
  pub arrange : List ScoredMatch → List ScoredMatch
  pub table : ℕ → ℕ
  pub is_han : ℕ → Bool
  pub clock : ℕ → Text
  pub day : ℕ → Text

abbrev pub newer_message : Message → Message → Bool
newer_message m n = ltb n.created_at m.created_at

abbrev pub newer_summary : SessionSummary → SessionSummary → Bool
newer_summary s t = ltb t.created_at s.created_at

-- `candidates[i].score = top - i` for the i-th match; a search returns fewer matches than `top`.
unfoldable pub score_from : ℕ → List SearchMatch → List ScoredMatch
score_from top [] = []
score_from top (m ∷ l) = record { match = m; score = top } ∷ score_from (top - 1) l

module _ (e : Engine) where
  abbrev pub pattern_of : Text → Text
  pattern_of query = codes "%" ++ (to_lower e.table (trim_space query) ++ codes "%")

  -- `m.*` with the session's id and title, and a snippet.
  abbrev pub hit_with : Message → Session → Text → SearchMatch
  hit_with m s snippet = record {
    role = role_text m.role;
    content = m.content;
    created_at = m.created_at;
    session_id = s.id;
    session_title = e.title_text s.title;
    snippet = snippet;
  }

  -- A row of the join that matches and that the conditions on the session let through.
  unfoldable pub indexed_match :
      Store → Text → Text → Option Status → Option SessionType → Message → List SearchMatch
  unfolding session_row
  indexed_match st key query status type m = elim (e.index_match query m) [
    | none ↦ []
    | some snippet ↦ elim (session_row m.session_id st.sessions) [
      | none ↦ []
      | some s ↦
          if text_eq s.channel_key key && status_passes status s && type_passes type s
          then hit_with m s snippet ∷ []
          else []
    ]
  ]

  unfoldable pub indexed_matches :
      Store → Text → Text → Option Status → Option SessionType → List Message → List SearchMatch
  unfolding indexed_match
  indexed_matches st key query status type [] = []
  indexed_matches st key query status type (m ∷ l) =
      indexed_match st key query status type m ++ indexed_matches st key query status type l

  unfoldable pub search_messages_with_status :
      Store → Text → Text → Option Status → Option SessionType → ℕ → Option (List SearchMatch)
  unfolding sanitize_fts5_query indexed_matches
  search_messages_with_status st key query status type limit =
      let sanitized = sanitize_fts5_query e.is_han query in
      if is_empty sanitized
      then some []
      else if e.index_ok sanitized
      then some (
          take limit
            (indexed_matches st key sanitized status type (e.ranked sanitized st.messages)))
      else none

  abbrev pub message_hit : Message → Session → SearchMatch
  message_hit m s = hit_with m s (take 200 m.content)

  -- The conditions on a message and its session.
  abbrev pub passes : Text → Text → Option Status → Option SessionType → Message → Session → Bool
  passes key pattern status type m s =
      text_eq s.channel_key key
      && like (sqlite_lower m.content) pattern
      && status_passes status s
      && type_passes type s

  -- A joined row that the conditions let through, as a match.
  unfoldable pub message_match :
      Store → Text → Text → Option Status → Option SessionType → Message → List SearchMatch
  unfolding session_row like
  message_match st key pattern status type m = elim (session_row m.session_id st.sessions) [
    | none ↦ []
    | some s ↦ if passes key pattern status type m s then message_hit m s ∷ [] else []
  ]

  unfoldable pub message_matches :
      Store → Text → Text → Option Status → Option SessionType → List Message → List SearchMatch
  unfolding message_match
  message_matches st key pattern status type [] = []
  message_matches st key pattern status type (m ∷ l) =
      message_match st key pattern status type m ++ message_matches st key pattern status type l

  unfoldable pub search_messages_like_with_status :
      Store → Text → Text → Option Status → Option SessionType → ℕ → Option (List SearchMatch)
  unfolding message_matches sort_by
  search_messages_like_with_status st key query status type limit =
      if is_empty (trim_space query) || limit == 0
      then some []
      else if e.like_ok
      then some (
          take limit (
            message_matches st key (pattern_of query) status type
              (sort_by newer_message (e.tied_messages st.messages))))
      else none

  abbrev pub summary_text : SessionSummary → Text
  summary_text ss = codes "会话摘要命中: " ++ trim_space ss.content

  -- A summary whose session's row is gone has no title, and no type to pass a filter with.
  unfoldable pub summary_match :
      Store → Text → Text → Option SessionType → SessionSummary → List SearchMatch
  unfolding session_row like trim_to
  summary_match st key pattern type ss =
      let text = summary_text ss in
      let hit : Text → SearchMatch = λ title. record {
        role = codes "summary";
        content = text;
        created_at = ss.created_at;
        session_id = ss.session_id;
        session_title = title;
        snippet = trim_to text 200;
      } in
      if text_eq ss.channel_key key && like (sqlite_lower ss.content) pattern
      then elim (session_row ss.session_id st.sessions) [
        | none ↦ elim type [ none ↦ hit [] ∷ [] | some t ↦ [] ]
        | some s ↦ if type_passes type s then hit (e.title_text s.title) ∷ [] else []
      ]
      else []

  unfoldable pub summary_matches :
      Store → Text → Text → Option SessionType → List SessionSummary → List SearchMatch
  unfolding summary_match
  summary_matches st key pattern type [] = []
  summary_matches st key pattern type (ss ∷ l) =
      summary_match st key pattern type ss ++ summary_matches st key pattern type l

  unfoldable pub search_summary_matches :
      Store → Text → Text → Option SessionType → ℕ → Option (List SearchMatch)
  unfolding summary_matches sort_by
  search_summary_matches st key query type limit =
      if is_empty (trim_space query) || limit == 0
      then some []
      else if e.hits_ok
      then some (
          take limit (
            summary_matches st key (pattern_of query) type
              (sort_by newer_summary (e.tied_summaries st.summaries))))
      else none
