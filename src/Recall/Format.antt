-- ===== src/Recall/Format.antt =====
-- internal/session/search_format.go: the matches of each session together, and the answer to a
-- search.
use memknow.Common.{
  ℕ, suc, ◌+◌, Bool, false, List, [], ◌∷◌, ◌++◌, none, some, Text, codes, if◌then◌else◌, text_eq,
  is_empty, leb, ◌==◌, length, trim_space, to_lower, lookup, insert, decimal, byte_length, cut,
  ◌||◌,
}
use memknow.Recall.Matches.{SearchMatch, trim_to}

-- groupedMatches, with the texts that its items show.
pub record Group : Type 0 where
  pub session_title : Text
  pub items : List SearchMatch
  pub seen : List Text

unfoldable pub member : Text → List Text → Bool
member t [] = false
member t (s ∷ l) = text_eq s t || member t l

abbrev pub group_id : SearchMatch → Text
group_id m = if is_empty m.session_id then codes "_unknown" else m.session_id

abbrev pub fresh_group : SearchMatch → Group
fresh_group m = record { session_title = trim_space m.session_title; items = []; seen = [] }

-- The groups that have an item, in order.
unfoldable pub non_empty : List (Text × Group) → List (Text × Group)
non_empty [] = []
non_empty ((sid, g) ∷ l) =
    let rest = non_empty l in if length g.items == 0 then rest else (sid, g) ∷ rest

module _ (table : ℕ → ℕ) where
  -- The text by which two items are the same.
  unfoldable pub item_key : SearchMatch → Text
  unfolding trim_space to_lower
  item_key m =
      let key = to_lower table (trim_space m.snippet) in
      if is_empty key then to_lower table (trim_space m.content) else key

  unfoldable pub add_item : ℕ → Group → SearchMatch → Group
  unfolding item_key member
  add_item max_items g m =
      let key = item_key m in
      if leb max_items (length g.items)
      then g
      else if is_empty key
      then g
      else if member key g.seen
      then g
      else record g { items = g.items ++ m ∷ []; seen = key ∷ g.seen }

  -- A round of the loop. The association list keeps its entries in the order of `order`.
  unfoldable pub group_match : ℕ → ℕ → List (Text × Group) → SearchMatch → List (Text × Group)
  unfolding add_item lookup insert
  group_match max_sessions max_items groups m =
      let sid = group_id m in
      elim (lookup sid groups) [
        | none ↦
            if leb max_sessions (length groups)
            then groups
            else insert sid (add_item max_items (fresh_group m) m) groups
        | some g ↦ insert sid (add_item max_items g m) groups
      ]

  unfoldable pub group_all : ℕ → ℕ → List (Text × Group) → List SearchMatch → List (Text × Group)
  unfolding group_match
  group_all max_sessions max_items groups [] = groups
  group_all max_sessions max_items groups (m ∷ l) =
      group_all max_sessions max_items (group_match max_sessions max_items groups m) l

  unfoldable pub group_matches_by_session : List SearchMatch → ℕ → ℕ → List (Text × Group)
  unfolding group_all non_empty
  group_matches_by_session matches max_sessions max_items =
      if max_sessions == 0 || max_items == 0 || length matches == 0
      then []
      else non_empty (group_all max_sessions max_items [] matches)

-- Ids are ASCII, so a byte is a rune.
unfoldable pub session_display_name : Text → Text → Text
unfolding cut byte_length
session_display_name session_id title =
    if text_eq session_id (codes "_unknown")
    then codes "历史消息"
    else if is_empty title
    then (if leb (byte_length session_id) 8
        then codes "会话 " ++ session_id
        else codes "会话 " ++ cut 8 session_id)
    else title

unfoldable pub match_excerpt : SearchMatch → ℕ → Text
unfolding trim_space trim_to
match_excerpt m limit =
    let text = trim_space m.snippet in
    let text' = if is_empty text then trim_space m.content else text in
    if is_empty text' then codes "(空内容)" else trim_to text' limit

abbrev pub role_name : SearchMatch → Text
role_name m = if is_empty m.role then codes "消息" else m.role

-- `clock` is the format "01-02 15:04" of a time.
module _ (table : ℕ → ℕ) (clock : ℕ → Text) where
  unfoldable pub item_lines : List SearchMatch → Text
  unfolding match_excerpt
  item_lines [] = []
  item_lines (m ∷ l) =
      codes "  - ["
      ++ (role_name m
          ++ (codes "] `"
              ++ (clock m.created_at
                  ++ (codes "` " ++ (match_excerpt m 120 ++ (codes "\n" ++ item_lines l))))))

  unfoldable pub group_lines : ℕ → List (Text × Group) → Text
  unfolding item_lines session_display_name decimal
  group_lines i [] = []
  group_lines i ((sid, g) ∷ l) =
      decimal (i + 1)
      ++ (codes ". "
          ++ (session_display_name sid g.session_title
              ++ (codes "\n" ++ (item_lines g.items ++ (codes "\n" ++ group_lines (suc i) l)))))

  unfoldable pub format_search_results : Text → List SearchMatch → Text
  unfolding group_matches_by_session group_lines decimal trim_space
  format_search_results query matches =
      let groups = group_matches_by_session table matches 4 3 in
      let head =
        codes "🔍 搜索 **"
        ++ (query
            ++ (codes "** 的结果（会话 "
                ++ (decimal (length groups)
                    ++ (codes " / 命中 " ++ (decimal (length matches) ++ codes "）:\n\n"))))) in
      if length groups == 0
      then head ++ codes "未找到可展示的历史片段"
      else trim_space (head ++ group_lines 0 groups)
