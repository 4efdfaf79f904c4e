-- ===== src/Schedule/Matching.antt =====
-- internal/schedule/service.go: ListByCreator, and what ManageFromMessage does with the rows that it
-- lists: their text, matchScheduleByKeyword and resolveScheduleForManagement.
use memknow.Common.{
  ℕ, suc, Bool, true, false, not, ◌&&◌, List, [], ◌∷◌, ◌++◌, Option, none, some, Text, codes,
  if◌then◌else◌, is_empty, text_eq, trim_space, contains, to_lower, decimal, ltb,
}
use memknow.Schedule.Service.{Schedule}

-- `fmt.Fprintf(&sb, "%d. %s (`%s`)\n", i+1, it.Name, it.CronExpr)` for each item.
unfoldable pub list_items : ℕ → List Schedule → Text
list_items i [] = []
list_items i (r ∷ l) =
    decimal (suc i)
    ++ (codes ". "
        ++ (r.name ++ (codes " (`" ++ (r.cron_expr ++ (codes "`)\n" ++ list_items (suc i) l)))))

-- `Order("created_at desc")`, with rows of one time in the table's order.
unfoldable pub insert_newest : Schedule → List Schedule → List Schedule
insert_newest r [] = r ∷ []
insert_newest r (q ∷ l) = if ltb r.created_at q.created_at then q ∷ insert_newest r l else r ∷ q ∷ l

-- The enabled rows of an app and a creator, newest first.
unfoldable pub list_by_creator : Text → Text → List Schedule → List Schedule
list_by_creator app_id created_by [] = []
list_by_creator app_id created_by (r ∷ l) =
    let rest = list_by_creator app_id created_by l in
    if text_eq r.app_id app_id && text_eq r.created_by created_by && r.enabled
    then insert_newest r rest
    else rest

abbrev pub no_items : List Schedule → Bool
no_items [] = true
no_items (_ ∷ _) = false

abbrev pub only_item : List Schedule → Option Schedule
only_item (r ∷ []) = some r
only_item _ = none

unfoldable pub ask_which : List Schedule → Bool → Text
ask_which items deleting =
    codes "我找到多条提醒，请明确说要"
    ++ ((if deleting then codes "删除" else codes "修改") ++ (codes "哪一条：\n" ++ list_items 0 items))

module _ (table : ℕ → ℕ) where
  -- The first item whose name holds the keyword, and the first whose name the keyword holds.
  unfoldable pub find_by_name : Text → List Schedule → Option Schedule
  find_by_name keyword [] = none
  find_by_name keyword (r ∷ l) =
      if contains (to_lower table r.name) keyword then some r else find_by_name keyword l

  unfoldable pub find_in_keyword : Text → List Schedule → Option Schedule
  find_in_keyword keyword [] = none
  find_in_keyword keyword (r ∷ l) =
      if contains keyword (to_lower table r.name) then some r else find_in_keyword keyword l

  unfoldable pub match_schedule_by_keyword : List Schedule → Text → Option Schedule
  match_schedule_by_keyword items keyword =
      let lower = to_lower table keyword in
      elim (find_by_name lower items) [ some r ↦ some r | none ↦ find_in_keyword lower items ]

  -- The match, and the question that is asked instead if it is not empty.
  unfoldable pub resolve_schedule_for_management :
      List Schedule → Text → Bool → Option Schedule × Text
  resolve_schedule_for_management items keyword deleting =
      let kw = trim_space keyword in
      if not (is_empty kw)
      then (match_schedule_by_keyword items kw, [])
      else elim (only_item items) [
        | some r ↦ (some r, [])
        | none ↦ (none, ask_which items deleting)
      ]
