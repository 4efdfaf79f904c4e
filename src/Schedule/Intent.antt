-- ===== src/Schedule/Intent.antt =====
-- internal/schedule/service.go: the intents that are read off a message's words.
use memknow.Common.{
  ℕ, ◌+◌, Bool, false, not, ◌&&◌, ◌||◌, List, [], ◌∷◌, Option, none, some, Text, codes, ◌==◌,
  if◌then◌else◌, is_empty, trim_space, trim_right, trim_prefix, trim_suffix, has_prefix, contains,
  contains_any, index, length, take, drop, to_lower,
}

pub data Action : Type 0 where
  list delete update : Action

pub record ManageIntent : Type 0 where
  pub action : Action
  pub keyword : Text
  pub new_prompt : Text

abbrev heartbeat_words : List Text
heartbeat_words = codes "heartbeat" ∷ codes "心跳" ∷ []

abbrev pub schedule_words : List Text
schedule_words = codes "提醒" ∷ codes "定时" ∷ codes "每小时" ∷ codes "每天" ∷ codes "每周" ∷ codes "每月" ∷ []

abbrev pub manage_words : List Text
manage_words = codes "提醒" ∷ codes "定时" ∷ codes "schedule" ∷ codes "任务" ∷ codes "cron" ∷ []

abbrev list_patterns : List Text
list_patterns =
    codes "我的提醒"
    ∷ codes "我的定时"
    ∷ codes "查看提醒"
    ∷ codes "查看定时"
    ∷ codes "有哪些提醒"
    ∷ codes "有哪些定时"
    ∷ codes "列出提醒"
    ∷ codes "列出定时"
    ∷ []

abbrev update_triggers : List Text
update_triggers =
    codes "改成" ∷ codes "改为" ∷ codes "修改成" ∷ codes "更新为" ∷ codes "调整为" ∷ codes "变成" ∷ []

abbrev delete_patterns : List Text
delete_patterns = codes "删除" ∷ codes "删掉" ∷ codes "移除" ∷ codes "取消" ∷ []

abbrev update_prefixes : List Text
update_prefixes =
    codes "把"
    ∷ codes "将"
    ∷ codes "修改"
    ∷ codes "调整"
    ∷ codes "更新"
    ∷ codes "我的"
    ∷ codes "这个"
    ∷ codes "那条"
    ∷ codes "该"
    ∷ []

unfoldable pub summarize_command : Text → Text
summarize_command text =
    let command =
      trim_suffix (trim_suffix (trim_suffix (trim_space text) (codes "。")) (codes "！"))
        (codes "!") in
    if is_empty command then codes "事项" else command

-- The runes that `TrimRight(after, "。！?？")` cuts.
abbrev is_end_mark : ℕ → Bool
is_end_mark c = c == 0x3002 || c == 0xFF01 || c == b'?' || c == 0xFF1F

unfoldable pub extract_keyword_after : Text → Text → Text
extract_keyword_after prompt trigger = elim (index prompt trigger) [
  | none ↦ []
  | some start ↦
      let after = trim_space (drop (start + length trigger) prompt) in
      let bare =
        trim_prefix
          (trim_prefix (trim_prefix (trim_prefix after (codes "我的")) (codes "这个")) (codes "那条"))
          (codes "该") in
      trim_right is_end_mark (trim_space bare)
]

unfoldable pub drop_prefixes : List Text → Text → Text
drop_prefixes [] s = s
drop_prefixes (p ∷ ps) s =
    drop_prefixes ps (if has_prefix s p then trim_space (trim_prefix s p) else s)

unfoldable pub extract_keyword_before_update : Text → Text
extract_keyword_before_update text =
    let before = drop_prefixes update_prefixes (trim_space text) in
    trim_space (
      trim_suffix
        (trim_suffix (trim_suffix (trim_suffix before (codes "的")) (codes "时间")) (codes "内容"))
        (codes "命令"))

-- `table` is Unicode's lower case of the runes that are not ASCII.
module _ (table : ℕ → ℕ) where
  unfoldable pub looks_like_schedule_intent : Text → Bool
  looks_like_schedule_intent prompt =
      let p = to_lower table prompt in
      if contains_any p heartbeat_words then false else contains_any p schedule_words

  unfoldable pub looks_like_schedule_manage_intent : Text → Bool
  looks_like_schedule_manage_intent prompt = contains_any (to_lower table prompt) manage_words

  -- The loop over the triggers: the first that is there, with a keyword before it and a time
  -- behind it.
  unfoldable pub find_update : List Text → Text → Option ManageIntent
  find_update [] p = none
  find_update (t ∷ ts) p =
      let rest = find_update ts p in
      elim (index p t) [
        | none ↦ rest
        | some start ↦
            let keyword = extract_keyword_before_update (trim_space (take start p)) in
            let after = trim_space (drop (start + length t) p) in
            if not (is_empty keyword) && looks_like_schedule_intent after
            then some (record { action = update; keyword = keyword; new_prompt = after })
            else rest
      ]

  unfoldable pub find_delete : List Text → Text → Option ManageIntent
  find_delete [] p = none
  find_delete (t ∷ ts) p =
      let rest = find_delete ts p in
      let keyword = extract_keyword_after p t in
      if contains p t && not (is_empty keyword)
      then some (record { action = delete; keyword = keyword; new_prompt = [] })
      else rest

  unfoldable pub parse_manage_intent : Text → Option ManageIntent
  parse_manage_intent prompt =
      let p = to_lower table (trim_space prompt) in
      if contains_any p list_patterns
      then some (record { action = list; keyword = []; new_prompt = [] })
      else elim (find_update update_triggers p) [
        | some i ↦ some i
        | none ↦ find_delete delete_patterns p
      ]
