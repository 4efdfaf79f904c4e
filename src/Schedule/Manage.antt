-- ===== src/Schedule/Manage.antt =====
-- internal/schedule/service.go and intent_parser.go: CreateFromMessage and ManageFromMessage, with
-- the answers of the language model. `execute` runs the executor on the user's text and returns
-- the answer's text, `none` for an error; the instructions around the text are part of it.
use memknow.Common.{
  ℕ, Bool, true, false, not, ◌||◌, List, ◌++◌, Option, none, some, Text, codes, if◌then◌else◌,
  is_empty, text_eq, trim_space, to_lower,
}
use memknow.Feishu.Message.{IncomingMessage}
use memknow.Schedule.Cron.{is_valid_cron_expr, extract_first_json_object}
use memknow.Schedule.Intent.{
  Action, ManageIntent, list, looks_like_schedule_intent, looks_like_schedule_manage_intent,
  parse_manage_intent, summarize_command,
}
use memknow.Schedule.Matching.{
  list_items, list_by_creator, no_items, resolve_schedule_for_management,
}
use memknow.Schedule.Service.{Schedule, Service, Result, resolve_target, create, delete, update}

pub record Intent : Type 0 where
  pub name : Text
  pub description : Text
  pub cron_expr : Text
  pub command : Text

-- llmIntentResponse and llmManageIntentResponse.
pub record IntentResponse : Type 0 where
  pub should_create : Bool
  pub name : Text
  pub description : Text
  pub cron_expr : Text
  pub command : Text

pub record ManageResponse : Type 0 where
  pub action : Text
  pub keyword : Text
  pub new_prompt : Text

-- What a parser returns: an intent, the answer that there is none, or an error.
pub data Parsed {ℓ} (A : Type ℓ) : Type ℓ where
  intent : A → Parsed A
  no_intent : Parsed A
  parse_error : Parsed A

-- The checks on a decoded intent, with its defaults.
unfoldable pub check_intent : IntentResponse → Parsed Intent
check_intent out =
    let command = trim_space out.command in
    let cron_expr = trim_space out.cron_expr in
    let name = trim_space out.name in
    let description = trim_space out.description in
    if not out.should_create
    then no_intent
    else if is_empty command
    then parse_error
    else if not (is_valid_cron_expr cron_expr)
    then parse_error
    else intent (record {
      name =
          if is_empty name then codes "定时" ++ (summarize_command command ++ codes "提醒") else name;
      description = if is_empty description then command else description;
      cron_expr = cron_expr;
      command = command;
    })

-- The answer of ManageFromMessage: not handled, handled with a reply, or an error.
pub data Answer : Type 0 where
  not_handled failed : Answer
  replied : Text → Answer

abbrev pub managed : Action → ManageResponse → ManageIntent
managed a out = record {
  action = a;
  keyword = trim_space out.keyword;
  new_prompt = trim_space out.new_prompt;
}

-- `decode_intent` and `decode_manage` are json.Unmarshal into the two types.
module _ (table : ℕ → ℕ) (execute : Text → Option Text)
    (decode_intent : Text → Option IntentResponse)
    (decode_manage : Text → Option ManageResponse) where
  unfoldable pub parse_intent_with_llm : Text → Parsed Intent
  parse_intent_with_llm prompt = elim (execute (trim_space prompt)) [
    | none ↦ parse_error
    | some answer ↦
        let raw = extract_first_json_object answer in
        if is_empty raw
        then parse_error
        else elim (decode_intent raw) [ none ↦ parse_error | some out ↦ check_intent out ]
  ]

  unfoldable pub check_manage_intent : ManageResponse → Parsed ManageIntent
  check_manage_intent out =
      let action = to_lower table (trim_space out.action) in
      if text_eq action (codes "list")
      then intent (managed Action.list out)
      else if text_eq action (codes "delete")
      then intent (managed Action.delete out)
      else if text_eq action (codes "update")
      then intent (managed Action.update out)
      else if text_eq action (codes "none") || is_empty action
      then no_intent
      else parse_error

  unfoldable pub parse_manage_intent_with_llm : Text → Parsed ManageIntent
  parse_manage_intent_with_llm prompt = elim (execute (trim_space prompt)) [
    | none ↦ parse_error
    | some answer ↦
        let raw = extract_first_json_object answer in
        if is_empty raw
        then parse_error
        else elim (decode_manage raw) [ none ↦ parse_error | some out ↦ check_manage_intent out ]
  ]

  -- The intent that ManageFromMessage acts on: the words of the message decide where the language
  -- model's answer is an error.
  unfoldable pub manage_intent : Text → Option ManageIntent
  manage_intent prompt = elim (parse_manage_intent_with_llm prompt) [
    | intent i ↦ some i
    | no_intent ↦ none
    | parse_error ↦ parse_manage_intent table prompt
  ]

  module _ (accepts : Text → Bool) (uuid : ℕ → Text) (write_ok : ℕ → Bool) where
    -- `none`: the message is not about a schedule; otherwise what Create reports.
    unfoldable pub create_from_message :
        Service → Text → IncomingMessage → ℕ → Service × Option (Result Schedule)
    create_from_message s app_id msg now =
        let prompt = trim_space msg.prompt in
        if looks_like_schedule_intent table prompt
        then elim (parse_intent_with_llm prompt) [
          | parse_error ↦ (s, none)
          | no_intent ↦ (s, none)
          | intent i ↦
              let (target_type, target_id) = resolve_target msg in
              let (s', r) =
                create accepts uuid write_ok s
                  (record {
                    app_id = app_id;
                    name = i.name;
                    description = i.description;
                    cron_expr = i.cron_expr;
                    target_type = target_type;
                    target_id = target_id;
                    command = i.command;
                    created_by = msg.sender_id;
                  })
                  now in
              (s', some r)
        ]
        else (s, none)

    unfoldable pub delete_matched : Service → Schedule → Service × Answer
    delete_matched s r =
        let (s', deleted) = delete accepts uuid write_ok s r.id in
        (s', if deleted then replied (codes "✅ 已删除「" ++ (r.name ++ codes "」")) else failed)

    unfoldable pub update_matched : Service → Schedule → Text → ℕ → Service × Answer
    update_matched s r new_prompt now = elim (parse_intent_with_llm new_prompt) [
      | parse_error ↦ (s, replied (codes "❌ 没听懂新的时间设定，请用类似「每天10点」或「每小时」这样的表达"))
      | no_intent ↦ (s, replied (codes "❌ 没听懂新的时间设定，请用类似「每天10点」或「每小时」这样的表达"))
      | intent i ↦
          let (s', updated) = update accepts uuid write_ok s r.id (λ row. record row {
            cron_expr = i.cron_expr;
            command = i.command;
            updated_at = now;
          }) in
          (
            s',
            if updated
                then replied
                    (codes "✅ 已将「" ++ (r.name ++ (codes "」更新为 `" ++ (i.cron_expr ++ codes "`"))))
                else failed,
          )
    ]

    -- The cases "delete" and "update" up to the matched schedule, for the items of the sender.
    unfoldable pub manage_matched :
        Service → List Schedule → ManageIntent → Bool → ℕ → Service × Answer
    manage_matched s items mi deleting now =
        let (matched, question) = resolve_schedule_for_management table items mi.keyword deleting in
        if not (is_empty question) then (s, replied question) else elim matched [
          | none ↦ (s, replied (codes "❌ 没找到包含「" ++ (mi.keyword ++ codes "」的提醒，请检查名称")))
          | some r ↦ if deleting then delete_matched s r else update_matched s r mi.new_prompt now
        ]

    unfoldable pub manage_items : Service → List Schedule → ManageIntent → ℕ → Service × Answer
    manage_items s items mi now =
        if no_items items then (s, replied (codes "📭 你还没有创建定时提醒")) else elim mi.action [
          | list ↦ (s, replied (codes "📋 你的定时提醒：\n" ++ list_items 0 items))
          | Action.delete ↦ manage_matched s items mi true now
          | Action.update ↦ manage_matched s items mi false now
        ]

    -- `read_ok`: the query of the sender's schedules succeeds.
    unfoldable pub manage_from_message :
        Service → Text → IncomingMessage → ℕ → Bool → Service × Answer
    manage_from_message s app_id msg now read_ok =
        if looks_like_schedule_manage_intent table msg.prompt
        then elim (manage_intent msg.prompt) [
          | none ↦ (s, not_handled)
          | some mi ↦
              if read_ok
              then manage_items s (list_by_creator app_id msg.sender_id s.rows) mi now
              else (s, failed)
        ]
        else (s, not_handled)
