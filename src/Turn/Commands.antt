-- ===== src/Turn/Commands.antt =====
-- internal/session/worker.go: handleBuiltInCommands with handleNew, handleModeCommand and
-- handleSearch, and the modes of internal/config/config.go.
use memknow.Common.{
  ℕ, Bool, true, false, [], ◌++◌, ◌||◌, Option, none, some, Text, codes, if◌then◌else◌, is_empty,
  text_eq, trim_space, trim_prefix, has_prefix,
}
use memknow.Feishu.Message.{IncomingMessage}
use memknow.Recall.Retrieve.{search_reply}
use memknow.Recall.Summary.{summarize}
use memknow.Store.Sessions.{handle_new_silent, id_of, maybe_async_summarize}
use memknow.Store.Tables.{find_active}
use memknow.Turn.Chat.{Chat, Outside, send_text}

unfoldable pub normalized_workspace_mode : Text → Text
normalized_workspace_mode mode =
    if text_eq mode (codes "companion") then codes "companion" else codes "work"

unfoldable pub normalize_workspace_mode : Text → Option Text
normalize_workspace_mode mode =
    if text_eq mode (codes "work")
    then some (codes "work")
    else if text_eq mode (codes "comp") || text_eq mode (codes "companion")
    then some (codes "companion")
    else none

-- What parseModeCommand returns: no such command, the question for the mode, an argument that is
-- no mode, or a mode.
pub data ModeCommand : Type 0 where
  no_command show_only bad_argument : ModeCommand
  change_to : Text → ModeCommand

unfoldable pub parse_mode_command : Text → ModeCommand
parse_mode_command trimmed =
    let t = trim_space trimmed in
    if text_eq t (codes "/mode")
    then show_only
    else if text_eq t (codes "/work")
    then change_to (codes "work")
    else if text_eq t (codes "/comp")
    then change_to (codes "companion")
    else if has_prefix trimmed (codes "/mode ")
    then elim (normalize_workspace_mode (trim_space (trim_prefix trimmed (codes "/mode ")))) [
      | none ↦ bad_argument
      | some mode ↦ change_to mode
    ]
    else no_command

module _ (o : Outside) where
  -- The configuration is written first; the mode in memory changes only if that succeeds.
  unfoldable pub handle_mode_command : Chat → IncomingMessage → Text → Chat × Bool
  handle_mode_command c msg trimmed = elim (parse_mode_command trimmed) [
    | no_command ↦ (c, false)
    | show_only ↦ (
      send_text c msg (
          codes "当前模式："
          ++ (normalized_workspace_mode c.workspace_mode
              ++ codes "\n可用命令：`/mode work`、`/mode companion`、`/work`、`/comp`")),
      true,
    )
    | bad_argument ↦
        (send_text c msg (codes "无效模式。可用命令：`/mode work`、`/mode companion`、`/work`、`/comp`"), true)
    | change_to mode ↦ elim (o.set_mode mode) [
      | some error ↦ (send_text c msg (codes "模式切换失败：" ++ error), true)
      | none ↦ (
        send_text (record c { workspace_mode = mode }) msg
            (codes "已切换到 " ++ (mode ++ codes " 模式。")),
        true,
      )
    ]
  ]

  -- The answer is sent also where the new session could not be made. The summary of the old
  -- session, which is made in the background, is taken to be made at once.
  unfoldable pub handle_new : Chat → IncomingMessage → ℕ → Bool → Chat
  handle_new c msg now read_ok =
      let old = if read_ok then id_of (find_active o.channel_key c.store.sessions) else [] in
      let st =
        (handle_new_silent o.uuid o.write_ok o.channel_key c.store msg.sender_id now read_ok).0 in
      let c' = send_text (record c { store = st }) msg (codes "✅ 已开启新会话") in
      if is_empty old then c' else record c' {
        store =
            maybe_async_summarize o.uuid o.write_ok o.channel_key st old o.has_summarizer
              (summarize o.summarizer st old) now;
      }

  unfoldable pub handle_search : Chat → IncomingMessage → Text → Chat
  handle_search c msg query =
      let q = trim_space query in
      send_text c msg (
        if is_empty q
        then codes "请输入搜索内容，例如：/search 部署脚本"
        else search_reply o.engine c.store o.channel_key q)

  unfoldable pub handle_built_in_commands : Chat → IncomingMessage → Text → ℕ → Bool → Chat × Bool
  handle_built_in_commands c msg trimmed now read_ok =
      let (c', is_mode) = handle_mode_command c msg trimmed in
      if text_eq trimmed (codes "/new")
      then (handle_new (record c { pending_attachment_prompts = [] }) msg now read_ok, true)
      else if is_mode
      then (c', true)
      else if has_prefix trimmed (codes "/search ")
      then (handle_search c msg (trim_prefix trimmed (codes "/search ")), true)
      else (c, false)
