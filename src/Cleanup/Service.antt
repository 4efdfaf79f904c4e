-- ===== src/Cleanup/Service.antt =====
-- internal/cleanup/service.go: Run and cleanApp, with internal/workspace/session_paths.go and
-- NormalizeSessionType of internal/model/session_types.go. The file system is the list of the
-- attachment directories that exist; `remove_ok` says which of them os.RemoveAll can remove, and
-- `query_ok` for which app the query succeeds.
use memknow.Common.{
  ℕ, suc, ◌+◌, ◌*◌, Bool, false, not, ◌&&◌, ◌||◌, List, [], ◌∷◌, ◌++◌, none, some, Text, codes,
  if◌then◌else◌, text_eq, ltb, lookup, trim_space, to_lower,
}
use memknow.Manager.Dispatch.{ChannelRow}
use memknow.Recall.Format.{member}
use memknow.Recall.Search.{status_eq}
use memknow.Store.Tables.{Session, SessionType, archived}

-- config.AppConfig and config.CleanupConfig, as far as they are read here.
pub record CleanupApp : Type 0 where
  pub id : Text
  pub workspace_dir : Text

pub record CleanupConfig : Type 0 where
  pub attachments_retention_days : ℕ
  pub attachments_max_days : ℕ

-- The column of a session's type.
abbrev pub type_text : SessionType → Text
type_text SessionType.chat = codes "chat"
type_text SessionType.heartbeat = codes "heartbeat"
type_text SessionType.schedule = codes "schedule"

unfoldable pub normalize_session_type : (table : ℕ → ℕ) → Text → Text
unfolding trim_space to_lower
normalize_session_type table v =
    let t = trim_space (to_lower table v) in
    if text_eq t (codes "heartbeat")
    then codes "heartbeat"
    else if text_eq t (codes "schedule")
    then codes "schedule"
    else codes "chat"

-- `filepath.Join` of a directory that is clean and not empty, and a name without slashes.
abbrev joined : Text → Text → Text
joined dir name = dir ++ (codes "/" ++ name)

abbrev pub session_type_dir : (table : ℕ → ℕ) → Text → Text → Text
session_type_dir table workspace_dir session_type =
    joined (joined workspace_dir (codes "sessions")) (normalize_session_type table session_type)

abbrev pub session_dir : (table : ℕ → ℕ) → Text → Text → Text → Text
session_dir table workspace_dir session_type session_id =
    joined (session_type_dir table workspace_dir session_type) session_id

abbrev pub session_attachments_dir : (table : ℕ → ℕ) → Text → Text → Text → Text
session_attachments_dir table workspace_dir session_type session_id =
    joined (session_dir table workspace_dir session_type session_id) (codes "attachments")

-- `updated_at < now - retention` and `created_at < now - max`, without a difference.
abbrev pub is_stale : (retention max_age now : ℕ) → Session → Bool
is_stale retention max_age now s =
    (status_eq s.status archived && ltb (s.updated_at + retention) now)
    || ltb (s.created_at + max_age) now

-- The condition of an app's query on a session and the channel that is joined to it.
unfoldable pub is_selected :
    (retention max_age now : ℕ) → List (Text × ChannelRow) → Text → Session → Bool
unfolding lookup
is_selected retention max_age now channels app_id s = elim (lookup s.channel_key channels) [
  | none ↦ false
  | some c ↦ text_eq c.app_id app_id && is_stale retention max_age now s
]

unfoldable pub stale_sessions :
    (retention max_age now : ℕ) → List (Text × ChannelRow) → Text → List Session → List Session
unfolding is_selected
stale_sessions retention max_age now channels app_id [] = []
stale_sessions retention max_age now channels app_id (s ∷ l) =
    let rest = stale_sessions retention max_age now channels app_id l in
    if is_selected retention max_age now channels app_id s then s ∷ rest else rest

-- os.RemoveAll; no attachment directory lies in another one.
unfoldable pub remove_dir : Text → List Text → List Text
remove_dir d [] = []
remove_dir d (x ∷ l) = let rest = remove_dir d l in if text_eq x d then rest else x ∷ rest

module _ (table : ℕ → ℕ) (remove_ok : Text → Bool) where
  -- The loop over the sessions: the directories left, and the count.
  unfoldable pub clean_sessions : Text → List Session → List Text × ℕ → List Text × ℕ
  unfolding member remove_dir
  clean_sessions workspace_dir [] t = t
  clean_sessions workspace_dir (s ∷ l) (dirs, count) =
      let d = session_attachments_dir table workspace_dir (type_text s.session_type) s.id in
      let kept = clean_sessions workspace_dir l (dirs, count) in
      let removed = clean_sessions workspace_dir l (remove_dir d dirs, suc count) in
      if not (member d dirs) then kept else if remove_ok d then removed else kept

  -- `now`, and the two ages in units of the clock.
  module _ (query_ok : Text → Bool) (retention max_age now : ℕ)
      (channels : List (Text × ChannelRow)) (sessions : List Session) where
    unfoldable pub clean_app : CleanupApp → List Text × ℕ → List Text × ℕ
    unfolding clean_sessions stale_sessions
    clean_app app t =
        let rows = stale_sessions retention max_age now channels app.id sessions in
        if query_ok app.id then clean_sessions app.workspace_dir rows t else t

    unfoldable pub clean_apps : List CleanupApp → List Text × ℕ → List Text × ℕ
    unfolding clean_app
    clean_apps [] t = t
    clean_apps (app ∷ apps) t = clean_apps apps (clean_app app t)

  -- A pass; `day` is a day in units of the clock. The count is the one that is logged.
  unfoldable pub clean :
      (query_ok : Text → Bool) (day now : ℕ)
      → CleanupConfig
      → List CleanupApp
      → List (Text × ChannelRow)
      → List Session
      → List Text
      → List Text × ℕ
  unfolding clean_apps
  clean query_ok day now cfg apps channels sessions dirs =
      clean_apps query_ok (cfg.attachments_retention_days * day) (cfg.attachments_max_days * day)
        now channels sessions apps (dirs, 0)
