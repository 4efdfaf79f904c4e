-- ===== src/Cleanup/Removed.antt =====
-- Which directories a pass of internal/cleanup/service.go removes.
use memknow.Common.{
  ℕ, ◌≡◌, ◌⊎◌, ◌*◌, ◌↔◌, inl, inr, refl, subst, Bool, true, false, not, ◌&&◌, ◌||◌, List, [], ◌∷◌,
  Text, arith, Memᴰ, Bool-cases,
}
use memknow.Manager.Dispatch.{ChannelRow}
use memknow.Recall.Format.{member}
use memknow.Store.Tables.{Session}
use memknow.Cleanup.Service.{
  CleanupApp, CleanupConfig, stale_sessions, clean_app, clean_apps, clean,
}
use memknow.Cleanup.Selected.{IsSelected, is_selected_iff, stale_sessions_self, stale_sessions-some}
use memknow.Cleanup.Sessions.{dir_of, has_dir, has_dir_self, has_dir-some, clean_sessions-member}

module _ (table : ℕ → ℕ) (remove_ok query_ok : Text → Bool) (retention max_age now : ℕ)
    (channels : List (Text × ChannelRow)) (sessions : List Session) (d : Text) where
  -- The directory of a session that an app's query selects, where the query succeeds.
  pub record IsDueOf (app : CleanupApp) : Type 0 where
    pub asked : query_ok app.id ≡ true
    pub session : Session
    pub stored : Memᴰ session sessions
    pub selected : IsSelected retention max_age now channels app.id session
    pub path : dir_of table remove_ok d app.workspace_dir session ≡ d

  abbrev pub IsDue : List CleanupApp → Type 0
  IsDue apps = (app : CleanupApp) × Memᴰ app apps × IsDueOf app

  unfoldable due_in : List CleanupApp → Bool
  due_in [] = false
  due_in (app ∷ apps) =
      query_ok app.id
        && has_dir table remove_ok d app.workspace_dir
            (stale_sessions retention max_age now channels app.id sessions)
      || due_in apps

  clean_app-member :
      (app : CleanupApp) (t : List Text × ℕ)
      → member d
          (clean_app table remove_ok query_ok retention max_age now channels sessions app t).0
        ≡ (member d t.0
            && not (
                remove_ok d
                && (query_ok app.id
                    && has_dir table remove_ok d app.workspace_dir
                        (stale_sessions retention max_age now channels app.id sessions))))
  unfolding clean_app
  clean_app-member app t = ground (
    arith,
    clean_sessions-member table remove_ok d app.workspace_dir
        (stale_sessions retention max_age now channels app.id sessions) t.0 t.1,
  )

  clean_apps-member :
      (apps : List CleanupApp) (t : List Text × ℕ)
      → member d
          (clean_apps table remove_ok query_ok retention max_age now channels sessions apps t).0
        ≡ (member d t.0 && not (remove_ok d && due_in apps))
  unfolding clean_apps due_in
  clean_apps-member [] t = ground arith
  clean_apps-member (app ∷ apps) t = ground (
    arith,
    clean_app-member app t,
    clean_apps-member apps
        (clean_app table remove_ok query_ok retention max_age now channels sessions app t),
  )

  due_in-IsDue : (apps : List CleanupApp) → due_in apps ≡ true → IsDue apps
  unfolding due_in
  due_in-IsDue [] h = ground arith
  due_in-IsDue (app ∷ apps) h = elim (Bool-cases (due_in apps)) [
    | inl e ↦ let (a, m, r) = due_in-IsDue apps e in (a, Memᴰ.tail m, r)
    | inr e ↦
        let (s, m, q) =
          has_dir-some table remove_ok d app.workspace_dir
            (stale_sessions retention max_age now channels app.id sessions) (ground arith) in
        let (n, picked) = stale_sessions-some retention max_age now channels app.id sessions s m in
        (
          app,
          Memᴰ.head refl,
          record {
            asked = ground arith;
            session = s;
            stored = n;
            selected = (is_selected_iff retention max_age now channels app.id s).0 picked;
            path = q;
          },
        )
  ]

  IsDueOf-has_dir :
      (app : CleanupApp)
      → IsDueOf app
      → (query_ok app.id
          && has_dir table remove_ok d app.workspace_dir
              (stale_sessions retention max_age now channels app.id sessions))
        ≡ true
  IsDueOf-has_dir app r = rw r.asked (
      has_dir_self table remove_ok d app.workspace_dir _ r.session
        (stale_sessions_self retention max_age now channels app.id sessions r.session r.stored
          ((is_selected_iff retention max_age now channels app.id r.session).1 r.selected))
        r.path)

  due_in_self :
      (apps : List CleanupApp) (a : CleanupApp) → Memᴰ a apps → IsDueOf a → due_in apps ≡ true
  unfolding due_in
  due_in_self [] a m r = elim m [ ]
  due_in_self (app ∷ apps) a (Memᴰ.head q) r =
      ground (arith, IsDueOf-has_dir app (subst IsDueOf q r))
  due_in_self (app ∷ apps) a (Memᴰ.tail m) r = ground (arith, due_in_self apps a m r)

left_iff {ℓ} :
    (P : Type ℓ) (m left ok due : Bool)
    → left ≡ (m && not (ok && due))
    → (due ≡ true → P)
    → (P → due ≡ true)
    → (left ≡ true) ↔ ((m ≡ true) × ((ok ≡ false) ⊎ ¬ P))
left_iff P m left ok due e sound full = (
  λ h. (
    ground arith,
    elim (Bool-cases ok) [ inl h₁ ↦ inr (λ p. let q = full p in ground arith) | inr h₀ ↦ inl h₀ ],
  ),
  λ h. elim h.1 [
    | inl h₀ ↦ let m' = h.0 in ground arith
    | inr n ↦ elim (Bool-cases due) [
      | inl h₁ ↦ elim (n (sound h₁)) [ ]
      | inr h₀ ↦ let m' = h.0 in ground arith
    ]
  ],
)

-- A pass leaves exactly those of the attachment directories that cannot be removed or are not due:
-- a directory is due if it is that of a session in a channel of one of the apps, where the session
-- is archived and was not changed for more than the days of retention, or was created more than
-- the most days ago, and the app's query succeeds. A query or a removal that fails keeps nothing
-- else from being removed.
pub member-clean_iff :
    (table : ℕ → ℕ) (remove_ok query_ok : Text → Bool) (day now : ℕ) (cfg : CleanupConfig)
    (apps : List CleanupApp) (channels : List (Text × ChannelRow)) (sessions : List Session)
    (dirs : List Text) (d : Text)
    → (member d (clean table remove_ok query_ok day now cfg apps channels sessions dirs).0 ≡ true)
      ↔ ((member d dirs ≡ true)
          × ((remove_ok d ≡ false)
              ⊎ ¬ IsDue table remove_ok query_ok
                  (cfg.attachments_retention_days * day)
                  (cfg.attachments_max_days * day)
                  now
                  channels
                  sessions
                  d
                  apps))
unfolding clean
member-clean_iff table remove_ok query_ok day now cfg apps channels sessions dirs d =
    let retention = cfg.attachments_retention_days * day in
    let max_age = cfg.attachments_max_days * day in
    left_iff _ _ _ (remove_ok d)
      (due_in table remove_ok query_ok retention max_age now channels sessions d apps)
      (clean_apps-member table remove_ok query_ok retention max_age now channels sessions d apps
        (dirs, 0))
      (due_in-IsDue table remove_ok query_ok retention max_age now channels sessions d apps)
      (λ (app, m, r).
        due_in_self table remove_ok query_ok retention max_age now channels sessions d apps app m r)
