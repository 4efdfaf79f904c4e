-- ===== src/Cleanup/Selected.antt =====
-- The sessions that the query of cleanApp selects.
use memknow.Common.{
  ℕ, ◌<◌, ◌+◌, ◌≡◌, ◌⊎◌, ◌↔◌, inl, inr, Option-cases, some, lookup, refl, ap, ◌∙◌, sym, Bool, true,
  false, List, [], ◌∷◌, Text, arith, text_eq_iff, Memᴰ, if_keeps, if◌then◌else◌,
}
use mathlib.Core.Option.{none-ne-some, some-injective}
use memknow.Manager.Dispatch.{ChannelRow}
use memknow.Recall.Search.{status_eq}
use memknow.Store.Tables.{Session, Status, active, archived}
use memknow.Cleanup.Service.{is_stale, is_selected, stale_sessions}

status_eq_archived : (t : Status) → (status_eq t archived ≡ true) ↔ (t ≡ archived)
status_eq_archived active = (λ h. ground arith, λ h. ap (λ t. status_eq t archived) h)
status_eq_archived archived = (λ h. refl, λ h. refl)

-- Archived and not changed for the retention, or older than the most.
abbrev pub IsOld : (retention max_age now : ℕ) → Session → Type 0
IsOld retention max_age now s =
    ((s.status ≡ archived) × (s.updated_at + retention < now)) ⊎ (s.created_at + max_age < now)

is_stale_iff :
    (retention max_age now : ℕ) (s : Session)
    → (is_stale retention max_age now s ≡ true) ↔ IsOld retention max_age now s
is_stale_iff retention max_age now s = grind (arith, status_eq_archived s.status)

-- An old session of a channel of the app.
abbrev pub IsSelected :
    (retention max_age now : ℕ) → List (Text × ChannelRow) → Text → Session → Type 0
IsSelected retention max_age now channels app_id s =
    ((c : ChannelRow) × (lookup s.channel_key channels ≡ some c) × (c.app_id ≡ app_id))
    × IsOld retention max_age now s

pub is_selected_iff :
    (retention max_age now : ℕ) (channels : List (Text × ChannelRow)) (app_id : Text) (s : Session)
    → (is_selected retention max_age now channels app_id s ≡ true)
      ↔ IsSelected retention max_age now channels app_id s
unfolding is_selected
is_selected_iff retention max_age now channels app_id s =
    elim (Option-cases (lookup s.channel_key channels)) [
      | inl e ↦ rw (e, is_selected) (λ h. ground arith, λ h. elim (none-ne-some h.0.0 h.0.1) [ ])
      | inr (c, e) ↦
          rw (e, is_selected)
            (
              λ h. (
                (c, refl, (text_eq_iff c.app_id app_id).0 (ground arith)),
                (is_stale_iff retention max_age now s).0 (ground arith),
              ),
              λ h.
                  let own =
                    ap (λ (x : ChannelRow). x.app_id) (some-injective c h.0.0 h.0.1) ∙ h.0.2 in
                  let old = (is_stale_iff retention max_age now s).1 h.1 in
                  rw ((text_eq_iff c.app_id app_id).1 own) old,
            )
    ]

kept_or_new :
    (y : Session) (l : List Session) (s : Session) (b : Bool)
    → Memᴰ s (if b then y ∷ l else l)
    → ((s ≡ y) × (b ≡ true)) ⊎ Memᴰ s l
kept_or_new y l s true (Memᴰ.head q) = inl (q, refl)
kept_or_new y l s true (Memᴰ.tail m) = inr m
kept_or_new y l s false m = inr m

module _ (retention max_age now : ℕ) (channels : List (Text × ChannelRow)) (app_id : Text) where
  abbrev selected : Session → Bool
  selected s = is_selected retention max_age now channels app_id s

  abbrev stale : List Session → List Session
  stale l = stale_sessions retention max_age now channels app_id l

  pub stale_sessions_self :
      (l : List Session) (s : Session) → Memᴰ s l → selected s ≡ true → Memᴰ s (stale l)
  unfolding stale_sessions
  stale_sessions_self [] s m h = elim m [ ]
  stale_sessions_self (y ∷ l) s (Memᴰ.head q) h = rw (ap selected (sym q) ∙ h) (Memᴰ.head q)
  stale_sessions_self (y ∷ l) s (Memᴰ.tail m) h =
      if_keeps (Memᴰ s) (selected y) _ _ (Memᴰ.tail (stale_sessions_self l s m h))
        (stale_sessions_self l s m h)

  pub stale_sessions-some :
      (l : List Session) (s : Session) → Memᴰ s (stale l) → Memᴰ s l × (selected s ≡ true)
  unfolding stale_sessions
  stale_sessions-some [] s m = elim m [ ]
  stale_sessions-some (y ∷ l) s m = elim (kept_or_new y (stale l) s (selected y) m) [
    | inl (q, h) ↦ (Memᴰ.head q, ap selected q ∙ h)
    | inr n ↦ let (k, h) = stale_sessions-some l s n in (Memᴰ.tail k, h)
  ]
