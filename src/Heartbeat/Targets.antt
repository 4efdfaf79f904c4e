-- ===== src/Heartbeat/Targets.antt =====
-- Whom a heartbeat is sent to.
use memknow.Common.{
  ◌≡◌, ◌≢◌, inl, inr, Bool, false, ◌||◌, List, [], ◌∷◌, Option, none, some, Text, codes, arith,
  text_eq, is_empty, trim_space, All, AllPairs, All-weaken, sort_by, if_keeps, if_cases, Bool-cases,
  Option-cases, subst, differ,
}
use mathlib.Core.Bool.{true≢false}
use mathlib.Core.Option.{some-injective, none-ne-some}
use memknow.Manager.Dispatch.{ChannelRow}
use memknow.Recall.Format.{member}
use memknow.Heartbeat.Service.{
  HeartbeatConfig, NotifyTarget, notify_target, distinct_targets, notify_targets, more_recent,
  p2p_channels,
}

abbrev IsNewTarget : List Text → NotifyTarget → Type 0
IsNewTarget seen t = (is_empty t.chat_id ≡ false) × (member t.chat_id seen ≡ false)

abbrev pub ChatDiffers : NotifyTarget → NotifyTarget → Type 0
ChatDiffers t u = t.chat_id ≢ u.chat_id

fresh_target :
    (t : NotifyTarget) (id : Text) (seen : List Text)
    → IsNewTarget (id ∷ seen) t
    → (id ≢ t.chat_id) × IsNewTarget seen t
unfolding member
fresh_target t id seen h = elim (Bool-cases (text_eq id t.chat_id)) [
  | inl e ↦ elim (true≢false (rw e at h.1)) [ ]
  | inr e ↦ (differ id t.chat_id e, (h.0, rw e at h.1))
]

distinct_targets-new :
    (seen : List Text) (l : List ChannelRow)
    → All (IsNewTarget seen) (distinct_targets seen l)
      × AllPairs ChatDiffers (distinct_targets seen l)
unfolding distinct_targets
distinct_targets-new seen [] = (tt, tt)
distinct_targets-new seen (c ∷ l) =
    let Goal : List NotifyTarget → Type 0 =
      λ r. All (IsNewTarget seen) r × AllPairs ChatDiffers r in
    let more = distinct_targets (c.chat_id ∷ seen) l in
    let rest = distinct_targets-new (c.chat_id ∷ seen) l in
    let fresh =
      All-weaken (IsNewTarget (c.chat_id ∷ seen))
        (λ t. (c.chat_id ≢ t.chat_id) × IsNewTarget seen t) more
        (λ t. fresh_target t c.chat_id seen) rest.0 in
    if_cases Goal (is_empty c.chat_id) _ _ (λ _. distinct_targets-new seen l)
      (λ full.
        if_cases Goal (member c.chat_id seen) _ _ (λ _. distinct_targets-new seen l)
          (λ new. (
            (
              (full, new),
              All-weaken (λ t. (c.chat_id ≢ t.chat_id) × IsNewTarget seen t) (IsNewTarget seen) more
                  (λ t h. h.1) fresh,
            ),
            (
              All-weaken (λ t. (c.chat_id ≢ t.chat_id) × IsNewTarget seen t)
                  (λ t. c.chat_id ≢ t.chat_id) more (λ t h. h.0) fresh,
              rest.1,
            ),
          )))

both_full : (a b : Bool) → (a || b) ≡ false → b ≡ false
both_full a b h = ground arith

notify_target-full :
    (cfg : HeartbeatConfig) (t : NotifyTarget)
    → notify_target cfg ≡ some t
    → is_empty t.chat_id ≡ false
unfolding notify_target
notify_target-full cfg =
    let Goal : Option NotifyTarget → Type 0 =
      λ o. (t : NotifyTarget) → o ≡ some t → is_empty t.chat_id ≡ false in
    let t' = trim_space cfg.notify_target_type in
    let id = trim_space cfg.notify_target_id in
    if_cases Goal (is_empty t' || is_empty id) _ _ (λ _ t h. elim (none-ne-some t h) [ ])
      (λ full.
        let target : NotifyTarget = record { chat_type = t'; chat_id = id } in
        if_cases Goal (text_eq t' (codes "p2p") || text_eq t' (codes "group")) (some target) none
          (λ _ t h.
            subst (λ u. is_empty u.chat_id ≡ false) (some-injective target t h)
              (both_full (is_empty t') (is_empty id) full))
          (λ _ t h. elim (none-ne-some t h) [ ]))

-- No chat is notified twice, and every target is a chat: the configured one, or the single chats
-- that the app knows.
pub notify_targets-distinct :
    (tied : List ChannelRow → List ChannelRow) (read_ok : Bool) (cfg : HeartbeatConfig)
    (channels : List (Text × ChannelRow)) (app_id : Text)
    → let l = notify_targets tied read_ok cfg channels app_id in
      All (λ t. is_empty t.chat_id ≡ false) l × AllPairs ChatDiffers l
unfolding notify_targets
notify_targets-distinct tied read_ok cfg channels app_id = elim (Option-cases (notify_target cfg)) [
  | inr (t, e) ↦ rw (e, notify_targets) ((notify_target-full cfg t e, tt), (tt, tt))
  | inl e ↦
      let rest = sort_by more_recent (tied (p2p_channels app_id channels)) in
      let new = distinct_targets-new [] rest in
      rw (e, notify_targets)
        (if_keeps (λ l. All (λ t. is_empty t.chat_id ≡ false) l × AllPairs ChatDiffers l) read_ok
          (distinct_targets [] rest) []
          (
            All-weaken (IsNewTarget []) (λ t. is_empty t.chat_id ≡ false) (distinct_targets [] rest)
                (λ t h. h.0) new.0,
            new.1,
          )
          (tt, tt))
]
