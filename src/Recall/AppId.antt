-- ===== src/Recall/AppId.antt =====
-- The app of a channel, read back from the channel's key.
use memknow.Common.{
  ℕ, suc, ◌+◌, ◌≤◌, ◌<◌, ◌≡◌, ◌≢◌, inl, inr, refl, ◌∙◌, sym, ap, false, List, [], ◌∷◌, ◌++◌, Text,
  codes, arith, if◌then◌else◌, ltb, ◌==◌, ==_iff, length, All, All-perm, append_assoc, append-nil,
  subst, All-weaken, is_space, trim_left, trim_right, trim_space, has_prefix, trim_prefix, split,
  split_from, Bool-cases, if_keeps, if_cases,
}
use mathlib.Core.List.Permᴰ
use mathlib.Core.List.{reverse, reverse-cons, reverse-append, reverse-reverse}
use memknow.Feishu.Message.{build_channel_key}
use memknow.Schedule.Service.{Schedule}
use memknow.Schedule.Runs.{schedule_channel_key}
use memknow.Heartbeat.Service.{heartbeat_channel_key}
use memknow.Recall.Summary.{last_of, app_id_of, app_id_from_channel_key}

-- A rune of an app's id: no colon and no white space.
abbrev pub IsIdRune : ℕ → Type 0
IsIdRune c = (c ≢ b':') × (is_space c ≡ false)

unfoldable pub colons : Text → ℕ
colons [] = 0
colons (c ∷ s) = if c == b':' then suc (colons s) else colons s

trim_left-blank :
    (k : Text) (c : ℕ) (r : Text)
    → All (λ d. is_space d ≡ false) k
    → is_space c ≡ false
    → trim_left is_space (k ++ c ∷ r) ≡ k ++ c ∷ r
unfolding trim_left
trim_left-blank [] c r h e = rw e refl
trim_left-blank (d ∷ k) c r h e = rw h.0 refl

reverse_key :
    (h : ℕ) (t app : Text) → reverse (h ∷ (t ++ b':' ∷ app)) ≡ reverse app ++ b':' ∷ reverse (h ∷ t)
reverse_key h t app =
    reverse-append (h ∷ t) (b':' ∷ app)
    ∙ ap (λ l. l ++ reverse (h ∷ t)) (reverse-cons b':' app)
    ∙ append_assoc (reverse app) (b':' ∷ []) (reverse (h ∷ t))

not_space_h : is_space b'h' ≡ false
unfolding is_space
not_space_h = refl

colon_not_space : is_space b':' ≡ false
unfolding is_space
colon_not_space = refl

-- A text between two runes that are no white space is not trimmed.
trim_space-id :
    (h : ℕ) (t app : Text)
    → is_space h ≡ false
    → All (λ d. is_space d ≡ false) app
    → trim_space (h ∷ (t ++ b':' ∷ app)) ≡ h ∷ (t ++ b':' ∷ app)
unfolding trim_space trim_right
trim_space-id h t app e all =
    let key = h ∷ (t ++ b':' ∷ app) in
    let back = All-perm (λ d. is_space d ≡ false) (Permᴰ.symm (Permᴰ.reverse app)) all in
    let kept : trim_left is_space (reverse key) ≡ reverse key =
      rw (reverse_key h t app)
        (trim_left-blank (reverse app) b':' (reverse (h ∷ t)) back colon_not_space) in
    ap (λ l. reverse (trim_left is_space (reverse l))) (trim_left-blank [] h (t ++ b':' ∷ app) tt e)
    ∙ ap reverse kept
    ∙ reverse-reverse key

split_on :
    (part : Text) (c : ℕ) (s : Text)
    → (c == b':') ≡ false
    → split_from (codes ":") 0 part (c ∷ s) ≡ split_from (codes ":") 0 (part ++ c ∷ []) s
unfolding split_from has_prefix
split_on part c s e = rw (e, split_from, has_prefix) refl

split_at :
    (part s : Text)
    → split_from (codes ":") 0 part (b':' ∷ s) ≡ part ∷ split_from (codes ":") 0 [] s
unfolding split_from has_prefix
split_at part s = refl

length-split_from : (part s : Text) → length (split_from (codes ":") 0 part s) ≡ suc (colons s)
unfolding split_from colons
length-split_from part [] = refl
length-split_from part (c ∷ s) = elim (Bool-cases (c == b':')) [
  | inl e ↦
      subst (λ d. length (split_from (codes ":") 0 part (d ∷ s)) ≡ suc (colons (d ∷ s)))
        (sym ((==_iff c b':').0 e)) (ap length (split_at part s) ∙ ap suc (length-split_from [] s))
  | inr e ↦ ap length (split_on part c s e) ∙ length-split_from (part ++ c ∷ []) s ∙ (rw e refl)
]

split_from-clean :
    (part app : Text) → All IsIdRune app → split_from (codes ":") 0 part app ≡ (part ++ app) ∷ []
unfolding split_from
split_from-clean part [] h = ap (λ l. l ∷ []) (sym (append-nil part))
split_from-clean part (c ∷ app) h =
    split_on part c app (ground (arith, h.0.0))
    ∙ split_from-clean (part ++ c ∷ []) app h.1
    ∙ ap (λ l. l ∷ []) (append_assoc part (c ∷ []) app)

last_of-cons : (p : Text) (l : List Text) → 0 < length l → last_of (p ∷ l) ≡ last_of l
unfolding last_of
last_of-cons p [] h = elim h [ ]
last_of-cons p (q ∷ l) h = refl

split_from-last :
    (part x app : Text)
    → All IsIdRune app
    → last_of (split_from (codes ":") 0 part (x ++ b':' ∷ app)) ≡ app
unfolding last_of
split_from-last part [] app h =
    ap last_of (split_at part app) ∙ ap (λ l. last_of (part ∷ l)) (split_from-clean [] app h)
split_from-last part (c ∷ x) app h = elim (Bool-cases (c == b':')) [
  | inl e ↦
      subst (λ d. last_of (split_from (codes ":") 0 part (d ∷ (x ++ b':' ∷ app))) ≡ app)
        (sym ((==_iff c b':').0 e))
        (ap last_of (split_at part (x ++ b':' ∷ app))
          ∙ last_of-cons part (split_from (codes ":") 0 [] (x ++ b':' ∷ app))
              (omega (arith, length-split_from [] (x ++ b':' ∷ app)))
          ∙ split_from-last [] x app h)
  | inr e ↦
      ap last_of (split_on part c (x ++ b':' ∷ app) e) ∙ split_from-last (part ++ c ∷ []) x app h
]

colons-append : (s t : Text) → colons (s ++ t) ≡ colons s + colons t
unfolding colons
colons-append [] t = omega arith
colons-append (c ∷ s) t = ground (arith, colons-append s t)

-- A key that is no heartbeat's, with a colon before the one in front of the app's id.
app_id_of-last :
    (h : ℕ) (t app : Text)
    → has_prefix (h ∷ (t ++ b':' ∷ app)) (codes "heartbeat:") ≡ false
    → 0 < colons t
    → All IsIdRune app
    → app_id_of (h ∷ (t ++ b':' ∷ app)) ≡ app
unfolding app_id_of split colons
app_id_of-last h t app not_heart colon ids =
    let parts = split_from (codes ":") 0 [] (h ∷ (t ++ b':' ∷ app)) in
    let enough : 3 ≤ length parts =
      ground (arith, length-split_from [] (h ∷ (t ++ b':' ∷ app)), colons-append t (b':' ∷ app)) in
    rw not_heart (
      if_cases (λ r. r ≡ app) (ltb (length parts) 3) [] (last_of parts) (λ few. ground arith)
        (λ _. split_from-last [] (h ∷ t) app ids))

app_id-last :
    (h : ℕ) (t app : Text)
    → is_space h ≡ false
    → has_prefix (h ∷ (t ++ b':' ∷ app)) (codes "heartbeat:") ≡ false
    → 0 < colons t
    → All IsIdRune app
    → app_id_from_channel_key (h ∷ (t ++ b':' ∷ app)) ≡ app
unfolding app_id_from_channel_key
app_id-last h t app e not_heart colon ids =
    let blank = All-weaken IsIdRune (λ d. is_space d ≡ false) app (λ d i. i.1) ids in
    ap app_id_of (trim_space-id h t app e blank) ∙ app_id_of-last h t app not_heart colon ids

app_id-heartbeat :
    (app : Text) → All IsIdRune app → app_id_from_channel_key (heartbeat_channel_key app) ≡ app
unfolding app_id_from_channel_key app_id_of has_prefix trim_prefix
app_id-heartbeat app ids =
    let blank = All-weaken IsIdRune (λ d. is_space d ≡ false) app (λ d i. i.1) ids in
    ap app_id_of (trim_space-id b'h' (codes "eartbeat") app not_space_h blank)

app_id-built :
    (chat_type chat_id thread_id app : Text)
    → All IsIdRune app
    → app_id_from_channel_key (build_channel_key chat_type chat_id thread_id app) ≡ app
unfolding build_channel_key has_prefix is_space colons
app_id-built chat_type chat_id thread_id app ids =
    let Goal : Text → Type 0 = λ key. app_id_from_channel_key key ≡ app in
    if_keeps Goal _ _ _ (app_id-last b'p' (codes "2p:" ++ chat_id) app refl refl (omega arith) ids)
      (if_keeps Goal _ _ _
        (subst (λ r. Goal (codes "thread:" ++ r))
          (append_assoc chat_id (b':' ∷ thread_id) (b':' ∷ app))
          (app_id-last b't' (codes "hread:" ++ (chat_id ++ b':' ∷ thread_id)) app refl refl
            (omega arith) ids))
        (app_id-last b'g' (codes "roup:" ++ chat_id) app refl refl (omega arith) ids))

app_id-scheduled :
    (r : Schedule) (app : Text)
    → All IsIdRune app
    → app_id_from_channel_key (schedule_channel_key r app) ≡ app
unfolding schedule_channel_key has_prefix is_space colons
app_id-scheduled r app ids =
    subst (λ t. app_id_from_channel_key (codes "schedule:" ++ t) ≡ app)
      (append_assoc r.target_type (b':' ∷ r.target_id) (b':' ∷ app))
      (app_id-last b's' (codes "chedule:" ++ (r.target_type ++ b':' ∷ r.target_id)) app refl refl
        (omega arith) ids)

-- The app's id is read back from every key that the program builds for a channel of the app: of a
-- single chat, a group or a thread, of a schedule and of the heartbeat. The id has no colon and no
-- white space.
pub app_id-round_trip :
    (app : Text) (chat_type chat_id thread_id : Text) (r : Schedule)
    → All IsIdRune app
    → (app_id_from_channel_key (build_channel_key chat_type chat_id thread_id app) ≡ app)
      × (app_id_from_channel_key (schedule_channel_key r app) ≡ app)
      × (app_id_from_channel_key (heartbeat_channel_key app) ≡ app)
app_id-round_trip app chat_type chat_id thread_id r ids = (
  app_id-built chat_type chat_id thread_id app ids,
  app_id-scheduled r app ids,
  app_id-heartbeat app ids,
)
