-- ===== src/Schedule/Ownership.antt =====
-- Whose schedules a message can change: the sender's own, in the message's app.
use mathlib.Core.Option.{some-injective}
use memknow.Common.{
  ℕ, suc, ◌≡◌, ◌≢◌, refl, sym, ap, ◌∙◌, subst, Bool, true, false, not, List, Option, some, Text,
  arith, is_empty, text_eq_iff, All, Option-cases, inl, inr, if_cases, if_keeps,
}
use memknow.Feishu.Message.{IncomingMessage}
use memknow.Schedule.Intent.{ManageIntent, looks_like_schedule_manage_intent}
use memknow.Schedule.Plans.{find_row-update_other, rows-drop_job, find_row-delete_rows}
use memknow.Schedule.Jobs.{rows-schedule_one}
use memknow.Schedule.Matching.{list_by_creator, resolve_schedule_for_management, no_items}
use memknow.Schedule.Manage.{
  IntentResponse, ManageResponse, Answer, delete_matched, update_matched, manage_matched,
  manage_items, manage_from_message, parse_intent_with_llm, manage_intent,
}
use memknow.Schedule.Service.{Schedule, Service, find_row, delete, update, update_rows, drop_job}
use memknow.Schedule.Startup.{Distinct}
use memknow.Schedule.Listed.{
  IsOwn, Parsed-cases, Action-cases, Listed, All-map, list_by_creator-Listed, resolve-All,
}

module _ (accepts : Text → Bool) (uuid : ℕ → Text) (write_ok : ℕ → Bool) where
  delete-other :
      (s : Service) (id j : Text)
      → id ≢ j
      → find_row j (delete accepts uuid write_ok s id).0.rows ≡ find_row j s.rows
  unfolding delete
  delete-other s id j ne =
      ground (
        arith,
        rows-drop_job s id,
        find_row-delete_rows (drop_job s id).rows id j,
        text_eq_iff id j,
      )

  update-other :
      (s : Service) (id j : Text) (change : Schedule → Schedule)
      → ((r : Schedule) → (change r).id ≡ r.id)
      → id ≢ j
      → find_row j (update accepts uuid write_ok s id change).0.rows ≡ find_row j s.rows
  unfolding update
  update-other s id j change keeps ne =
      let t : Service = record s { writes = suc s.writes; rows = update_rows id change s.rows } in
      let same = find_row-update_other s.rows id j change keeps ne in
      if_cases (λ (x : Service × Bool). find_row j x.0.rows ≡ find_row j s.rows) (write_ok s.writes)
        _ _
        (λ _. elim (Option-cases (find_row id t.rows)) [
          | inl gone ↦ rw gone same
          | inr (r, found) ↦ rw found (
              if_keeps (λ (x : Service × Bool). find_row j x.0.rows ≡ find_row j s.rows) r.enabled _
                _ (ap (find_row j) (rows-schedule_one accepts t r) ∙ same)
                (ap (find_row j) (rows-drop_job t id).0 ∙ same))
        ])
        (λ _. refl)

-- A listed row that the sender owns does not have the id of a row that the sender does not own.
foreign_id :
    (rows : List Schedule) (app_id sender j : Text) (r m : Schedule)
    → find_row j rows ≡ some r
    → ¬ IsOwn app_id sender r
    → Listed rows app_id sender m
    → m.id ≢ j
foreign_id rows app_id sender j r m e foreign listed same = foreign (
    subst (IsOwn app_id sender)
      (some-injective m r (sym listed.0 ∙ ap (λ i. find_row i rows) same ∙ e)) listed.1)

module _ (table : ℕ → ℕ) (execute : Text → Option Text)
    (decode_intent : Text → Option IntentResponse) (decode_manage : Text → Option ManageResponse)
    (accepts : Text → Bool) (uuid : ℕ → Text) (write_ok : ℕ → Bool) (j : Text)
    (rows : List Schedule) where
  -- The id stands for the row it stood for.
  abbrev Kept : Service × Answer → Type 0
  Kept x = find_row j x.0.rows ≡ find_row j rows

  delete_matched-Kept :
      (s : Service) (m : Schedule)
      → m.id ≢ j
      → s.rows ≡ rows
      → Kept (delete_matched table execute decode_intent decode_manage accepts uuid write_ok s m)
  unfolding delete_matched
  delete_matched-Kept s m ne e = delete-other accepts uuid write_ok s m.id j ne ∙ ap (find_row j) e

  update_matched-Kept :
      (s : Service) (m : Schedule) (new_prompt : Text) (now : ℕ)
      → m.id ≢ j
      → s.rows ≡ rows
      → Kept (
          update_matched table execute decode_intent decode_manage accepts uuid write_ok s m
            new_prompt now)
  unfolding update_matched
  update_matched-Kept s m new_prompt now ne e =
      elim (Parsed-cases
        (parse_intent_with_llm table execute decode_intent decode_manage new_prompt)) [
          | inl (i, parsed) ↦
              rw (parsed, update_matched)
                (update-other accepts uuid write_ok s m.id j
                    (λ row. record row {
                      cron_expr = i.cron_expr;
                      command = i.command;
                      updated_at = now;
                    })
                    (λ r. refl) ne
                  ∙ ap (find_row j) e)
          | inr (inl none_meant) ↦ rw (none_meant, update_matched) (ap (find_row j) e)
          | inr (inr refused) ↦ rw (refused, update_matched) (ap (find_row j) e)
        ]

  manage_matched-Kept :
      (s : Service) (items : List Schedule) (mi : ManageIntent) (deleting : Bool) (now : ℕ)
      → All (λ m. m.id ≢ j) items
      → s.rows ≡ rows
      → Kept (
          manage_matched table execute decode_intent decode_manage accepts uuid write_ok s items mi
            deleting now)
  unfolding manage_matched
  manage_matched-Kept s items mi deleting now others e =
      let resolved : Option Schedule × Text =
        resolve_schedule_for_management table items mi.keyword deleting in
      if_keeps Kept (not (is_empty resolved.1)) _ _ (ap (find_row j) e)
        (elim (Option-cases resolved.0) [
          | inl nothing ↦ rw nothing (ap (find_row j) e)
          | inr (m, found) ↦
              let ne : m.id ≢ j =
                resolve-All table (λ q. q.id ≢ j) items mi.keyword deleting m others found in
              rw found (
                if_keeps Kept deleting _ _ (delete_matched-Kept s m ne e)
                  (update_matched-Kept s m mi.new_prompt now ne e))
        ])

  manage_items-Kept :
      (s : Service) (items : List Schedule) (mi : ManageIntent) (now : ℕ)
      → All (λ m. m.id ≢ j) items
      → s.rows ≡ rows
      → Kept (
          manage_items table execute decode_intent decode_manage accepts uuid write_ok s items mi
            now)
  unfolding manage_items
  manage_items-Kept s items mi now others e =
      if_keeps Kept (no_items items) _ _ (ap (find_row j) e) (elim (Action-cases mi.action) [
        | inl listed ↦ rw listed (ap (find_row j) e)
        | inr (inl deleting) ↦ rw deleting (manage_matched-Kept s items mi true now others e)
        | inr (inr updating) ↦ rw updating (manage_matched-Kept s items mi false now others e)
      ])

-- A message changes no schedule but the sender's own in the message's app: where the ids of the
-- table are distinct, the row of an id that belongs to another app or another creator is
-- afterwards what it was, whatever the language model answers and whatever the keyword matches.
pub manage_from_message-foreign :
    (table : ℕ → ℕ) (execute : Text → Option Text) (decode_intent : Text → Option IntentResponse)
    (decode_manage : Text → Option ManageResponse) (accepts : Text → Bool) (uuid : ℕ → Text)
    (write_ok : ℕ → Bool) (s : Service) (app_id : Text) (msg : IncomingMessage) (now : ℕ)
    (read_ok : Bool) (j : Text) (r : Schedule)
    → Distinct s.rows
    → find_row j s.rows ≡ some r
    → ¬ IsOwn app_id msg.sender_id r
    → find_row j
        (manage_from_message table execute decode_intent decode_manage accepts uuid write_ok s
          app_id msg now read_ok).0.rows
      ≡ some r
unfolding manage_from_message
manage_from_message-foreign table execute decode_intent decode_manage accepts uuid write_ok s app_id
      msg now read_ok j r distinct found foreign =
    let items : List Schedule = list_by_creator app_id msg.sender_id s.rows in
    let others : All (λ m. m.id ≢ j) items =
      All-map (Listed s.rows app_id msg.sender_id) (λ m. m.id ≢ j) items
        (λ m listed. foreign_id s.rows app_id msg.sender_id j r m found foreign listed)
        (list_by_creator-Listed app_id msg.sender_id s.rows distinct) in
    let kept : (x : Service × Answer) → Type 0 = λ x. find_row j x.0.rows ≡ some r in
    if_keeps kept (looks_like_schedule_manage_intent table msg.prompt) _ _
      (elim (Option-cases (manage_intent table execute decode_intent decode_manage msg.prompt)) [
        | inl nothing ↦ rw nothing found
        | inr (mi, meant) ↦ rw meant (
            if_keeps kept read_ok _ _
              (manage_items-Kept table execute decode_intent decode_manage accepts uuid write_ok j
                  s.rows s items mi now others refl
                ∙ found)
              found)
      ])
      found
