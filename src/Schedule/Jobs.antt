-- ===== src/Schedule/Jobs.antt =====
-- The jobs of the scheduler are those of the enabled rows: what keeps that so, operation by
-- operation.
use memknow.Common.{
  ℕ, suc, ◌≡◌, ◌≢◌, inl, inr, refl, sym, ◌∙◌, Bool, true, [], ◌∷◌, ◌++◌, none, some, Text, arith,
  if◌then◌else◌, text_eq, text_eq_iff, insert, lookup-insert, Bool-cases, if_cases,
}
use memknow.Schedule.Service.{
  Schedule, CreateInput, Job, Service, err, drop_job, find_row, new_schedule, schedule_one, create,
}
use memknow.Schedule.Plans.{
  plan, registered, wanted, IsConsistent, registered-drop_job, rows-drop_job, wanted-append_other,
  wanted-append_own,
}

registered-insert :
    (s t : Service) (id j : Text) (job : Job)
    → t.jobs ≡ insert id job s.jobs
    → registered t j ≡ (if text_eq id j then some (plan job.task) else registered s j)
unfolding registered
registered-insert s t id j job e =
    rw e (ground (arith, lookup-insert id j job s.jobs, text_eq_iff id j))

registered_same : (s t : Service) (j : Text) → t.jobs ≡ s.jobs → registered t j ≡ registered s j
unfolding registered
registered_same s t j e = rw e

module _ (accepts : Text → Bool) where
  pub registered-schedule_one :
      (s : Service) (r : Schedule) (j : Text)
      → registered (schedule_one accepts s r).0 j ≡ (
          if text_eq r.id j
          then (if accepts r.cron_expr then some (plan r) else none)
          else registered s j)
  unfolding schedule_one
  registered-schedule_one s r j = elim (Bool-cases (accepts r.cron_expr)) [
    | inl e ↦ rw e (
        registered-insert (drop_job s r.id) _ r.id j
          (record { job_id = (drop_job s r.id).next_job; task = r }) refl
        ∙ ground (arith, registered-drop_job s r.id j))
    | inr e ↦ rw e (registered-drop_job s r.id j)
  ]

  pub rows-schedule_one : (s : Service) (r : Schedule) → (schedule_one accepts s r).0.rows ≡ s.rows
  unfolding schedule_one
  rows-schedule_one s r = ground (arith, rows-drop_job s r.id)

  pub scheduled_iff :
      (s : Service) (r : Schedule) → (schedule_one accepts s r).1 ≡ accepts r.cron_expr
  unfolding schedule_one
  scheduled_iff s r = ground arith

  -- A schedule that the scheduler takes is registered under its id, if the table has it so.
  schedule_one-IsConsistent :
      (s : Service) (r : Schedule)
      → ((j : Text) → r.id ≢ j → registered s j ≡ wanted s.rows j)
      → wanted s.rows r.id ≡ some (plan r)
      → accepts r.cron_expr ≡ true
      → IsConsistent (schedule_one accepts s r).0
  schedule_one-IsConsistent s r others own taken j =
      registered-schedule_one s r j
      ∙ rw taken (
          if_cases (λ x. x ≡ wanted (schedule_one accepts s r).0.rows j) (text_eq r.id j) _ _
            (λ same. rw (rows-schedule_one s r, ← (text_eq_iff r.id j).0 same) (sym own))
            (λ other.
              rw (rows-schedule_one s r) (others j (λ e. cc (other, (text_eq_iff r.id j).1 e)))))

  module _ (uuid : ℕ → Text) (write_ok : ℕ → Bool) where
    -- A schedule that is created without an error, under an id that is new to the table, keeps the
    -- jobs those of the enabled rows.
    pub create-IsConsistent :
        (s : Service) (i : CreateInput) (now : ℕ)
        → find_row (uuid s.drawn) s.rows ≡ none
        → (create accepts uuid write_ok s i now).1 ≢ err
        → IsConsistent s
        → IsConsistent (create accepts uuid write_ok s i now).0
    unfolding create
    create-IsConsistent s i now new fine v =
        let r : Schedule = new_schedule (uuid s.drawn) i now in
        let new' : find_row r.id s.rows ≡ none = unfold new_schedule in new in
        let t : Service = record s {
          rows = s.rows ++ r ∷ [];
          drawn = suc s.drawn;
          writes = suc s.writes;
        } in
        elim (Bool-cases (write_ok s.writes)) [
          | inr e ↦ absurd (fine (rw e))
          | inl e ↦ elim (Bool-cases (accepts r.cron_expr)) [
            | inr refused ↦ absurd (fine (rw e (ground (arith, scheduled_iff t r))))
            | inl taken ↦ rw e (
                schedule_one-IsConsistent t r
                  (λ j ne.
                    registered_same s t j refl ∙ v j ∙ sym (wanted-append_other s.rows r j new' ne))
                  (wanted-append_own s.rows r new' (unfold new_schedule in refl)) taken)
          ]
        ]
