-- ===== src/Schedule/Startup.antt =====
-- Bootstrap: the jobs after a start, and the start that fails.
use memknow.Common.{
  ℕ, suc, ◌≡◌, refl, sym, ◌∙◌, subst, Bool, true, false, List, [], ◌∷◌, ◌++◌, Option, none, some,
  Text, arith, text_eq_iff, lookup, trim_space,
}
use memknow.Schedule.Service.{
  Schedule, CreateInput, Service, err, find_row, new_schedule, schedule_one, schedule_rows,
  bootstrap, create,
}
use memknow.Schedule.Plans.{registered, wanted, IsConsistent}
use memknow.Schedule.Jobs.{registered-schedule_one, rows-schedule_one, scheduled_iff}

-- No id stands in two rows: it is the table's primary key.
abbrev pub Distinct : List Schedule → Type 0
Distinct [] = Unit {0}
Distinct (r ∷ l) = (find_row r.id l ≡ none) × Distinct l

-- What the rows ask for, or what was registered before.
abbrev wanted_or : List Schedule → Service → Text → Option (Text × Text × Text × Text × Text × Text)
wanted_or l s j = elim (wanted l j) [ some p ↦ some p | none ↦ registered s j ]

module _ (accepts : Text → Bool) where
  rows-schedule_rows :
      (s : Service) (l : List Schedule) → (schedule_rows accepts s l).0.rows ≡ s.rows
  unfolding schedule_rows
  rows-schedule_rows s [] = refl
  rows-schedule_rows s (r ∷ l) = ground (
    arith,
    rows-schedule_rows (schedule_one accepts s r).0 l,
    rows-schedule_rows s l,
    rows-schedule_one accepts s r,
  )

  registered-schedule_rows :
      (s : Service) (l : List Schedule) (j : Text)
      → Distinct l
      → (schedule_rows accepts s l).1 ≡ true
      → registered (schedule_rows accepts s l).0 j ≡ wanted_or l s j
  unfolding schedule_rows wanted find_row
  registered-schedule_rows s [] j d fine = refl
  registered-schedule_rows s (r ∷ l) j d fine = ground (
    arith,
    registered-schedule_rows (schedule_one accepts s r).0 l j,
    registered-schedule_rows s l j,
    registered-schedule_one accepts s r j,
    scheduled_iff accepts s r,
    text_eq_iff r.id j,
  )

  registered-empty : (s : Service) (j : Text) → s.jobs ≡ [] → registered s j ≡ none
  unfolding registered lookup
  registered-empty s j e = rw e

  -- A start that succeeds, from no jobs, registers a job for each enabled row and no other.
  pub bootstrap-IsConsistent :
      (s : Service)
      → s.jobs ≡ []
      → Distinct s.rows
      → (bootstrap accepts s).1 ≡ true
      → IsConsistent (bootstrap accepts s).0
  unfolding bootstrap
  bootstrap-IsConsistent s empty d fine j = ground (
    arith,
    registered-schedule_rows s s.rows j d,
    rows-schedule_rows s s.rows,
    registered-empty s j empty,
  )

  schedule_rows_refused :
      (s : Service) (l : List Schedule) (r : Schedule)
      → r.enabled ≡ true
      → accepts r.cron_expr ≡ false
      → (schedule_rows accepts s (l ++ r ∷ [])).1 ≡ false
  unfolding schedule_rows
  schedule_rows_refused s [] r on refused = ground (arith, scheduled_iff accepts s r)
  schedule_rows_refused s (q ∷ l) r on refused = ground (
    arith,
    schedule_rows_refused (schedule_one accepts s q).0 l r on refused,
    schedule_rows_refused s l r on refused,
  )

  -- When the scheduler refuses the expression of a new schedule, Create reports an error and yet
  -- leaves the row in the table, enabled: every later start over these rows fails.
  pub create_refused :
      (uuid : ℕ → Text) (write_ok : ℕ → Bool) (s : Service) (i : CreateInput) (now : ℕ)
      → write_ok s.writes ≡ true
      → accepts (trim_space i.cron_expr) ≡ false
      → let (s', r) = create accepts uuid write_ok s i now in
        (r ≡ err) × ((t : Service) → t.rows ≡ s'.rows → (bootstrap accepts t).1 ≡ false)
  unfolding create bootstrap
  create_refused uuid write_ok s i now stored refused =
      let row : Schedule = new_schedule (uuid s.drawn) i now in
      let cron : accepts row.cron_expr ≡ false = unfold new_schedule in refused in
      let on : row.enabled ≡ true = unfold new_schedule in refl in
      let s' : Service = record s {
        rows = s.rows ++ row ∷ [];
        drawn = suc s.drawn;
        writes = suc s.writes;
      } in
      rw stored (
        ground (arith, scheduled_iff accepts s' row),
        λ t e.
            subst (λ rows. (schedule_rows accepts t rows).1 ≡ false)
              (sym (e ∙ rows-schedule_one accepts s' row))
              (schedule_rows_refused t s.rows row on cron),
      )
