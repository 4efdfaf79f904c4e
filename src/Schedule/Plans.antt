-- ===== src/Schedule/Plans.antt =====
-- The jobs that the rows of the table ask for, and the rows under the table's operations.
use memknow.Common.{
  ◌≡◌, ◌≢◌, refl, true, false, List, [], ◌∷◌, ◌++◌, Option, none, some, Text, arith, if◌then◌else◌,
  text_eq, text_eq_iff, text_eq_self, lookup, lookup-remove,
}
use memknow.Schedule.Service.{Schedule, Service, drop_job, find_row, delete_rows, update_rows}

-- What a job does and when: the expression, the command, the target, the app and the creator.
abbrev pub Plan : Type 0
Plan = Text × Text × Text × Text × Text × Text

abbrev pub plan : Schedule → Plan
plan r = (r.cron_expr, r.command, r.target_type, r.target_id, r.app_id, r.created_by)

-- The plan of the job that is registered under an id.
unfoldable pub registered : Service → Text → Option Plan
registered s id = elim (lookup id s.jobs) [ none ↦ none | some j ↦ some (plan j.task) ]

-- The plan that the table asks for under an id.
unfoldable pub wanted : List Schedule → Text → Option Plan
wanted rows id = elim (find_row id rows) [
  | none ↦ none
  | some r ↦ if r.enabled then some (plan r) else none
]

-- Under every id there is a job exactly if there is an enabled row, with the row's plan.
abbrev pub IsConsistent : Service → Type 0
IsConsistent s = (id : Text) → registered s id ≡ wanted s.rows id

pub registered-drop_job :
    (s : Service) (id j : Text)
    → registered (drop_job s id) j ≡ (if text_eq id j then none else registered s j)
unfolding registered drop_job
registered-drop_job s id j = ground (arith, lookup-remove id j s.jobs, text_eq_iff id j)

pub rows-drop_job :
    (s : Service) (id : Text)
    → ((drop_job s id).rows ≡ s.rows) × ((drop_job s id).writes ≡ s.writes)
unfolding drop_job
rows-drop_job s id = ground arith

find_row-append :
    (rows : List Schedule) (r : Schedule) (j : Text)
    → find_row r.id rows ≡ none
    → find_row j (rows ++ r ∷ []) ≡ (if text_eq r.id j then some r else find_row j rows)
unfolding find_row
find_row-append [] r j e = refl
find_row-append (q ∷ rows) r j e =
    ground (
      arith,
      find_row-append rows r j,
      text_eq_iff q.id r.id,
      text_eq_iff q.id j,
      text_eq_iff r.id j,
    )

pub find_row-delete_rows :
    (rows : List Schedule) (id j : Text)
    → find_row j (delete_rows id rows) ≡ (if text_eq id j then none else find_row j rows)
unfolding find_row delete_rows
find_row-delete_rows [] id j = ground arith
find_row-delete_rows (q ∷ rows) id j = ground (
  arith,
  find_row-delete_rows rows id j,
  text_eq_iff q.id id,
  text_eq_iff q.id j,
  text_eq_iff id j,
)

pub find_row-id :
    (rows : List Schedule) (id : Text) (r : Schedule) → find_row id rows ≡ some r → r.id ≡ id
unfolding find_row
find_row-id [] id r e = cc
find_row-id (q ∷ rows) id r e = ground (arith, find_row-id rows id r, text_eq_iff q.id id)

pub find_row-update_other :
    (rows : List Schedule) (id j : Text) (f : Schedule → Schedule)
    → ((r : Schedule) → (f r).id ≡ r.id)
    → id ≢ j
    → find_row j (update_rows id f rows) ≡ find_row j rows
unfolding find_row update_rows
find_row-update_other [] id j f keeps ne = refl
find_row-update_other (q ∷ rows) id j f keeps ne = ground (
  arith,
  find_row-update_other rows id j f keeps,
  keeps q,
  text_eq_iff q.id id,
  text_eq_iff q.id j,
)

pub wanted_on :
    (rows : List Schedule) (id : Text) (r : Schedule)
    → find_row id rows ≡ some r
    → r.enabled ≡ true
    → wanted rows id ≡ some (plan r)
unfolding wanted
wanted_on rows id r e on = ground arith

pub wanted_off :
    (rows : List Schedule) (id : Text) (r : Schedule)
    → find_row id rows ≡ some r
    → r.enabled ≡ false
    → wanted rows id ≡ none
unfolding wanted
wanted_off rows id r e off = ground arith

pub wanted-append_other :
    (rows : List Schedule) (r : Schedule) (j : Text)
    → find_row r.id rows ≡ none
    → r.id ≢ j
    → wanted (rows ++ r ∷ []) j ≡ wanted rows j
unfolding wanted
wanted-append_other rows r j new ne =
    ground (arith, find_row-append rows r j new, text_eq_iff r.id j)

pub wanted-append_own :
    (rows : List Schedule) (r : Schedule)
    → find_row r.id rows ≡ none
    → r.enabled ≡ true
    → wanted (rows ++ r ∷ []) r.id ≡ some (plan r)
unfolding wanted
wanted-append_own rows r new on = ground (arith, find_row-append rows r r.id new, text_eq_self r.id)

pub wanted-delete_rows :
    (rows : List Schedule) (id j : Text)
    → wanted (delete_rows id rows) j ≡ (if text_eq id j then none else wanted rows j)
unfolding wanted
wanted-delete_rows rows id j = ground (arith, find_row-delete_rows rows id j)

pub wanted-update_other :
    (rows : List Schedule) (id j : Text) (f : Schedule → Schedule)
    → ((r : Schedule) → (f r).id ≡ r.id)
    → id ≢ j
    → wanted (update_rows id f rows) j ≡ wanted rows j
unfolding wanted
wanted-update_other rows id j f keeps ne = rw (find_row-update_other rows id j f keeps ne, wanted)
