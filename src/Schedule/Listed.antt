-- ===== src/Schedule/Listed.antt =====
-- The rows that a message's sender is shown, and the one that a keyword picks: the sender's own.
use mathlib.Core.Option.{some-injective}
use memknow.Common.{
  ℕ, ◌≡◌, ◌⊎◌, refl, subst, Bool, ◌&&◌, List, [], ◌∷◌, none, some, Text, arith, is_empty, text_eq,
  text_eq_iff, text_eq_self, trim_space, contains, to_lower, ltb, All, Bool-cases, Option-cases,
  inl, inr, if_cases, if_keeps,
}
use memknow.Schedule.Intent.{Action}
use memknow.Schedule.Matching.{
  insert_newest, list_by_creator, match_schedule_by_keyword, find_by_name, find_in_keyword,
  resolve_schedule_for_management, only_item,
}
use memknow.Schedule.Manage.{Parsed, intent, no_intent, parse_error}
use memknow.Schedule.Service.{Schedule, find_row}
use memknow.Schedule.Startup.{Distinct}

-- A row that the creator has in the app.
abbrev pub IsOwn : Text → Text → Schedule → Type 0
IsOwn app_id created_by r = (r.app_id ≡ app_id) × (r.created_by ≡ created_by)

pub Parsed-cases {ℓ} :
    {A : Type ℓ} (p : Parsed A) → ((a : A) × (p ≡ intent a)) ⊎ ((p ≡ no_intent) ⊎ (p ≡ parse_error))
Parsed-cases (intent a) = inl (a, refl)
Parsed-cases no_intent = inr (inl refl)
Parsed-cases parse_error = inr (inr refl)

pub Action-cases : (a : Action) → (a ≡ Action.list) ⊎ ((a ≡ Action.delete) ⊎ (a ≡ Action.update))
Action-cases Action.list = inl refl
Action-cases Action.delete = inr (inl refl)
Action-cases Action.update = inr (inr refl)

All-insert_newest :
    (P : Schedule → Type 0) (r : Schedule) (l : List Schedule)
    → P r
    → All P l
    → All P (insert_newest r l)
unfolding insert_newest
All-insert_newest P r [] p h = (p, tt)
All-insert_newest P r (q ∷ l) p h =
    if_keeps (All P) (ltb r.created_at q.created_at) _ _ (h.0, All-insert_newest P r l p h.1) (p, h)

-- A listed row is the row that its id stands for, and the creator's own.
abbrev pub Listed : List Schedule → Text → Text → Schedule → Type 0
Listed rows app_id created_by r = (find_row r.id rows ≡ some r) × IsOwn app_id created_by r

pub All-map {ℓ κ ι} :
    {A : Type ℓ} (P : A → Type κ) (Q : A → Type ι) (l : List A)
    → ((a : A) → P a → Q a)
    → All P l
    → All Q l
All-map P Q [] f h = tt
All-map P Q (a ∷ l) f h = (f a h.0, All-map P Q l f h.1)

find_row-cons :
    (q : Schedule) (l : List Schedule) (r : Schedule)
    → find_row q.id l ≡ none
    → find_row r.id l ≡ some r
    → find_row r.id (q ∷ l) ≡ some r
unfolding find_row
find_row-cons q l r new e = ground (arith, text_eq_iff q.id r.id)

find_row-head : (q : Schedule) (l : List Schedule) → find_row q.id (q ∷ l) ≡ some q
unfolding find_row
find_row-head q l = rw text_eq_self

pub list_by_creator-Listed :
    (app_id created_by : Text) (rows : List Schedule)
    → Distinct rows
    → All (Listed rows app_id created_by) (list_by_creator app_id created_by rows)
unfolding list_by_creator
list_by_creator-Listed app_id created_by [] d = tt
list_by_creator-Listed app_id created_by (q ∷ l) d =
    let rest =
      All-map (Listed l app_id created_by) (Listed (q ∷ l) app_id created_by)
        (list_by_creator app_id created_by l) (λ r h. (find_row-cons q l r d.0 h.0, h.1))
        (list_by_creator-Listed app_id created_by l d.1) in
    if_cases (All (Listed (q ∷ l) app_id created_by))
      (text_eq q.app_id app_id && text_eq q.created_by created_by && q.enabled) _ _
      (λ own.
        All-insert_newest (Listed (q ∷ l) app_id created_by) q _
          (
            find_row-head q l,
            ground (arith, text_eq_iff q.app_id app_id, text_eq_iff q.created_by created_by),
          )
          rest)
      (λ _. rest)

module _ (table : ℕ → ℕ) (P : Schedule → Type 0) where
  find_by_name-All :
      (k : Text) (l : List Schedule) (r : Schedule)
      → All P l
      → find_by_name table k l ≡ some r
      → P r
  unfolding find_by_name
  find_by_name-All k [] r h e = cc
  find_by_name-All k (q ∷ l) r h e = elim (Bool-cases (contains (to_lower table q.name) k)) [
    | inl held ↦ subst P (some-injective q r (ground arith)) h.0
    | inr not_held ↦ find_by_name-All k l r h.1 (ground arith)
  ]

  find_in_keyword-All :
      (k : Text) (l : List Schedule) (r : Schedule)
      → All P l
      → find_in_keyword table k l ≡ some r
      → P r
  unfolding find_in_keyword
  find_in_keyword-All k [] r h e = cc
  find_in_keyword-All k (q ∷ l) r h e = elim (Bool-cases (contains k (to_lower table q.name))) [
    | inl held ↦ subst P (some-injective q r (ground arith)) h.0
    | inr not_held ↦ find_in_keyword-All k l r h.1 (ground arith)
  ]

  match_schedule_by_keyword-All :
      (l : List Schedule) (k : Text) (r : Schedule)
      → All P l
      → match_schedule_by_keyword table l k ≡ some r
      → P r
  unfolding match_schedule_by_keyword
  match_schedule_by_keyword-All l k r h e =
      let lower = to_lower table k in
      elim (Option-cases (find_by_name table lower l)) [
        | inl none_named ↦ find_in_keyword-All lower l r h (ground arith)
        | inr (q, named) ↦
            subst P (some-injective q r (ground arith)) (find_by_name-All lower l q h named)
      ]

  only_item-All : (l : List Schedule) (r : Schedule) → All P l → only_item l ≡ some r → P r
  only_item-All [] r h e = cc
  only_item-All (q ∷ []) r h e = subst P (some-injective q r e) h.0
  only_item-All (q ∷ p ∷ l) r h e = cc

  pub resolve-All :
      (l : List Schedule) (k : Text) (deleting : Bool) (r : Schedule)
      → All P l
      → (resolve_schedule_for_management table l k deleting).0 ≡ some r
      → P r
  unfolding resolve_schedule_for_management
  resolve-All l k deleting r h e = elim (Bool-cases (is_empty (trim_space k))) [
    | inr named ↦ match_schedule_by_keyword-All l (trim_space k) r h (ground arith)
    | inl blank ↦ elim (Option-cases (only_item l)) [
      | inl many ↦ absurd (ground arith)
      | inr (q, one) ↦ only_item-All l r h (ground arith)
    ]
  ]
