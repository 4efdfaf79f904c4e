-- ===== src/Store/Tokens.antt =====
-- The token counts of a session.
use memknow.Common.{
  ℕ, suc, ◌+◌, ◌*◌, ◌≡◌, refl, ◌∙◌, Bool, true, false, List, [], ◌∷◌, Text, arith, if◌then◌else◌,
  text_eq, Bool-cases, inl, inr, ap, if_cases,
}
use memknow.Store.Tables.{Session, Store, update_session}
use memknow.Store.Persist.{ExecuteResult, has_updates, apply_result, persist_result}
use memknow.Store.Records.{persist_result-sessions}

-- The number of rows with an id, and the sum of a count over them.
unfoldable pub count_id : Text → List Session → ℕ
count_id id [] = 0
count_id id (s ∷ l) = if text_eq s.id id then suc (count_id id l) else count_id id l

pub sum_of : (Session → ℕ) → Text → List Session → ℕ
sum_of f id [] = 0
sum_of f id (s ∷ l) = if text_eq s.id id then f s + sum_of f id l else sum_of f id l

id-apply_result :
    (sess : Session) (r : ExecuteResult) (now : ℕ) (row : Session)
    → (apply_result sess r now row).id ≡ row.id
unfolding apply_result
id-apply_result sess r now row = refl

sum_of-update :
    (f : Session → ℕ) (d : ℕ) (sess : Session) (r : ExecuteResult) (now : ℕ) (l : List Session)
    → ((row : Session) → f (apply_result sess r now row) ≡ f row + d)
    → sum_of f sess.id (update_session sess.id (apply_result sess r now) l)
      ≡ sum_of f sess.id l + count_id sess.id l * d
unfolding sum_of count_id update_session apply_result
sum_of-update f d sess r now [] h = omega arith
sum_of-update f d sess r now (s ∷ l) h = elim (Bool-cases (text_eq s.id sess.id)) [
  | inl e ↦ rw e (rw e (omega (arith, h s, sum_of-update f d sess r now l h)))
  | inr e ↦ rw e (rw e (sum_of-update f d sess r now l h))
]

no_tokens :
    (sess : Session) (r : ExecuteResult)
    → has_updates sess r ≡ false
    → (r.input_tokens ≡ 0)
      × (r.output_tokens ≡ 0)
      × (r.cache_read_tokens ≡ 0)
      × (r.cache_write_tokens ≡ 0)
unfolding has_updates
no_tokens sess r h = ground arith

-- A count that the update raises by `d`, where `d` is nothing if there is no update.
persist_result-sum :
    (f : Session → ℕ) (d : ℕ) (uuid : ℕ → Text) (write_ok : ℕ → Bool)
    (all_ok : (n : ℕ) → write_ok n ≡ true) (st : Store) (sess : Session) (r : ExecuteResult)
    (now : ℕ)
    → ((row : Session) → f (apply_result sess r now row) ≡ f row + d)
    → (has_updates sess r ≡ false → d ≡ 0)
    → count_id sess.id st.sessions ≡ 1
    → sum_of f sess.id (persist_result uuid write_ok st sess r now).sessions
      ≡ sum_of f sess.id st.sessions + d
persist_result-sum f d uuid write_ok all_ok st sess r now raised none_due one =
    rw (persist_result-sessions uuid write_ok all_ok st sess r now) (
      if_cases (λ l. sum_of f sess.id l ≡ sum_of f sess.id st.sessions + d) (has_updates sess r) _ _
        (λ _.
          sum_of-update f d sess r now st.sessions raised
          ∙ ap (λ n. sum_of f sess.id st.sessions + n) (rw one (omega arith)))
        (λ quiet. omega (arith, none_due quiet)))

-- When the writes succeed and the session's id is the id of one row, each of the row's four token
-- counts grows by exactly what the result reports, also where the result reports nothing and the
-- row is not written.
pub persist_result-tokens :
    (uuid : ℕ → Text) (write_ok : ℕ → Bool) (all_ok : (n : ℕ) → write_ok n ≡ true) (st : Store)
    (sess : Session) (r : ExecuteResult) (now : ℕ)
    → count_id sess.id st.sessions ≡ 1
    → let old = st.sessions in
      let rows = (persist_result uuid write_ok st sess r now).sessions in
      (sum_of (λ s. s.input_tokens) sess.id rows
        ≡ sum_of (λ s. s.input_tokens) sess.id old + r.input_tokens)
      × (sum_of (λ s. s.output_tokens) sess.id rows
          ≡ sum_of (λ s. s.output_tokens) sess.id old + r.output_tokens)
      × (sum_of (λ s. s.cache_read_tokens) sess.id rows
          ≡ sum_of (λ s. s.cache_read_tokens) sess.id old + r.cache_read_tokens)
      × (sum_of (λ s. s.cache_write_tokens) sess.id rows
          ≡ sum_of (λ s. s.cache_write_tokens) sess.id old + r.cache_write_tokens)
unfolding apply_result
persist_result-tokens uuid write_ok all_ok st sess r now one =
    let due = no_tokens sess r in
    (
      persist_result-sum (λ s. s.input_tokens) r.input_tokens uuid write_ok all_ok st sess r now
          (λ row. refl) (λ q. (due q).0) one,
      persist_result-sum (λ s. s.output_tokens) r.output_tokens uuid write_ok all_ok st sess r now
          (λ row. refl) (λ q. (due q).1) one,
      persist_result-sum (λ s. s.cache_read_tokens) r.cache_read_tokens uuid write_ok all_ok st sess
          r now (λ row. refl) (λ q. (due q).2) one,
      persist_result-sum (λ s. s.cache_write_tokens) r.cache_write_tokens uuid write_ok all_ok st
          sess r now (λ row. refl) (λ q. (due q).3) one,
    )
