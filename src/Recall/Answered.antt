-- ===== src/Recall/Answered.antt =====
-- When Retrieve returns a payload.
use memknow.Common.{
  ◌≡◌, refl, Bool, true, false, if◌then◌else◌, Option, none, some, Text, ℕ, is_empty, trim_space,
  if_keeps,
}
use memknow.Store.Tables.{Store, chat, archived}
use memknow.Recall.Search.{
  Engine, search_messages_with_status, search_messages_like_with_status, search_summary_matches,
}
use memknow.Recall.Retrieve.{
  ContextPayload, recent_summaries, candidates, recalled_matches, retrieve,
}

abbrev IsReturned {ℓ} : {A : Type ℓ} → Option A → Type ℓ
IsReturned o = (a : _) × (o ≡ some a)

-- A query that asks for nothing, or succeeds.
answered_if {ℓ} :
    {A : Type ℓ} (b ok : Bool) (x y : A)
    → ok ≡ true
    → IsReturned (if b then some x else if ok then some y else none)
answered_if true ok x y h = (x, refl)
answered_if false ok x y h = rw h (y, refl)

module _ (st : Store) (key : Text) (e : Engine) (likes : e.like_ok ≡ true) (hits : e.hits_ok ≡ true)
    (full : (q : Text) → e.index_ok q ≡ true) where
  fts-IsReturned :
      (q : Text) (limit : ℕ)
      → IsReturned (search_messages_with_status e st key q (some archived) (some chat) limit)
  unfolding search_messages_with_status
  fts-IsReturned q limit = answered_if _ _ _ _ (full _)

  likes-IsReturned :
      (q : Text) (limit : ℕ)
      → IsReturned (search_messages_like_with_status e st key q (some archived) (some chat) limit)
  unfolding search_messages_like_with_status
  likes-IsReturned q limit = answered_if _ _ _ _ likes

  hits-IsReturned :
      (q : Text) (limit : ℕ) → IsReturned (search_summary_matches e st key q (some chat) limit)
  unfolding search_summary_matches
  hits-IsReturned q limit = answered_if _ _ _ _ hits

  candidates-IsReturned : (q : Text) → IsReturned (candidates e st key q)
  unfolding candidates
  candidates-IsReturned q =
      let (l, h) = fts-IsReturned q 12 in
      let (m, i) = likes-IsReturned q 12 in
      let (n, j) = hits-IsReturned q 8 in rw (h, i, j) (_, refl)

  recalled_matches-IsReturned : (q : Text) → IsReturned (recalled_matches e st key q)
  unfolding recalled_matches
  recalled_matches-IsReturned q =
      let (l, h) = candidates-IsReturned q in
      if_keeps IsReturned (is_empty q) _ _ (_, refl) (rw h (_, refl))

  -- If the queries succeed, and the full text index takes every query, something is returned.
  pub retrieve_answers :
      (query : Text)
      → e.summaries_ok ≡ true
      → (p : ContextPayload) × (retrieve e st key query ≡ some p)
  unfolding retrieve recent_summaries
  retrieve_answers query ok =
      let (l, h) = recalled_matches-IsReturned (trim_space query) in rw (ok, h) (_, refl)
