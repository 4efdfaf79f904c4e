-- ===== src/Recall/Matches.antt =====
-- internal/session/search.go, retriever.go and search_format.go: a match of a search, its excerpt,
-- and the merge of the matches of several searches.
use memknow.Common.{
  ℕ, suc, ◌-◌, Bool, not, ◌&&◌, ◌||◌, List, [], ◌∷◌, ◌++◌, map, none, some, Text, codes,
  if◌then◌else◌, is_empty, ltb, leb, ◌==◌, trim_space, to_lower, fields, join, lookup, insert,
  replace_pairs, byte_length, cut, sort_by,
}

-- SearchMatch with the fields that are read. RankScore is a float that only SQLite compares; the
-- surrounding messages are loaded and never shown.
pub record SearchMatch : Type 0 where
  pub role : Text
  pub content : Text
  pub created_at : ℕ
  pub session_id : Text
  pub session_title : Text
  pub snippet : Text

pub record ScoredMatch : Type 0 where
  pub match : SearchMatch
  pub score : ℕ

-- trimTo: the limit counts bytes.
unfoldable pub trim_to : Text → ℕ → Text
unfolding byte_length cut
trim_to s limit = if limit == 0 || leb (byte_length s) limit then s else cut limit s ++ codes "..."

unfoldable pub normalize_snippet : Text → Text
unfolding replace_pairs fields join
normalize_snippet s =
    join
      (fields
        (replace_pairs ((codes ">>>", []) ∷ (codes "<<<", []) ∷ (codes "...", codes " ") ∷ []) s))
      (codes " ")

-- The number of matches of a session that were taken so far.
abbrev pub taken : Text → List (Text × ℕ) → ℕ
taken sid counts = elim (lookup sid counts) [ none ↦ 0 | some n ↦ n ]

-- Whether a candidate replaces the best one so far, and whether it comes first in the order.
abbrev pub beats : ScoredMatch → ScoredMatch → Bool
beats c d = ltb d.score c.score || (c.score == d.score && ltb d.match.created_at c.match.created_at)

-- Three matches of a session are enough; a match without a session is never too much.
abbrev pub is_full : Text → List (Text × ℕ) → Bool
is_full sid counts = not (is_empty sid) && leb 3 (taken sid counts)

unfoldable pub count_in : Text → List (Text × ℕ) → List (Text × ℕ)
unfolding lookup insert
count_in sid counts =
    if not (is_empty sid) then insert sid (suc (taken sid counts)) counts else counts

-- The loop over the merged candidates: `n` matches are still allowed. `limit` is not 0.
unfoldable pub take_best : ℕ → List (Text × ℕ) → List ScoredMatch → List ScoredMatch
unfolding lookup count_in
take_best n counts [] = []
take_best n counts (c ∷ l) =
    let skipped = take_best n counts l in
    let rest = take_best (n - 1) (count_in c.match.session_id counts) l in
    if is_full c.match.session_id counts then skipped else c ∷ (if leb n 1 then [] else rest)

-- Go's table of lower case.
module _ (table : ℕ → ℕ) where
  unfoldable pub dedupe_key : SearchMatch → Text
  unfolding trim_space to_lower normalize_snippet
  dedupe_key m =
      let text = to_lower table (normalize_snippet (trim_space m.snippet)) in
      let text' = if is_empty text then to_lower table (trim_space m.content) else text in
      if is_empty text' then [] else m.session_id ++ (codes "|" ++ text')

  -- A round of the loop over the candidates: the best candidate of each key.
  unfoldable pub keep_best : List (Text × ScoredMatch) → ScoredMatch → List (Text × ScoredMatch)
  unfolding lookup insert dedupe_key
  keep_best best c =
      let key = dedupe_key c.match in
      if is_empty key then best else elim (lookup key best) [
        | none ↦ insert key c best
        | some prev ↦ if beats c prev then insert key c best else best
      ]

  unfoldable pub keep_all : List (Text × ScoredMatch) → List ScoredMatch → List (Text × ScoredMatch)
  unfolding keep_best
  keep_all best [] = best
  keep_all best (c ∷ l) = keep_all (keep_best best c) l

  -- `arrange` is the order in which Go visits the entries of the map.
  unfoldable pub fuse_scored :
      (arrange : List ScoredMatch → List ScoredMatch) → List ScoredMatch → ℕ → List ScoredMatch
  unfolding keep_all take_best sort_by
  fuse_scored arrange candidates limit =
      let merged = arrange (map (λ (e : Text × ScoredMatch). e.1) (keep_all [] candidates)) in
      if limit == 0 then [] else take_best limit [] (sort_by beats merged)

  unfoldable pub fuse_scored_matches :
      (arrange : List ScoredMatch → List ScoredMatch) → List ScoredMatch → ℕ → List SearchMatch
  unfolding fuse_scored
  fuse_scored_matches arrange candidates limit =
      map (λ (c : ScoredMatch). c.match) (fuse_scored arrange candidates limit)
