-- ===== src/Recall/Best.antt =====
-- The matches that the merge of several searches returns.
use memknow.Common.{
  ℕ, ◌≡◌, ◌≢◌, inl, inr, ◌∙◌, sym, ap, subst, false, List, [], ◌∷◌, map, some, Text, is_empty, ◌==◌,
  lookup, Permᴰ, Memᴰ, All, AllPairs, All-perm, AllPairs-perm, All-weaken, All-zip, All-map,
  KeysDiffer, KeysDiffer-lookup, Rearranges, sort_by, sort_by-perm, sort_by-sorted, InOrder,
  if_keeps, Bool-cases, text_eq, text_eq_iff, differ, ◌⊎◌, inl, inr,
}
use mathlib.Core.List.Permᴰ
use mathlib.Core.Option.{some-injective}
use memknow.Recall.Matches.{ScoredMatch, beats, keep_all, fuse_scored}
use memknow.Recall.Fused.{
  beats_asym, beats_carry, take_best-All, take_best-AllPairs, key_of, IsEntry, IsCovered,
  keep_all-IsBest,
}

abbrev pub values : List (Text × ScoredMatch) → List ScoredMatch
values m = map (λ (e : Text × ScoredMatch). e.1) m

module _ (table : ℕ → ℕ) where
  -- Another key, or not better.
  abbrev pub IsBehind : ScoredMatch → ScoredMatch → Type 0
  IsBehind d c = (key_of table d ≢ key_of table c) ⊎ (beats d c ≡ false)

  -- A candidate with a key that no candidate of the same key beats.
  abbrev pub IsTop : List ScoredMatch → ScoredMatch → Type 0
  IsTop all c = Memᴰ c all × (is_empty (key_of table c) ≡ false) × All (λ d. IsBehind d c) all

  abbrev pub KeyDiffers : ScoredMatch → ScoredMatch → Type 0
  KeyDiffers c d = key_of table c ≢ key_of table d

  covered-top :
      (best : List (Text × ScoredMatch)) (c d : ScoredMatch)
      → is_empty (key_of table c) ≡ false
      → lookup (key_of table c) best ≡ some c
      → IsCovered table best d
      → key_of table d ≡ key_of table c
      → beats d c ≡ false
  covered-top best c d full found (inl e) same = cc
  covered-top best c d full found (inr (p, h, b)) same =
      subst (λ q. beats d q ≡ false)
        (some-injective p c (sym h ∙ (ap (λ k. lookup k best) same ∙ found))) b

  covered-IsBehind :
      (best : List (Text × ScoredMatch)) (c d : ScoredMatch)
      → is_empty (key_of table c) ≡ false
      → lookup (key_of table c) best ≡ some c
      → IsCovered table best d
      → IsBehind d c
  covered-IsBehind best c d full found cov =
      elim (Bool-cases (text_eq (key_of table d) (key_of table c))) [
        | inl e ↦ inr (
            covered-top best c d full found cov
              ((text_eq_iff (key_of table d) (key_of table c)).0 e))
        | inr e ↦ inl (differ (key_of table d) (key_of table c) e)
      ]

  entry-IsTop :
      (all : List ScoredMatch) (best : List (Text × ScoredMatch))
      → All (IsCovered table best) all
      → (e : Text × ScoredMatch) → IsEntry table all e
      → lookup e.0 best ≡ some e.1
      → IsTop all e.1
  entry-IsTop all best cov (k, c) (at, full, mem) found =
      let full' = subst (λ t. is_empty t ≡ false) (sym at) full in
      let found' = subst (λ t. lookup t best ≡ some c) (sym at) found in
      (
        mem,
        full',
        All-weaken (IsCovered table best) (λ d. IsBehind d c) all
            (λ d. covered-IsBehind best c d full' found') cov,
      )

  values-differ :
      (all : List ScoredMatch) (m : List (Text × ScoredMatch))
      → All (IsEntry table all) m
      → KeysDiffer m
      → AllPairs KeyDiffers (values m)
  values-differ all [] h k = tt
  values-differ all ((k, c) ∷ m) h g = (
    All-map (KeyDiffers c) (λ (e : Text × ScoredMatch). e.1) m
        (All-zip (λ e. k ≢ e.0) (IsEntry table all) (λ e. KeyDiffers c e.1) m
          (λ e n i q. n (sym h.0.0 ∙ (q ∙ i.0))) g.0 h.1),
    values-differ all m h.1 g.1,
  )

  -- What the loop cuts: the best candidates of all keys in order.
  module _ (arrange : List ScoredMatch → List ScoredMatch) (all : List ScoredMatch) where
    abbrev pub ranked : List ScoredMatch
    ranked = sort_by beats (arrange (values (keep_all table [] all)))

    module _ (fair : Rearranges arrange) where
      pub ranked-perm : Permᴰ ranked (values (keep_all table [] all))
      ranked-perm = Permᴰ.trans (sort_by-perm beats _) (fair _)

      ranked-IsTop : All (IsTop all) ranked
      ranked-IsTop =
          let best = keep_all-IsBest table all in
          All-perm (IsTop all) (Permᴰ.symm ranked-perm) (
            All-map (IsTop all) (λ (e : Text × ScoredMatch). e.1) (keep_all table [] all)
              (All-zip (IsEntry table all) (λ e. lookup e.0 (keep_all table [] all) ≡ some e.1)
                (λ e. IsTop all e.1) (keep_all table [] all)
                (entry-IsTop all (keep_all table [] all) best.covered) best.entries
                (KeysDiffer-lookup (keep_all table [] all) best.keys)))

      ranked-KeyDiffers : AllPairs KeyDiffers ranked
      ranked-KeyDiffers =
          let best = keep_all-IsBest table all in
          AllPairs-perm KeyDiffers (λ c d n e. n (sym e)) (Permᴰ.symm ranked-perm)
            (values-differ all (keep_all table [] all) best.entries best.keys)

  -- The merged matches are candidates with a key, no two have
  -- the same key, each has the highest score (and the latest time among equal scores) of all
  -- candidates with its key, and they are in the order of their scores, newer ones first among
  -- equal scores.
  pub fuse_scored-tops :
      (arrange : List ScoredMatch → List ScoredMatch)
      → Rearranges arrange
      → (all : List ScoredMatch) (limit : ℕ)
      → let l = fuse_scored table arrange all limit in
        All (IsTop all) l × AllPairs KeyDiffers l × AllPairs (InOrder beats) l
  unfolding fuse_scored
  fuse_scored-tops arrange fair all limit =
      let merged = ranked arrange all in
      if_keeps (λ l. All (IsTop all) l × AllPairs KeyDiffers l × AllPairs (InOrder beats) l)
        (limit == 0) _ _ (tt, tt, tt)
        (
          take_best-All (IsTop all) limit [] merged (ranked-IsTop arrange all fair),
          take_best-AllPairs KeyDiffers limit [] merged (ranked-KeyDiffers arrange all fair),
          take_best-AllPairs (InOrder beats) limit [] merged (
              sort_by-sorted beats beats_asym beats_carry
                (arrange (values (keep_all table [] all)))),
        )
