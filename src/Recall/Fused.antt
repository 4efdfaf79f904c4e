-- ===== src/Recall/Fused.antt =====
-- What the merge of the matches of several searches keeps of the candidates.
use memknow.Common.{
  ℕ, ◌-◌, ◌≡◌, ◌⊎◌, inl, inr, refl, ◌∙◌, sym, subst, true, false, List, [], ◌∷◌, some, Text,
  text_eq, text_eq_iff, text_eq_self, is_empty, leb, lookup, insert, lookup-insert, arith, Memᴰ,
  All, AllPairs, All-perm, All-weaken, All-self, All-insert, KeysDiffer, insert-KeysDiffer,
  Bool-cases, Option-cases, if_keeps,
}
use mathlib.Core.Option.{some-injective}
use mathlib.Core.List.{reverse_aux}
use mathlib.Core.List.Permᴰ
use memknow.Recall.Matches.{ScoredMatch, is_full, beats, take_best, dedupe_key, keep_best, keep_all}

pub beats_asym : (c d : ScoredMatch) → beats c d ≡ true → beats d c ≡ false
beats_asym c d h = ground arith

pub beats_carry : (c d e : ScoredMatch) → beats d c ≡ false → beats e d ≡ false → beats e c ≡ false
beats_carry c d e h g = ground arith

-- The list that is cut keeps what holds of every candidate and of every two.
module _ {κ} (P : ScoredMatch → Type κ) where
  pub take_best-All :
      (n : ℕ) (counts : List (Text × ℕ)) (l : List ScoredMatch)
      → All P l
      → All P (take_best n counts l)
  unfolding take_best
  take_best-All n counts [] h = tt
  take_best-All n counts (c ∷ l) h = elim (Bool-cases (is_full c.match.session_id counts)) [
    | inl e ↦ rw e (take_best-All n counts l h.1)
    | inr e ↦ rw e (h.0, if_keeps (All P) (leb n 1) _ _ tt (take_best-All (n - 1) _ l h.1))
  ]

pub take_best-AllPairs {κ} :
    (R : ScoredMatch → ScoredMatch → Type κ) (n : ℕ) (counts : List (Text × ℕ))
    (l : List ScoredMatch)
    → AllPairs R l
    → AllPairs R (take_best n counts l)
unfolding take_best
take_best-AllPairs R n counts [] h = tt
take_best-AllPairs R n counts (c ∷ l) h = elim (Bool-cases (is_full c.match.session_id counts)) [
  | inl e ↦ rw e (take_best-AllPairs R n counts l h.1)
  | inr e ↦ rw e (
    if_keeps (All (R c)) (leb n 1) _ _ tt (take_best-All (R c) (n - 1) _ l h.0),
    if_keeps (AllPairs R) (leb n 1) _ _ tt (take_best-AllPairs R (n - 1) _ l h.1),
  )
]

module _ (table : ℕ → ℕ) where
  abbrev pub key_of : ScoredMatch → Text
  key_of c = dedupe_key table c.match

  -- An entry of the map: a candidate under its key.
  abbrev pub IsEntry : List ScoredMatch → Text × ScoredMatch → Type 0
  IsEntry all e = (key_of e.1 ≡ e.0) × (is_empty e.0 ≡ false) × Memᴰ e.1 all

  -- A candidate without a key, or with an entry under its key that it does not beat.
  abbrev pub IsCovered : List (Text × ScoredMatch) → ScoredMatch → Type 0
  IsCovered best d =
      (is_empty (key_of d) ≡ true)
      ⊎ ((c : ScoredMatch) × (lookup (key_of d) best ≡ some c) × (beats d c ≡ false))

  pub record IsBest (all seen : List ScoredMatch) (best : List (Text × ScoredMatch)) : Type 0 where
    pub entries : All (IsEntry all) best
    pub keys : KeysDiffer best
    pub covered : All (IsCovered best) seen

  keep_best-cases :
      (best : List (Text × ScoredMatch)) (c : ScoredMatch)
      → ((keep_best table best c ≡ best) × IsCovered best c)
        ⊎ ((keep_best table best c ≡ insert (key_of c) c best)
            × (is_empty (key_of c) ≡ false)
            × ((prev : ScoredMatch) → lookup (key_of c) best ≡ some prev → beats c prev ≡ true))
  unfolding keep_best
  keep_best-cases best c = elim (Bool-cases (is_empty (key_of c))) [
    | inl e ↦ inl (rw e refl, inl e)
    | inr e ↦ elim (Option-cases (lookup (key_of c) best)) [
      | inl gone ↦ inr (rw e (rw gone refl), e, λ prev h. cc (gone, h))
      | inr (prev, found) ↦ elim (Bool-cases (beats c prev)) [
        | inl b ↦ inr (
          rw e (rw found (rw b refl)),
          e,
          λ p h. subst (λ q. beats c q ≡ true) (some-injective prev p (sym found ∙ h)) b,
        )
        | inr b ↦ inl (rw e (rw found (rw b refl)), inr (prev, found, b))
      ]
    ]
  ]

  insert-IsCovered :
      (best : List (Text × ScoredMatch)) (c d : ScoredMatch)
      → ((prev : ScoredMatch) → lookup (key_of c) best ≡ some prev → beats c prev ≡ true)
      → IsCovered best d
      → IsCovered (insert (key_of c) c best) d
  insert-IsCovered best c d over (inl e) = inl e
  insert-IsCovered best c d over (inr (p, found, b)) =
      elim (Bool-cases (text_eq (key_of c) (key_of d))) [
        | inl e ↦
            let same = (text_eq_iff (key_of c) (key_of d)).0 e in
            inr (
              c,
              rw (lookup-insert (key_of c) (key_of d) c best) (rw e refl),
              beats_carry c p d
                  (beats_asym c p (over p (subst (λ k. lookup k best ≡ some p) (sym same) found)))
                  b,
            )
        | inr e ↦ inr (p, rw (lookup-insert (key_of c) (key_of d) c best) (rw e found), b)
      ]

  keep_best-IsBest :
      (all seen : List ScoredMatch) (best : List (Text × ScoredMatch)) (c : ScoredMatch)
      → Memᴰ c all
      → IsBest all seen best
      → IsBest all (c ∷ seen) (keep_best table best c)
  keep_best-IsBest all seen best c m h = elim (keep_best-cases best c) [
    | inl (e, cov) ↦
        rw e (record { entries = h.entries; keys = h.keys; covered = (cov, h.covered) })
    | inr (e, full, over) ↦ rw e (record {
      entries = All-insert (IsEntry all) (key_of c) c best (refl, full, m) h.entries;
      keys = insert-KeysDiffer (key_of c) c best h.keys;
      covered = (
        inr (
          c,
          rw (lookup-insert (key_of c) (key_of c) c best) (rw (text_eq_self (key_of c)) refl),
          ground arith,
        ),
        All-weaken (IsCovered best) (IsCovered (insert (key_of c) c best)) seen
            (λ d. insert-IsCovered best c d over) h.covered,
      );
    })
  ]

  -- After the loop every candidate is covered.
  keep_all-IsBest_from :
      (all seen : List ScoredMatch) (best : List (Text × ScoredMatch)) (l : List ScoredMatch)
      → All (λ c. Memᴰ c all) l
      → IsBest all seen best
      → IsBest all (reverse_aux l seen) (keep_all table best l)
  unfolding keep_all
  keep_all-IsBest_from all seen best [] m h = h
  keep_all-IsBest_from all seen best (c ∷ l) m h =
      keep_all-IsBest_from all (c ∷ seen) (keep_best table best c) l m.1
        (keep_best-IsBest all seen best c m.0 h)

  pub keep_all-IsBest : (all : List ScoredMatch) → IsBest all all (keep_all table [] all)
  keep_all-IsBest all =
      let end =
        keep_all-IsBest_from all [] [] all (All-self all)
          (record { entries = tt; keys = tt; covered = tt }) in
      record {
        entries = end.entries;
        keys = end.keys;
        covered = All-perm (IsCovered (keep_all table [] all)) (Permᴰ.reverse all) end.covered;
      }
