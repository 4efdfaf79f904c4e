-- ===== src/Recall/Complete.antt =====
-- Why the merge of several searches leaves a candidate out.
use memknow.Common.{
  ℕ, zero, suc, ◌+◌, ◌-◌, ◌≤◌, ◌<◌, ◌≡◌, ◌⊎◌, inl, inr, refl, sym, subst, true, false, List, [],
  ◌∷◌, Text, if◌then◌else◌, text_eq, text_eq_iff, is_empty, leb, ◌==◌, length, lookup, arith, Memᴰ,
  All, All-perm, All-weaken, All-of_map, All-lookup, All-zip, All-always, Rearranges, Bool-cases,
  if_cases,
}
use memknow.Recall.Matches.{
  ScoredMatch, is_full, count_in, taken, beats, take_best, keep_all, fuse_scored,
}
use memknow.Recall.Fused.{key_of, IsEntry, IsCovered, keep_all-IsBest}
use memknow.Recall.Best.{ranked, ranked-perm}
use memknow.Recall.Limits.{count_session, taken-count_in, taken-count_in_other}

-- A list that reached the limit, or holds the candidate, or three of the candidate's session;
-- `counts` are matches that were taken before.
abbrev pub IsSpent : ℕ → List (Text × ℕ) → List ScoredMatch → ScoredMatch → Type 0
IsSpent n counts l c =
    (n ≤ length l)
    ⊎ (Memᴰ c l ⊎ (3 ≤ count_session c.match.session_id l + taken c.match.session_id counts))

taken-count_in_le :
    (sid s : Text) (counts : List (Text × ℕ))
    → taken sid (count_in s counts)
      ≤ (if text_eq s sid then suc (taken sid counts) else taken sid counts)
unfolding count_in
taken-count_in_le sid s counts = elim (Bool-cases (text_eq s sid)) [
  | inl q ↦ rw q (
      rw ((text_eq_iff s sid).0 q) (elim (Bool-cases (is_empty sid)) [
        | inl e ↦ rw e (omega arith)
        | inr e ↦ omega (arith, taken-count_in sid counts e)
      ]))
  | inr q ↦ rw q (omega (arith, taken-count_in_other sid s counts q))
]

IsSpent-cons :
    (n : ℕ) (counts : List (Text × ℕ)) (c d : ScoredMatch) (l : List ScoredMatch)
    → IsSpent (n - 1) (count_in c.match.session_id counts) l d
    → IsSpent n counts (c ∷ l) d
unfolding count_session
IsSpent-cons n counts c d l (inl h) = inl (omega arith)
IsSpent-cons n counts c d l (inr (inl h)) = inr (inl (Memᴰ.tail h))
IsSpent-cons n counts c d l (inr (inr h)) =
    inr (inr (ground (arith, taken-count_in_le d.match.session_id c.match.session_id counts)))

skip_full :
    (n : ℕ) (counts : List (Text × ℕ)) (c : ScoredMatch) (l : List ScoredMatch)
    → is_full c.match.session_id counts ≡ true
    → take_best n counts (c ∷ l) ≡ take_best n counts l
unfolding take_best
skip_full n counts c l e = rw e refl

take_one :
    (n : ℕ) (counts : List (Text × ℕ)) (c : ScoredMatch) (l : List ScoredMatch)
    → is_full c.match.session_id counts ≡ false
    → take_best n counts (c ∷ l)
      ≡ c ∷ (if leb n 1 then [] else take_best (n - 1) (count_in c.match.session_id counts) l)
unfolding take_best
take_one n counts c l e = rw e refl

take_best-IsSpent :
    (n : ℕ) (counts : List (Text × ℕ)) (l : List ScoredMatch)
    → All (IsSpent n counts (take_best n counts l)) l
take_best-IsSpent n counts [] = tt
take_best-IsSpent n counts (c ∷ l) = elim (Bool-cases (is_full c.match.session_id counts)) [
  | inl e ↦
      subst (λ r. All (IsSpent n counts r) (c ∷ l)) (sym (skip_full n counts c l e))
        (inr (inr (ground arith)), take_best-IsSpent n counts l)
  | inr e ↦
      let rest = take_best (n - 1) (count_in c.match.session_id counts) l in
      subst (λ r. All (IsSpent n counts r) (c ∷ l)) (sym (take_one n counts c l e))
        (
          inr (inl (Memᴰ.head refl)),
          if_cases (λ r. All (IsSpent n counts (c ∷ r)) l) (leb n 1) [] rest
              (λ q. All-always (IsSpent n counts (c ∷ [])) l (λ d. inl (ground arith)))
              (λ q.
                All-weaken (IsSpent (n - 1) (count_in c.match.session_id counts) rest)
                  (IsSpent n counts (c ∷ rest)) l (λ d. IsSpent-cons n counts c d rest)
                  (take_best-IsSpent (n - 1) (count_in c.match.session_id counts) l)),
        )
]

module _ (table : ℕ → ℕ) where
  -- Whether the results stand for a candidate: it has no key, or a candidate with its key that it
  -- does not beat is among them or finds three of its session there.
  abbrev pub IsAnswered : List ScoredMatch → ScoredMatch → Type 0
  IsAnswered l d =
      (is_empty (key_of table d) ≡ true)
      ⊎ ((c : ScoredMatch) × (key_of table c ≡ key_of table d)
          × (beats d c ≡ false)
          × (Memᴰ c l ⊎ (3 ≤ count_session c.match.session_id l)))

  unspent :
      (n : ℕ) (l : List ScoredMatch) (c : ScoredMatch)
      → length l < n
      → IsSpent n [] l c
      → Memᴰ c l ⊎ (3 ≤ count_session c.match.session_id l)
  unfolding lookup
  unspent n l c short (inl h) = inr (omega arith)
  unspent n l c short (inr (inl h)) = inl h
  unspent n l c short (inr (inr h)) = inr (omega arith)

  answer :
      (n : ℕ) (best : List (Text × ScoredMatch)) (l all : List ScoredMatch) (d : ScoredMatch)
      → length l < n
      → All (λ e. IsEntry table all e × IsSpent n [] l e.1) best
      → IsCovered table best d
      → IsAnswered l d
  answer n best l all d short h (inl e) = inl e
  answer n best l all d short h (inr (c, found, b)) =
      let own =
        All-lookup (λ e. IsEntry table all e × IsSpent n [] l e.1) (key_of table d) c best h
          found in
      inr (c, own.0.0, b, unspent n l c short own.1)

  fuse_scored-ranked :
      (arrange : List ScoredMatch → List ScoredMatch) (all : List ScoredMatch) (n : ℕ)
      → fuse_scored table arrange all (suc n) ≡ take_best (suc n) [] (ranked table arrange all)
  unfolding fuse_scored
  fuse_scored-ranked arrange all n =
      if_cases (λ l. l ≡ take_best (suc n) [] (ranked table arrange all)) (suc n == 0) _ _
        (λ e. ground arith) (λ _. refl)

  ranked-answered :
      (arrange : List ScoredMatch → List ScoredMatch)
      → Rearranges arrange
      → (all : List ScoredMatch) (n : ℕ) → length (take_best n [] (ranked table arrange all)) < n
      → All (IsAnswered (take_best n [] (ranked table arrange all))) all
  ranked-answered arrange fair all n short =
      let best = keep_all table [] all in
      let inv = keep_all-IsBest table all in
      let l = take_best n [] (ranked table arrange all) in
      let spent =
        All-of_map (IsSpent n [] l) (λ (e : Text × ScoredMatch). e.1) best
          (All-perm (IsSpent n [] l) (ranked-perm table arrange all fair)
            (take_best-IsSpent n [] (ranked table arrange all))) in
      All-weaken (IsCovered table best) (IsAnswered l) all
        (λ d. answer n best l all d short (
          All-zip (IsEntry table all) (λ e. IsSpent n [] l e.1)
            (λ e. IsEntry table all e × IsSpent n [] l e.1) best (λ e i s. (i, s)) inv.entries
            spent))
        inv.covered

  -- A merged list that is shorter than the limit leaves no candidate out: for each candidate that
  -- has a key there is one of the same key, which it does not beat, that is in the list or whose
  -- session has three matches there.
  pub fuse_scored_complete :
      (arrange : List ScoredMatch → List ScoredMatch)
      → Rearranges arrange
      → (all : List ScoredMatch) (limit : ℕ) → length (fuse_scored table arrange all limit) < limit
      → All (IsAnswered (fuse_scored table arrange all limit)) all
  fuse_scored_complete arrange fair all zero short = elim short [ ]
  fuse_scored_complete arrange fair all (suc n) short =
      let same = fuse_scored-ranked arrange all n in
      subst (λ l. All (IsAnswered l) all) (sym same)
        (ranked-answered arrange fair all (suc n) (subst (λ l. length l < suc n) same short))
