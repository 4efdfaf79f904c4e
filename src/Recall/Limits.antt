-- ===== src/Recall/Limits.antt =====
-- How many matches the merge of several searches returns.
use memknow.Common.{
  All, AllPairs, InOrder, Rearranges, lookup, ℕ, suc, ◌+◌, ◌-◌, ◌≤◌, ◌<◌, ◌≡◌, inl, inr, refl, sym,
  subst, false, not, List, [], ◌∷◌, Text, if◌then◌else◌, text_eq, text_eq_iff, text_eq_self,
  is_empty, leb, ◌==◌, length, lookup-insert, arith, Bool-cases, if_keeps, if_cases,
}
use memknow.Recall.Matches.{beats, ScoredMatch, is_full, count_in, taken, take_best, fuse_scored}
use memknow.Recall.Best.{ranked, IsTop, KeyDiffers, fuse_scored-tops}

-- The number of matches of a session.
unfoldable pub count_session : Text → List ScoredMatch → ℕ
count_session sid [] = 0
count_session sid (c ∷ l) =
    if text_eq c.match.session_id sid then suc (count_session sid l) else count_session sid l

length-take_best :
    (n : ℕ) (counts : List (Text × ℕ)) (l : List ScoredMatch)
    → 1 ≤ n
    → length (take_best n counts l) ≤ n
unfolding take_best
length-take_best n counts [] h = omega arith
length-take_best n counts (c ∷ l) h = elim (Bool-cases (is_full c.match.session_id counts)) [
  | inl e ↦ rw e (length-take_best n counts l h)
  | inr e ↦ rw e (
      if_cases (λ r. length (c ∷ r) ≤ n) (leb n 1) _ _ (λ _. omega arith)
        (λ g.
          ground (
            arith,
            length-take_best (n - 1) (count_in c.match.session_id counts) l (ground arith),
          )))
]

pub taken-count_in :
    (sid : Text) (counts : List (Text × ℕ))
    → is_empty sid ≡ false
    → taken sid (count_in sid counts) ≡ suc (taken sid counts)
unfolding count_in
taken-count_in sid counts e =
    rw e (
      rw (lookup-insert sid sid (suc (taken sid counts)) counts, taken)
        (rw (text_eq_self sid) refl))

-- A match of another session, or without a session, does not count.
pub taken-count_in_other :
    (sid s : Text) (counts : List (Text × ℕ))
    → text_eq s sid ≡ false
    → taken sid (count_in s counts) ≡ taken sid counts
unfolding count_in
taken-count_in_other sid s counts h =
    if_cases (λ m. taken sid m ≡ taken sid counts) (not (is_empty s)) _ _
      (λ _. rw (lookup-insert s sid (suc (taken s counts)) counts, taken) (rw h refl)) (λ _. refl)

room :
    (s sid : Text) (counts : List (Text × ℕ))
    → s ≡ sid
    → is_empty sid ≡ false
    → is_full s counts ≡ false
    → taken sid counts < 3
room s sid counts q full e =
    let full' = subst (λ t. is_empty t ≡ false) (sym q) full in
    subst (λ t. taken t counts < 3) q (ground arith)

pub count_session-take_best :
    (sid : Text) (n : ℕ) (counts : List (Text × ℕ)) (l : List ScoredMatch)
    → is_empty sid ≡ false
    → taken sid counts ≤ 3
    → count_session sid (take_best n counts l) + taken sid counts ≤ 3
unfolding take_best count_session
count_session-take_best sid n counts [] full h = omega arith
count_session-take_best sid n counts (c ∷ l) full h =
    let s = c.match.session_id in
    let counts' = count_in s counts in
    elim (Bool-cases (is_full s counts)) [
      | inl e ↦ rw e (count_session-take_best sid n counts l full h)
      | inr e ↦ rw e (elim (Bool-cases (text_eq s sid)) [
        | inl q ↦
            let r = room s sid counts ((text_eq_iff s sid).0 q) full e in
            let t =
              subst (λ x. taken sid (count_in x counts) ≡ suc (taken sid counts))
                (sym ((text_eq_iff s sid).0 q)) (taken-count_in sid counts full) in
            rw q (
              if_keeps (λ x. suc (count_session sid x) + taken sid counts ≤ 3) (leb n 1) _ _
                (omega arith)
                (omega
                  (arith, t, count_session-take_best sid (n - 1) counts' l full (omega arith))))
        | inr q ↦
            let t = taken-count_in_other sid s counts q in
            rw q (
              if_keeps (λ x. count_session sid x + taken sid counts ≤ 3) (leb n 1) _ _ (omega arith)
                (omega
                  (arith, t, count_session-take_best sid (n - 1) counts' l full (omega arith))))
      ])
    ]

-- No more than the limit.
pub length-fuse_scored :
    (table : ℕ → ℕ) (arrange : List ScoredMatch → List ScoredMatch) (all : List ScoredMatch)
    (limit : ℕ)
    → length (fuse_scored table arrange all limit) ≤ limit
unfolding fuse_scored
length-fuse_scored table arrange all limit =
    if_cases (λ (l : List ScoredMatch). length l ≤ limit) (limit == 0) _ _ (λ _. omega arith)
      (λ e. length-take_best limit [] (ranked table arrange all) (ground arith))

count_session-fuse_scored :
    (table : ℕ → ℕ) (arrange : List ScoredMatch → List ScoredMatch) (all : List ScoredMatch)
    (limit : ℕ) (sid : Text)
    → is_empty sid ≡ false
    → count_session sid (fuse_scored table arrange all limit) ≤ 3
unfolding fuse_scored count_session lookup
count_session-fuse_scored table arrange all limit sid full =
    if_cases (λ l. count_session sid l ≤ 3) (limit == 0) _ _ (λ _. omega arith)
      (λ e.
        omega (
          arith,
          count_session-take_best sid limit [] (ranked table arrange all) full (omega arith),
        ))

-- Whatever order Go visits its map in, the merged matches are candidates with a key, no two have
-- the same key, each has the highest score (and the latest time among equal scores) of all
-- candidates with its key, and they are in the order of their scores, newer ones first among equal
-- scores. They are no more than the limit, and no more than three of one session, where matches
-- without a session are not counted.
pub fuse_scored-best :
    (table : ℕ → ℕ) (arrange : List ScoredMatch → List ScoredMatch) (fair : Rearranges arrange)
    (all : List ScoredMatch) (limit : ℕ) (sid : Text)
    → is_empty sid ≡ false
    → let l = fuse_scored table arrange all limit in
      All (IsTop table all) l
      × AllPairs (KeyDiffers table) l
      × AllPairs (InOrder beats) l
      × (length l ≤ limit)
      × (count_session sid l ≤ 3)
fuse_scored-best table arrange fair all limit sid full =
    let tops = fuse_scored-tops table arrange fair all limit in
    (
      tops.0,
      tops.1,
      tops.2,
      length-fuse_scored table arrange all limit,
      count_session-fuse_scored table arrange all limit sid full,
    )
