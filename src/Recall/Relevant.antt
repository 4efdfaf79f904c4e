-- ===== src/Recall/Relevant.antt =====
-- Which memories are recalled for a message.
use memknow.Common.{
  ℕ, ◌-◌, ◌≤◌, ◌<◌, ◌≡◌, ◌≢◌, inl, inr, refl, Bool, false, List, [], ◌∷◌, Text, if◌then◌else◌,
  text_eq, leb, ◌==◌, length, take, to_lower, byte_length, arith, Permᴰ, Memᴰ, All, AllPairs,
  All-perm, All-take, All-weaken, All-self, Rearranges, sort_by, sort_by-perm, differ, Bool-cases,
  if_cases, if_keeps,
}
use mathlib.Core.List.Permᴰ
use mathlib.Core.Bool.{true≢false}
use memknow.Recall.Format.{member}
use memknow.Recall.MemoryFiles.{MemoryFile}
use memknow.Recall.Memory.{
  ScoredMemory, distinct_words, query_words, count_hits, memory_text, source_of, higher,
  extract_memory_keywords, any_like, select_rows, score_rows, first_texts, search_memories_db,
}

-- A word of at least two bytes that is not among those seen.
abbrev IsNewWord : List Text → Text → Type 0
IsNewWord seen w = (1 < byte_length w) × (member w seen ≡ false)

fresh_word : (w p : Text) (seen : List Text) → IsNewWord (p ∷ seen) w → (p ≢ w) × IsNewWord seen w
unfolding member
fresh_word w p seen h = elim (Bool-cases (text_eq p w)) [
  | inl e ↦ elim (true≢false (rw e at h.1)) [ ]
  | inr e ↦ (differ p w e, (h.0, rw e at h.1))
]

distinct_words-new :
    (seen l : List Text)
    → All (IsNewWord seen) (distinct_words seen l) × AllPairs (λ v w. v ≢ w) (distinct_words seen l)
unfolding distinct_words
distinct_words-new seen [] = (tt, tt)
distinct_words-new seen (p ∷ l) =
    let Goal : List Text → Type 0 = λ r. All (IsNewWord seen) r × AllPairs (λ v w. v ≢ w) r in
    let rest = distinct_words-new (p ∷ seen) l in
    let fresh =
      All-weaken (IsNewWord (p ∷ seen)) (λ w. (p ≢ w) × IsNewWord seen w)
        (distinct_words (p ∷ seen) l) (λ w. fresh_word w p seen) rest.0 in
    if_cases Goal (leb (byte_length p) 1) _ _ (λ _. distinct_words-new seen l)
      (λ long.
        if_cases Goal (member p seen) _ _ (λ _. distinct_words-new seen l)
          (λ new. (
            (
              (ground arith, new),
              All-weaken (λ w. (p ≢ w) × IsNewWord seen w) (IsNewWord seen)
                  (distinct_words (p ∷ seen) l) (λ w h. h.1) fresh,
            ),
            (
              All-weaken (λ w. (p ≢ w) × IsNewWord seen w) (λ w. p ≢ w)
                  (distinct_words (p ∷ seen) l) (λ w h. h.0) fresh,
              rest.1,
            ),
          )))

-- The keywords of a message are different words of at least two bytes.
pub extract_memory_keywords-new :
    (table : ℕ → ℕ) (query : Text)
    → let ks = extract_memory_keywords table query in
      All (λ w. 1 < byte_length w) ks × AllPairs (λ v w. v ≢ w) ks
unfolding extract_memory_keywords
extract_memory_keywords-new table query =
    let r = distinct_words-new [] (query_words table query) in
    (All-weaken (IsNewWord []) (λ w. 1 < byte_length w) _ (λ w h. h.0) r.0, r.1)

select_rows-All {κ} :
    (P : Text × MemoryFile → Type κ) (ks : List Text) (l : List (Text × MemoryFile))
    → All P l
    → All P (select_rows ks l)
unfolding select_rows
select_rows-All P ks [] h = tt
select_rows-All P ks ((path, r) ∷ l) h =
    if_keeps (All P) (any_like r.content ks) _ _ (h.0, select_rows-All P ks l h.1)
      (select_rows-All P ks l h.1)

first_texts-All {κ} :
    (P : Text → Type κ) (n : ℕ) (seen : List Text) (l : List ScoredMemory)
    → All (λ s. P s.text) l
    → All P (first_texts n seen l)
unfolding first_texts
first_texts-All P n seen [] h = tt
first_texts-All P n seen (s ∷ l) h =
    if_cases (All P) (member s.path seen) (first_texts n seen l)
      (s.text ∷ (if leb n 1 then [] else first_texts (n - 1) (s.path ∷ seen) l))
      (λ _. first_texts-All P n seen l h.1)
      (λ _.
        (h.0, if_keeps (All P) (leb n 1) _ _ tt (first_texts-All P (n - 1) (s.path ∷ seen) l h.1)))

length-first_texts :
    (n : ℕ) (seen : List Text) (l : List ScoredMemory) → 1 ≤ n → length (first_texts n seen l) ≤ n
unfolding first_texts
length-first_texts n seen [] h = omega arith
length-first_texts n seen (s ∷ l) h =
    if_cases (λ r. length r ≤ n) (member s.path seen) (first_texts n seen l)
      (s.text ∷ (if leb n 1 then [] else first_texts (n - 1) (s.path ∷ seen) l))
      (λ _. length-first_texts n seen l h)
      (λ _.
        if_cases (λ r. length (s.text ∷ r) ≤ n) (leb n 1) _ _ (λ _. omega arith)
          (λ g. ground (arith, length-first_texts (n - 1) (s.path ∷ seen) l (ground arith))))

module _ (table : ℕ → ℕ) where
  -- The text of a memory file that holds a keyword, cut at 300 bytes, with its source.
  abbrev pub IsRelevant : List (Text × MemoryFile) → List Text → Text → Type 0
  IsRelevant rows ks text =
      (e : Text × MemoryFile) × Memᴰ e rows
      × (0 < count_hits (to_lower table e.1.content) ks)
      × (text ≡ memory_text (source_of e.0) e.1.content 300)

  score_rows-IsRelevant :
      (rows : List (Text × MemoryFile)) (ks : List Text) (l : List (Text × MemoryFile))
      → All (λ e. Memᴰ e rows) l
      → All (λ s. IsRelevant rows ks s.text) (score_rows table ks l)
  unfolding score_rows
  score_rows-IsRelevant rows ks [] h = tt
  score_rows-IsRelevant rows ks ((path, r) ∷ l) h =
      elim (Bool-cases (count_hits (to_lower table r.content) ks == 0)) [
        | inl e ↦ rw e (score_rows-IsRelevant rows ks l h.1)
        | inr e ↦ rw e (((path, r), h.0, ground arith, refl), score_rows-IsRelevant rows ks l h.1)
      ]

  -- At most three memories are recalled for a message, each the text of a file of the table that
  -- holds one of the message's keywords, for every order in which SQLite returns the rows and Go
  -- sorts equal scores.
  pub search_memories_db-IsRelevant :
      (arrange : List ScoredMemory → List ScoredMemory)
      (stored : List (Text × MemoryFile) → List (Text × MemoryFile))
      → Rearranges arrange
      → Rearranges stored
      → (read_ok : Bool) (rows : List (Text × MemoryFile)) (query : Text)
      → let texts = search_memories_db table arrange stored read_ok rows query in
        (length texts ≤ 3) × All (IsRelevant rows (extract_memory_keywords table query)) texts
  unfolding search_memories_db
  search_memories_db-IsRelevant arrange stored order kept read_ok rows query =
      let ks = extract_memory_keywords table query in
      let found = take 50 (select_rows ks (stored rows)) in
      let members =
        All-take (λ e. Memᴰ e rows) 50 (select_rows ks (stored rows))
          (select_rows-All (λ e. Memᴰ e rows) ks (stored rows)
            (All-perm (λ e. Memᴰ e rows) (Permᴰ.symm (kept rows)) (All-self rows))) in
      let ranked = sort_by higher (arrange (score_rows table ks found)) in
      let perm = Permᴰ.trans (sort_by-perm higher _) (order (score_rows table ks found)) in
      if_keeps (λ r. (length r ≤ 3) × All (IsRelevant rows ks) r) (length ks == 0) _ _
        (omega arith, tt)
        (if_keeps (λ r. (length r ≤ 3) × All (IsRelevant rows ks) r) read_ok
          (first_texts 3 [] ranked) []
          (
            length-first_texts 3 [] ranked (omega arith),
            first_texts-All (IsRelevant rows ks) 3 [] ranked (
                All-perm (λ s. IsRelevant rows ks s.text) (Permᴰ.symm perm)
                  (score_rows-IsRelevant rows ks found members)),
          )
          (omega arith, tt))
