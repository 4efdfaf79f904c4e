-- ===== src/Recall/Sanitized.antt =====
-- A sanitized query with Han runes has its quotes in pairs too.
use memknow.Common.{
  ℕ, ◌*◌, ◌≡◌, ◌≢◌, inl, inr, refl, Bool, true, false, List, [], ◌∷◌, ◌++◌, Text, codes, is_empty,
  ◌==◌, All, All-append, arith, trim_space, has_prefix, find_pair, replace_from, replace_pairs,
  replace_all, join, Bool-cases, if_cases, if_keeps,
}
use memknow.Recall.Query.{
  is_separator, scan_query, bigrams, quote_words, cjk_parts, query_parts, build_cjk_bigram_query,
  has_han_rune, sanitize_plain, sanitize_fts5_query,
}
use memknow.Recall.Balanced.{quotes, quotes-append}
use memknow.Recall.Phrases.{IsBalanced, sanitize_plain-IsBalanced}

quotes-doubled :
    (s : Text) → quotes (replace_from ((codes "\"", codes "\"\"") ∷ []) 0 s) ≡ 2 * quotes s
unfolding replace_from find_pair has_prefix quotes
quotes-doubled [] = refl
quotes-doubled (c ∷ s) = elim (Bool-cases (c == b'"')) [
  | inl e ↦ rw (e, replace_from, find_pair) (omega (arith, quotes-doubled s))
  | inr e ↦ rw (e, replace_from, find_pair) (ground (arith, quotes-doubled s))
]

NoQuote : ℕ → Type 0
NoQuote c = c ≢ b'"'

bigrams-IsBalanced : (l : List ℕ) → All NoQuote l → All IsBalanced (bigrams l)
unfolding bigrams quotes NoQuote
bigrams-IsBalanced [] h = tt
bigrams-IsBalanced (a ∷ []) h = tt
bigrams-IsBalanced (a ∷ b ∷ l) h = (ground arith, bigrams-IsBalanced (b ∷ l) h.1)

cjk_parts-IsBalanced : (l : List ℕ) → All NoQuote l → All IsBalanced (cjk_parts l)
unfolding cjk_parts quotes NoQuote
cjk_parts-IsBalanced [] h = tt
cjk_parts-IsBalanced (a ∷ []) h = (ground arith, tt)
cjk_parts-IsBalanced (a ∷ b ∷ l) h = bigrams-IsBalanced (a ∷ b ∷ l) h

quoted_word :
    (t : Text) → IsBalanced (b'"' ∷ (replace_all t (codes "\"") (codes "\"\"") ++ b'"' ∷ []))
unfolding replace_all replace_pairs quotes
quoted_word t =
    rw (quotes-append (replace_all t (codes "\"") (codes "\"\"")) (b'"' ∷ []))
      (omega (arith, quotes-doubled t))

quote_words-IsBalanced : (l : List Text) → All IsBalanced (quote_words l)
unfolding quote_words
quote_words-IsBalanced [] = tt
quote_words-IsBalanced (w ∷ l) =
    if_keeps (All IsBalanced) (is_empty (trim_space w)) _ _ (quote_words-IsBalanced l)
      (quoted_word (trim_space w), quote_words-IsBalanced l)

join-IsBalanced :
    (l : List Text) (sep : Text) → quotes sep ≡ 0 → All IsBalanced l → IsBalanced (join l sep)
unfolding join quotes
join-IsBalanced [] sep e h = refl
join-IsBalanced (p ∷ []) sep e h = h.0
join-IsBalanced (p ∷ q ∷ l) sep e h = rw (quotes-append p (sep ++ join (q ∷ l) sep)) (
    rw (quotes-append sep (join (q ∷ l) sep))
      (omega (arith, h.0, e, join-IsBalanced (q ∷ l) sep e h.1)))

module _ (is_han : ℕ → Bool) (plain : is_han b'"' ≡ false) where
  han-NoQuote : (c : ℕ) → is_han c ≡ true → NoQuote c
  unfolding NoQuote
  han-NoQuote c h q = cc

  scan_query-NoQuote :
      (buf : Text) (cjk : List ℕ) (words : List Text) (s : Text)
      → All NoQuote cjk
      → All NoQuote (scan_query is_han buf cjk words s).0
  unfolding scan_query
  scan_query-NoQuote buf cjk words [] h = h
  scan_query-NoQuote buf cjk words (c ∷ s) h =
      if_cases (λ (r : List ℕ × List Text). All NoQuote r.0) (is_han c) _ _
        (λ e.
          scan_query-NoQuote [] (cjk ++ c ∷ []) _ s
            (All-append NoQuote cjk (c ∷ []) h (han-NoQuote c e, tt)))
        (λ _.
          if_keeps (λ (r : List ℕ × List Text). All NoQuote r.0) (is_separator c) _ _
            (scan_query-NoQuote [] cjk _ s h) (scan_query-NoQuote (buf ++ c ∷ []) cjk words s h))

  build_cjk_bigram_query-IsBalanced : (s : Text) → IsBalanced (build_cjk_bigram_query is_han s)
  unfolding build_cjk_bigram_query query_parts quotes
  build_cjk_bigram_query-IsBalanced s =
      let r = scan_query is_han [] [] [] s in
      join-IsBalanced (cjk_parts r.0 ++ quote_words r.1) (codes " OR ") refl (
        All-append IsBalanced (cjk_parts r.0) (quote_words r.1)
          (cjk_parts-IsBalanced r.0 (scan_query-NoQuote [] [] [] s tt))
          (quote_words-IsBalanced r.1))

  -- The query that the full text search is given has its double quotes in pairs, whatever the user
  -- wrote, where a quote is not a Han rune.
  pub sanitize_fts5_query-IsBalanced :
      (query : Text) → IsBalanced (sanitize_fts5_query is_han query)
  unfolding sanitize_fts5_query quotes
  sanitize_fts5_query-IsBalanced query =
      let s = sanitize_plain query in
      if_keeps IsBalanced (is_empty (trim_space query)) _ _ refl (
        if_keeps IsBalanced (has_han_rune is_han s) _ _
          (if_keeps IsBalanced (is_empty (build_cjk_bigram_query is_han s)) _ _
            (sanitize_plain-IsBalanced query) (build_cjk_bigram_query-IsBalanced s))
          (sanitize_plain-IsBalanced query))
