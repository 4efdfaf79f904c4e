-- ===== src/Recall/Query.antt =====
-- internal/session/search.go: sanitizeFTS5Query and buildCJKBigramQuery, with the matches of their
-- regular expressions by recursion on the text.
use memknow.Common.{
  ℕ, zero, suc, ◌-◌, Bool, true, false, not, ◌&&◌, ◌||◌, List, [], ◌∷◌, ◌++◌, map, Option, none,
  some, Text, codes, if◌then◌else◌, is_empty, ltb, leb, ◌==◌, length, drop, trim_space, is_space,
  has_prefix, join, decimal, replace_all, to_lower,
}
use mathlib.Core.List.{reverse}

-- The token that stands for the i-th quoted phrase.
abbrev pub token : ℕ → Text
token i = 0 ∷ b'Q' ∷ (decimal i ++ 0 ∷ [])

-- `"[^"]*"`: from a quote to the next one. `phrase` is what was read of the phrase that is open,
-- `some` of its runes; an open quote without another one stays.
unfoldable pub protect : ℕ → Option Text → Text → Text × List Text
unfolding decimal
protect i none [] = ([], [])
protect i (some phrase) [] = (b'"' ∷ phrase, [])
protect i none (c ∷ s) =
    let opened = protect i (some []) s in
    let rest = protect i none s in if c == b'"' then opened else (c ∷ rest.0, rest.1)
protect i (some phrase) (c ∷ s) =
    let closed = protect (suc i) none s in
    let rest = protect i (some (phrase ++ c ∷ [])) s in
    if c == b'"' then (token i ++ closed.0, (b'"' ∷ (phrase ++ b'"' ∷ [])) ∷ closed.1) else rest

-- `[+{}()\"^]`
unfoldable pub is_special : ℕ → Bool
is_special c =
    c == b'+' || c == b'{' || c == b'}' || c == b'(' || c == b')' || c == b'"' || c == b'^'

unfoldable pub strip_special : Text → Text
unfolding is_special
strip_special s = map (λ c. if is_special c then 0x20 else c) s

-- `\*+` becomes one asterisk; `before` says that one was just read.
unfoldable pub collapse_asterisks : Bool → Text → Text
collapse_asterisks before [] = []
collapse_asterisks before (c ∷ s) =
    let again = collapse_asterisks true s in
    let other = collapse_asterisks false s in
    if c == b'*' then (if before then again else c ∷ again) else c ∷ other

-- `\s` of the regexp package.
unfoldable pub is_blank : ℕ → Bool
is_blank c = c == 9 || c == 10 || c == 12 || c == 13 || c == 32

-- `(^|\s)\*` loses its asterisk.
unfoldable pub drop_leading_asterisks : Bool → Text → Text
unfolding is_blank
drop_leading_asterisks at_start [] = []
drop_leading_asterisks at_start (c ∷ s) =
    let dropped = drop_leading_asterisks false s in
    let rest = drop_leading_asterisks (is_blank c) s in
    if at_start && c == b'*' then dropped else c ∷ rest

-- `\w`.
unfoldable pub is_word : ℕ → Bool
is_word c =
    (leb b'0' c && leb c b'9')
    || (leb b'A' c && leb c b'Z')
    || (leb b'a' c && leb c b'z')
    || c == b'_'

abbrev pub starts_word : Text → Bool
starts_word [] = false
starts_word (c ∷ s) = is_word c

unfoldable pub skip_blanks : Text → Text
unfolding is_blank
skip_blanks [] = []
skip_blanks (c ∷ s) = let rest = skip_blanks s in if is_blank c then rest else c ∷ s

-- The operators in lower case, as `(?i)` compares them.
abbrev pub operators : List Text
operators = codes "and" ∷ codes "or" ∷ codes "not" ∷ []

abbrev pub ascii_lower : Text → Text
ascii_lower s = to_lower (λ c. c) s

-- The operator at the start, where a word ends behind it.
unfoldable pub leading_operator : List Text → Text → Option Text
unfolding has_prefix to_lower is_word
leading_operator [] s = none
leading_operator (w ∷ ws) s =
    if has_prefix (ascii_lower s) w && not (starts_word (drop (length w) s))
    then some w
    else leading_operator ws s

-- `(?i)^(AND|OR|NOT)\b\s*`
unfoldable pub drop_leading_bool : Text → Text
unfolding leading_operator skip_blanks
drop_leading_bool s = elim (leading_operator operators s) [
  | none ↦ s
  | some w ↦ skip_blanks (drop (length w) s)
]

abbrev pub starts_blank : Text → Bool
starts_blank [] = false
starts_blank (c ∷ s) = is_blank c

-- The operator at the end of a text that is read from its end, with a blank before it.
unfoldable pub trailing_operator : List Text → Text → Option Text
unfolding has_prefix to_lower is_blank
trailing_operator [] s = none
trailing_operator (w ∷ ws) s =
    if has_prefix (ascii_lower s) (reverse w) && starts_blank (drop (length w) s)
    then some w
    else trailing_operator ws s

-- `(?i)\s+(AND|OR|NOT)\s*$`
unfoldable pub drop_trailing_bool : Text → Text
unfolding trailing_operator skip_blanks
drop_trailing_bool s =
    let back = skip_blanks (reverse s) in
    elim (trailing_operator operators back) [
      | none ↦ s
      | some w ↦ reverse (skip_blanks (drop (length w) back))
    ]

-- The longest run of words joined by single dots and hyphens at the start of a text: `parts` counts
-- the joints, `n` the runes; `joint` says that a joint was just read.
unfoldable pub joined_run : ℕ → ℕ → Bool → Text → ℕ × ℕ
unfolding is_word
joined_run parts n joint [] = if joint then (parts - 1, n - 1) else (parts, n)
joined_run parts n joint (c ∷ s) =
    let word = joined_run parts (suc n) false s in
    let next = joined_run (suc parts) (suc n) true s in
    if is_word c
    then word
    else if joint
    then (parts - 1, n - 1)
    else if c == b'.' || c == b'-'
    then next
    else (parts, n)

-- `\b(\w+(?:[.-]\w+)+)\b` gets quotes. `k` runes belong to the term just found, `inside` says that
-- a word is being passed.
unfoldable pub quote_joined : ℕ → Bool → Text → Text
unfolding joined_run is_word
quote_joined k inside [] = []
quote_joined (suc zero) inside (c ∷ s) = c ∷ b'"' ∷ quote_joined 0 true s
quote_joined (suc (suc k)) inside (c ∷ s) = c ∷ quote_joined (suc k) true s
quote_joined zero inside (c ∷ s) =
    let (parts, n) = joined_run 0 0 false (c ∷ s) in
    let found = not inside && is_word c && ltb 0 parts in
    let term = b'"' ∷ c ∷ quote_joined (n - 1) true s in
    let rest = c ∷ quote_joined 0 (is_word c) s in if found then term else rest

unfoldable pub restore : ℕ → List Text → Text → Text
unfolding replace_all decimal
restore i [] s = s
restore i (q ∷ qs) s = restore (suc i) qs (replace_all s (token i) q)

-- The query before the test for Han runes.
unfoldable pub sanitize_plain : Text → Text
unfolding protect strip_special collapse_asterisks drop_leading_asterisks drop_leading_bool
    drop_trailing_bool quote_joined restore
sanitize_plain query =
    let (tokens, phrases) = protect 0 none query in
    let starred = drop_leading_asterisks true (collapse_asterisks false (strip_special tokens)) in
    let inner = drop_trailing_bool (trim_space (drop_leading_bool (trim_space starred))) in
    trim_space (restore 0 phrases (quote_joined 0 false inner))

abbrev pub flush : Text → List Text → List Text
flush buf words = let w = trim_space buf in if is_empty w then words else words ++ w ∷ []

abbrev pub is_separator : ℕ → Bool
is_separator c = is_space c || c == b'|' || c == b'*' || is_special c

-- Every two neighbours.
unfoldable pub bigrams : List ℕ → List Text
bigrams [] = []
bigrams (a ∷ []) = []
bigrams (a ∷ b ∷ l) = (b'"' ∷ a ∷ b ∷ b'"' ∷ []) ∷ bigrams (b ∷ l)

unfoldable pub quote_words : List Text → List Text
unfolding replace_all trim_space
quote_words [] = []
quote_words (w ∷ l) =
    let rest = quote_words l in
    let t = trim_space w in
    if is_empty t
    then rest
    else (b'"' ∷ (replace_all t (codes "\"") (codes "\"\"") ++ b'"' ∷ [])) ∷ rest

unfoldable pub cjk_parts : List ℕ → List Text
unfolding bigrams
cjk_parts (a ∷ []) = (b'"' ∷ a ∷ b'"' ∷ []) ∷ []
cjk_parts l = bigrams l

-- Go's table of the script Han.
module _ (is_han : ℕ → Bool) where
  unfoldable pub has_han_rune : Text → Bool
  has_han_rune [] = false
  has_han_rune (c ∷ s) = is_han c || has_han_rune s

  -- The loop over the runes: the Han runes and the other words, with the word being read.
  unfoldable pub scan_query : Text → List ℕ → List Text → Text → List ℕ × List Text
  unfolding trim_space is_special is_space
  scan_query buf cjk words [] = (cjk, flush buf words)
  scan_query buf cjk words (c ∷ s) =
      let han = scan_query [] (cjk ++ c ∷ []) (flush buf words) s in
      let cut_here = scan_query [] cjk (flush buf words) s in
      let rest = scan_query (buf ++ c ∷ []) cjk words s in
      if is_han c then han else if is_separator c then cut_here else rest

  unfoldable pub query_parts : Text → List Text
  unfolding scan_query cjk_parts quote_words
  query_parts s = let (cjk, words) = scan_query [] [] [] s in cjk_parts cjk ++ quote_words words

  unfoldable pub build_cjk_bigram_query : Text → Text
  unfolding query_parts join
  build_cjk_bigram_query s = join (query_parts s) (codes " OR ")

  unfoldable pub sanitize_fts5_query : Text → Text
  unfolding sanitize_plain has_han_rune build_cjk_bigram_query trim_space
  sanitize_fts5_query query =
      let sanitized = sanitize_plain query in
      let expanded = build_cjk_bigram_query sanitized in
      if is_empty (trim_space query)
      then []
      else if has_han_rune sanitized
      then (if is_empty expanded then sanitized else expanded)
      else sanitized
