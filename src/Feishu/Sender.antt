-- ===== src/Feishu/Sender.antt =====
-- internal/feishu/sender.go: the text of a card and of a message, made fit for Feishu.
use memknow.Common.{
  ℕ, zero, suc, ◌+◌, ◌-◌, Bool, true, false, not, ◌||◌, List, [], ◌∷◌, ◌++◌, Option, none, some,
  Text, codes, if◌then◌else◌, is_empty, ltb, leb, ◌==◌, length, take, drop, trim_space, trim_left,
  trim_right, join, split, replace_all, lookup,
}

-- `[\x{200B}\x{200C}\x{200D}\x{FEFF}]`
unfoldable pub is_zero_width : ℕ → Bool
is_zero_width c = c == 0x200B || c == 0x200C || c == 0x200D || c == 0xFEFF

unfoldable pub drop_zero_width : Text → Text
unfolding is_zero_width
drop_zero_width [] = []
drop_zero_width (c ∷ s) = let rest = drop_zero_width s in if is_zero_width c then rest else c ∷ rest

-- `\n{3}` becomes two newlines; `run` newlines were just read.
unfoldable pub limit_blank_lines : ℕ → Text → Text
limit_blank_lines run [] = []
limit_blank_lines run (c ∷ s) =
    let next = limit_blank_lines (suc run) s in
    let other = limit_blank_lines 0 s in
    if c == b'\n' then (if ltb run 2 then c ∷ next else next) else c ∷ other

abbrev pub is_blank_or_tab : ℕ → Bool
is_blank_or_tab c = c == 0x20 || c == 9

unfoldable pub trim_lines : List Text → List Text
unfolding trim_right
trim_lines [] = []
trim_lines (l ∷ ls) = trim_right is_blank_or_tab l ∷ trim_lines ls

-- The text is empty exactly if nothing of it is left.
unfoldable pub sanitize_outbound_text : Text → Text
unfolding replace_all drop_zero_width split trim_lines join limit_blank_lines trim_space
sanitize_outbound_text text =
    let unix =
      replace_all (replace_all text (codes "\r\n") (codes "\n")) (codes "\r") (codes "\n") in
    let lines = trim_lines (split (drop_zero_width unix) (codes "\n")) in
    if is_empty text then [] else trim_space (limit_blank_lines 0 (join lines (codes "\n")))

-- `\s` of the regexp package, and what `.` does not match.
unfoldable pub is_regexp_space : ℕ → Bool
is_regexp_space c = c == 9 || c == 10 || c == 12 || c == 13 || c == 32

unfoldable pub count_while : (ℕ → Bool) → Text → ℕ
count_while p [] = 0
count_while p (c ∷ s) = let rest = count_while p s in if p c then suc rest else 0

abbrev pub in_line : ℕ → Bool
in_line c = not (c == b'\n')

-- `\s+(.+)$` behind the hashes, with the longest blanks that leave something: what is matched
-- together with the hashes, and the heading's text.
unfoldable pub heading_from : ℕ → ℕ → Text → Option (ℕ × Text)
unfolding count_while
heading_from hashes zero s = none
heading_from hashes (suc k) s =
    let rest = drop (suc k) s in
    let n = count_while in_line rest in
    let shorter = heading_from hashes k s in
    if n == 0 then shorter else some (hashes + suc k + n, take n rest)

-- `^#{1,6}\s+(.+)$` at the start of a line.
unfoldable pub heading_at : Text → Option (ℕ × Text)
unfolding count_while heading_from is_regexp_space
heading_at s =
    let hashes = count_while (λ c. c == b'#') s in
    let rest = drop hashes s in
    if hashes == 0 || ltb 6 hashes
    then none
    else heading_from hashes (count_while is_regexp_space rest) rest

-- Headings become bold; `k` runes belong to the heading just replaced.
unfoldable pub bold_headings : Bool → ℕ → Text → Text
unfolding heading_at trim_space
bold_headings at_start k [] = []
bold_headings at_start (suc k) (c ∷ s) = bold_headings false k s
bold_headings at_start zero (c ∷ s) =
    let same = c ∷ bold_headings (c == b'\n') 0 s in
    elim (if at_start then heading_at (c ∷ s) else none) [
      | none ↦ same
      | some (n, text) ↦
          codes "**" ++ (trim_space text ++ (codes "**" ++ bold_headings false (n - 1) s))
    ]

unfoldable pub process_feishu_card_markdown : Text → Text
unfolding replace_all bold_headings trim_space
process_feishu_card_markdown s =
    trim_space (bold_headings true 0 (replace_all s (codes "\\n") (codes "\n")))

abbrev pub readable_keys : List Text
readable_keys =
    codes "text"
    ∷ codes "message"
    ∷ codes "content"
    ∷ codes "result"
    ∷ codes "output"
    ∷ codes "response"
    ∷ codes "answer"
    ∷ []

-- The first of the keys whose value is a string that is not blank; a value is `none` where it is
-- no string.
unfoldable pub first_readable : List Text → List (Text × Option Text) → Option Text
unfolding lookup trim_space
first_readable [] obj = none
first_readable (k ∷ ks) obj =
    let rest = first_readable ks obj in
    elim (lookup k obj) [
      | none ↦ rest
      | some none ↦ rest
      | some (some s) ↦ if is_empty (trim_space s) then rest else some s
    ]

abbrev pub head_readable : List (Option Text) → Text → Text
head_readable [] text = text
head_readable (none ∷ l) text = text
head_readable (some s ∷ l) text = if is_empty (trim_space s) then text else s

abbrev pub starts_json : Text → Bool
starts_json [] = false
starts_json (c ∷ []) = false
starts_json (c ∷ d ∷ s) = c == b'{' || c == b'['

-- json.Unmarshal into a map and into an array.
module _ (decode_object : Text → Option (List (Text × Option Text)))
    (decode_array : Text → Option (List (Option Text))) where
  unfoldable pub extract_readable_from_json : Text → Text
  unfolding trim_space trim_left first_readable
  extract_readable_from_json text =
      let trimmed = trim_space text in
      if starts_json trimmed
      then elim (decode_object trimmed) [
        | some obj ↦ elim (first_readable readable_keys obj) [ none ↦ text | some s ↦ s ]
        | none ↦ elim (decode_array trimmed) [ none ↦ text | some arr ↦ head_readable arr text ]
      ]
      else text

  unfoldable pub normalize_feishu_card_text : Text → Text
  unfolding extract_readable_from_json sanitize_outbound_text process_feishu_card_markdown
      trim_space
  normalize_feishu_card_text text =
      let content =
        trim_space (
          process_feishu_card_markdown
            (sanitize_outbound_text (extract_readable_from_json text))) in
      let n = length content in
      if is_empty content
      then codes "Thinking..."
      else if leb n 8000
      then content
      else codes "...\n" ++ drop (n - 8000) content
