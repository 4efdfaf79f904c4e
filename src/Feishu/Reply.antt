-- ===== src/Feishu/Reply.antt =====
-- internal/feishu/sender.go: whether a text is Markdown, the kind of message it is sent as, and
-- SendText, SendCard, UpdateCard and sendPlainText over Feishu's API.
use memknow.Common.{
  ℕ, ◌+◌, Bool, true, false, not, ◌&&◌, ◌||◌, List, [], ◌∷◌, ◌++◌, Option, none, some, Text, codes,
  if◌then◌else◌, ltb, leb, ◌==◌, length, take, drop, trim_space, trim_right, has_prefix, has_suffix,
  contains, split, replace_all, byte_length,
}
use memknow.Feishu.Sender.{
  is_regexp_space, count_while, in_line, sanitize_outbound_text, normalize_feishu_card_text,
}

-- The alternatives of markdownHintRe, each at one place. At the start of a line: a heading, a bullet,
-- a number, a quote, a table row.
abbrev pub blank_follows : Text → Bool
blank_follows [] = false
blank_follows (c ∷ s) = is_regexp_space c

abbrev pub skip_spaces : Text → Text
skip_spaces s = drop (count_while is_regexp_space s) s

unfoldable pub is_heading_line : Text → Bool
unfolding count_while is_regexp_space
is_heading_line s =
    let n = count_while (λ c. c == b'#') s in ltb 0 n && leb n 6 && blank_follows (drop n s)

abbrev pub is_bullet : Text → Bool
is_bullet [] = false
is_bullet (c ∷ s) = (c == b'-' || c == b'*') && blank_follows s

abbrev pub dot_follows : Text → Bool
dot_follows [] = false
dot_follows (c ∷ s) = c == b'.' && blank_follows s

abbrev pub is_digit : ℕ → Bool
is_digit c = leb b'0' c && leb c b'9'

unfoldable pub is_numbered : Text → Bool
unfolding count_while is_regexp_space
is_numbered s = let n = count_while is_digit s in ltb 0 n && dot_follows (drop n s)

abbrev pub is_quote_line : Text → Bool
is_quote_line [] = false
is_quote_line (c ∷ s) = c == b'>' && blank_follows s

-- `\|.+\|\s*$`: the line ends with a bar that is not next to the first one.
abbrev pub is_table_row : Text → Bool
is_table_row [] = false
is_table_row (c ∷ s) =
    let line = trim_right is_regexp_space (take (count_while in_line s) s) in
    c == b'|' && ltb 1 (length line) && has_suffix line (codes "|")

unfoldable pub is_markdown_line : Text → Bool
unfolding is_heading_line is_numbered count_while is_regexp_space trim_right has_suffix
is_markdown_line s =
    let rest = skip_spaces s in
    is_heading_line s || is_bullet rest || is_numbered rest || is_quote_line s || is_table_row rest

-- Anywhere: a code span, bold text, a link.
abbrev pub starts_with : ℕ → Text → Bool
starts_with d [] = false
starts_with d (c ∷ s) = c == d

abbrev pub in_code : ℕ → Bool
in_code c = not (c == b'`' || c == b'\n')

unfoldable pub is_code_span : Text → Bool
unfolding count_while
is_code_span [] = false
is_code_span (c ∷ s) =
    let n = count_while in_code s in c == b'`' && ltb 0 n && starts_with b'`' (drop n s)

-- `\*\*[^*\n].+?\*\*` behind the two asterisks.
abbrev pub bold_follows : Text → Bool
bold_follows [] = false
bold_follows (c ∷ s) =
    let line = take (count_while in_line s) s in
    not (c == b'*' || c == b'\n') && contains (drop 1 line) (codes "**")

unfoldable pub is_bold : Text → Bool
unfolding has_prefix contains count_while
is_bold s = has_prefix s (codes "**") && bold_follows (drop 2 s)

-- `\[[^\]]+\]\([^)]+\)`
unfoldable pub is_link : Text → Bool
unfolding count_while
is_link [] = false
is_link (c ∷ s) =
    let n = count_while (λ d. not (d == b']')) s in
    let target = drop (n + 2) s in
    let m = count_while (λ d. not (d == b')')) target in
    c == b'['
    && ltb 0 n
    && starts_with b']' (drop n s)
    && starts_with b'(' (drop (n + 1) s)
    && ltb 0 m
    && starts_with b')' (drop m target)

unfoldable pub is_markdown_at : Text → Bool
unfolding has_prefix is_code_span is_bold is_link
is_markdown_at s = has_prefix s (codes "```") || is_code_span s || is_bold s || is_link s

unfoldable pub contains_markdown_from : Bool → Text → Bool
unfolding is_markdown_line is_markdown_at
contains_markdown_from at_start [] = false
contains_markdown_from at_start (c ∷ s) =
    (at_start && is_markdown_line (c ∷ s))
    || is_markdown_at (c ∷ s)
    || contains_markdown_from (c == b'\n') s

unfoldable pub contains_markdown : Text → Bool
unfolding contains_markdown_from
contains_markdown s = contains_markdown_from true s

unfoldable pub any_table_line : List Text → Bool
unfolding trim_space has_prefix has_suffix byte_length
any_table_line [] = false
any_table_line (l ∷ ls) =
    let trimmed = trim_space l in
    (ltb 1 (byte_length trimmed)
      && has_prefix trimmed (codes "|")
      && has_suffix trimmed (codes "|"))
    || any_table_line ls

unfoldable pub has_complex_markdown : Text → Bool
unfolding contains any_table_line split
has_complex_markdown s = contains s (codes "```") || any_table_line (split s (codes "\n"))

unfoldable pub strip_markdown_to_plain_text : Text → Text
unfolding replace_all trim_space
strip_markdown_to_plain_text s = trim_space (
    replace_all
      (replace_all (replace_all (replace_all s (codes "```") []) (codes "**") []) (codes "__") [])
      (codes "`") [])

-- A message's type with the text in its JSON body; json.Marshal of strings does not fail.
pub data Content : Type 0 where
  plain card post : Text → Content

-- What the API answers: an error of the call, a refusal with its message, or the message's id, which
-- can be missing.
pub data Response : Type 0 where
  call_failed refused : Text → Response
  created : Option Text → Response

pub data SendResult : Type 0 where
  sent : Text → SendResult
  not_sent : Text → SendResult

abbrev pub id_or_empty : Option Text → Text
id_or_empty none = []
id_or_empty (some id) = id

-- The answer to a message that has no other way to be sent.
abbrev pub final_result : Response → SendResult
final_result (call_failed error) = not_sent error
final_result (refused message) = not_sent message
final_result (created id) = sent (id_or_empty id)

abbrev pub failure_text : Response → Option Text
failure_text (call_failed error) = some error
failure_text (refused message) = some message
failure_text (created id) = none

-- json.Unmarshal into a map and into an array; the error that postContentInvalidRe matches; the
-- answers of the API to the contents that are sent, by the number of calls before.
module _ (decode_object : Text → Option (List (Text × Option Text)))
    (decode_array : Text → Option (List (Option Text))) (post_invalid : Text → Bool)
    (answer : ℕ → Content → Response) where
  abbrev pub build_card : Text → Content
  build_card text = card (normalize_feishu_card_text decode_object decode_array text)

  unfoldable pub build_reply_content : Text → Content
  unfolding sanitize_outbound_text contains_markdown has_complex_markdown normalize_feishu_card_text
  build_reply_content text =
      let content = sanitize_outbound_text text in
      if not (contains_markdown content)
      then plain content
      else if has_complex_markdown content
      then build_card content
      else post content

  -- Whether a message that was not accepted is sent once more as plain text.
  abbrev pub falls_back : Content → Text → Bool
  falls_back (plain text) error = false
  falls_back (card text) error = true
  falls_back (post text) error = post_invalid error

  -- A message that is sent once: the calls made so far with the new one, and the result.
  abbrev pub send_once : List Content → Content → List Content × SendResult
  send_once calls content = (calls ++ content ∷ [], final_result (answer (length calls) content))

  unfoldable pub send_plain_text : List Content → Text → List Content × SendResult
  unfolding sanitize_outbound_text
  send_plain_text calls text = send_once calls (plain (sanitize_outbound_text text))

  -- SendText of a content, with the text that is sent where Feishu does not take it.
  unfoldable pub deliver : List Content → Content → Text → List Content × SendResult
  unfolding send_plain_text
  deliver calls content fallback =
      let again = send_plain_text (calls ++ content ∷ []) fallback in
      elim (failure_text (answer (length calls) content)) [
        | none ↦ send_once calls content
        | some error ↦ if falls_back content error then again else send_once calls content
      ]

  unfoldable pub send_text : List Content → Text → List Content × SendResult
  unfolding build_reply_content deliver strip_markdown_to_plain_text
  send_text calls text =
      deliver calls (build_reply_content text) (strip_markdown_to_plain_text text)

  unfoldable pub send_card : List Content → Text → List Content × SendResult
  unfolding normalize_feishu_card_text
  send_card calls text =
      let content = build_card text in
      (calls ++ content ∷ [], final_result (answer (length calls) content))

  abbrev pub send_thinking : List Content → List Content × SendResult
  send_thinking calls = send_card calls (codes "Thinking...")
