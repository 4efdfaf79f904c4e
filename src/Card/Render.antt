-- ===== src/Card/Render.antt =====
-- The texts of internal/session/compact_stream.go: cuts by runes and previews of tool calls.
use mathlib.Core.Option
use memknow.Common.{
  ℕ, suc, ◌-◌, ◌+◌, Bool, true, false, ◌&&◌, ◌||◌, List, [], ◌∷◌, ◌++◌, Option, none, some, Text,
  codes, leb, ltb, ◌==◌, if◌then◌else◌, is_empty, text_eq, trim_left, trim_space, has_prefix,
  has_suffix, contains, fields, join, lookup, length, take, drop, decimal, to_lower,
}

abbrev pub max_chars : ℕ
max_chars = 6000

abbrev pub preview_chars : ℕ
preview_chars = 1400

abbrev pub max_entries : ℕ
max_entries = 6

abbrev pub max_entry_chars : ℕ
max_entry_chars = 220

abbrev pub tool_input_max_chars : ℕ
tool_input_max_chars = 180

abbrev pub tool_output_max_chars : ℕ
tool_output_max_chars = 320

abbrev pub tool_output_max_lines : ℕ
tool_output_max_lines = 6

unfoldable pub truncate_runes : Text → ℕ → Text
truncate_runes s max_runes =
    if max_runes == 0 || leb (length s) max_runes then s else take max_runes s

unfoldable pub trim_tail_runes : Text → ℕ → Text
unfolding trim_left
trim_tail_runes s max_runes =
    if max_runes == 0 || leb (length s) max_runes
    then s
    else codes "…\n" ++ trim_left (λ c. c == b'\n') (drop (length s - max_runes) s)

unfoldable pub collapse_whitespace : Text → Text
unfolding fields join trim_space
collapse_whitespace s = join (fields (trim_space s)) (codes " ")

-- `(?s)` is not set and `^` is not multi-line: `^\d+\s+` fits at the start of the line only.
abbrev is_digit : ℕ → Bool
is_digit c = leb b'0' c && leb c b'9'

-- `\s` of the `regexp` package.
abbrev is_blank : ℕ → Bool
is_blank c = c == b'\t' || c == b'\n' || c == 12 || c == b'\r' || c == b' '

-- `leadingLineNo.ReplaceAllString(line, "")`.
unfoldable pub strip_line_no : Text → Text
unfolding trim_left
strip_line_no line =
    let rest = trim_left is_digit line in
    let text = trim_left is_blank rest in
    if length rest == length line || length text == length rest then line else text

unfoldable pub is_bash_tool_name : (ℕ → ℕ) → Text → Bool
unfolding to_lower trim_space text_eq
is_bash_tool_name table name =
    let n = to_lower table (trim_space name) in
    text_eq n (codes "bash") || text_eq n (codes "shell") || text_eq n (codes "run_shell_command")

unfoldable pub format_tool_content_block : (ℕ → ℕ) → Text → Text → ℕ → Text
unfolding is_bash_tool_name truncate_runes collapse_whitespace contains trim_space
format_tool_content_block table name text max_runes =
    let content = trim_space text in
    if is_empty content
    then []
    else if is_bash_tool_name table name
    then codes "```bash\n" ++ (truncate_runes content max_runes ++ codes "\n```")
    else if contains content (codes "\n")
    then codes "```text\n" ++ (truncate_runes content max_runes ++ codes "\n```")
    else codes "`" ++ (truncate_runes (collapse_whitespace content) max_runes ++ codes "`")

-- The first of the preferred keys whose value is not blank.
preferred : List Text → List (Text × Text) → Option Text
unfolding lookup trim_space
preferred [] obj = none
preferred (k ∷ ks) obj =
    let rest = preferred ks obj in
    elim (lookup k obj) [
      | none ↦ rest
      | some v ↦ if is_empty (trim_space v) then rest else some (trim_space v)
    ]

abbrev preferred_keys : List Text
preferred_keys =
    codes "command"
    ∷ codes "cmd"
    ∷ codes "path"
    ∷ codes "file_path"
    ∷ codes "url"
    ∷ codes "query"
    ∷ []

-- `decode` is `json.Unmarshal` into a map, each value printed by `fmt.Sprint`; `none` is an error.
unfoldable pub format_tool_input_preview :
    (ℕ → ℕ) → (Text → Option (List (Text × Text))) → Text → Text → Text
unfolding format_tool_content_block preferred trim_space has_prefix has_suffix
format_tool_input_preview table decode name text =
    let input = trim_space text in
    let whole = format_tool_content_block table name input tool_input_max_chars in
    if is_empty input
    then []
    else if has_prefix input (codes "{") && has_suffix input (codes "}")
    then elim (Option.bind (decode input) (preferred preferred_keys)) [
      | none ↦ whole
      | some s ↦ format_tool_content_block table name s tool_input_max_chars
    ]
    else whole

-- `strings.Split(s, "\n")`; `line` is the line being read.
split_lines : Text → Text → List Text
split_lines line [] = line ∷ []
split_lines line (c ∷ s) = elim (c == b'\n') [
  | true ↦ line ∷ split_lines [] s
  | false ↦ split_lines (line ++ c ∷ []) s
]

-- The lines that are shown: not blank behind a line number, the first few.
kept_lines : ℕ → List Text → List Text
unfolding strip_line_no trim_space
kept_lines n [] = []
kept_lines n (l ∷ ls) =
    let line = trim_space (strip_line_no l) in
    let one_more = line ∷ kept_lines (n + 1) ls in
    let skipped = kept_lines n ls in
    if is_empty line
    then skipped
    else if leb tool_output_max_lines (n + 1)
    then line ∷ []
    else one_more

count_lines : List Text → ℕ
unfolding strip_line_no trim_space
count_lines [] = 0
count_lines (l ∷ ls) =
    if is_empty (trim_space (strip_line_no l)) then count_lines ls else suc (count_lines ls)

unfoldable pub format_tool_output_preview : Text → Text
unfolding trim_space split_lines kept_lines count_lines join truncate_runes decimal
format_tool_output_preview output =
    let raw = trim_space output in
    let lines = split_lines [] raw in
    let kept = kept_lines 0 lines in
    let more = count_lines lines in
    let body = truncate_runes (join kept (codes "\n")) tool_output_max_chars in
    let block = codes "```text\n" ++ (body ++ codes "\n```") in
    if is_empty raw
    then []
    else if length kept == 0
    then []
    else if ltb (length kept) more
    then block ++ (codes "\n_... (+" ++ (decimal (more - length kept) ++ codes " lines)_"))
    else block
