-- ===== src/Worker/Attachments.antt =====
-- internal/session/worker.go: the texts of attachment messages. Texts are runes; a title is cut at
-- a byte, so it is a list of bytes.
use memknow.Common.{
  ℕ, zero, suc, ◌+◌, Bool, ◌&&◌, ◌||◌, List, [], ◌∷◌, ◌++◌, none, some, Text, codes, ltb, ◌==◌,
  if◌then◌else◌, is_empty, trim_space, trim_right, has_prefix, contains, index, length, take, drop,
  utf8,
}

abbrev pub image_prefix : Text
image_prefix = codes "[图片: "

abbrev pub file_prefix : Text
file_prefix = codes "[文件: "

-- The loop that cuts every `[prefix …]` out of a text. A round shortens the text, so one round
-- more than its length is enough.
unfoldable pub strip_loop : ℕ → Text → Text → Text
strip_loop zero cleaned prefix = cleaned
strip_loop (suc f) cleaned prefix = elim (index cleaned prefix) [
  | none ↦ cleaned
  | some start ↦ elim (index (drop start cleaned) (codes "]")) [
    | none ↦ cleaned
    | some end ↦ strip_loop f (take start cleaned ++ drop (start + end + 1) cleaned) prefix
  ]
]

unfoldable pub strip : Text → Text → Text
strip cleaned prefix = strip_loop (length cleaned + 1) cleaned prefix

unfoldable pub strip_attachments : Text → Text
strip_attachments prompt = strip (strip prompt image_prefix) file_prefix

unfoldable pub is_attachment_only : Text → Bool
is_attachment_only prompt = is_empty (trim_space (strip_attachments prompt))

unfoldable pub attachment_reply_text : Text → Text
attachment_reply_text prompt =
    let has_image = contains prompt image_prefix in
    let has_file = contains prompt file_prefix in
    if has_image && has_file
    then codes "已收到图片/文件，请描述你希望我做什么"
    else if has_image
    then codes "已收到图片，请描述你希望我做什么"
    else codes "已收到文件，请描述你希望我做什么"

-- The text before the first line break, `\r` or `\n`.
unfoldable pub first_line : Text → Text
first_line [] = []
first_line (c ∷ s) = if c == b'\r' || c == b'\n' then [] else c ∷ first_line s

-- The bytes of a line, cut at 40.
unfoldable pub limit_title : Text → List ℕ
limit_title line =
    let bytes = utf8 line in if ltb 40 (length bytes) then take 40 bytes ++ codes "..." else bytes

unfoldable pub generate_title : Text → List ℕ
generate_title prompt =
    let s = trim_space (strip_attachments prompt) in
    if is_empty s then [] else limit_title (first_line s)

-- `filepath.Base`: the last element of a path.
unfoldable pub last_element : Text → Text → Text
last_element name [] = name
last_element name (c ∷ s) = last_element (if c == b'/' then [] else name ++ c ∷ []) s

unfoldable pub base : Text → Text
base path =
    let trimmed = trim_right (λ c. c == b'/') path in
    if is_empty path
    then codes "."
    else if is_empty trimmed
    then codes "/"
    else last_element [] trimmed

-- `filepath.Join` of a clean directory and a name that holds a slash at its end at most.
unfoldable pub join_path : Text → Text → Text
join_path dir name = dir ++ (codes "/" ++ trim_right (λ c. c == b'/') name)

-- `fresh n` is the n-th UUID that is drawn, and `rename` says whether os.Rename succeeds.
module _ (fresh : ℕ → Text) (rename : Text → Text → Bool) (attach_dir : Text) where
  -- What stands for a path in the new text.
  unfoldable pub moved_path : ℕ → Text → Text
  moved_path drawn old_path =
      let new_path = join_path attach_dir (fresh drawn ++ (codes "_" ++ base old_path)) in
      if has_prefix old_path attach_dir
      then old_path
      else if rename old_path new_path
      then new_path
      else old_path

  -- The loop over what remains of the text; a round drops the prefix from it.
  unfoldable pub replace_loop : ℕ → ℕ → Text → Text → Text
  replace_loop zero drawn remaining prefix = remaining
  replace_loop (suc f) drawn remaining prefix = elim (index remaining prefix) [
    | none ↦ remaining
    | some start ↦
        let behind = drop (start + length prefix) remaining in
        let before = take (start + length prefix) remaining in
        elim (index behind (codes "]")) [
          | none ↦ before ++ behind
          | some end ↦
              let old_path = take end behind in
              before
              ++ (moved_path drawn old_path
                  ++ replace_loop f (if has_prefix old_path attach_dir then drawn else suc drawn)
                      (drop end behind) prefix)
        ]
  ]

  unfoldable pub replace_paths : ℕ → Text → Text → Text
  replace_paths drawn s prefix = replace_loop (length s + 1) drawn s prefix
