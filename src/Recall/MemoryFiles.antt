-- ===== src/Recall/MemoryFiles.antt =====
-- internal/session/memory.go: syncMemoryFiles, the copy of the workspace's memory files in the table
-- memory_files.
use memknow.Common.{
  ℕ, suc, Bool, true, false, not, ◌||◌, List, [], ◌∷◌, map, Option, none, some, ◌>>=◌, Text, codes,
  if◌then◌else◌, text_eq, to_lower, has_suffix, lookup, insert, remove,
}

-- A row of memory_files, under its path, the primary key.
pub record MemoryFile : Type 0 where
  pub content : Text
  pub updated_at : ℕ

-- What filepath.Walk visits below memory/: the path relative to the workspace, whether it is a
-- directory, and the content where the file can be read.
pub record WalkedFile : Type 0 where
  pub path : Text
  pub is_dir : Bool
  pub content : Option Text

unfoldable pub is_markdown : (ℕ → ℕ) → Text → Bool
unfolding has_suffix to_lower
is_markdown table path = has_suffix (to_lower table path) (codes ".md")

-- `files` of syncMemoryFiles: MEMORY.md where it can be read, and the Markdown files below memory/.
unfoldable pub collect_files : (ℕ → ℕ) → Option Text → List WalkedFile → List (Text × Text)
unfolding is_markdown insert
collect_files table memory_md [] = elim memory_md [
  | none ↦ []
  | some text ↦ (codes "MEMORY.md", text) ∷ []
]
collect_files table memory_md (f ∷ l) =
    let rest = collect_files table memory_md l in
    if f.is_dir || not (is_markdown table f.path)
    then rest
    else elim f.content [ none ↦ rest | some text ↦ insert f.path text rest ]

-- `existingMap`.
abbrev pub contents : List (Text × MemoryFile) → List (Text × Text)
contents rows = map (λ (e : Text × MemoryFile). (e.0, e.1.content)) rows

-- Whether the row of a path has the content already.
abbrev pub is_same : Option Text → Text → Bool
is_same none c = false
is_same (some old) c = text_eq old c

-- A transaction that fails leaves the rows as they were.
abbrev pub committed :
    List (Text × MemoryFile)
    → Option (List (Text × MemoryFile) × ℕ)
    → List (Text × MemoryFile) × Bool
committed rows none = (rows, false)
committed rows (some (t, n)) = (t, true)

-- The outcomes of the statements of the transaction.
module _ (write_ok : ℕ → Bool) where
  -- The rows after the upserts and the number of statements, or `none` after one that fails.
  unfoldable pub upsert_files :
      ℕ
      → List (Text × Text)
      → List (Text × Text)
      → List (Text × MemoryFile) × ℕ
      → Option (List (Text × MemoryFile) × ℕ)
  unfolding lookup insert
  upsert_files now existing [] t = some t
  upsert_files now existing ((path, content) ∷ files) (rows, n) =
      let kept = upsert_files now existing files (rows, n) in
      let row : MemoryFile = record { content = content; updated_at = now } in
      let written = upsert_files now existing files (insert path row rows, suc n) in
      if is_same (lookup path existing) content then kept else if write_ok n then written else none

  unfoldable pub delete_files :
      List (Text × Text)
      → List (Text × Text)
      → List (Text × MemoryFile) × ℕ
      → Option (List (Text × MemoryFile) × ℕ)
  unfolding lookup remove
  delete_files files [] t = some t
  delete_files files ((path, content) ∷ existing) (rows, n) =
      let kept = delete_files files existing (rows, n) in
      let removed = delete_files files existing (remove path rows, suc n) in
      elim (lookup path files) [ some _ ↦ kept | none ↦ if write_ok n then removed else none ]

  -- syncMemoryFiles over the files that were collected: the rows, and whether it succeeded. Go
  -- visits both maps in any order.
  unfoldable pub sync_memory_files :
      (arrange : List (Text × Text) → List (Text × Text)) (read_ok : Bool) (now : ℕ)
      → List (Text × Text)
      → List (Text × MemoryFile)
      → List (Text × MemoryFile) × Bool
  unfolding upsert_files delete_files
  sync_memory_files arrange read_ok now files rows =
      let existing = contents rows in
      let changed = upsert_files now existing (arrange files) (rows, 0) in
      let synced = changed >>= delete_files files (arrange existing) in
      if read_ok then committed rows synced else (rows, false)
