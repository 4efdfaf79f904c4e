-- ===== src/Recall/Memory.antt =====
-- internal/session/memory.go: the memories that are recalled for a message.
use memknow.Common.{
  ℕ, ◌+◌, ◌-◌, Bool, false, not, ◌||◌, List, [], ◌∷◌, ◌++◌, map, Option, none, some, Text, codes,
  if◌then◌else◌, text_eq, is_empty, ltb, leb, ◌==◌, length, take, drop, trim_space, to_lower,
  fields, contains, replace_pairs, split, byte_length, cut, index, sort_by,
}
use mathlib.Core.List.{reverse}
use memknow.Recall.Format.{member}
use memknow.Recall.MemoryFiles.{
  MemoryFile, WalkedFile, is_markdown, sync_memory_files, collect_files,
}
use memknow.Recall.Search.{like, sqlite_lower}

pub record MemoryEntry : Type 0 where
  pub source : Text
  pub content : Text

-- `scored` of both searches; the search over the files themselves has no path.
pub record ScoredMemory : Type 0 where
  pub score : ℕ
  pub path : Text
  pub text : Text

abbrev pub separators : Text
separators = codes "，。！？；：\"'（）【】,.!?;:-_/\\"

unfoldable pub distinct_words : List Text → List Text → List Text
unfolding member byte_length
distinct_words seen [] = []
distinct_words seen (p ∷ l) =
    let skipped = distinct_words seen l in
    let rest = distinct_words (p ∷ seen) l in
    if leb (byte_length p) 1 then skipped else if member p seen then skipped else p ∷ rest

unfoldable pub count_hits : Text → List Text → ℕ
unfolding contains
count_hits lower [] = 0
count_hits lower (k ∷ ks) = (if contains lower k then 1 else 0) + count_hits lower ks

-- A text that is too long is cut at a byte; the source stands before it.
unfoldable pub memory_text : Text → Text → ℕ → Text
unfolding byte_length cut
memory_text source content max_chars =
    let text =
      if ltb max_chars (byte_length content)
      then cut max_chars content ++ codes "..."
      else content in
    if is_empty source then text else codes "[" ++ (source ++ (codes "] " ++ text))

abbrev pub higher : ScoredMemory → ScoredMemory → Bool
higher a b = ltb b.score a.score

-- filepath.Base of a path that is not empty and has no slash at its end.
unfoldable pub base_name : Text → Text
base_name [] = []
base_name (c ∷ s) =
    let rest = base_name s in
    if c == b'/' then rest else elim (index s (codes "/")) [ none ↦ c ∷ s | some _ ↦ rest ]

-- The base name without its extension, which goes from the last dot.
unfoldable pub drop_extension : Text → Text
drop_extension s = elim (index (reverse s) (codes ".")) [
  | none ↦ s
  | some i ↦ reverse (drop (i + 1) (reverse s))
]

-- `lower(content) LIKE '%kw%' OR …`.
unfoldable pub any_like : Text → List Text → Bool
unfolding like sqlite_lower
any_like content [] = false
any_like content (k ∷ ks) =
    like (sqlite_lower content) (codes "%" ++ (k ++ codes "%")) || any_like content ks

unfoldable pub select_rows : List Text → List (Text × MemoryFile) → List (Text × MemoryFile)
unfolding any_like
select_rows ks [] = []
select_rows ks ((path, r) ∷ l) =
    let rest = select_rows ks l in if any_like r.content ks then (path, r) ∷ rest else rest

abbrev pub source_of : Text → Text
source_of path =
    let base = base_name path in
    if text_eq base (codes "MEMORY.md") then [] else drop_extension base

-- The loop over the ranked memories: `n` texts are still allowed.
unfoldable pub first_texts : ℕ → List Text → List ScoredMemory → List Text
unfolding member
first_texts n seen [] = []
first_texts n seen (s ∷ l) =
    let skipped = first_texts n seen l in
    let rest = first_texts (n - 1) (s.path ∷ seen) l in
    if member s.path seen then skipped else s.text ∷ (if leb n 1 then [] else rest)

-- loadMemoryFileEntries of a file that can be read.
unfoldable pub trimmed_parts : Text → List Text → List MemoryEntry
unfolding trim_space
trimmed_parts source [] = []
trimmed_parts source (p ∷ l) =
    let rest = trimmed_parts source l in
    let t = trim_space p in
    if is_empty t then rest else record { source = source; content = t } ∷ rest

unfoldable pub load_memory_file_entries : Text → Text → Option Text → List MemoryEntry
unfolding trimmed_parts trim_space split base_name
load_memory_file_entries path source content = elim content [
  | none ↦ []
  | some text ↦
      let raw = trim_space text in
      let sep =
        if text_eq (base_name path) (codes "MEMORY.md") then codes "\n§\n" else codes "\n\n" in
      if is_empty raw then [] else trimmed_parts source (split raw sep)
]

-- Go's table of lower case.
module _ (table : ℕ → ℕ) where
  unfoldable pub query_words : Text → List Text
  unfolding replace_pairs to_lower fields
  query_words query =
      fields (to_lower table (replace_pairs (map (λ c. (c ∷ [], codes " ")) separators) query))

  unfoldable pub extract_memory_keywords : Text → List Text
  unfolding distinct_words query_words
  extract_memory_keywords query = distinct_words [] (query_words query)

  unfoldable pub score_rows : List Text → List (Text × MemoryFile) → List ScoredMemory
  unfolding count_hits to_lower memory_text base_name drop_extension
  score_rows ks [] = []
  score_rows ks ((path, r) ∷ l) =
      let rest = score_rows ks l in
      let score = count_hits (to_lower table r.content) ks in
      let hit : ScoredMemory = record {
        score = score;
        path = path;
        text = memory_text (source_of path) r.content 300;
      } in
      if score == 0 then rest else hit ∷ rest

  unfoldable pub score_entries : List Text → ℕ → List MemoryEntry → List ScoredMemory
  unfolding count_hits to_lower memory_text
  score_entries ks max_chars [] = []
  score_entries ks max_chars (m ∷ l) =
      let rest = score_entries ks max_chars l in
      let score = count_hits (to_lower table m.content) ks in
      let hit : ScoredMemory = record {
        score = score;
        path = [];
        text = memory_text m.source m.content max_chars;
      } in
      if score == 0 then rest else hit ∷ rest

  unfoldable pub walked_entries : List WalkedFile → List MemoryEntry
  unfolding is_markdown base_name drop_extension load_memory_file_entries
  walked_entries [] = []
  walked_entries (f ∷ l) =
      let rest = walked_entries l in
      if f.is_dir || not (is_markdown table f.path)
      then rest
      else load_memory_file_entries f.path (drop_extension (base_name f.path)) f.content ++ rest

-- The orders that Go's sort and SQLite leave open.
module _ (table : ℕ → ℕ) (arrange : List ScoredMemory → List ScoredMemory)
    (stored : List (Text × MemoryFile) → List (Text × MemoryFile)) where
  unfoldable pub search_memories_db : Bool → List (Text × MemoryFile) → Text → List Text
  unfolding extract_memory_keywords select_rows score_rows first_texts sort_by
  search_memories_db read_ok rows query =
      let ks = extract_memory_keywords table query in
      let found = take 50 (select_rows ks (stored rows)) in
      if length ks == 0
      then []
      else if read_ok
      then first_texts 3 [] (sort_by higher (arrange (score_rows table ks found)))
      else []

  unfoldable pub rank_memory_entries : List MemoryEntry → Text → ℕ → ℕ → List Text
  unfolding extract_memory_keywords score_entries sort_by
  rank_memory_entries entries query top_n max_chars =
      let ks = extract_memory_keywords table query in
      if length ks == 0
      then []
      else take top_n (
          map (λ (s : ScoredMemory). s.text)
            (sort_by higher (arrange (score_entries table ks max_chars entries))))

  unfoldable pub retrieve_memories_fallback : Option Text → List WalkedFile → Text → List Text
  unfolding load_memory_file_entries walked_entries rank_memory_entries
  retrieve_memories_fallback memory_md walked query =
      rank_memory_entries
        (load_memory_file_entries (codes "MEMORY.md") [] memory_md ++ walked_entries table walked)
        query 3 300

  -- retrieveMemories with a database: the texts, and the rows afterwards.
  unfoldable pub retrieve_memories :
      (write_ok : ℕ → Bool) (visit : List (Text × Text) → List (Text × Text))
      (sync_ok read_ok : Bool) (now : ℕ)
      → Option Text
      → List WalkedFile
      → List (Text × MemoryFile)
      → Text
      → List Text × List (Text × MemoryFile)
  unfolding sync_memory_files collect_files search_memories_db retrieve_memories_fallback
  retrieve_memories write_ok visit sync_ok read_ok now memory_md walked rows query =
      let synced =
        sync_memory_files write_ok visit sync_ok now (collect_files table memory_md walked) rows in
      let texts =
        if synced.1
        then search_memories_db read_ok synced.0 query
        else retrieve_memories_fallback memory_md walked query in
      (texts, synced.0)
