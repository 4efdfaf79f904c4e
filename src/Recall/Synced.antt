-- ===== src/Recall/Synced.antt =====
-- What a synchronization of the memory files leaves in the table.
use memknow.Common.{
  if◌then◌else◌, ℕ, suc, ◌≡◌, ◌≢◌, inl, inr, refl, ◌∙◌, sym, ap, subst, Bool, true, false, List, [],
  ◌∷◌, Option, some, ◌>>=◌, >>=_some, Text, lookup, insert, remove, lookup-perm, KeysDiffer,
  All-map, AllPairs-perm, Rearranges, Bool-cases, Option-cases,
}
use mathlib.Core.List.Permᴰ
use memknow.Recall.MemoryFiles.{
  MemoryFile, contents, committed, is_same, upsert_files, delete_files, sync_memory_files,
}
use memknow.Recall.SyncRows.{
  Rows, synced_row, content_of, combined_row, deleted_row, upserted_row, lookup-contents,
  upsert_files-row, delete_files-row,
}

module _ (write_ok : ℕ → Bool) where
  -- What both loops leave, if no statement fails.
  module _ (visit : List (Text × Text) → List (Text × Text)) (fair : Rearranges visit) (now : ℕ)
      (files : List (Text × Text)) (rows : Rows) (unique : KeysDiffer files) where
    synced : Option (Rows × ℕ)
    synced =
        upsert_files write_ok now (contents rows) (visit files) (rows, 0)
        >>= delete_files write_ok files (visit (contents rows))

    synced-row :
        KeysDiffer (contents rows)
        → (t : Rows × ℕ) → synced ≡ some t
        → (path : Text) → lookup path t.0 ≡ synced_row now (lookup path rows) (lookup path files)
    unfolding synced
    synced-row keys t h path =
        let (u, up, down) = >>=_some _ _ t h in
        let before = lookup-contents path rows in
        let differ_files =
          AllPairs-perm (λ e f. e.0 ≢ f.0) (λ e f n q. n (sym q)) (Permᴰ.symm (fair files))
            unique in
        let upserted =
          upsert_files-row write_ok now (contents rows) (visit files) rows 0 u differ_files up
            path in
        let was = lookup-perm path (visit (contents rows)) (contents rows) (fair _) keys in
        let file = lookup-perm path (visit files) files (fair files) unique in
        let now_there = lookup path files in
        let old = lookup path rows in
        delete_files-row write_ok files (visit (contents rows)) u.0 u.1 t down path
        ∙ ap (λ o. deleted_row o (lookup path u.0) now_there) (was ∙ before)
        ∙ ap (λ o. deleted_row (content_of old) o now_there)
            (upserted
              ∙ ap (λ o. upserted_row now o old (lookup path (visit files))) before
              ∙ ap (upserted_row now (content_of old) old) file)
        ∙ combined_row now old now_there

  -- If no statement fails, the loops come to their end.
  module _ (all_ok : (n : ℕ) → write_ok n ≡ true) where
    upsert_files_total :
        (now : ℕ) (existing files : List (Text × Text)) (t : Rows × ℕ)
        → (u : Rows × ℕ) × (upsert_files write_ok now existing files t ≡ some u)
    unfolding upsert_files
    upsert_files_total now existing [] t = (t, refl)
    upsert_files_total now existing ((p, c) ∷ files) (rows, n) =
        elim (Bool-cases (is_same (lookup p existing) c)) [
          | inl same ↦ rw same (upsert_files_total now existing files (rows, n))
          | inr new ↦ rw new (
              rw (all_ok n) (
                upsert_files_total now existing files
                  (insert p (record { content = c; updated_at = now }) rows, suc n)))
        ]

    delete_files_total :
        (files existing : List (Text × Text)) (t : Rows × ℕ)
        → (u : Rows × ℕ) × (delete_files write_ok files existing t ≡ some u)
    unfolding delete_files
    delete_files_total files [] t = (t, refl)
    delete_files_total files ((p, c) ∷ existing) (rows, n) = elim (Option-cases (lookup p files)) [
      | inr (d, there) ↦ rw (there, delete_files) (delete_files_total files existing (rows, n))
      | inl gone ↦
          rw (gone, delete_files)
            (rw (all_ok n) (delete_files_total files existing (remove p rows, suc n)))
    ]

keys_of_rows : (rows : Rows) → KeysDiffer rows → KeysDiffer (contents rows)
keys_of_rows [] h = tt
keys_of_rows ((p, r) ∷ rows) h = (
  All-map (λ e. p ≢ e.0) (λ (e : Text × MemoryFile). (e.0, e.1.content)) rows h.0,
  keys_of_rows rows h.1,
)

module _ (write_ok : ℕ → Bool) (visit : List (Text × Text) → List (Text × Text))
    (fair : Rearranges visit) (now : ℕ) (files : List (Text × Text)) (rows : Rows)
    (unique : KeysDiffer files) where
  synced_total :
      ((n : ℕ) → write_ok n ≡ true)
      → (t : Rows × ℕ) × (synced write_ok visit fair now files rows unique ≡ some t)
  unfolding synced
  synced_total all_ok =
      let (u, up) =
        upsert_files_total write_ok all_ok now (contents rows) (visit files) (rows, 0) in
      let (t, down) = delete_files_total write_ok all_ok files (visit (contents rows)) u in
      (t, ap (λ o. o >>= delete_files write_ok files (visit (contents rows))) up ∙ down)

  -- The row of a path after a synchronization.
  abbrev IsRow : Text → Rows × Bool → Type 0
  IsRow path r =
      lookup path r.0
      ≡ (if r.1 then synced_row now (lookup path rows) (lookup path files) else lookup path rows)

  committed-IsRow :
      KeysDiffer rows
      → (path : Text)
      → IsRow path (committed rows (synced write_ok visit fair now files rows unique))
  committed-IsRow keys path =
      elim (Option-cases (synced write_ok visit fair now files rows unique)) [
        | inl fails ↦ subst (λ o. IsRow path (committed rows o)) (sym fails) refl
        | inr (t, e) ↦
            subst (λ o. IsRow path (committed rows o)) (sym e)
              (synced-row write_ok visit fair now files rows unique (keys_of_rows rows keys) t e
                path)
      ]

  committed_total :
      ((n : ℕ) → write_ok n ≡ true)
      → (committed rows (synced write_ok visit fair now files rows unique)).1 ≡ true
  committed_total all_ok = let (t, e) = synced_total all_ok in ap (λ o. (committed rows o).1) e

-- A synchronization that succeeds makes the table the map of the files: each path has exactly the
-- row that its file asks for, where a row with the right content keeps its time. One that fails
-- changes no row. The rows and the files have one entry for each path, and Go may visit both maps
-- in any order.
pub sync_memory_files-rows :
    (write_ok : ℕ → Bool) (visit : List (Text × Text) → List (Text × Text))
    (fair : Rearranges visit) (read_ok : Bool) (now : ℕ) (files : List (Text × Text)) (rows : Rows)
    (path : Text)
    → KeysDiffer files
    → KeysDiffer rows
    → let r = sync_memory_files write_ok visit read_ok now files rows in
      lookup path r.0
      ≡ (if r.1 then synced_row now (lookup path rows) (lookup path files) else lookup path rows)
unfolding sync_memory_files synced
sync_memory_files-rows write_ok visit fair false now files rows path unique keys = refl
sync_memory_files-rows write_ok visit fair true now files rows path unique keys =
    committed-IsRow write_ok visit fair now files rows unique keys path

-- A synchronization whose query and statements all succeed succeeds, and makes the table the map of
-- the files.
pub sync_memory_files-succeeds :
    (write_ok : ℕ → Bool) (visit : List (Text × Text) → List (Text × Text))
    (fair : Rearranges visit) (now : ℕ) (files : List (Text × Text)) (rows : Rows) (path : Text)
    → ((n : ℕ) → write_ok n ≡ true)
    → KeysDiffer files
    → KeysDiffer rows
    → let r = sync_memory_files write_ok visit true now files rows in
      (r.1 ≡ true) × (lookup path r.0 ≡ synced_row now (lookup path rows) (lookup path files))
unfolding sync_memory_files synced
sync_memory_files-succeeds write_ok visit fair now files rows path all_ok unique keys =
    let done = committed_total write_ok visit fair now files rows unique all_ok in
    let row = committed-IsRow write_ok visit fair now files rows unique keys path in
    let r = committed rows (synced write_ok visit fair now files rows unique) in
    (
      done,
      subst
          (λ b. lookup path r.0 ≡ (
            if b then synced_row now (lookup path rows) (lookup path files) else lookup path rows))
          done row,
    )
