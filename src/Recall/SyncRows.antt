-- ===== src/Recall/SyncRows.antt =====
-- What each loop of a synchronization of the memory files leaves of a row.
use memknow.Common.{
  ℕ, suc, ◌≡◌, ◌≢◌, inl, inr, refl, ◌∙◌, ap, subst, Bool, true, false, List, [], ◌∷◌, Option, none,
  some, Text, if◌then◌else◌, text_eq, text_eq_iff, lookup, insert, remove, lookup-insert,
  lookup-remove, absent, KeysDiffer, All, Bool-cases, Option-cases,
}
use mathlib.Core.Option.{some-injective, none-ne-some}
use memknow.Recall.MemoryFiles.{MemoryFile, contents, is_same, upsert_files, delete_files}

abbrev pub Rows : Type 0
Rows = List (Text × MemoryFile)

-- What the row of a path should be, from the row before and the file now: no file, no row; the row
-- stays where it has the content already; otherwise it is written anew.
unfoldable pub synced_row : ℕ → Option MemoryFile → Option Text → Option MemoryFile
synced_row now old none = none
synced_row now none (some c) = some (record { content = c; updated_at = now })
synced_row now (some r) (some c) =
    if text_eq r.content c then some r else some (record { content = c; updated_at = now })

-- The row after the upserts alone: a path without a file keeps its row.
pub upserted_row : ℕ → Option Text → Option MemoryFile → Option Text → Option MemoryFile
upserted_row now was old none = old
upserted_row now was old (some c) =
    if is_same was c then old else some (record { content = c; updated_at = now })

-- A row whose file is gone is deleted, if there was a row.
pub deleted_row : Option Text → Option MemoryFile → Option Text → Option MemoryFile
deleted_row none old file = old
deleted_row (some c) old none = none
deleted_row (some c) old (some d) = old

deleted_kept :
    (was : Option Text) (old : Option MemoryFile) (d : Text) → deleted_row was old (some d) ≡ old
unfolding deleted_row
deleted_kept none old d = refl
deleted_kept (some c) old d = refl

deleted_gone : (was : Option Text) → deleted_row was none none ≡ none
unfolding deleted_row
deleted_gone none = refl
deleted_gone (some c) = refl

-- The two loops one after the other.
pub content_of : Option MemoryFile → Option Text
content_of none = none
content_of (some r) = some r.content

pub combined_row :
    (now : ℕ) (old : Option MemoryFile) (file : Option Text)
    → deleted_row (content_of old) (upserted_row now (content_of old) old file) file
      ≡ synced_row now old file
unfolding deleted_row upserted_row synced_row content_of
combined_row now none none = refl
combined_row now none (some c) = refl
combined_row now (some r) none = refl
combined_row now (some r) (some c) = refl

pub lookup-contents :
    (path : Text) (rows : Rows) → lookup path (contents rows) ≡ content_of (lookup path rows)
unfolding lookup content_of
lookup-contents path [] = refl
lookup-contents path ((p, r) ∷ rows) = elim (Bool-cases (text_eq p path)) [
  | inl e ↦ rw e refl
  | inr e ↦ rw e (lookup-contents path rows)
]

module _ (write_ok : ℕ → Bool) where
  pub upsert_files-row :
      (now : ℕ) (existing files : List (Text × Text)) (rows : Rows) (n : ℕ) (t : Rows × ℕ)
      → KeysDiffer files
      → upsert_files write_ok now existing files (rows, n) ≡ some t
      → (path : Text)
      → lookup path t.0
        ≡ upserted_row now (lookup path existing) (lookup path rows) (lookup path files)
  unfolding upsert_files upserted_row lookup
  upsert_files-row now existing [] rows n t d h path =
      subst (λ x. lookup path x.0 ≡ lookup path rows) (some-injective (rows, n) t h) refl
  upsert_files-row now existing ((p, c) ∷ files) rows n t d h path =
      let row : MemoryFile = record { content = c; updated_at = now } in
      elim (Bool-cases (is_same (lookup p existing) c)) [
        | inl same ↦
            let rest = upsert_files-row now existing files rows n t d.1 (rw same at h) path in
            elim (Bool-cases (text_eq p path)) [
              | inl e ↦
                  let q = (text_eq_iff p path).0 e in
                  let gone = absent path files (subst (λ k. All (λ x. k ≢ x.0) files) q d.0) in
                  let same' = subst (λ k. is_same (lookup k existing) c ≡ true) q same in
                  rw e (
                    rw same'
                      (rest ∙ ap (upserted_row now (lookup path existing) (lookup path rows)) gone))
              | inr e ↦ rw e rest
            ]
        | inr new ↦ elim (Bool-cases (write_ok n)) [
          | inr failed ↦ elim (none-ne-some t (rw failed at (rw new at h))) [ ]
          | inl ok ↦
              let rest =
                upsert_files-row now existing files (insert p row rows) (suc n) t d.1
                  (rw ok at (rw new at h)) path in
              let set = lookup-insert p path row rows in
              elim (Bool-cases (text_eq p path)) [
                | inl e ↦
                    let q = (text_eq_iff p path).0 e in
                    let gone = absent path files (subst (λ k. All (λ x. k ≢ x.0) files) q d.0) in
                    let new' = subst (λ k. is_same (lookup k existing) c ≡ false) q new in
                    rw e (
                      rw new' (
                        rest
                        ∙ ap
                            (upserted_row now (lookup path existing)
                              (lookup path (insert p row rows)))
                            gone
                        ∙ (rw e at set)))
                | inr e ↦ rw e (
                    rest
                    ∙ ap (λ o. upserted_row now (lookup path existing) o (lookup path files))
                        (rw e at set))
              ]
        ]
      ]

  pub delete_files-row :
      (files existing : List (Text × Text)) (rows : Rows) (n : ℕ) (t : Rows × ℕ)
      → delete_files write_ok files existing (rows, n) ≡ some t
      → (path : Text)
      → lookup path t.0 ≡ deleted_row (lookup path existing) (lookup path rows) (lookup path files)
  unfolding delete_files deleted_row lookup
  delete_files-row files [] rows n t h path =
      subst (λ x. lookup path x.0 ≡ lookup path rows) (some-injective (rows, n) t h) refl
  delete_files-row files ((p, c) ∷ existing) rows n t h path =
      elim (Option-cases (lookup p files)) [
        | inr (d, there) ↦
            let rest =
              delete_files-row files existing rows n t (rw (there, delete_files) at h) path in
            elim (Bool-cases (text_eq p path)) [
              | inl e ↦
                  let there' =
                    subst (λ k. lookup k files ≡ some d) ((text_eq_iff p path).0 e) there in
                  rw e (
                    rw there' (
                      rest
                      ∙ ap (deleted_row (lookup path existing) (lookup path rows)) there'
                      ∙ deleted_kept (lookup path existing) (lookup path rows) d))
              | inr e ↦ rw e rest
            ]
        | inl gone ↦ elim (Bool-cases (write_ok n)) [
          | inr failed ↦ elim (none-ne-some t (rw failed at (rw (gone, delete_files) at h))) [ ]
          | inl ok ↦
              let rest =
                delete_files-row files existing (remove p rows) (suc n) t
                  (rw ok at (rw (gone, delete_files) at h)) path in
              let set = lookup-remove p path rows in
              elim (Bool-cases (text_eq p path)) [
                | inl e ↦
                    let gone' =
                      subst (λ k. lookup k files ≡ none) ((text_eq_iff p path).0 e) gone in
                    rw e (
                      rw gone' (
                        rest
                        ∙ ap (λ o. deleted_row (lookup path existing) o (lookup path files))
                            (rw e at set)
                        ∙ ap (deleted_row (lookup path existing) none) gone'
                        ∙ deleted_gone (lookup path existing)))
                | inr e ↦ rw e (
                    rest
                    ∙ ap (λ o. deleted_row (lookup path existing) o (lookup path files))
                        (rw e at set))
              ]
        ]
      ]
