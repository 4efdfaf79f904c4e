-- ===== src/Worker/Strip.antt =====
-- The loops over attachment markers end within their fuel, and what they leave.
use memknow.Common.{
  ℕ, zero, suc, ◌+◌, ◌≤◌, ◌<◌, ◌≡◌, inl, inr, refl, Bool, true, false, [], ◌∷◌, ◌++◌, none, some,
  Text, codes, arith, has_prefix, index, length, take, drop, length-append, length-take,
  length-drop, take-append-drop, Option-cases, if_keeps,
}
use memknow.Worker.Attachments.{strip_loop, strip, replace_loop, replace_paths, moved_path}

has_prefix-length : (s p : Text) → has_prefix s p ≡ true → length p ≤ length s
unfolding has_prefix
has_prefix-length s [] h = omega arith
has_prefix-length [] (d ∷ p) h = cc
has_prefix-length (c ∷ s) (d ∷ p) h = ground (arith, has_prefix-length s p)

-- A place where a text is found leaves room for it.
pub index-length : (s p : Text) (i : ℕ) → index s p ≡ some i → i + length p ≤ length s
unfolding index
index-length [] [] i h = ground arith
index-length [] (d ∷ p) i h = cc
index-length (c ∷ s) p zero h = ground (arith, has_prefix-length (c ∷ s) p)
index-length (c ∷ s) p (suc i) h = elim (Option-cases (index s p)) [
  | inl gone ↦ ground arith
  | inr (j, e) ↦ ground (arith, index-length s p j e)
]

-- Whether a text holds a marker that is closed: the prefix, and `]` behind its first place.
abbrev pub has_marker : Text → Text → Bool
has_marker s prefix = elim (index s prefix) [
  | none ↦ false
  | some start ↦ elim (index (drop start s) (codes "]")) [ none ↦ false | some end ↦ true ]
]

-- A round of the loop shortens the text.
cut-length :
    (s p : Text) (i j : ℕ)
    → index s p ≡ some i
    → index (drop i s) (codes "]") ≡ some j
    → length (take i s ++ drop (i + j + 1) s) < length s
cut-length s p i j e h = omega (
  arith,
  index-length s p i e,
  index-length (drop i s) (codes "]") j h,
  length-append (take i s) (drop (i + j + 1) s),
  length-take i s,
  length-drop i s,
  length-drop (i + j + 1) s,
)

strip_loop-clean : (f : ℕ) (s p : Text) → length s < f → has_marker (strip_loop f s p) p ≡ false
unfolding strip_loop
strip_loop-clean zero s p h = elim h [ ]
strip_loop-clean (suc f) s p h = elim (Option-cases (index s p)) [
  | inl e ↦ rw (e, strip_loop) (rw (e, has_marker))
  | inr (i, e) ↦ elim (Option-cases (index (drop i s) (codes "]"))) [
    | inl e' ↦ rw (e, strip_loop) (rw e' (rw (e, has_marker) (rw e')))
    | inr (j, e') ↦
        rw (e, strip_loop)
          (rw e' (
            strip_loop-clean f (take i s ++ drop (i + j + 1) s) p
              (omega (arith, cut-length s p i j e e'))))
  ]
]

-- The loop ends within its fuel: what it leaves holds no closed marker with the prefix.
pub strip-clean : (s prefix : Text) → has_marker (strip s prefix) prefix ≡ false
unfolding strip
strip-clean s p = strip_loop-clean (length s + 1) s p (omega arith)

module _ (fresh : ℕ → Text) (rename : Text → Text → Bool) (attach_dir : Text) where
  replace_loop_same :
      (f n : ℕ) (s p : Text)
      → ((m : ℕ) (a : Text) → moved_path fresh rename attach_dir m a ≡ a)
      → replace_loop fresh rename attach_dir f n s p ≡ s
  unfolding replace_loop
  replace_loop_same zero n s p keeps = refl
  replace_loop_same (suc f) n s p keeps = elim (Option-cases (index s p)) [
    | inl e ↦ rw (e, replace_loop)
    | inr (i, e) ↦
        let k = i + length p in
        elim (Option-cases (index (drop k s) (codes "]"))) [
          | inl e' ↦ rw (e, replace_loop) (rw e' (take-append-drop k s))
          | inr (j, e') ↦
              rw (e, replace_loop)
                (rw e' (
                  rw
                    (keeps n (take j (drop k s)), replace_loop_same f _ (drop j (drop k s)) p keeps)
                    (rw (take-append-drop j (drop k s)) (take-append-drop k s))))
        ]
  ]

  moved_path_fails :
      ((a b : Text) → rename a b ≡ false)
      → (m : ℕ) (a : Text) → moved_path fresh rename attach_dir m a ≡ a
  unfolding moved_path
  moved_path_fails fails m a =
      rw fails (if_keeps (λ x. x ≡ a) (has_prefix a attach_dir) _ _ refl refl)

  -- When no file can be moved, the prompt is left exactly as it was.
  pub replace_paths_fails :
      (n : ℕ) (s prefix : Text)
      → ((a b : Text) → rename a b ≡ false)
      → replace_paths fresh rename attach_dir n s prefix ≡ s
  unfolding replace_paths
  replace_paths_fails n s p fails = replace_loop_same (length s + 1) n s p (moved_path_fails fails)
