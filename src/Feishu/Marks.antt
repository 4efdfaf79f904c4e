-- ===== src/Feishu/Marks.antt =====
-- The runes of a message to Feishu: what the clean-up of a text keeps from it, and the code marks of
-- a message.
use memknow.Common.{
  ℕ, zero, suc, ◌-◌, ◌≡◌, ◌≢◌, Bool, true, false, List, [], ◌∷◌, ◌++◌, Text, codes, arith, is_empty,
  ltb, ◌==◌, length, All, All-append, All-perm, if_keeps, Bool-cases, inl, inr, trim_left,
  trim_right, trim_space, is_space, has_prefix, contains, index, join, find_pair, replace_from,
  replace_pairs, replace_all, split, split_from,
}
use mathlib.Core.List.{reverse}
use mathlib.Core.List.Permᴰ
use memknow.Feishu.Sender.{
  drop_zero_width, is_zero_width, limit_blank_lines, is_blank_or_tab, trim_lines,
  sanitize_outbound_text,
}
use memknow.Feishu.Reply.{
  contains_markdown, contains_markdown_from, is_markdown_at, strip_markdown_to_plain_text,
}

module _ (P : ℕ → Type 0) where
  trim_left-All : (q : ℕ → Bool) (s : Text) → All P s → All P (trim_left q s)
  unfolding trim_left
  trim_left-All q [] h = h
  trim_left-All q (c ∷ s) h = if_keeps (All P) (q c) _ _ (trim_left-All q s h.1) h

  reverse-All : (s : Text) → All P s → All P (reverse s)
  reverse-All s h = All-perm P (Permᴰ.symm (Permᴰ.reverse s)) h

  trim_right-All : (q : ℕ → Bool) (s : Text) → All P s → All P (trim_right q s)
  unfolding trim_right
  trim_right-All q s h =
      reverse-All (trim_left q (reverse s)) (trim_left-All q (reverse s) (reverse-All s h))

  trim_space-All : (s : Text) → All P s → All P (trim_space s)
  unfolding trim_space
  trim_space-All s h = trim_right-All is_space (trim_left is_space s) (trim_left-All is_space s h)

  replace_from-All :
      (old new : Text) (k : ℕ) (s : Text)
      → All P new
      → All P s
      → All P (replace_from ((old, new) ∷ []) k s)
  unfolding replace_from find_pair
  replace_from-All old new k [] n h = tt
  replace_from-All old new (suc k) (c ∷ s) n h = replace_from-All old new k s n h.1
  replace_from-All old new zero (c ∷ s) n h = elim (Bool-cases (has_prefix (c ∷ s) old)) [
    | inl t ↦ rw (t, All) (All-append P new _ n (replace_from-All old new (length old - 1) s n h.1))
    | inr t ↦ rw (t, All) (h.0, replace_from-All old new 0 s n h.1)
  ]

  replace_all-All : (s old new : Text) → All P new → All P s → All P (replace_all s old new)
  unfolding replace_all replace_pairs
  replace_all-All s old new n h = replace_from-All old new 0 s n h

  drop_zero_width-All : (s : Text) → All P s → All P (drop_zero_width s)
  unfolding drop_zero_width
  drop_zero_width-All [] h = h
  drop_zero_width-All (c ∷ s) h =
      if_keeps (All P) (is_zero_width c) _ _ (drop_zero_width-All s h.1)
        (h.0, drop_zero_width-All s h.1)

  limit_blank_lines-All : (run : ℕ) (s : Text) → All P s → All P (limit_blank_lines run s)
  unfolding limit_blank_lines
  limit_blank_lines-All run [] h = h
  limit_blank_lines-All run (c ∷ s) h =
      let next = limit_blank_lines-All (suc run) s h.1 in
      if_keeps (All P) (c == b'\n') _ _ (if_keeps (All P) (ltb run 2) _ _ (h.0, next) next)
        (h.0, limit_blank_lines-All 0 s h.1)

  split_from-All :
      (sep : Text) (k : ℕ) (part s : Text)
      → All P part
      → All P s
      → All (All P) (split_from sep k part s)
  unfolding split_from
  split_from-All sep k part [] p h = (p, tt)
  split_from-All sep (suc k) part (c ∷ s) p h = split_from-All sep k part s p h.1
  split_from-All sep zero part (c ∷ s) p h = elim (Bool-cases (has_prefix (c ∷ s) sep)) [
    | inl t ↦ rw (t, All) (p, split_from-All sep (length sep - 1) [] s tt h.1)
    | inr t ↦
        rw (t, All)
          (split_from-All sep 0 (part ++ c ∷ []) s (All-append P part (c ∷ []) p (h.0, tt)) h.1)
  ]

  trim_lines-All : (l : List Text) → All (All P) l → All (All P) (trim_lines l)
  unfolding trim_lines
  trim_lines-All [] h = h
  trim_lines-All (s ∷ l) h = (trim_right-All is_blank_or_tab s h.0, trim_lines-All l h.1)

  join-All : (sep : Text) (l : List Text) → All P sep → All (All P) l → All P (join l sep)
  unfolding join
  join-All sep [] n h = tt
  join-All sep (s ∷ []) n h = h.0
  join-All sep (s ∷ t ∷ l) n h =
      All-append P s _ h.0 (All-append P sep _ n (join-All sep (t ∷ l) n h.1))

  -- The clean-up adds no rune but newlines.
  pub sanitize_outbound_text-All : P b'\n' → (s : Text) → All P s → All P (sanitize_outbound_text s)
  unfolding sanitize_outbound_text split
  sanitize_outbound_text-All n s h =
      let unix =
        replace_all-All (replace_all s (codes "\r\n") (codes "\n")) (codes "\r") (codes "\n")
          (n, tt) (replace_all-All s (codes "\r\n") (codes "\n") (n, tt) h) in
      if_keeps (All P) (is_empty s) _ _ tt (
        trim_space-All _ (
          limit_blank_lines-All 0 _ (
            join-All (codes "\n") _ (n, tt)
              (trim_lines-All _
                (split_from-All (codes "\n") 0 [] _ tt (drop_zero_width-All _ unix))))))

abbrev pub IsPlainRune : ℕ → Type 0
IsPlainRune c = c ≢ b'`'

remove_marks : (s : Text) → All IsPlainRune (replace_from ((codes "`", []) ∷ []) 0 s)
unfolding replace_from find_pair has_prefix
remove_marks [] = tt
remove_marks (c ∷ s) = elim (Bool-cases (has_prefix (c ∷ s) (codes "`"))) [
  | inl e ↦ rw (e, All) (remove_marks s)
  | inr e ↦ rw (e, All) ((λ q. ground (arith, q, e)), remove_marks s)
]

-- What is left of a text without its Markdown has no backtick.
pub strip-IsPlainRune :
    (s : Text) → All IsPlainRune (sanitize_outbound_text (strip_markdown_to_plain_text s))
unfolding strip_markdown_to_plain_text replace_all replace_pairs
strip-IsPlainRune s =
    let rest =
      replace_all (replace_all (replace_all s (codes "```") []) (codes "**") []) (codes "__") [] in
    sanitize_outbound_text-All IsPlainRune (λ q. ground arith)
      (trim_space (replace_from ((codes "`", []) ∷ []) 0 rest))
      (trim_space-All IsPlainRune (replace_from ((codes "`", []) ∷ []) 0 rest) (remove_marks rest))

contains_tail :
    (c : ℕ) (s sub : Text)
    → has_prefix (c ∷ s) sub ≡ false
    → contains (c ∷ s) sub ≡ true
    → contains s sub ≡ true
unfolding contains index
contains_tail c s sub h e = ground (arith, h, e)

-- A text with the mark of a code block is Markdown.
contains-contains_markdown_from :
    (b : Bool) (s : Text) → contains s (codes "```") ≡ true → contains_markdown_from b s ≡ true
unfolding contains_markdown_from is_markdown_at
contains-contains_markdown_from b [] h = h
contains-contains_markdown_from b (c ∷ s) h = elim (Bool-cases (has_prefix (c ∷ s) (codes "```"))) [
  | inl e ↦ ground (arith, e)
  | inr e ↦
      let next =
        contains-contains_markdown_from (c == b'\n') s (contains_tail c s (codes "```") e h) in
      ground (arith, next)
]

pub contains-contains_markdown :
    (s : Text) → contains s (codes "```") ≡ true → contains_markdown s ≡ true
unfolding contains_markdown
contains-contains_markdown s = contains-contains_markdown_from true s
