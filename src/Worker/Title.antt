-- ===== src/Worker/Title.antt =====
-- Titles of sessions: when there is one, how long it is, and where it is cut.
use mathlib.Core.List.{reverse, reverse-append, reverse-reverse}
use memknow.Common.{
  ℕ, suc, ◌+◌, ◌*◌, ◌/◌, ◌%◌, ◌≤◌, ◌<◌, ◌≡◌, ◌≢◌, ◌↔◌, inl, inr, refl, ap, sym, ◌∙◌, Bool, true,
  false, List, [], ◌∷◌, ◌++◌, Text, codes, arith, is_empty, length, take, length-append,
  length-take, Bool-cases, trim_left, trim_right, trim_space, is_space, utf8, utf8_rune, All,
  All-append, All-take, if_keeps, ltb,
}
use memknow.Worker.Attachments.{
  strip_attachments, is_attachment_only, first_line, limit_title, generate_title,
}

trim_left-head : (p : ℕ → Bool) (s t : Text) (c : ℕ) → trim_left p s ≡ c ∷ t → p c ≡ false
unfolding trim_left
trim_left-head p [] t c h = cc
trim_left-head p (d ∷ s) t c h = elim (Bool-cases (p d)) [
  | inl yes' ↦ trim_left-head p s t c (ground arith)
  | inr no' ↦ ground arith
]

trim_left-suffix : (p : ℕ → Bool) (s : Text) → (x : Text) × (x ++ trim_left p s ≡ s)
unfolding trim_left
trim_left-suffix p [] = ([], refl)
trim_left-suffix p (c ∷ s) = elim (Bool-cases (p c)) [
  | inl e ↦ let (x, h) = trim_left-suffix p s in (c ∷ x, rw e (ap (◌∷◌ c) h))
  | inr e ↦ ([], rw e)
]

trim_right-prefix : (p : ℕ → Bool) (s : Text) → (x : Text) × (trim_right p s ++ x ≡ s)
unfolding trim_right
trim_right-prefix p s =
    let (x, h) = trim_left-suffix p (reverse s) in
    (reverse x, sym (reverse-append x (trim_left p (reverse s))) ∙ ap reverse h ∙ reverse-reverse s)

-- A text that is trimmed begins with no white space.
trim_space-head : (s t : Text) (c : ℕ) → trim_space s ≡ c ∷ t → is_space c ≡ false
trim_space-head s t c h =
    let left = trim_left is_space s in
    let (x, e) = trim_right-prefix is_space left in
    trim_left-head is_space s (t ++ x) c (unfold trim_space in (sym e ∙ ap (λ y. y ++ x) h))

first_line-cons : (c : ℕ) (s : Text) → is_space c ≡ false → first_line (c ∷ s) ≡ c ∷ first_line s
unfolding first_line is_space
first_line-cons c s h = ground arith

utf8_rune-pos : (c : ℕ) → 0 < length (utf8_rune c)
unfolding utf8_rune
utf8_rune-pos c = ground arith

limit_title-pos : (c : ℕ) (s : Text) → 0 < length (limit_title (c ∷ s))
unfolding limit_title utf8
limit_title-pos c s = ground (
  arith,
  length-append (utf8_rune c) (utf8 s),
  utf8_rune-pos c,
  length-append (take 40 (utf8_rune c ++ utf8 s)) (codes "..."),
)

ne-nil_of_pos {ℓ} : {A : Type ℓ} (xs : List A) → 0 < length xs → xs ≢ []
ne-nil_of_pos [] h e = elim h [ ]
ne-nil_of_pos (x ∷ xs) h e = cc

titled_iff :
    (prompt : Text) (c : ℕ) (s : Text)
    → trim_space (strip_attachments prompt) ≡ c ∷ s
    → is_space c ≡ false
    → (generate_title prompt ≡ []) ↔ (is_attachment_only prompt ≡ true)
unfolding generate_title is_attachment_only
titled_iff prompt c s e h = rw e (
    rw (first_line-cons c s h)
      (λ t. absurd (ne-nil_of_pos _ (limit_title-pos c (first_line s)) t), λ t. cc))

-- A prompt gets a title exactly if it is more than attachments.
generate_title-eq-nil_iff :
    (prompt : Text) → (generate_title prompt ≡ []) ↔ (is_attachment_only prompt ≡ true)
generate_title-eq-nil_iff prompt = titled (trim_space (strip_attachments prompt)) refl
  where
    titled :
        (s : Text)
        → trim_space (strip_attachments prompt) ≡ s
        → (generate_title prompt ≡ []) ↔ (is_attachment_only prompt ≡ true)
    titled [] e = unfold generate_title is_attachment_only in (λ _. rw e, λ _. rw e)
    titled (c ∷ s) e = titled_iff prompt c s e (trim_space-head _ s c e)

length-limit_title : (line : Text) → length (limit_title line) ≤ 43
unfolding limit_title
length-limit_title line =
    ground (arith, length-take 40 (utf8 line), length-append (take 40 (utf8 line)) (codes "..."))

abbrev pub NoBreak : ℕ → Type 0
NoBreak b = (b ≢ b'\r') × (b ≢ b'\n')

utf8_rune-NoBreak : (c : ℕ) → NoBreak c → All NoBreak (utf8_rune c)
unfolding utf8_rune
utf8_rune-NoBreak c h = ground arith

utf8-NoBreak : (s : Text) → All NoBreak s → All NoBreak (utf8 s)
unfolding utf8
utf8-NoBreak [] h = tt
utf8-NoBreak (c ∷ s) h =
    All-append NoBreak (utf8_rune c) (utf8 s) (utf8_rune-NoBreak c h.0) (utf8-NoBreak s h.1)

first_line-NoBreak : (s : Text) → All NoBreak (first_line s)
unfolding first_line
first_line-NoBreak [] = tt
first_line-NoBreak (c ∷ s) = ground (arith, first_line-NoBreak s)

-- A title is one line of at most 43 bytes: it holds no line break, and 40 bytes of the prompt's
-- first line at most, with the three of the mark.
pub generate_title_lem :
    (prompt : Text) → (length (generate_title prompt) ≤ 43) × All NoBreak (generate_title prompt)
unfolding generate_title limit_title
generate_title_lem prompt =
    let s = trim_space (strip_attachments prompt) in
    let line = first_line s in
    let bytes = utf8-NoBreak line (first_line-NoBreak s) in
    if_keeps (λ t. (length t ≤ 43) × All NoBreak t) (is_empty s) _ _ (omega arith, tt)
      (
        length-limit_title line,
        if_keeps (All NoBreak) (ltb 40 (length (utf8 line))) _ _
            (All-append NoBreak (take 40 (utf8 line)) (codes "...") (All-take NoBreak 40 _ bytes)
              (omega arith))
            bytes,
      )

-- A rune of three bytes, as every common Han character is.
abbrev pub IsWide : ℕ → Type 0
IsWide c = (0x800 ≤ c) × (c < 0x10000)

utf8_rune_wide :
    (c : ℕ)
    → IsWide c
    → utf8_rune c ≡ (0xE0 + c / 4096) ∷ (0x80 + (c / 64) % 64) ∷ (0x80 + c % 64) ∷ []
unfolding utf8_rune
utf8_rune_wide c h = ground arith

-- The bytes of so many wide runes, and one more.
one_more_byte : Text → ℕ
one_more_byte [] = 1
one_more_byte (c ∷ s) = suc (suc (suc (one_more_byte s)))

one_more_byte_lem : (s : Text) → one_more_byte s ≡ 3 * length s + 1
unfolding one_more_byte
one_more_byte_lem [] = omega arith
one_more_byte_lem (c ∷ s) = omega (arith, one_more_byte_lem s)

take-utf8_wide :
    (s t : Text) (c : ℕ)
    → All IsWide s
    → IsWide c
    → take (one_more_byte s) (utf8 (s ++ c ∷ t)) ≡ utf8 s ++ (0xE0 + c / 4096) ∷ []
unfolding one_more_byte utf8
take-utf8_wide [] t c h w = rw (utf8_rune_wide c w)
take-utf8_wide (d ∷ s) t c h w = rw (utf8_rune_wide d h.0) (rw (take-utf8_wide s t c h.1 w))

length-utf8_wide :
    (s t : Text) (c : ℕ) → All IsWide s → IsWide c → 3 * length s + 3 ≤ length (utf8 (s ++ c ∷ t))
unfolding utf8
length-utf8_wide [] t c h w = rw (utf8_rune_wide c w) (omega arith)
length-utf8_wide (d ∷ s) t c h w =
    rw (utf8_rune_wide d h.0) (omega (arith, length-utf8_wide s t c h.1 w))

-- A line that begins with 14 runes of three bytes is cut inside the 14th: its title is the bytes
-- of the first 13, the lead byte of the 14th alone, and the mark.
pub limit_title_wide :
    (s t : Text) (c : ℕ)
    → length s ≡ 13
    → All IsWide s
    → IsWide c
    → limit_title (s ++ c ∷ t) ≡ (utf8 s ++ (0xE0 + c / 4096) ∷ []) ++ codes "..."
unfolding limit_title
limit_title_wide s t c n h w =
    let forty : one_more_byte s ≡ 40 = omega (arith, one_more_byte_lem s) in
    let long : ltb 40 (length (utf8 (s ++ c ∷ t))) ≡ true =
      ground (arith, length-utf8_wide s t c h w) in
    rw long (ap (λ x. x ++ codes "...") (rw (← forty) (take-utf8_wide s t c h w)))
