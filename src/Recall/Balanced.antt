-- ===== src/Recall/Balanced.antt =====
-- The quotes of a query for the full text search.
use memknow.Common.{
  ℕ, zero, suc, ◌+◌, ◌≤◌, ◌≡◌, ◌≢◌, inl, inr, refl, ◌∙◌, sym, Bool, true, false, [], ◌∷◌, ◌++◌,
  Text, if◌then◌else◌, ◌==◌, length, drop, arith, trim_left, trim_right, trim_space, is_space,
  Option-cases, if_cases,
}
use mathlib.Core.List.{reverse, reverse-cons}
use memknow.Recall.Query.{
  is_special, strip_special, collapse_asterisks, is_blank, drop_leading_asterisks, skip_blanks,
  operators, leading_operator, drop_leading_bool, trailing_operator, drop_trailing_bool,
}

-- The number of quotes in a text.
unfoldable pub quotes : Text → ℕ
quotes [] = 0
quotes (c ∷ s) = if c == b'"' then suc (quotes s) else quotes s

pub quotes-append : (s t : Text) → quotes (s ++ t) ≡ quotes s + quotes t
unfolding quotes
quotes-append [] t = omega arith
quotes-append (c ∷ s) t = ground (arith, quotes-append s t)

pub quotes-reverse : (s : Text) → quotes (reverse s) ≡ quotes s
unfolding quotes
quotes-reverse [] = refl
quotes-reverse (c ∷ s) =
    rw (reverse-cons c s)
      (rw (quotes-append (reverse s) (c ∷ [])) (ground (arith, quotes-reverse s)))

quotes_other : (c : ℕ) (s : Text) → c ≢ b'"' → quotes (c ∷ s) ≡ quotes s
unfolding quotes
quotes_other c s h = ground arith

-- A test that no quote passes takes none away.
quotes-trim_left : (p : ℕ → Bool) → p b'"' ≡ false → (s : Text) → quotes (trim_left p s) ≡ quotes s
unfolding trim_left
quotes-trim_left p h [] = refl
quotes-trim_left p h (c ∷ s) =
    if_cases (λ t. quotes t ≡ quotes (c ∷ s)) (p c) _ _
      (λ e. quotes-trim_left p h s ∙ sym (quotes_other c s (λ q. cc))) (λ _. refl)

not_space : is_space b'"' ≡ false
unfolding is_space
not_space = refl

pub quotes-trim_space : (s : Text) → quotes (trim_space s) ≡ quotes s
unfolding trim_space trim_right
quotes-trim_space s =
    quotes-reverse (trim_left is_space (reverse (trim_left is_space s)))
    ∙ quotes-trim_left is_space not_space (reverse (trim_left is_space s))
    ∙ quotes-reverse (trim_left is_space s)
    ∙ quotes-trim_left is_space not_space s

pub quotes-drop : (n : ℕ) (s : Text) → quotes (drop n s) ≤ quotes s
unfolding quotes
quotes-drop zero s = omega arith
quotes-drop (suc n) [] = omega arith
quotes-drop (suc n) (c ∷ s) = ground (arith, quotes-drop n s)

quotes-skip_blanks : (s : Text) → quotes (skip_blanks s) ≡ quotes s
unfolding quotes skip_blanks is_blank
quotes-skip_blanks [] = refl
quotes-skip_blanks (c ∷ s) = ground (arith, quotes-skip_blanks s)

strip_special-clean : (s : Text) → quotes (strip_special s) ≡ 0
unfolding quotes strip_special is_special
strip_special-clean [] = refl
strip_special-clean (c ∷ s) = ground (arith, strip_special-clean s)

collapse_asterisks-quotes : (b : Bool) (s : Text) → quotes (collapse_asterisks b s) ≡ quotes s
unfolding quotes collapse_asterisks
collapse_asterisks-quotes b [] = refl
collapse_asterisks-quotes b (c ∷ s) =
    ground (arith, collapse_asterisks-quotes true s, collapse_asterisks-quotes false s)

drop_leading_asterisks-quotes :
    (b : Bool) (s : Text) → quotes (drop_leading_asterisks b s) ≡ quotes s
unfolding quotes drop_leading_asterisks
drop_leading_asterisks-quotes b [] = refl
drop_leading_asterisks-quotes b (c ∷ s) =
    ground
      (arith, drop_leading_asterisks-quotes false s, drop_leading_asterisks-quotes (is_blank c) s)

quotes-drop_leading_bool : (s : Text) → quotes s ≡ 0 → quotes (drop_leading_bool s) ≡ 0
unfolding drop_leading_bool
quotes-drop_leading_bool s h = elim (Option-cases (leading_operator operators s)) [
  | inl e ↦ rw (e, drop_leading_bool) h
  | inr (w, e) ↦
      rw (e, drop_leading_bool)
        (omega (arith, quotes-skip_blanks (drop (length w) s), quotes-drop (length w) s))
]

quotes-drop_trailing_bool : (s : Text) → quotes s ≡ 0 → quotes (drop_trailing_bool s) ≡ 0
unfolding drop_trailing_bool
quotes-drop_trailing_bool s h =
    let back = skip_blanks (reverse s) in
    elim (Option-cases (trailing_operator operators back)) [
      | inl e ↦ rw (e, drop_trailing_bool) h
      | inr (w, e) ↦
          rw (e, drop_trailing_bool)
            (omega (
              arith,
              quotes-reverse (skip_blanks (drop (length w) back)),
              quotes-skip_blanks (drop (length w) back),
              quotes-drop (length w) back,
              quotes-skip_blanks (reverse s),
              quotes-reverse s,
            ))
    ]

-- The words of the query, without the phrases, have no quote.
abbrev pub words_of : Text → Text
words_of tokens = drop_trailing_bool (
    trim_space (
      drop_leading_bool (
        trim_space
          (drop_leading_asterisks true (collapse_asterisks false (strip_special tokens))))))

pub words_of-clean : (tokens : Text) → quotes (words_of tokens) ≡ 0
words_of-clean tokens =
    let starred = drop_leading_asterisks true (collapse_asterisks false (strip_special tokens)) in
    quotes-drop_trailing_bool (trim_space (drop_leading_bool (trim_space starred))) (
      quotes-trim_space (drop_leading_bool (trim_space starred))
      ∙ quotes-drop_leading_bool (trim_space starred) (
          quotes-trim_space starred
          ∙ drop_leading_asterisks-quotes true (collapse_asterisks false (strip_special tokens))
          ∙ collapse_asterisks-quotes false (strip_special tokens)
          ∙ strip_special-clean tokens))
