-- ===== src/Recall/Phrases.antt =====
-- A sanitized query has its quotes in pairs.
use memknow.Common.{
  ℕ, zero, suc, ◌+◌, ◌-◌, ◌%◌, ◌/◌, ◌≤◌, ◌<◌, ◌≡◌, inl, inr, refl, ◌∙◌, ap, Bool, true, false, not,
  ◌&&◌, List, [], ◌∷◌, ◌++◌, none, some, Text, if◌then◌else◌, ◌==◌, ltb, length, drop, All, arith,
  trim_space, has_prefix, find_pair, replace_from, replace_pairs, replace_all, decimal,
  decimal_loop, Bool-cases, if_cases, if_keeps,
}
use memknow.Recall.Query.{
  token, protect, is_word, joined_run, quote_joined, restore, sanitize_plain,
}
use memknow.Recall.Balanced.{quotes, quotes-append, quotes-trim_space, words_of, words_of-clean}

abbrev pub IsBalanced : Text → Type 0
IsBalanced s = quotes s % 2 ≡ 0

-- What `old` takes away at the start of a text.
quotes-prefix :
    (s old : Text) → has_prefix s old ≡ true → quotes s ≡ quotes old + quotes (drop (length old) s)
unfolding quotes has_prefix
quotes-prefix s [] h = omega arith
quotes-prefix [] (d ∷ old) h = cc
quotes-prefix (c ∷ s) (d ∷ old) h = ground (arith, quotes-prefix s old)

-- Putting a balanced text for one without quotes keeps the balance.
module _ (d : ℕ) (old new : Text) (clean : quotes (d ∷ old) ≡ 0) (even : IsBalanced new) where
  replace_hit :
      (c : ℕ) (s : Text)
      → has_prefix (c ∷ s) (d ∷ old) ≡ true
      → replace_from ((d ∷ old, new) ∷ []) 0 (c ∷ s)
        ≡ new ++ replace_from ((d ∷ old, new) ∷ []) (length (d ∷ old) - 1) s
  unfolding replace_from find_pair
  replace_hit c s e = rw (e, replace_from, find_pair) refl

  replace_miss :
      (c : ℕ) (s : Text)
      → has_prefix (c ∷ s) (d ∷ old) ≡ false
      → replace_from ((d ∷ old, new) ∷ []) 0 (c ∷ s) ≡ c ∷ replace_from ((d ∷ old, new) ∷ []) 0 s
  unfolding replace_from find_pair
  replace_miss c s e = rw (e, replace_from, find_pair) refl

  replace_from-parity :
      (k : ℕ) (s : Text)
      → quotes (replace_from ((d ∷ old, new) ∷ []) k s) % 2 ≡ quotes (drop k s) % 2
  unfolding replace_from quotes
  replace_from-parity zero [] = refl
  replace_from-parity (suc k) [] = refl
  replace_from-parity (suc k) (c ∷ s) = replace_from-parity k s
  replace_from-parity zero (c ∷ s) = elim (Bool-cases (has_prefix (c ∷ s) (d ∷ old))) [
    | inl e ↦
        let rest = replace_from ((d ∷ old, new) ∷ []) (length (d ∷ old) - 1) s in
        let less_one : length (d ∷ old) - 1 ≡ length old = omega arith in
        rw (replace_hit c s e) (
          omega (
            arith,
            clean,
            even,
            quotes-append new rest,
            replace_from-parity (length (d ∷ old) - 1) s,
            quotes-prefix (c ∷ s) (d ∷ old) e,
            ap (λ n. quotes (drop n s)) less_one,
          ))
    | inr e ↦ rw (replace_miss c s e) (ground (arith, replace_from-parity 0 s))
  ]

pub replace_all-parity :
    (s : Text) (d : ℕ) (old new : Text)
    → quotes (d ∷ old) ≡ 0
    → IsBalanced new
    → quotes (replace_all s (d ∷ old) new) % 2 ≡ quotes s % 2
unfolding replace_all replace_pairs
replace_all-parity s d old new clean even = replace_from-parity d old new clean even 0 s

-- The tokens have no quotes.
decimal_loop-clean : (f n : ℕ) (out : Text) → quotes out ≡ 0 → quotes (decimal_loop f n out) ≡ 0
unfolding decimal_loop quotes
decimal_loop-clean zero n out h = h
decimal_loop-clean (suc f) n out h =
    ground (arith, decimal_loop-clean f (n / 10) ((b'0' + n % 10) ∷ out))

token-clean : (i : ℕ) → quotes (token i) ≡ 0
unfolding decimal quotes
token-clean i =
    rw (quotes-append (decimal i) (0 ∷ [])) (omega (arith, decimal_loop-clean (i + 1) i []))

quoted-IsBalanced : (phrase : Text) → quotes phrase ≡ 0 → IsBalanced (b'"' ∷ (phrase ++ b'"' ∷ []))
unfolding quotes
quoted-IsBalanced phrase h = rw (quotes-append phrase (b'"' ∷ [])) (omega arith)

-- The phrases that are protected have two quotes each.
protect-IsBalanced :
    (i : ℕ) (s phrase : Text)
    → All IsBalanced (protect i none s).1
      × (quotes phrase ≡ 0 → All IsBalanced (protect i (some phrase) s).1)
unfolding protect quotes
protect-IsBalanced i [] phrase = (tt, λ _. tt)
protect-IsBalanced i (c ∷ s) phrase = (
  if_keeps (λ (r : Text × List Text). All IsBalanced r.1) (c == b'"') (protect i (some []) s)
      (c ∷ (protect i none s).0, (protect i none s).1) ((protect-IsBalanced i s []).1 refl)
      (protect-IsBalanced i s phrase).0,
  λ h.
      if_cases (λ (r : Text × List Text). All IsBalanced r.1) (c == b'"')
        (
          token i ++ (protect (suc i) none s).0,
          (b'"' ∷ (phrase ++ b'"' ∷ [])) ∷ (protect (suc i) none s).1,
        )
        (protect i (some (phrase ++ c ∷ [])) s)
        (λ _. (quoted-IsBalanced phrase h, (protect-IsBalanced (suc i) s []).0))
        (λ e.
          (protect-IsBalanced i s (phrase ++ c ∷ [])).1
            (rw (quotes-append phrase (c ∷ [])) (ground arith))),
)

restore-parity :
    (i : ℕ) (phrases : List Text) (s : Text)
    → All IsBalanced phrases
    → quotes (restore i phrases s) % 2 ≡ quotes s % 2
unfolding restore
restore-parity i [] s h = refl
restore-parity i (q ∷ qs) s h =
    restore-parity (suc i) qs (replace_all s (token i) q) h.1
    ∙ replace_all-parity s 0 (b'Q' ∷ (decimal i ++ 0 ∷ [])) q (token-clean i) h.0

joined_run-two :
    (parts n : ℕ) (joint : Bool) (s : Text)
    → parts < n
    → (joint ≡ true → 0 < parts)
    → let r = joined_run parts n joint s in (r.0 < r.1) × (r.1 ≤ n + length s)
unfolding joined_run
joined_run-two parts n joint [] h g = ground arith
joined_run-two parts n joint (c ∷ s) h g = ground (
  arith,
  joined_run-two parts (suc n) false s (omega arith) (λ q. cc),
  joined_run-two (suc parts) (suc n) true s (omega arith) (λ _. omega arith),
)

run_at_word :
    (c : ℕ) (s : Text)
    → is_word c ≡ true
    → let r = joined_run 0 0 false (c ∷ s) in (r.0 < r.1) × (r.1 ≤ suc (length s))
unfolding joined_run
run_at_word c s e =
    rw e (let r = joined_run-two 0 1 false s (omega arith) (λ q. cc) in (r.0, omega (arith, r.1)))

quote_joined-parity :
    (k : ℕ) (inside : Bool) (s : Text)
    → k ≤ length s
    → quotes s ≡ 0
    → quotes (quote_joined k inside s) % 2 ≡ (if k == 0 then 0 else 1)
unfolding quote_joined quotes
quote_joined-parity k inside [] h e = ground arith
quote_joined-parity zero inside (c ∷ s) h e =
    let r = joined_run 0 0 false (c ∷ s) in
    if_cases (λ t. quotes t % 2 ≡ 0) (not inside && is_word c && ltb 0 r.0)
      (b'"' ∷ c ∷ quote_joined (r.1 - 1) true s) (c ∷ quote_joined 0 (is_word c) s)
      (λ found.
        let run = run_at_word c s (ground arith) in
        ground (arith, run, quote_joined-parity (r.1 - 1) true s (omega (arith, run.1))))
      (λ _. ground (arith, quote_joined-parity 0 (is_word c) s (omega arith)))
quote_joined-parity (suc zero) inside (c ∷ s) h e =
    ground (arith, quote_joined-parity zero true s (omega arith))
quote_joined-parity (suc (suc k)) inside (c ∷ s) h e =
    ground (arith, quote_joined-parity (suc k) true s (omega arith))

restored :
    (i : ℕ) (phrases : List Text) (words : Text)
    → All IsBalanced phrases
    → quotes words ≡ 0
    → IsBalanced (trim_space (restore i phrases (quote_joined 0 false words)))
restored i phrases words h clean =
    ap (λ n. n % 2) (quotes-trim_space (restore i phrases (quote_joined 0 false words)))
    ∙ restore-parity i phrases (quote_joined 0 false words) h
    ∙ quote_joined-parity 0 false words (omega arith) clean

pub sanitize_plain-IsBalanced : (query : Text) → IsBalanced (sanitize_plain query)
unfolding sanitize_plain
sanitize_plain-IsBalanced query =
    let (tokens, phrases) = protect 0 none query in
    restored 0 phrases (words_of tokens) (protect-IsBalanced 0 query []).0 (words_of-clean tokens)
