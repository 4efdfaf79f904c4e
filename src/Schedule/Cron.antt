-- ===== src/Schedule/Cron.antt =====
-- internal/schedule/intent_parser.go: isValidCronExpr, extractFirstJSONObject.
use memknow.Common.{
  ℕ, suc, ◌+◌, ◌≤◌, ◌≡◌, ◌≢◌, ◌↔◌, ◌⊎◌, Bool, true, not, ◌&&◌, ◌||◌, List, [], ◌∷◌, ◌++◌, Option,
  none, some, Text, codes, arith, leb, ◌==◌, if◌then◌else◌, is_empty, trim_space, fields,
  fields_from, length, take, drop, index, All,
}

-- The class `[0-9*/,\-]`.
abbrev pub is_cron_rune : ℕ → Bool
is_cron_rune c = (leb b'0' c && leb c b'9') || c == b'*' || c == b'/' || c == b',' || c == b'-'

unfoldable pub all_cron_runes : Text → Bool
all_cron_runes [] = true
all_cron_runes (c ∷ s) = is_cron_rune c && all_cron_runes s

-- `^[0-9*/,\-]+$`.
unfoldable pub is_cron_field : Text → Bool
is_cron_field f = not (is_empty f) && all_cron_runes f

unfoldable pub all_cron_fields : List Text → Bool
all_cron_fields [] = true
all_cron_fields (f ∷ fs) = is_cron_field f && all_cron_fields fs

unfoldable pub is_valid_cron_expr : Text → Bool
is_valid_cron_expr expr =
    let parts = fields (trim_space expr) in length parts == 5 && all_cron_fields parts

-- The place of the last `}`, if any: `\{.*\}` is greedy and `.` matches a line break.
unfoldable pub last_brace : Text → Option ℕ
last_brace [] = none
last_brace (c ∷ s) = elim (last_brace s) [
  | some i ↦ some (suc i)
  | none ↦ if c == b'}' then some 0 else none
]

-- From the first `{` that has a `}` behind it to the last `}`.
unfoldable pub extract_first_json_object : Text → Text
extract_first_json_object text =
    let trimmed = trim_space text in
    elim (index trimmed (codes "{")) [
      | none ↦ []
      | some start ↦ elim (last_brace (drop start trimmed)) [
        | none ↦ []
        | some end ↦ trim_space (take (end + 1) (drop start trimmed))
      ]
    ]

-- The reading of the regular expression as a predicate.
abbrev pub CronRune : ℕ → Type 0
CronRune c = ((b'0' ≤ c) × (c ≤ b'9')) ⊎ (c ≡ b'*') ⊎ (c ≡ b'/') ⊎ (c ≡ b',') ⊎ (c ≡ b'-')

all_cron_runes_iff : (s : Text) → (all_cron_runes s ≡ true) ↔ All CronRune s
unfolding all_cron_runes
all_cron_runes_iff [] = ground arith
all_cron_runes_iff (c ∷ s) = ground (arith, all_cron_runes_iff s)

all_cron_fields_iff :
    (fs : List Text) → (all_cron_fields fs ≡ true) ↔ All (λ f. (f ≢ []) × All CronRune f) fs
unfolding all_cron_fields is_cron_field
all_cron_fields_iff [] = ground arith
all_cron_fields_iff (f ∷ fs) = ground (arith, all_cron_fields_iff fs, all_cron_runes_iff f)

fields_from-ne-nil : (word s : Text) → All (λ f. f ≢ []) (fields_from word s)
unfolding fields_from
fields_from-ne-nil word [] = ground arith
fields_from-ne-nil word (c ∷ s) =
    ground (arith, fields_from-ne-nil [] s, fields_from-ne-nil (word ++ c ∷ []) s)

CronFields-full :
    (fs : List Text)
    → All (λ f. f ≢ []) fs
    → All (All CronRune) fs
    → All (λ f. (f ≢ []) × All CronRune f) fs
CronFields-full [] n h = tt
CronFields-full (f ∷ fs) n h = ((n.0, h.0), CronFields-full fs n.1 h.1)

CronFields-runes :
    (fs : List Text) → All (λ f. (f ≢ []) × All CronRune f) fs → All (All CronRune) fs
CronFields-runes [] h = tt
CronFields-runes (f ∷ fs) h = (h.0.1, CronFields-runes fs h.1)

-- An expression is accepted exactly if it has five fields between white space and each field is
-- made of digits and `*`, `/`, `,` and `-` alone; the ranges of the fields are not looked at.
pub is_valid_cron_expr_iff :
    (expr : Text)
    → (is_valid_cron_expr expr ≡ true)
      ↔ ((length (fields (trim_space expr)) ≡ 5) × All (All CronRune) (fields (trim_space expr)))
unfolding is_valid_cron_expr fields
is_valid_cron_expr_iff expr =
    let parts = fields_from [] (trim_space expr) in
    let checked = all_cron_fields_iff parts in
    (
      λ h. (ground arith, CronFields-runes parts (checked.0 (ground arith))),
      λ h.
          let runes =
            checked.1 (CronFields-full parts (fields_from-ne-nil [] (trim_space expr)) h.1) in
          ground arith,
    )
