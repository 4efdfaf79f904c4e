-- ===== src/Common/Keyed.antt =====
-- A Go map with string keys as an association list: at most one entry is kept for each key.
use Prim.Native.Nat.{◌+◌, ◌≤◌}
use mathlib.Core.Path.{◌≡◌, refl, sym, subst, ◌∙◌}
use mathlib.Core.Logic.{◌≢◌}
use mathlib.Core.List.{List, [], ◌∷◌}
use mathlib.Core.Option.{Option, none, some, none-ne-some, some-injective}
use mathlib.Core.Logic.{inl, inr}
use native.Mathlib.Omega.{arith}
use memknow.Common.Tests.{if◌then◌else◌, if_keeps, if_cases, Bool-cases, Option-cases}
use mathlib.Core.List.{Permᴰ}
use mathlib.Core.List.Permᴰ
use memknow.Common.Sorting.{AllPairs, All-perm, AllPairs-perm}
use memknow.Common.Lists.{length, All, All-zip}
use memknow.Common.Runes.{Text, text_eq, text_eq_iff, text_eq_self, differ}

module _ {ℓ} {V : Type ℓ} where
  unfoldable pub lookup : Text → List (Text × V) → Option V
  lookup k [] = none
  lookup k ((j, v) ∷ m) = if text_eq j k then some v else lookup k m

  unfoldable pub insert : Text → V → List (Text × V) → List (Text × V)
  insert k v [] = (k, v) ∷ []
  insert k v ((j, w) ∷ m) = if text_eq j k then (k, v) ∷ m else (j, w) ∷ insert k v m

  unfoldable pub remove : Text → List (Text × V) → List (Text × V)
  remove k [] = []
  remove k ((j, w) ∷ m) = if text_eq j k then remove k m else (j, w) ∷ remove k m

  pub lookup-insert :
      (k j : Text) (v : V) (m : List (Text × V))
      → lookup j (insert k v m) ≡ (if text_eq k j then some v else lookup j m)
  unfolding lookup insert
  lookup-insert k j v [] = refl
  lookup-insert k j v ((i, w) ∷ m) =
      ground (arith, text_eq_iff k j, text_eq_iff i k, text_eq_iff i j, lookup-insert k j v m)

  pub lookup-remove :
      (k j : Text) (m : List (Text × V))
      → lookup j (remove k m) ≡ (if text_eq k j then none else lookup j m)
  unfolding lookup remove
  lookup-remove k j [] = ground arith
  lookup-remove k j ((i, w) ∷ m) =
      ground (arith, text_eq_iff k j, text_eq_iff i k, text_eq_iff i j, lookup-remove k j m)

  pub length-insert :
      (k : Text) (v : V) (m : List (Text × V)) → length (insert k v m) ≤ length m + 1
  unfolding insert
  length-insert k v [] = omega arith
  length-insert k v ((j, w) ∷ m) = ground (arith, length-insert k v m)

  pub length-insert_new :
      (k : Text) (v : V) (m : List (Text × V))
      → lookup k m ≡ none
      → length (insert k v m) ≡ length m + 1
  unfolding insert lookup
  length-insert_new k v [] h = omega arith
  length-insert_new k v ((j, w) ∷ m) h = ground (arith, length-insert_new k v m)

  pub length-insert_old :
      (k : Text) (v w : V) (m : List (Text × V))
      → lookup k m ≡ some w
      → length (insert k v m) ≡ length m
  unfolding insert lookup
  length-insert_old k v w [] h = cc
  length-insert_old k v w ((j, u) ∷ m) h = ground (arith, length-insert_old k v w m)

-- What insertion keeps of the entries.
pub All-insert {ℓ κ} :
    {V : Type ℓ} (P : Text × V → Type κ) (k : Text) (v : V) (m : List (Text × V))
    → P (k, v)
    → All P m
    → All P (insert k v m)
unfolding insert
All-insert P k v [] p h = (p, h)
All-insert P k v ((j, w) ∷ m) p h =
    if_keeps (All P) (text_eq j k) _ _ (p, h.1) (h.0, All-insert P k v m p h.1)

-- At most one entry for each key.
abbrev pub KeysDiffer {ℓ} : {V : Type ℓ} → List (Text × V) → Type 0
KeysDiffer m = AllPairs (λ e f. e.0 ≢ f.0) m

pub insert-KeysDiffer {ℓ} :
    {V : Type ℓ} (k : Text) (v : V) (m : List (Text × V)) → KeysDiffer m → KeysDiffer (insert k v m)
unfolding insert
insert-KeysDiffer k v [] h = (tt, tt)
insert-KeysDiffer k v ((j, w) ∷ m) h =
    if_cases KeysDiffer (text_eq j k) _ _
      (λ e. (subst (λ i. All (λ x. i ≢ x.0) m) ((text_eq_iff j k).0 e) h.0, h.1))
      (λ e. (All-insert (λ x. j ≢ x.0) k v m (differ j k e) h.0, insert-KeysDiffer k v m h.1))

pub absent {ℓ} :
    {V : Type ℓ} (k : Text) (m : List (Text × V)) → All (λ e. k ≢ e.0) m → lookup k m ≡ none
unfolding lookup
absent k [] h = refl
absent k ((j, w) ∷ m) h =
    if_cases (λ o. o ≡ none) (text_eq j k) _ _ (λ e. elim (h.0 (sym ((text_eq_iff j k).0 e))) [ ])
      (λ _. absent k m h.1)

lookup-behind {ℓ} :
    {V : Type ℓ} (j : Text) (w : V) (m : List (Text × V)) (e : Text × V)
    → j ≢ e.0
    → lookup e.0 m ≡ some e.1
    → lookup e.0 ((j, w) ∷ m) ≡ some e.1
unfolding lookup
lookup-behind j w m e n h =
    if_cases (λ o. o ≡ some e.1) (text_eq j e.0) _ _ (λ q. elim (n ((text_eq_iff j e.0).0 q)) [ ])
      (λ _. h)

-- Every entry is the one that is found under its key.
pub KeysDiffer-lookup {ℓ} :
    {V : Type ℓ} (m : List (Text × V)) → KeysDiffer m → All (λ e. lookup e.0 m ≡ some e.1) m
unfolding lookup
KeysDiffer-lookup [] h = tt
KeysDiffer-lookup ((k, v) ∷ m) h = (
  rw (text_eq_self k) refl,
  All-zip (λ e. k ≢ e.0) (λ e. lookup e.0 m ≡ some e.1) (λ e. lookup e.0 ((k, v) ∷ m) ≡ some e.1) m
      (λ e. lookup-behind k v m e) h.0 (KeysDiffer-lookup m h.1),
)

-- What holds of every entry holds of the one that is found.
pub All-lookup {ℓ κ} :
    {V : Type ℓ} (P : Text × V → Type κ) (k : Text) (v : V) (m : List (Text × V))
    → All P m
    → lookup k m ≡ some v
    → P (k, v)
unfolding lookup
All-lookup P k v [] h e = elim (none-ne-some v e) [ ]
All-lookup P k v ((j, w) ∷ m) h e = elim (Bool-cases (text_eq j k)) [
  | inl q ↦
      let found = rw q at e in
      subst (λ x. P (x, v)) ((text_eq_iff j k).0 q)
        (subst (λ x. P (j, x)) (some-injective w v found) h.0)
  | inr q ↦ All-lookup P k v m h.1 (rw q at e)
]

-- The order of the entries does not matter.
pub lookup-perm {ℓ} :
    {V : Type ℓ} (k : Text) (l m : List (Text × V))
    → Permᴰ l m
    → KeysDiffer m
    → lookup k l ≡ lookup k m
lookup-perm k l m p h =
    let differ_l = AllPairs-perm (λ e f. e.0 ≢ f.0) (λ e f n q. n (sym q)) (Permᴰ.symm p) h in
    let into_m = All-perm (λ e. lookup e.0 m ≡ some e.1) (Permᴰ.symm p) (KeysDiffer-lookup m h) in
    let into_l = All-perm (λ e. lookup e.0 l ≡ some e.1) p (KeysDiffer-lookup l differ_l) in
    elim (Option-cases (lookup k m)) [
      | inr (v, e) ↦ All-lookup (λ x. lookup x.0 l ≡ some x.1) k v m into_l e ∙ sym e
      | inl e ↦ elim (Option-cases (lookup k l)) [
        | inl f ↦ f ∙ sym e
        | inr (v, f) ↦ f ∙ sym (All-lookup (λ x. lookup x.0 m ≡ some x.1) k v l into_m f)
      ]
    ]
