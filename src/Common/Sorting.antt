-- ===== src/Common/Sorting.antt =====
-- Go's `sort.SliceStable` and SQLite's `ORDER BY` as a stable insertion sort. An order that the
-- language or the database leaves open (of a map's entries, of equal elements under `sort.Slice`,
-- of equal rows) is a rearrangement before the sort, a parameter of the definitions that sort.
use mathlib.Core.Path.{◌≡◌, refl, subst}
use mathlib.Core.Bool.{Bool, true, false}
use mathlib.Core.List.Permᴰ
use mathlib.Core.List.{List, [], ◌∷◌, Permᴰ}
use memknow.Common.Tests.{if◌then◌else◌, if_cases}
use memknow.Common.Lists.{All, All-weaken}

-- The lists that hold the same elements, in any order.
abbrev pub Rearranges {ℓ} : {A : Type ℓ} → (List A → List A) → Type ℓ
Rearranges f = (l : List _) → Permᴰ (f l) l

-- A relation between every element and every later one.
abbrev pub AllPairs {ℓ κ} : {A : Type ℓ} → (A → A → Type κ) → List A → Type κ
AllPairs R [] = Unit
AllPairs R (x ∷ l) = All (R x) l × AllPairs R l

module _ {ℓ} {A : Type ℓ} where
  pub All-perm {κ} : (P : A → Type κ) {k l : List A} → Permᴰ k l → All P k → All P l
  All-perm P Permᴰ.nil h = h
  All-perm P (Permᴰ.cons e p) h = (subst P e h.0, All-perm P p h.1)
  All-perm P (Permᴰ.swap e d) h = (subst P d h.1.0, (subst P e h.0, h.1.1))
  All-perm P (Permᴰ.trans p q) h = All-perm P q (All-perm P p h)

  pub AllPairs-perm {κ} :
      (R : A → A → Type κ)
      → ((x y : A) → R x y → R y x)
      → {k l : List A} → Permᴰ k l
      → AllPairs R k
      → AllPairs R l
  AllPairs-perm R s Permᴰ.nil h = h
  AllPairs-perm R s (Permᴰ.cons {l₂ = l₂} e p) h =
      (subst (λ z. All (R z) l₂) e (All-perm (R _) p h.0), AllPairs-perm R s p h.1)
  AllPairs-perm R s (Permᴰ.swap {a = a} {b = b} {b' = b'} {l = l} e d) h = (
    (subst (λ z. R z b') d (subst (R b) e (s a b h.0.0)), subst (λ z. All (R z) l) d h.1.0),
    (subst (λ z. All (R z) l) e h.0.1, h.1.1),
  )
  AllPairs-perm R s (Permᴰ.trans p q) h = AllPairs-perm R s q (AllPairs-perm R s p h)

module _ {ℓ} {A : Type ℓ} (less : A → A → Bool) where
  -- Puts an element before all that do not come before it.
  unfoldable pub sorted_insert : A → List A → List A
  sorted_insert x [] = x ∷ []
  sorted_insert x (y ∷ l) = let rest = sorted_insert x l in if less y x then y ∷ rest else x ∷ y ∷ l

  unfoldable pub sort_by : List A → List A
  unfolding sorted_insert
  sort_by [] = []
  sort_by (x ∷ l) = sorted_insert x (sort_by l)

  -- No element comes before an earlier one.
  abbrev pub InOrder : A → A → Type 0
  InOrder x y = less y x ≡ false

  sorted_insert-perm : (x : A) (l : List A) → Permᴰ (sorted_insert x l) (x ∷ l)
  unfolding sorted_insert
  sorted_insert-perm x [] = Permᴰ.refl (x ∷ [])
  sorted_insert-perm x (y ∷ l) =
      if_cases (λ k. Permᴰ k (x ∷ y ∷ l)) (less y x) _ _
        (λ _. Permᴰ.trans (Permᴰ.cons refl (sorted_insert-perm x l)) (Permᴰ.swap refl refl))
        (λ _. Permᴰ.refl (x ∷ y ∷ l))

  pub sort_by-perm : (l : List A) → Permᴰ (sort_by l) l
  unfolding sort_by
  sort_by-perm [] = Permᴰ.nil
  sort_by-perm (x ∷ l) =
      Permᴰ.trans (sorted_insert-perm x (sort_by l)) (Permᴰ.cons refl (sort_by-perm l))

  module _ (asym : (x y : A) → less x y ≡ true → less y x ≡ false)
      (carry : (x y z : A) → less y x ≡ false → less z y ≡ false → less z x ≡ false) where
    sorted_insert-sorted :
        (x : A) (l : List A) → AllPairs InOrder l → AllPairs InOrder (sorted_insert x l)
    unfolding sorted_insert
    sorted_insert-sorted x [] h = (tt, tt)
    sorted_insert-sorted x (y ∷ l) h =
        if_cases (AllPairs InOrder) (less y x) _ _
          (λ e. (
            All-perm (InOrder y) (Permᴰ.symm (sorted_insert-perm x l)) (asym y x e, h.0),
            sorted_insert-sorted x l h.1,
          ))
          (λ e. ((e, All-weaken (InOrder y) (InOrder x) l (λ z g. carry x y z e g) h.0), h))

    pub sort_by-sorted : (l : List A) → AllPairs InOrder (sort_by l)
    unfolding sort_by
    sort_by-sorted [] = tt
    sort_by-sorted (x ∷ l) = sorted_insert-sorted x (sort_by l) (sort_by-sorted l)
