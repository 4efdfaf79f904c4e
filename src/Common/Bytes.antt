-- ===== src/Common/Bytes.antt =====
-- Go's cut of a string at a byte, on runes. A rune that the cut splits leaves bytes that are no
-- encoding of a rune: a stray byte `b` is written as the number 0x110000 + b, beyond all runes,
-- and `bytes` gives it back as it is.
use Prim.Native.Nat.{ℕ, zero, suc, ◌+◌, ◌-◌, ◌≤◌, min}
use mathlib.Core.Path.{◌≡◌, refl, ap, ◌∙◌, sym}
use mathlib.Core.Logic.{inl, inr}
use mathlib.Core.List.{List, [], ◌∷◌, ◌++◌, map}
use native.Mathlib.Omega.{arith}
use memknow.Common.Tests.{ltb, leb, if◌then◌else◌, Bool-cases, leb→le}
use memknow.Common.Lists.{length, take, length-take}
use memknow.Common.Runes.{Text, utf8_rune}

unfoldable pub bytes_of : ℕ → List ℕ
unfolding utf8_rune
bytes_of c = if ltb c 0x110000 then utf8_rune c else (c - 0x110000) ∷ []

unfoldable pub bytes : Text → List ℕ
unfolding bytes_of
bytes [] = []
bytes (c ∷ s) = bytes_of c ++ bytes s

-- `len(s)`.
unfoldable pub byte_length : Text → ℕ
unfolding bytes
byte_length s = length (bytes s)

-- `s[:n]`, for n up to the length.
unfoldable pub cut : ℕ → Text → Text
unfolding bytes_of
cut n [] = []
cut n (c ∷ s) =
    let rest = cut (n - length (bytes_of c)) s in
    if leb (length (bytes_of c)) n then c ∷ rest else map (◌+◌ 0x110000) (take n (bytes_of c))

take-append_whole {ℓ} :
    {A : Type ℓ} (n : ℕ) (a b : List A)
    → length a ≤ n
    → take n (a ++ b) ≡ a ++ take (n - length a) b
take-append_whole n [] b h = ap (λ m. take m b) (omega arith)
take-append_whole zero (x ∷ a) b h = elim h [ ]
take-append_whole (suc n) (x ∷ a) b h =
    ap (◌∷◌ x) (take-append_whole n a b (omega arith) ∙ ap (λ m. a ++ take m b) (omega arith))

take-append_part {ℓ} :
    {A : Type ℓ} (n : ℕ) (a b : List A) → n ≤ length a → take n (a ++ b) ≡ take n a
take-append_part zero a b h = refl
take-append_part (suc n) [] b h = elim h [ ]
take-append_part (suc n) (x ∷ a) b h = ap (◌∷◌ x) (take-append_part n a b (omega arith))

bytes_of-stray : (b : ℕ) → bytes_of (0x110000 + b) ≡ b ∷ []
unfolding bytes_of
bytes_of-stray b = ground arith

bytes-stray : (l : List ℕ) → bytes (map (◌+◌ 0x110000) l) ≡ l
unfolding bytes
bytes-stray [] = refl
bytes-stray (b ∷ l) = rw (bytes_of-stray b) (ap (◌∷◌ b) (bytes-stray l))

-- The bytes of the cut are the first bytes of the text.
pub bytes-cut : (n : ℕ) (s : Text) → bytes (cut n s) ≡ take n (bytes s)
unfolding cut bytes
bytes-cut zero [] = refl
bytes-cut (suc n) [] = refl
bytes-cut n (c ∷ s) = elim (Bool-cases (leb (length (bytes_of c)) n)) [
  | inl e ↦ rw e (
      ap (λ t. bytes_of c ++ t) (bytes-cut (n - length (bytes_of c)) s)
      ∙ sym (take-append_whole n (bytes_of c) (bytes s) (leb→le _ _ e)))
  | inr e ↦ rw e (
      bytes-stray (take n (bytes_of c))
      ∙ sym (take-append_part n (bytes_of c) (bytes s) (ground arith)))
]

pub byte_length-cut : (n : ℕ) (s : Text) → byte_length (cut n s) ≡ min n (byte_length s)
unfolding byte_length
byte_length-cut n s = ap length (bytes-cut n s) ∙ length-take n (bytes s)
