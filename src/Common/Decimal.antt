-- ===== src/Common/Decimal.antt =====
-- Decimal numerals, as `%d` writes them.
use Prim.Native.Nat.{ℕ, zero, suc, ◌+◌, ◌-◌, ◌*◌, ◌/◌, ◌%◌, ◌<◌}
use mathlib.Core.Path.{◌≡◌}
use mathlib.Core.List.{[], ◌∷◌}
use native.Mathlib.Omega.{arith}
use memknow.Common.Tests.{◌==◌, if◌then◌else◌}
use memknow.Common.Runes.{Text}

-- The loop that peels off the last digit; the fuel is the number of digits allowed.
unfoldable pub decimal_loop : ℕ → ℕ → Text → Text
decimal_loop zero n out = out
decimal_loop (suc f) n out =
    let digit = b'0' + n % 10 in
    let rest = decimal_loop f (n / 10) (digit ∷ out) in if n / 10 == 0 then digit ∷ out else rest

-- A number has at most as many digits as its value plus one.
unfoldable pub decimal : ℕ → Text
unfolding decimal_loop
decimal n = decimal_loop (n + 1) n []

-- The value of a numeral read from the left.
unfoldable pub value_from : ℕ → Text → ℕ
value_from acc [] = acc
value_from acc (c ∷ s) = value_from (acc * 10 + (c - b'0')) s

value_from-decimal_loop :
    (f n acc : ℕ) (out : Text) → n < f → value_from 0 (decimal_loop f n out) ≡ value_from n out
unfolding decimal_loop value_from
value_from-decimal_loop zero n acc out h = elim h [ ]
value_from-decimal_loop (suc f) n acc out h =
    ground (arith, value_from-decimal_loop f (n / 10) acc ((b'0' + n % 10) ∷ out))

-- Reading the numeral back gives the number, so the fuel is always enough.
pub value_from-decimal : (n : ℕ) → value_from 0 (decimal n) ≡ n
unfolding decimal value_from
value_from-decimal n = value_from-decimal_loop (n + 1) n 0 [] (omega arith)
