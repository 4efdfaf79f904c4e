-- ===== src/Common/Replace.antt =====
-- Go's strings.NewReplacer, strings.ReplaceAll and strings.Split, for texts to find that are not
-- empty.
use Prim.Native.Nat.{ℕ, zero, suc, ◌-◌}
use mathlib.Core.Bool.{true, false}
use mathlib.Core.List.{List, [], ◌∷◌, ◌++◌}
use mathlib.Core.Option.{Option, none, some}
use memknow.Common.Tests.{if◌then◌else◌}
use memknow.Common.Lists.{length}
use memknow.Common.Runes.{Text, has_prefix}

-- The first pair whose old text the text starts with.
unfoldable pub find_pair : List (Text × Text) → Text → Option (Text × Text)
unfolding has_prefix
find_pair [] s = none
find_pair ((old, new) ∷ ps) s = if has_prefix s old then some (old, new) else find_pair ps s

-- From left to right, without overlaps: `k` runes belong to the old text just replaced.
unfoldable pub replace_from : List (Text × Text) → ℕ → Text → Text
unfolding find_pair
replace_from pairs k [] = []
replace_from pairs (suc k) (c ∷ s) = replace_from pairs k s
replace_from pairs zero (c ∷ s) = elim (find_pair pairs (c ∷ s)) [
  | none ↦ c ∷ replace_from pairs 0 s
  | some (old, new) ↦ new ++ replace_from pairs (length old - 1) s
]

-- `strings.NewReplacer(pairs...).Replace(s)`.
unfoldable pub replace_pairs : List (Text × Text) → Text → Text
unfolding replace_from
replace_pairs pairs s = replace_from pairs 0 s

-- `strings.ReplaceAll(s, old, new)`.
unfoldable pub replace_all : Text → Text → Text → Text
unfolding replace_pairs
replace_all s old new = replace_pairs ((old, new) ∷ []) s

-- `strings.Split(s, sep)`: `part` is what was read of the current part.
unfoldable pub split_from : Text → ℕ → Text → Text → List Text
unfolding has_prefix
split_from sep k part [] = part ∷ []
split_from sep (suc k) part (c ∷ s) = split_from sep k part s
split_from sep zero part (c ∷ s) = elim (has_prefix (c ∷ s) sep) [
  | true ↦ part ∷ split_from sep (length sep - 1) [] s
  | false ↦ split_from sep 0 (part ++ c ∷ []) s
]

unfoldable pub split : Text → Text → List Text
unfolding split_from
split s sep = split_from sep 0 [] s
