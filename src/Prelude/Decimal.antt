-- ===== src/Prelude/Decimal.antt =====
-- The verb %d of package fmt at a number that is not negative.
use Prim.Native.Nat.{ℕ, zero, suc, ◌+◌, ◌/◌, ◌%◌}
use mathlib.Core.Bool.{true, false}
use mathlib.Core.List.{[], ◌∷◌}
use souz_go.Prelude.Basics.{ltb}
use souz_go.Prelude.Strings.{Text}

-- A number has at most as many digits as its value plus one.
unfoldable pub digits_before : ℕ → ℕ → Text → Text
digits_before zero n rest = rest
digits_before (suc fuel) n rest = elim (ltb n 10) [
  | true ↦ (b'0' + n) ∷ rest
  | false ↦ digits_before fuel (n / 10) ((b'0' + n % 10) ∷ rest)
]

unfoldable pub decimal : ℕ → Text
unfolding digits_before
decimal n = digits_before (suc n) n []
