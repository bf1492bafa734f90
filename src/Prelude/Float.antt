-- ===== src/Prelude/Float.antt =====
-- float64 values other than NaN, as the 64 bits of IEEE 754 that hold them: encoding/json decodes no
-- others.
use Prim.Native.Nat.{ℕ, ◌+◌, ◌-◌}
use mathlib.Core.Bool.{Bool, ◌||◌}
use souz_go.Prelude.Basics.{ltb, leb, ◌==◌, if◌then◌else◌}

-- A number in the order of the floats: 2^63 for both zeros, and the negative ones mirrored below.
unfoldable pub float_key : ℕ → ℕ
float_key b = if ltb b 0x8000000000000000 then 0x8000000000000000 + b else 0x10000000000000000 - b

-- x < y
unfoldable pub float_lt : ℕ → ℕ → Bool
unfolding float_key
float_lt x y = ltb (float_key x) (float_key y)

-- x <= y
unfoldable pub float_le : ℕ → ℕ → Bool
unfolding float_key
float_le x y = leb (float_key x) (float_key y)

-- x == 0, for both zeros
unfoldable pub float_is_zero : ℕ → Bool
float_is_zero x = x == 0 || x == 0x8000000000000000
