-- ===== src/Base/Floats.antt =====
-- IEEE single precision, for Go's `float32`: a finite value is a whole multiple of 2 ^ -149, so it
-- is kept as that multiple, and the comparisons are exact. Both zeros are `finite (pos 0)`.
use mathlib.Core.Bool.{Bool, true, false}
use flow_cast.Base.Int.{ℤ, pos, ltb_ℤ}
use Prim.Native.Nat.{◌^◌}

pub data Float32 : Type 0 where
  nan minus_infinity infinity : Float32
  finite : ℤ → Float32

unfoldable pub float_zero : Float32
float_zero = finite (pos 0)

unfoldable pub float_one : Float32
float_one = finite (pos (2 ^ 149))

-- a < b, false where either is NaN.
unfoldable pub float_ltb : Float32 → Float32 → Bool
float_ltb nan b = false
float_ltb minus_infinity nan = false
float_ltb minus_infinity minus_infinity = false
float_ltb minus_infinity b = true
float_ltb infinity b = false
float_ltb (finite a) nan = false
float_ltb (finite a) minus_infinity = false
float_ltb (finite a) infinity = true
float_ltb (finite a) (finite b) = ltb_ℤ a b
