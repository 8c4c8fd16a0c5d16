-- ===== src/Base/Decimal.antt =====
-- The verb %d of fmt, for a number that is not negative, and strings.Join.
use Prim.Native.Nat.{ℕ, zero, suc, ◌+◌, ◌/◌, ◌%◌}
use mathlib.Core.Bool.{true, false}
use mathlib.Core.List.{List, [], ◌∷◌, ◌++◌}
use mathlib.Core.Path.{◌≡◌, refl}
use flow_cast.Base.Tests.{ltb}
use flow_cast.Base.Bytes.{Text, bytes}

digits_onto : ℕ → ℕ → Text → Text
digits_onto zero n s = s
digits_onto (suc fuel) n s = elim (ltb n 10) [
  | true ↦ (b'0' + n) ∷ s
  | false ↦ digits_onto fuel (n / 10) ((b'0' + n % 10) ∷ s)
]

-- A number has no more digits than its successor has units.
unfoldable pub show_nat : ℕ → Text
unfolding digits_onto
show_nat n = digits_onto (suc n) n []

unfoldable pub join : List Text → Text → Text
join [] separator = []
join (s ∷ []) separator = s
join (s ∷ t ∷ ts) separator = s ++ (separator ++ join (t ∷ ts) separator)

show_nat_tests : (show_nat 0 ≡ bytes "0") × (show_nat 1048576 ≡ bytes "1048576")
unfolding show_nat bytes
show_nat_tests = (refl, refl)
