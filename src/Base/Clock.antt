-- ===== src/Base/Clock.antt =====
-- Go's time.Time and time.Duration, as whole nanoseconds. An instant counts from the zero time, the
-- first of January of year 1; a duration is a signed 64-bit number.
use Prim.Native.Nat.{◌^◌, ◌-◌}
use mathlib.Core.Bool.{Bool}
use flow_cast.Base.Tests.{if◌then◌else◌}
use flow_cast.Base.Int.{ℤ, pos, negsuc, ◌+ℤ◌, ◌-ℤ◌, ltb_ℤ, eq_ℤ}

abbrev pub Time : Type 0
Time = ℤ

abbrev pub Duration : Type 0
Duration = ℤ

-- t.IsZero(), t.Before(u), t.Equal(u), t.Add(d)
abbrev pub is_zero : Time → Bool
is_zero t = eq_ℤ t (pos 0)

abbrev pub before : Time → Time → Bool
before t u = ltb_ℤ t u

abbrev pub equal : Time → Time → Bool
equal t u = eq_ℤ t u

abbrev pub time_add : Time → Duration → Time
time_add t d = t +ℤ d

abbrev pub max_duration : Duration
max_duration = pos (2 ^ 63 - 1)

abbrev pub min_duration : Duration
min_duration = negsuc (2 ^ 63 - 1)

abbrev pub saturate : ℤ → Duration
saturate d =
    if ltb_ℤ max_duration d then max_duration else if ltb_ℤ d min_duration then min_duration else d

-- t.Sub(u), which saturates.
unfoldable pub time_sub : Time → Time → Duration
time_sub t u = saturate (t -ℤ u)
