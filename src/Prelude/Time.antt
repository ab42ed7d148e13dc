-- ===== src/Prelude/Time.antt =====
-- `time.Time` as the nanoseconds since Go's zero time, and `time.Duration` as its nanoseconds.
use Prim.Native.Nat.{◌-◌, ◌^◌}
use mathlib.Core.Path.{◌≡◌}
use mathlib.Core.Bool.{Bool, true, false}
use native.Mathlib.Omega.{arith}
use notmanytuples.Prelude.Tests.{if◌then◌else◌}
use notmanytuples.Prelude.Int.{ℤ, pos, negsuc, int_lt, int_eq, ◌+ℤ◌, ◌-ℤ◌}

abbrev pub Time : Type 0
Time = ℤ

abbrev pub Duration : Type 0
Duration = ℤ

-- `t.Before(u)`, `t.After(u)`, `t.Equal(u)` and `t.IsZero()`.
abbrev pub before : Time → Time → Bool
before t u = int_lt t u

abbrev pub after : Time → Time → Bool
after t u = int_lt u t

abbrev pub zero_time : Time
zero_time = pos 0

abbrev pub is_zero : Time → Bool
is_zero t = int_eq t zero_time

abbrev pub min_duration : Duration
min_duration = negsuc (2 ^ 63 - 1)

abbrev pub max_duration : Duration
max_duration = pos (2 ^ 63 - 1)

-- `t.Add(d)`.
unfoldable pub time_add : Time → Duration → Time
time_add t d = t +ℤ d

-- `t.Sub(u)`: a difference that is no duration is cut off at the ends of the range.
unfoldable pub time_sub : Time → Time → Duration
time_sub t u =
    let d = t -ℤ u in
    if int_lt max_duration d
    then max_duration
    else if int_lt d min_duration
    then min_duration
    else d

pub before_trans : (a b c : Time) → before a b ≡ true → before b c ≡ true → before a c ≡ true
before_trans a b c h k = ground arith

pub before_irrefl : (a : Time) → before a a ≡ false
before_irrefl a = ground arith
