-- ===== src/Go/Time.antt =====
-- Go's time.Time and time.Duration as numbers of nanoseconds. A time counts from the zero time, the
-- first instant of the year 1, and a time before it is not modelled. An int64 is the number of its
-- 64 bits in two's complement.
use ltm.Prelude.{ℕ, ◌+◌, ◌-◌, ◌*◌, ◌%◌, ◌≤◌, ◌<◌, ◌≡◌, Bool, ltb, ◌==◌, if◌then◌else◌, arith}

abbrev pub Time : Type 0
Time = ℕ

abbrev pub two_63 : ℕ
two_63 = 9223372036854775808

abbrev pub two_64 : ℕ
two_64 = 18446744073709551616

-- Signed order of two int64.
abbrev pub ltb_64 : ℕ → ℕ → Bool
ltb_64 a b = ltb ((a + two_63) % two_64) ((b + two_63) % two_64)

abbrev pub add_64 : ℕ → ℕ → ℕ
add_64 a b = (a + b) % two_64

abbrev pub sub_64 : ℕ → ℕ → ℕ
sub_64 a b = (a + (two_64 - b % two_64)) % two_64

abbrev pub is_zero : Time → Bool
is_zero t = t == 0

abbrev pub after : Time → Time → Bool
after t u = ltb u t

-- The Unix epoch.
abbrev pub epoch : Time
epoch = 62135596800000000000

-- t.UnixNano() and time.Unix(0, n).
unfoldable pub unix_nano : Time → ℕ
unix_nano t = (t + 3 * two_64 * two_64 - epoch) % two_64

unfoldable pub unix : ℕ → Time
unix n = if ltb n two_63 then epoch + n else epoch + n - two_64

-- `t.Add(d)`, where the 64 bits of a Duration are read as signed.
abbrev pub add_duration : Time → ℕ → Time
add_duration t d = if ltb d two_63 then t + d else t + d - two_64

-- The times whose UnixNano fits an int64.
abbrev pub InRange : Time → Type 0
InRange t = (epoch ≤ t + two_63) × (t < epoch + two_63)

pub unix-unix_nano : (t : Time) → InRange t → unix (unix_nano t) ≡ t
unfolding unix unix_nano
unix-unix_nano t h = ground arith

pub unix_nano-unix : (n : ℕ) → n < two_64 → unix_nano (unix n) ≡ n
unfolding unix unix_nano
unix_nano-unix n h = ground arith
