-- ===== src/Domain/Clock.antt =====
-- Instants and durations of Go's `time` package, as internal/domain/clock.go hands them out. An
-- instant is the number of nanoseconds since the zero `time.Time` (1 January of year 1, UTC), so
-- the zero instant is `IsZero`; instants before it do not occur. `UTC()` changes no instant.
use codex_window_reset.Base.{ℕ, ◌-◌, ◌^◌, Bool, ◌==◌, ltb, if◌then◌else◌}
use codex_window_reset.Base.Int.{ℤ, pos, negsuc, sub_ℕ}

abbrev pub Time : Type 0
Time = ℕ

abbrev pub second : ℕ
second = 1_000_000_000

abbrev pub minute : ℕ
minute = 60_000_000_000

abbrev pub hour : ℕ
hour = 3_600_000_000_000

abbrev pub is_zero : Time → Bool
is_zero t = t == 0

-- t.After(u), t.Before(u)
abbrev pub after : Time → Time → Bool
after t u = ltb u t

abbrev pub before : Time → Time → Bool
before t u = ltb t u

-- t.Sub(u): a duration of 64 bits, which saturates.
abbrev pub saturate : ℤ → ℤ
saturate (pos n) = if ltb n (2 ^ 63) then pos n else pos (2 ^ 63 - 1)
saturate (negsuc n) = if ltb n (2 ^ 63) then negsuc n else negsuc (2 ^ 63 - 1)

abbrev pub sub : Time → Time → ℤ
sub t u = saturate (sub_ℕ t u)
