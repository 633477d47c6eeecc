-- ===== src/Time.antt =====
-- Durations and machine words (the parts of `std::time::Duration`, `u32` and `u64` that the sources
-- use).  A duration is a number of nanoseconds.
use adsb_feed.Prelude.{ℕ, ◌+◌, ◌*◌, ◌/◌, ◌^◌, ◌%◌, min, Option, none, some, ltb, if◌then◌else◌}

abbrev pub Duration : Type 0
Duration = ℕ

abbrev pub nanos_per_milli : ℕ
nanos_per_milli = 1000000

abbrev pub from_secs : ℕ → Duration
from_secs s = s * 1000000000

abbrev pub from_millis : ℕ → Duration
from_millis ms = ms * nanos_per_milli

abbrev pub as_millis : Duration → ℕ
as_millis d = d / nanos_per_milli

abbrev pub as_secs : Duration → ℕ
as_secs d = d / 1000000000

abbrev pub u64_max : ℕ
u64_max = 18446744073709551615

abbrev pub u32_max : ℕ
u32_max = 4294967295

abbrev pub u64_mod : ℕ
u64_mod = 18446744073709551616

-- `u64::saturating_mul`.
abbrev pub saturating_mul : ℕ → ℕ → ℕ
saturating_mul a b = min (a * b) u64_max

-- `u32::saturating_add`.
abbrev pub saturating_add : ℕ → ℕ → ℕ
saturating_add a b = min (a + b) u32_max

-- `u64::checked_shl`: `None` only for a shift by the width or more; bits shifted out are lost.
unfoldable pub checked_shl : ℕ → ℕ → Option ℕ
checked_shl a k = if ltb k 64 then some ((a * 2 ^ k) % u64_mod) else none
