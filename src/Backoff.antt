-- ===== src/Backoff.antt =====
-- rust/adsb-pulsar-client/src/backoff.rs
pub mod Delay
pub mod Logging
use adsb_feed.Prelude.{ℕ, ◌+◌, ◌*◌, ◌%◌, min, Bool, ◌||◌, leb, ltb, ◌==◌, Option}
use adsb_feed.Time.{
  Duration, from_millis, from_secs, as_millis, u64_max, u64_mod, saturating_mul, checked_shl,
}
use mathlib.Core.Option.{get_or}

-- Exponential backoff with a ceiling.
pub record Backoff : Type 0 where
  pub base : Duration
  pub max : Duration

-- `Backoff::default`.
abbrev pub default : Backoff
default = record { base = from_millis 100; max = from_secs 30 }

-- `Backoff::delay`: the pause before retry number `attempt`, counted from 0.
unfoldable pub delay : Backoff → ℕ → Duration
unfolding checked_shl
delay b attempt =
    let factor = get_or (checked_shl 1 (min attempt 32)) u64_max in
    let millis = saturating_mul (as_millis b.base % u64_mod) factor in
    min (from_millis millis) b.max

-- The first three attempts are logged, then every tenth.
unfoldable pub should_log : ℕ → Bool
should_log attempt = ltb attempt 3 || attempt % 10 == 0

-- Only a connection that held counts as recovered.
unfoldable pub should_reset : Duration → Bool
should_reset lasted = leb (from_secs 30) lasted

unfoldable pub was_short_lived : Duration → Bool
was_short_lived lasted = ltb lasted (from_secs 5)

unfoldable pub looks_like_id_collision : ℕ → Bool
looks_like_id_collision short_lived = leb 3 short_lived
