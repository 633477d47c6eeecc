-- ===== src/Backoff/Logging.antt =====
-- How often a reconnect storm is logged (rust/adsb-pulsar-client/src/backoff.rs).
use adsb_feed.Prelude.{
  ℕ, zero, suc, ◌+◌, ◌-◌, ◌/◌, ◌%◌, ◌<◌, ◌≡◌, refl, ltb, if◌then◌else◌, true, arith,
}
use adsb_feed.Backoff.{should_log}

-- How many of the attempts below `n` are logged.
pub logged_below : ℕ → ℕ
logged_below zero = 0
logged_below (suc n) = logged_below n + (if should_log n then 1 else 0)

-- Of `n` failures the first three are logged, and then one in ten, exactly.
pub logged_below_lem : (n : ℕ) → logged_below n ≡ (if ltb n 3 then n else 3 + (n - 1) / 10)
unfolding logged_below should_log
logged_below_lem zero = refl
logged_below_lem (suc n) = ground (arith, logged_below_lem n)

-- In any ten attempts in a row one is logged.
pub should_log_within_ten : (n : ℕ) → (k : ℕ) × (k < 10) × (should_log (n + k) ≡ true)
unfolding should_log
should_log_within_ten n = ((10 - n % 10) % 10, omega arith, ground arith)
