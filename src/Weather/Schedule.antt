-- ===== src/Weather/Schedule.antt =====
-- When to fetch next: `next_delay` and its helpers in rust/adsb-weather-server/src/refresh.rs.
pub mod Waits
use adsb_feed.Prelude.{ℕ, ◌+◌, ◌-◌, ◌*◌, ◌≤◌, ◌<◌, ◌≡◌, Option, none, some, min, max}
use mathlib.Core.Option.{get_or}
use adsb_feed.Prelude.Int.{ℤ, ◌+ℤ◌, ◌-ℤ◌, pos, negsuc, saturate_i64, wrap_i64, rem_euclid, pos_part}
use adsb_feed.Time.{Duration, from_secs, from_millis, as_millis}
use adsb_feed.Backoff.{Backoff, delay}
use adsb_feed.Weather.Types.{
  RateLimitScope, minutely, hourly, daily, unknown, ServiceState, idle, retrying, rate_limited,
  rejected, ErrorClass, transient, limited, refused,
}

-- The `f64` arithmetic that jitter uses, and `Duration::mul_f64`. `F64` stands
-- for the finite doubles, so that a jitter is never NaN or infinite, and each operation for its value on
-- arguments of the size that jitter has, where it stays finite. There rounding keeps order, these few sums
-- and products are exact or round to the named constant, and a product by 1 gives back a duration short
-- enough for a double to hold its nanoseconds.
pub record Floats : Type 1 where
  pub F64 : Type 0
  pub zero_f : F64
  pub half : F64
  pub tenth : F64
  pub one : F64
  pub eleven_tenths : F64
  pub add : F64 → F64 → F64
  pub sub : F64 → F64 → F64
  pub mul : F64 → F64 → F64
  pub clamp : F64 → F64 → F64 → F64
  pub mul_f64 : Duration → F64 → Duration
  pub exact_below : Duration
  pub Le : F64 → F64 → Type 0
  pub clamp-ge : (lo hi u : F64) → Le lo hi → Le lo (clamp lo hi u)
  pub clamp-le : (lo hi u : F64) → Le lo hi → Le (clamp lo hi u) hi
  pub zero-le-one : Le zero_f one
  pub add_mono : (a b c : F64) → Le b c → Le (add a b) (add a c)
  pub sub_anti : (a b c : F64) → Le b c → Le (sub a c) (sub a b)
  pub mul_mono : (a b c : F64) → Le zero_f a → Le b c → Le (mul a b) (mul a c)
  pub zero-le-half : Le zero_f half
  pub zero-le-tenth : Le zero_f tenth
  pub half_zero : add half (mul half zero_f) ≡ half
  pub half_one : add half (mul half one) ≡ one
  pub sub_one_one : sub one one ≡ zero_f
  pub sub_one_zero : sub one zero_f ≡ one
  pub one_zero : add one (mul tenth zero_f) ≡ one
  pub one_tenth : add one (mul tenth one) ≡ eleven_tenths
  pub mul_f64_mono : (d : Duration) (f g : F64) → Le f g → mul_f64 d f ≤ mul_f64 d g
  pub mul_f64_one : (d : Duration) → d < exact_below → mul_f64 d one ≡ d
  pub mul_f64_half : (d : Duration) → d < exact_below → d ≤ 2 * mul_f64 d half + 1
  pub mul_f64_eleven_tenths :
      (d : Duration) → d < exact_below → 10 * mul_f64 d eleven_tenths ≤ 11 * d + 10

-- `default_retry`: one minute, doubling, capped at thirty.
abbrev pub default_retry : Backoff
default_retry = record { base = from_secs 60; max = from_secs 1800 }

pub data Outcome : Type 0 where
  fetched : Outcome
  failed : ℕ → ErrorClass → Outcome

abbrev pub minute_window : Duration
minute_window = from_secs 60

abbrev pub daily_recheck : Duration
daily_recheck = from_secs (6 * 3600)

abbrev pub hour_ms : ℕ
hour_ms = 3600000

abbrev pub day_ms : ℕ
day_ms = 24 * hour_ms

-- The time to the next multiple of the period; on a boundary a whole period, never zero.
unfoldable pub until_next : ℤ → ℕ → Duration
until_next now_ms period_ms = from_millis (period_ms - rem_euclid now_ms period_ms)

-- The part of the rate-limited wait that the scope decides.
unfoldable pub window : RateLimitScope → Duration → Backoff → ℤ → Duration
unfolding until_next
window minutely refresh retry now_ms = minute_window
window hourly refresh retry now_ms = max (until_next now_ms hour_ms) refresh
window daily refresh retry now_ms = max (min (until_next now_ms day_ms) daily_recheck) refresh
window unknown refresh retry now_ms = max refresh retry.max

module _ (fl : Floats) where
  open fl use {F64, zero_f, half, tenth, one, add, sub, mul, clamp, mul_f64}

  unfoldable pub next_delay : Outcome → Duration → Backoff → ℤ → F64 → Duration
  unfolding window
  next_delay fetched refresh retry now_ms jitter = refresh
  next_delay (failed failures transient) refresh retry now_ms jitter =
      let u = clamp zero_f one jitter in
      let nominal = min (delay retry (failures - 1)) refresh in
      mul_f64 nominal (add half (mul half u))
  next_delay (failed failures refused) refresh retry now_ms jitter = refresh
  next_delay (failed failures (limited scope retry_after)) refresh retry now_ms jitter =
      let u = clamp zero_f one jitter in
      let nominal = max (window scope refresh retry now_ms) (get_or retry_after 0) in
      mul_f64 nominal (add one (mul tenth (sub one u)))

-- What the loop is doing while it waits after an outcome.
unfoldable pub waiting_state : Outcome → ServiceState
waiting_state fetched = idle
waiting_state (failed n transient) = retrying
waiting_state (failed n (limited s r)) = rate_limited
waiting_state (failed n refused) = rejected

-- A scheduled fetch in both clocks.
pub record Pending : Type 0 where
  pub due : Duration
  pub epoch_ms : ℤ

-- `Pending::after`, at the readings `mono` and `now_ms` of the clocks; `as i64` keeps the low 64 bits.
unfoldable pub after : Duration → ℤ → Duration → Pending
after mono now_ms wait = record {
  due = mono + wait;
  epoch_ms = saturate_i64 (now_ms +ℤ wrap_i64 (pos (as_millis wait)));
}

-- `Pending::at_epoch_ms`: a deadline already past is due now.
unfoldable pub at_epoch_ms : Duration → ℤ → ℤ → Pending
at_epoch_ms mono epoch_ms now_ms = record {
  due = mono + from_millis (pos_part (saturate_i64 (epoch_ms -ℤ now_ms)));
  epoch_ms = epoch_ms;
}
