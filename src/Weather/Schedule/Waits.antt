-- ===== src/Weather/Schedule/Waits.antt =====
-- The waits of `next_delay` (rust/adsb-weather-server/src/refresh.rs) are neither too short nor too
-- long, whatever the jitter.
use adsb_feed.Prelude.{ℕ, ◌+◌, ◌-◌, ◌*◌, ◌≤◌, ◌<◌, ◌≡◌, subst, Option, min, max, arith}
use mathlib.Core.Option.{get_or}
use adsb_feed.Prelude.Int.{ℤ, ◌+ℤ◌, pos, negsuc, rem_euclid}
use adsb_feed.Time.{Duration, from_millis}
use adsb_feed.Backoff.{Backoff, delay}
use adsb_feed.Weather.Types.{RateLimitScope, minutely, hourly, daily, unknown, transient, limited}
use adsb_feed.Weather.Schedule.{
  Floats, failed, next_delay, window, until_next, hour_ms, day_ms, minute_window, daily_recheck,
}

-- The wait is at most a period, never zero, and ends exactly on a multiple of the period.
abbrev pub EndsOn : ℤ → ℕ → Type 0
EndsOn now_ms period =
    let w = period - rem_euclid now_ms period in
    (until_next now_ms period ≡ from_millis w)
    × (0 < w)
    × (w ≤ period)
    × (rem_euclid (now_ms +ℤ pos w) period ≡ 0)

-- The wait for the next UTC hour, and for the next UTC day, is longer than nothing, at most the period, and
-- ends on a multiple of the period, before and after the epoch.
pub until_next_lem : (now_ms : ℤ) → EndsOn now_ms hour_ms × EndsOn now_ms day_ms
unfolding until_next rem_euclid ◌+ℤ◌
until_next_lem (pos n) = ground arith
until_next_lem (negsuc n) = ground arith

module _ (fl : Floats) where
  open fl use {
    F64, zero_f, half, tenth, one, eleven_tenths, add, sub, mul, clamp, mul_f64, exact_below, Le,
    clamp-ge, clamp-le, zero-le-one, add_mono, sub_anti, mul_mono, zero-le-half, zero-le-tenth,
    half_zero, half_one, sub_one_one, sub_one_zero, one_zero, one_tenth, mul_f64_mono, mul_f64_one,
    mul_f64_half, mul_f64_eleven_tenths,
  }

  shorten_le :
      (d : Duration) (u : F64)
      → d < exact_below
      → mul_f64 d (add half (mul half (clamp zero_f one u))) ≤ d
  shorten_le d u h =
      subst (λ (e : ℕ). mul_f64 d (add half (mul half (clamp zero_f one u))) ≤ e) (mul_f64_one d h)
        (mul_f64_mono d _ one (
          subst (Le (add half (mul half (clamp zero_f one u)))) half_one (
            add_mono half _ _
              (mul_mono half _ one zero-le-half (clamp-le zero_f one u zero-le-one)))))

  shorten_ge :
      (d : Duration) (u : F64)
      → d < exact_below
      → d ≤ 2 * mul_f64 d (add half (mul half (clamp zero_f one u))) + 1
  shorten_ge d u h = omega (
    arith,
    mul_f64_half d h,
    mul_f64_mono d half (add half (mul half (clamp zero_f one u))) (
        subst (λ f. Le f (add half (mul half (clamp zero_f one u)))) half_zero
          (add_mono half _ _
            (mul_mono half zero_f _ zero-le-half (clamp-ge zero_f one u zero-le-one)))),
  )

  -- After a transient failure, with a refresh interval that a double holds exactly, the wait is the retry
  -- pause or the refresh interval, whichever is less, shortened by at most a half.
  pub next_delay-transient :
      (failures : ℕ) (refresh : Duration) (retry : Backoff) (now_ms : ℤ) (jitter : F64)
      → refresh < exact_below
      → let nominal = min (delay retry (failures - 1)) refresh in
        let wait = next_delay fl (failed failures transient) refresh retry now_ms jitter in
        (wait ≤ nominal) × (nominal ≤ 2 * wait + 1)
  unfolding next_delay
  next_delay-transient failures refresh retry now_ms jitter h =
      let d = min (delay retry (failures - 1)) refresh in
      (shorten_le d jitter (omega arith), shorten_ge d jitter (omega arith))

  lengthen : F64 → F64
  lengthen u = add one (mul tenth (sub one (clamp zero_f one u)))

  lengthen_ge : (u : F64) → Le one (lengthen u)
  unfolding lengthen
  lengthen_ge u =
      subst (λ f. Le f (add one (mul tenth (sub one (clamp zero_f one u))))) one_zero
        (add_mono one _ _ (
          mul_mono tenth zero_f _ zero-le-tenth (
            subst (λ f. Le f (sub one (clamp zero_f one u))) sub_one_one
              (sub_anti one _ one (clamp-le zero_f one u zero-le-one)))))

  lengthen_le : (u : F64) → Le (lengthen u) eleven_tenths
  unfolding lengthen
  lengthen_le u = subst (Le (add one (mul tenth (sub one (clamp zero_f one u))))) one_tenth (
      add_mono one _ _ (
        mul_mono tenth _ one zero-le-tenth (
          subst (Le (sub one (clamp zero_f one u))) sub_one_zero
            (sub_anti one zero_f _ (clamp-ge zero_f one u zero-le-one)))))

  -- What the scope of a rate limit asks of a wait.
  abbrev pub LongEnough : RateLimitScope → Duration → Backoff → ℤ → Duration → Type 0
  LongEnough minutely refresh retry now_ms wait = minute_window ≤ wait
  LongEnough hourly refresh retry now_ms wait =
      (until_next now_ms hour_ms ≤ wait) × (refresh ≤ wait)
  LongEnough daily refresh retry now_ms wait =
      (min (until_next now_ms day_ms) daily_recheck ≤ wait) × (refresh ≤ wait)
  LongEnough unknown refresh retry now_ms wait = (refresh ≤ wait) × (retry.max ≤ wait)

  LongEnough-window :
      (scope : RateLimitScope) (refresh : Duration) (retry : Backoff) (now_ms : ℤ) (wait : Duration)
      → window scope refresh retry now_ms ≤ wait
      → LongEnough scope refresh retry now_ms wait
  unfolding window
  LongEnough-window minutely refresh retry now_ms wait h = h
  LongEnough-window hourly refresh retry now_ms wait h = omega arith
  LongEnough-window daily refresh retry now_ms wait h = omega arith
  LongEnough-window unknown refresh retry now_ms wait h = omega arith

  -- After a rate limit, with a nominal wait that a double holds exactly, the wait is never shorter than the
  -- named window (for a day, six hours if those end first), the refresh interval where the window is not a
  -- minute, or the provider's `Retry-After`; jitter adds at most a tenth.
  pub next_delay-limited :
      (failures : ℕ) (scope : RateLimitScope) (retry_after : Option Duration) (refresh : Duration)
      (retry : Backoff) (now_ms : ℤ) (jitter : F64)
      → max (window scope refresh retry now_ms) (get_or retry_after 0) < exact_below
      → let wait =
          next_delay fl (failed failures (limited scope retry_after)) refresh retry now_ms jitter in
        LongEnough scope refresh retry now_ms wait
        × (get_or retry_after 0 ≤ wait)
        × (10 * wait ≤ 11 * max (window scope refresh retry now_ms) (get_or retry_after 0) + 10)
  unfolding next_delay lengthen
  next_delay-limited failures scope retry_after refresh retry now_ms jitter h = (
    LongEnough-window scope refresh retry now_ms wait (omega (arith, low)),
    omega (arith, low),
    omega (arith, mul_f64_eleven_tenths d h, high),
  )
    where
      d : Duration
      d = max (window scope refresh retry now_ms) (get_or retry_after 0)

      wait : Duration
      wait = mul_f64 d (lengthen jitter)

      low : d ≤ wait
      low =
          subst (λ (e : ℕ). e ≤ wait) (mul_f64_one d h) (mul_f64_mono d one _ (lengthen_ge jitter))

      high : wait ≤ mul_f64 d eleven_tenths
      high = mul_f64_mono d _ eleven_tenths (lengthen_le jitter)
