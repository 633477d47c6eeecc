-- ===== src/Backoff/Delay.antt =====
-- How the pause of rust/adsb-pulsar-client/src/backoff.rs grows with the number of attempts.
use adsb_feed.Prelude.{ℕ, ◌*◌, ◌/◌, ◌%◌, ◌^◌, ◌≤◌, ◌<◌, ◌≡◌, refl, min, arith, some}
use adsb_feed.Time.{from_millis, from_secs, u64_max, u64_mod, nanos_per_milli, checked_shl}
use adsb_feed.Backoff.{Backoff, delay, default}
use native.Mathlib.Decide.{dec_le}
use native.Mathlib.Nat.{pow-le-pow_right}

-- The pause never passes the ceiling.
pub delay-le-max : (b : Backoff) (attempt : ℕ) → delay b attempt ≤ b.max
unfolding delay
delay-le-max b attempt = omega arith

pow_mono : (j k : ℕ) → j ≤ k → 2 ^ j ≤ 2 ^ k
pow_mono j k h = pow-le-pow_right (omega arith) h

mul_mono : (c p q : ℕ) → p ≤ q → c * p ≤ c * q
mul_mono c p q h = grind arith

-- The shift of 1 by at most 32 is the power of two: no bit leaves the 64-bit word.
checked_shl-one : (k : ℕ) → k ≤ 32 → checked_shl 1 k ≡ some (2 ^ k)
unfolding checked_shl
checked_shl-one k h = ground (arith, pow_mono k 32 h)

-- The pause as the code computes it, with the shift read as a power.
delay_pow :
    (b : Backoff) (a : ℕ)
    → delay b a
      ≡ min (from_millis (min (b.base / nanos_per_milli % u64_mod * 2 ^ min a 32) u64_max)) b.max
unfolding delay
delay_pow b a = rw (checked_shl-one (min a 32) (omega arith)) refl

-- A later retry never waits less.
pub delay_mono : (b : Backoff) (m n : ℕ) → m ≤ n → delay b m ≤ delay b n
delay_mono b m n h =
    rw (delay_pow b m, delay_pow b n)
      (omega (arith, mul_mono c _ _ (pow_mono (min m 32) (min n 32) (omega arith))))
  where
    c : ℕ
    c = b.base / nanos_per_milli % u64_mod

-- With a base of `k` milliseconds and a ceiling within reach of 32 doublings, the pause before retry
-- `a` is `k * 2 ^ a` milliseconds or the ceiling, whichever is less, for every `a`: neither the cap
-- of the shift nor the saturating product shows.
pub delay-eq-doubling :
    (k ceiling a : ℕ)
    → k < u64_mod
    → ceiling ≤ from_millis u64_max
    → ceiling ≤ from_millis (k * 2 ^ 32)
    → delay (record { base = from_millis k; max = ceiling }) a
      ≡ min (from_millis (k * 2 ^ a)) ceiling
delay-eq-doubling k ceiling a hk hu h32 =
    rw (delay_pow b a, whole)
      (elim (dec_le a 32) [
        | yes le ↦ rw (few le) (omega arith)
        | no gt ↦ rw (many gt) (omega (arith, mul_mono k _ _ (pow_mono 32 a (omega arith))))
      ])
  where
    b : Backoff
    b = record { base = from_millis k; max = ceiling }

    whole : from_millis k / nanos_per_milli % u64_mod ≡ k
    whole = omega arith

    few : a ≤ 32 → min a 32 ≡ a
    few le = omega arith

    many : ¬ a ≤ 32 → min a 32 ≡ 32
    many gt = omega arith

-- The default pacing waits 30 s from the ninth retry in a row on, however long the outage lasts.
pub delay-default_full : (a : ℕ) → 9 ≤ a → delay default a ≡ from_secs 30
delay-default_full a h =
    rw (delay-eq-doubling 100 (from_secs 30) a (omega arith) (omega arith) (omega arith))
      (omega (arith, mul_mono 100 _ _ (pow_mono 9 a h)))
