-- ===== src/Weather/OpenMeteo/Hour.antt =====
-- Which hour the snapshot of rust/adsb-weather-server/src/open_meteo.rs is of.
use adsb_feed.Prelude.{
  ℕ, zero, suc, ◌≤◌, ◌<◌, ◌≡◌, refl, sym, ap, ◌∙◌, arith, none, some, Option-cases, inl, inr, ok,
  List, [], ◌∷◌, Bytes, get_elem?, take, All, subst,
}
use adsb_feed.Prelude.Int.{
  ℤ, pos, negsuc, ◌+ℤ◌, pos_part, neg_part, saturate_i64, wrap_i64, times_ℤ, abs_diff, rem_euclid,
}
use adsb_feed.Weather.Grid.{GridSpec}
use adsb_feed.Weather.Snapshot.{WeatherSnapshot}
use adsb_feed.Weather.OpenMeteo.{
  LocationResponse, distance, select_hour, valid_time, snapshot_at, assemble_snapshot,
}
use adsb_feed.Weather.OpenMeteo.Assembled.{select_hour-Nearest, assembled}

-- A time in seconds whose milliseconds are an `i64`.
abbrev pub HasMillis : ℤ → Type 0
HasMillis t = (pos_part t ≤ 9223372036854775) × (neg_part t ≤ 9223372036854775)

-- Milliseconds between the clock and a time in seconds.
abbrev pub gap : ℤ → ℤ → ℕ
gap now_ms t = abs_diff (times_ℤ 1000 t) now_ms

saturate_exact : (t : ℤ) → HasMillis t → saturate_i64 (times_ℤ 1000 t) ≡ times_ℤ 1000 t
unfolding saturate_i64
saturate_exact (pos n) h = ground arith
saturate_exact (negsuc n) h = ground arith

wrap_exact : (t : ℤ) → HasMillis t → wrap_i64 (times_ℤ 1000 t) ≡ times_ℤ 1000 t
unfolding rem_euclid ◌+ℤ◌
wrap_exact (pos n) h = ground arith
wrap_exact (negsuc n) h = ground arith

-- The time is one of the list's that is nearest to the clock, and the first of those.
abbrev pub NearestTime : ℤ → List ℤ → ℤ → Type 0
NearestTime now_ms times t =
    (i : ℕ) × (get_elem? times i ≡ some t)
    × All (λ u. gap now_ms t ≤ gap now_ms u) times
    × All (λ u. gap now_ms t < gap now_ms u) (take i times)

All-both {ℓ} :
    {A : Type ℓ} {P Q R : A → Type 0}
    → ((x : A) → P x → Q x → R x)
    → (xs : List A) → All P xs
    → All Q xs
    → All R xs
All-both f [] p q = tt
All-both f (x ∷ xs) p q = (f x p.0 q.0, All-both f xs p.1 q.1)

All-take {ℓ} : {A : Type ℓ} (P : A → Type 0) (n : ℕ) (xs : List A) → All P xs → All P (take n xs)
All-take P zero xs h = tt
All-take P (suc n) [] h = tt
All-take P (suc n) (x ∷ xs) h = (h.0, All-take P n xs h.1)

All-get {ℓ} :
    {A : Type ℓ} (P : A → Type 0) (i : ℕ) (xs : List A) (x : A)
    → get_elem? xs i ≡ some x
    → All P xs
    → P x
All-get P i [] x e h = cc
All-get P zero (y ∷ xs) x e h = let same : y ≡ x = cc in subst P same h.0
All-get P (suc i) (y ∷ xs) x e h = All-get P i xs x e h.1

distance_exact : (now_ms t : ℤ) → HasMillis t → distance now_ms t ≡ gap now_ms t
distance_exact now_ms t h = ap (λ m. abs_diff m now_ms) (saturate_exact t h)

select_hour-NearestTime :
    (now_ms : ℤ) (times : List ℤ) (i : ℕ) (t : ℤ)
    → All HasMillis times
    → select_hour now_ms times ≡ some i
    → get_elem? times i ≡ some t
    → NearestTime now_ms times t
select_hour-NearestTime now_ms times i t h e at =
    let (t', at', near, first) = select_hour-Nearest now_ms times i e in
    let it : some t' ≡ some t = sym at' ∙ at in
    let same : t' ≡ t = cc in
    let d =
      ap (distance now_ms) same ∙ distance_exact now_ms t (All-get HasMillis i times t at h) in
    (
      i,
      at,
      All-both
          (λ u m k.
            subst (λ x. x ≤ gap now_ms u) d
              (subst (λ x. distance now_ms t' ≤ x) (distance_exact now_ms u m) k))
          times h near,
      All-both
          (λ u m k.
            subst (λ x. x < gap now_ms u) d
              (subst (λ x. distance now_ms t' < x) (distance_exact now_ms u m) k))
          (take i times) (All-take HasMillis i times h) first,
    )

module _ {F32 : Type 0} where
  -- The times of the first location, which are those of the snapshot.
  abbrev pub times_of : List (LocationResponse F32) → List ℤ
  times_of [] = []
  times_of (first ∷ locations) = first.time

  valid_time-NearestTime :
      (now_ms : ℤ) (locations : List (LocationResponse F32)) (t : ℤ)
      → All HasMillis (times_of locations)
      → valid_time now_ms locations ≡ some t
      → NearestTime now_ms (times_of locations) t
  unfolding valid_time
  valid_time-NearestTime now_ms [] t h e = cc
  valid_time-NearestTime now_ms (first ∷ locations) t h e =
      elim (Option-cases (select_hour now_ms first.time)) [
        | inl n ↦ let no : none ≡ some t = sym (rw n refl) ∙ e in cc
        | inr (i, n) ↦ select_hour-NearestTime now_ms first.time i t h n (sym (rw n refl) ∙ e)
      ]

  -- A snapshot that is assembled says of itself, in milliseconds, the first of the times of the first
  -- location that are nearest to the clock, provided these times, which are in seconds, have milliseconds
  -- that are an `i64`.
  pub assemble_snapshot-NearestTime :
      {F64 : Type 0} (grid : GridSpec F64) (levels : List ℕ) (model : Bytes)
      (locations : List (LocationResponse F32)) (now_ms fetched_at_ms : ℤ)
      (s : WeatherSnapshot F64 F32)
      → All HasMillis (times_of locations)
      → assemble_snapshot grid levels model locations now_ms fetched_at_ms ≡ ok s
      → (t : ℤ) × (s.valid_time_ms ≡ times_ℤ 1000 t) × NearestTime now_ms (times_of locations) t
  unfolding snapshot_at
  assemble_snapshot-NearestTime grid levels model locations now_ms fetched_at_ms s h e =
      let (t, time, what, count) = assembled grid levels model locations now_ms fetched_at_ms s e in
      let near = valid_time-NearestTime now_ms locations t h time in
      let exact = All-get HasMillis near.0 (times_of locations) t near.1 h in
      (t, ap (λ (x : WeatherSnapshot _ F32). x.valid_time_ms) what ∙ wrap_exact t exact, near)
