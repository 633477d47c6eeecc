-- ===== src/Weather/Provider.antt =====
-- `OpenMeteoProvider` of rust/adsb-weather-server/src/provider.rs.  The HTTP client is a parameter: what it
-- answers to the request for a URL, which is the n-th of the provider's.  Pacing only takes time.
pub mod Chunks
pub mod Retrying
pub mod Contents
pub mod Cells
use mathlib.Core.Option
use adsb_feed.Prelude.{
  ℕ, zero, suc, ◌+◌, ◌-◌, ◌*◌, ◌/◌, min, max, Bool, true, false, ◌&&◌, Option, none, some, ◌>>=◌,
  Result, ok, err, and_then, map_err, List, [], ◌∷◌, ◌++◌, map, Bytes, codes, length, ltb, leb,
  ◌==◌, if◌then◌else◌,
}
use adsb_feed.Prelude.Int.{ℤ, pos, negsuc, ◌+ℤ◌, eqb_ℤ}
use adsb_feed.Time.{Duration, from_secs, u64_max}
use adsb_feed.Ingest.Table.{Table, find, upsert}
use adsb_feed.Ingest.Text.{trim, is_digit}
use adsb_feed.Weather.Types.{
  RateLimitScope, minutely, hourly, daily, unknown, ErrorClass, transient, limited, refused,
}
use adsb_feed.Weather.Grid.{GridSpec, points}
use adsb_feed.Weather.Snapshot.{WeatherSnapshot}
use adsb_feed.Weather.OpenMeteo.{
  OpenMeteoError, api, LocationResponse, Body, rate_limit_scope, parse_body, assemble_snapshot,
}
use adsb_feed.Weather.OpenMeteo.Urls.{build_urls}

-- The base URL of the errors is left out: it is always the provider's own.
pub data ProviderError : Type 0 where
  http : Bytes → ProviderError
  status : ℕ → Option Bytes → Option Duration → ProviderError
  decode : OpenMeteoError → ProviderError

unfoldable pub status_class : ℕ → Option Bytes → Option Duration → ErrorClass
unfolding rate_limit_scope
status_class code reason retry_after =
    if code == 429
    then limited (elim reason [ none ↦ unknown | some text ↦ rate_limit_scope text ]) retry_after
    else if code == 408
    then transient
    else if leb 400 code && ltb code 500
    then refused
    else transient

-- `ProviderError::class`.
unfoldable pub class : ProviderError → ErrorClass
unfolding status_class
class (http message) = transient
class (status code reason retry_after) = status_class code reason retry_after
class (decode (api reason)) = refused
class (decode e) = transient

unfoldable pub is_rate_limited : ProviderError → Bool
unfolding class
is_rate_limited e = elim (class e) [ limited scope retry_after ↦ true | _ ↦ false ]

-- The value of digits behind that of those in front, if it fits 64 bits.
unfoldable pub u64_digits : ℕ → Bytes → Option ℕ
u64_digits n [] = some n
u64_digits n (c ∷ cs) =
    let next = n * 10 + (c - b'0') in
    let rest = u64_digits next cs in if is_digit c && leb next u64_max then rest else none

-- `parse::<u64>().ok()`: a plus sign may stand before the digits.
unfoldable pub parse_u64 : Bytes → Option ℕ
unfolding u64_digits
parse_u64 [] = none
parse_u64 (c ∷ []) = u64_digits 0 (c ∷ [])
parse_u64 (c ∷ d ∷ cs) = if c == b'+' then u64_digits 0 (d ∷ cs) else u64_digits 0 (c ∷ d ∷ cs)

abbrev pub max_retry_after : Duration
max_retry_after = from_secs 86400

unfoldable pub parse_retry_after : Bytes → Option Duration
unfolding trim parse_u64
parse_retry_after value =
    Option.map (λ s. min (from_secs s) max_retry_after) (parse_u64 (trim value))

abbrev pub hour_ms : ℕ
hour_ms = 3600000

-- `div_euclid` by a positive divisor: rounded down.
abbrev pub div_floor : ℤ → ℕ → ℤ
div_floor (pos n) d = pos (n / d)
div_floor (negsuc n) d = negsuc (n / d)

unfoldable pub nearest_hour : ℤ → ℤ
nearest_hour now_ms = div_floor (now_ms +ℤ pos 1800000) hour_ms

-- Chunks that a fetch which failed part-way had paid for, of one model hour.
pub record PartialFetch (L : Type 0) : Type 0 where
  pub hour : ℤ
  pub chunks : Table L

module _ {L : Type 0} where
  unfoldable pub get_held : ℤ → Bytes → PartialFetch L → Option L
  unfolding find
  get_held hour url p = if eqb_ℤ p.hour hour then find url p.chunks else none

  unfoldable pub insert_held : ℤ → Bytes → L → PartialFetch L → PartialFetch L
  unfolding upsert
  insert_held hour url locations p =
      let kept = if eqb_ℤ p.hour hour then p.chunks else [] in
      record { hour = hour; chunks = upsert url (λ _. locations) kept }

  unfoldable pub clear_held : PartialFetch L → PartialFetch L
  clear_held p = record p { chunks = [] }

-- What the HTTP client gives: no answer, or a status with its `Retry-After` and its body.
pub data Answer : Type 0 where
  no_answer : Bytes → Answer
  answered : ℕ → Option Bytes → Bytes → Answer

-- The provider: its held chunks, and the URLs that it has requested, the newest first.
pub record Provider (L : Type 0) : Type 0 where
  pub partial : PartialFetch L
  pub requests : List Bytes

-- The loop over the chunks, `get` being one request.
module _ {A : Type 0} (get : ℕ → Bytes → Result (List A) ProviderError) where
  unfoldable pub buy_chunk :
      ℤ → Bytes → Provider (List A) → Provider (List A) × Result (List A) ProviderError
  unfolding insert_held
  buy_chunk hour url p =
      let asked = record p { requests = url ∷ p.requests } in
      elim (get (length p.requests) url) [
        | err e ↦ (asked, err e)
        | ok fetched ↦
            (record asked { partial = insert_held hour url fetched p.partial }, ok fetched)
      ]

  -- A chunk that is held is not bought again.
  unfoldable pub take_chunk :
      ℤ → Bytes → Provider (List A) → Provider (List A) × Result (List A) ProviderError
  unfolding get_held buy_chunk
  take_chunk hour url p = elim (get_held hour url p.partial) [
    | some held ↦ (p, ok held)
    | none ↦ buy_chunk hour url p
  ]

  unfoldable pub fetch_chunks :
      ℤ → List Bytes → Provider (List A) → Provider (List A) × Result (List A) ProviderError
  unfolding take_chunk clear_held
  fetch_chunks hour [] p = (record p { partial = clear_held p.partial }, ok [])
  fetch_chunks hour (url ∷ urls) p =
      let (p', taken) = take_chunk hour url p in
      let (p'', rest) = fetch_chunks hour urls p' in
      elim taken [
        | err e ↦ (p', err e)
        | ok locations ↦ (p'', and_then rest (λ more. ok (locations ++ more)))
      ]

module _ {F32 : Type 0} (from_slice : Bytes → Result (Body F32) Bytes)
    (send : ℕ → Bytes → Answer) where
  -- `OpenMeteoProvider::get`.
  unfoldable pub get : ℕ → Bytes → Result (List (LocationResponse F32)) ProviderError
  unfolding parse_body parse_retry_after
  get n url = elim (send n url) [
    | no_answer message ↦ err (http message)
    | answered code header body ↦
        let retry_after = header >>= parse_retry_after in
        let parsed = parse_body from_slice body in
        let reason : Option Bytes = elim parsed [ err (api text) ↦ some text | _ ↦ none ] in
        if leb 200 code && ltb code 300
        then map_err decode parsed
        else err (status code reason retry_after)
  ]

module _ {F64 F32 : Type 0} (show : F64 → Bytes) (point : GridSpec F64 → ℕ → ℕ → F64 × F64)
    (from_slice : Bytes → Result (Body F32) Bytes) (send : ℕ → Bytes → Answer) where
  -- `OpenMeteoProvider::fetch`, for a provider of this URL, model and chunk size.
  unfoldable pub fetch :
      Bytes
      → Bytes
      → ℕ
      → GridSpec F64
      → List ℕ
      → ℤ
      → Provider (List (LocationResponse F32))
      → Provider (List (LocationResponse F32)) × Result (WeatherSnapshot F64 F32) ProviderError
  unfolding points build_urls nearest_hour fetch_chunks get assemble_snapshot
  fetch base_url model chunk grid levels now_ms p =
      let urls = build_urls show base_url model levels (points point grid) chunk in
      let (p', result) = fetch_chunks (get from_slice send) (nearest_hour now_ms) urls p in
      (
        p',
        and_then result λ locations.
            map_err decode (assemble_snapshot grid levels model locations now_ms now_ms),
      )
