-- ===== src/Weather/OpenMeteo.antt =====
-- rust/adsb-weather-server/src/open_meteo.rs: the decoded answers, and the snapshot that is made of them.
pub mod Urls
pub mod Assembled
pub mod Hour
use mathlib.Core.Option
use adsb_feed.Prelude.{
  ℕ, zero, suc, ◌+◌, max, Bool, ◌&&◌, Option, none, some, ◌>>=◌, Result, ok, err, and_then, List,
  [], ◌∷◌, ◌++◌, map, Bytes, codes, length, get_elem?, take, drop, leb, ◌==◌, if◌then◌else◌,
}
use adsb_feed.Prelude.Decimal.{decimal}
use adsb_feed.Prelude.Int.{ℤ, saturate_i64, wrap_i64, times_ℤ, abs_diff, eqb_ℤ}
use adsb_feed.Ingest.Table.{Table, find}
use adsb_feed.Feed.Monitor.{any_window}
use adsb_feed.Weather.Types.{RateLimitScope, minutely, hourly, daily, unknown}
use adsb_feed.Weather.Grid.{GridSpec, len}
use adsb_feed.Weather.Snapshot.{SurfaceFields, LevelFields, WeatherSnapshot, snapshot_version}
use adsb_feed.Weather.OpenMeteo.Urls.{wind_speed_at, wind_direction_at}

pub data OpenMeteoError : Type 0 where
  api : Bytes → OpenMeteoError
  json : Bytes → OpenMeteoError
  location_count : ℕ → ℕ → OpenMeteoError
  no_times : OpenMeteoError

-- The hourly series of one location: times in seconds, and the values of each variable.
pub record LocationResponse (F32 : Type 0) : Type 0 where
  pub time : List ℤ
  pub series : Table (List (Option F32))

abbrev source_name : Bytes
source_name = codes "open-meteo"

abbrev attribution_text : Bytes
attribution_text = codes "Weather data by Open-Meteo.com (CC BY 4.0)"

-- The three shapes that a body may decode to.
pub data Body (F32 : Type 0) : Type 0 where
  error : Bytes → Body F32
  many : List (LocationResponse F32) → Body F32
  one : LocationResponse F32 → Body F32

abbrev pub to_ascii_lowercase : Bytes → Bytes
to_ascii_lowercase text = map (λ c. if leb b'A' c && leb c b'Z' then c + 32 else c) text

unfoldable pub rate_limit_scope : Bytes → RateLimitScope
unfolding any_window
rate_limit_scope reason =
    let text = to_ascii_lowercase reason in
    if any_window (codes "daily") text
    then daily
    else if any_window (codes "hourly") text
    then hourly
    else if any_window (codes "minutely") text
    then minutely
    else unknown

-- How far a time in seconds is from the clock, in milliseconds.
abbrev pub distance : ℤ → ℤ → ℕ
distance now_ms t = abs_diff (saturate_i64 (times_ℤ 1000 t)) now_ms

-- `min_by_key` over the times: the first of the nearest, with its distance.
unfoldable pub nearest : ℤ → List ℤ → Option (ℕ × ℕ)
nearest now_ms [] = none
nearest now_ms (t ∷ times) = elim (nearest now_ms times) [
  | none ↦ some (0, distance now_ms t)
  | some p ↦
      if leb (distance now_ms t) p.1 then some (0, distance now_ms t) else some (suc p.0, p.1)
]

unfoldable pub select_hour : ℤ → List ℤ → Option ℕ
unfolding nearest
select_hour now_ms times = Option.map (λ p. p.0) (nearest now_ms times)

unfoldable pub position : ℤ → List ℤ → Option ℕ
position t [] = none
position t (x ∷ xs) = if eqb_ℤ x t then some 0 else Option.map suc (position t xs)

abbrev pub flatten {ℓ} : {A : Type ℓ} → Option (Option A) → Option A
flatten none = none
flatten (some o) = o

module _ {F32 : Type 0} where
  -- `parse_body`; decoding the JSON is a library's.
  unfoldable pub parse_body :
      (Bytes → Result (Body F32) Bytes)
      → Bytes
      → Result (List (LocationResponse F32)) OpenMeteoError
  parse_body from_slice bytes = elim (from_slice bytes) [
    | err e ↦ err (json e)
    | ok (error reason) ↦ err (api reason)
    | ok (many locations) ↦ ok locations
    | ok (one location) ↦ ok (location ∷ [])
  ]

  unfoldable pub value_at : Bytes → ℤ → LocationResponse F32 → Option F32
  unfolding position find
  value_at variable valid_time_s location = do
    idx ← position valid_time_s location.time
    values ← find variable location.series
    flatten (get_elem? values idx)

  unfoldable pub column : List (LocationResponse F32) → ℤ → Bytes → List (Option F32)
  unfolding value_at
  column locations valid_time_s variable = map (value_at variable valid_time_s) locations

  unfoldable pub level_fields :
      List (LocationResponse F32) → ℤ → List ℕ → List (ℕ × LevelFields F32)
  unfolding column
  level_fields locations t levels =
      map
        (λ level. (
          level,
          record {
            wind_speed_kt = column locations t (wind_speed_at level);
            wind_dir_deg = column locations t (wind_direction_at level);
          },
        ))
        levels

  -- The time that `select_hour` selects in the first location.
  unfoldable pub valid_time : ℤ → List (LocationResponse F32) → Option ℤ
  unfolding select_hour
  valid_time now_ms [] = none
  valid_time now_ms (first ∷ locations) = do
    hour ← select_hour now_ms first.time
    get_elem? first.time hour

  module _ {F64 : Type 0} where
    -- The snapshot of the hour at `hour` of the first location.
    unfoldable pub snapshot_at :
        GridSpec F64
        → List ℕ
        → Bytes
        → List (LocationResponse F32)
        → ℤ
        → ℤ
        → WeatherSnapshot F64 F32
    unfolding column level_fields
    snapshot_at grid levels model locations valid_time_s fetched_at_ms = record {
      version = snapshot_version;
      source = source_name;
      attribution = attribution_text;
      model = model;
      fetched_at_ms = fetched_at_ms;
      valid_time_ms = wrap_i64 (times_ℤ 1000 valid_time_s);
      grid = grid;
      surface = record {
        mslp_hpa = column locations valid_time_s (codes "pressure_msl");
        wind_speed_kt = column locations valid_time_s (codes "wind_speed_10m");
        wind_dir_deg = column locations valid_time_s (codes "wind_direction_10m");
      };
      levels = level_fields locations valid_time_s levels;
    }

    unfoldable pub assemble_snapshot :
        GridSpec F64
        → List ℕ
        → Bytes
        → List (LocationResponse F32)
        → ℤ
        → ℤ
        → Result (WeatherSnapshot F64 F32) OpenMeteoError
    unfolding len snapshot_at valid_time
    assemble_snapshot grid levels model locations now_ms fetched_at_ms =
        if length locations == len grid
        then elim (valid_time now_ms locations) [
          | none ↦ err no_times
          | some t ↦ ok (snapshot_at grid levels model locations t fetched_at_ms)
        ]
        else err (location_count (length locations) (len grid))
