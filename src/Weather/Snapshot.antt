-- ===== src/Weather/Snapshot.antt =====
-- The payload of rust/adsb-weather-server/src/snapshot.rs and its check.
use adsb_feed.Prelude.{
  ℕ, Option, Result, ok, err, and_then, List, [], ◌∷◌, ◌++◌, Bytes, codes, length, ◌==◌,
  if◌then◌else◌,
}
use adsb_feed.Prelude.Decimal.{decimal}
use adsb_feed.Prelude.Int.{ℤ}
use adsb_feed.Weather.Grid.{GridSpec, len}

pub record SurfaceFields (F32 : Type 0) : Type 0 where
  pub mslp_hpa : List (Option F32)
  pub wind_speed_kt : List (Option F32)
  pub wind_dir_deg : List (Option F32)

pub record LevelFields (F32 : Type 0) : Type 0 where
  pub wind_speed_kt : List (Option F32)
  pub wind_dir_deg : List (Option F32)

-- The levels are in the order of the requests; the map of the source sorts them.
pub record WeatherSnapshot (F64 F32 : Type 0) : Type 0 where
  pub version : ℕ
  pub source : Bytes
  pub attribution : Bytes
  pub model : Bytes
  pub fetched_at_ms : ℤ
  pub valid_time_ms : ℤ
  pub grid : GridSpec F64
  pub surface : SurfaceFields F32
  pub levels : List (ℕ × LevelFields F32)

pub data SnapshotError : Type 0 where
  version : ℕ → ℕ → SnapshotError
  field_length : Bytes → ℕ → ℕ → SnapshotError

abbrev pub snapshot_version : ℕ
snapshot_version = 1

abbrev pub Checked : Type 0
Checked = Result (Unit {0}) SnapshotError

module _ {F32 : Type 0} where
  unfoldable pub ensure_len : Bytes → List (Option F32) → ℕ → Checked
  ensure_len name values expected =
      if length values == expected then ok tt else err (field_length name (length values) expected)

  unfoldable pub validate_levels : List (ℕ × LevelFields F32) → ℕ → Checked
  unfolding ensure_len
  validate_levels [] expected = ok tt
  validate_levels ((level, fields) ∷ levels) expected =
      let name = codes "levels." ++ decimal level in
      let rest = validate_levels levels expected in
      and_then (ensure_len (name ++ codes ".wind_speed_kt") fields.wind_speed_kt expected) λ _.
        and_then (ensure_len (name ++ codes ".wind_dir_deg") fields.wind_dir_deg expected) λ _. rest

  unfoldable pub validate_surface : SurfaceFields F32 → ℕ → Checked
  unfolding ensure_len
  validate_surface s expected =
      and_then (ensure_len (codes "surface.mslp_hpa") s.mslp_hpa expected) λ _.
        and_then (ensure_len (codes "surface.wind_speed_kt") s.wind_speed_kt expected)
          λ _. ensure_len (codes "surface.wind_dir_deg") s.wind_dir_deg expected

  -- `WeatherSnapshot::validate`.
  unfoldable pub validate : {F64 : Type 0} → WeatherSnapshot F64 F32 → Checked
  unfolding validate_levels validate_surface len
  validate s =
      let checked =
        and_then (validate_surface s.surface (len s.grid))
          (λ _. validate_levels s.levels (len s.grid)) in
      if s.version == snapshot_version then checked else err (version s.version snapshot_version)
