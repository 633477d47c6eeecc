-- ===== src/Storage/Scenarios/Rows.antt =====
-- The rows, the requests and the errors of the scenarios of rust/adsb-data-engine/src/storage.rs, with the
-- types of src/types.rs.
use adsb_feed.Prelude.{ℕ, Bool, Option, List, Bytes, leb}
use adsb_feed.Prelude.Int.{ℤ, pos, negsuc}

-- A row of `scenarios`.
pub record ScenarioRow (F64 : Type 0) : Type 0 where
  pub id : Bytes
  pub name : Bytes
  pub description : Bytes
  pub origin_lat : Option F64
  pub origin_lng : Option F64
  pub tags : Option Bytes
  pub created_at_ms : ℤ
  pub updated_at_ms : ℤ

pub record ScenarioTrack (F64 : Type 0) : Type 0 where
  pub id : Bytes
  pub scenario_id : Bytes
  pub ordinal : ℤ
  pub hex_ident : Bytes
  pub callsign : Bytes
  pub category : Bytes
  pub start_offset_s : F64
  pub waypoints_json : Bytes
  pub request_json : Option Bytes
  pub created_at_ms : ℤ
  pub updated_at_ms : ℤ

-- A scenario as it is returned, and with its tracks.
pub record Scenario (F64 : Type 0) : Type 0 where
  pub row : ScenarioRow F64
  pub track_count : ℕ

pub record ScenarioWithTracks (F64 : Type 0) : Type 0 where
  pub scenario : Scenario F64
  pub tracks : List (ScenarioTrack F64)

pub record CreateScenario (F64 : Type 0) : Type 0 where
  pub name : Bytes
  pub description : Option Bytes
  pub origin_lat : Option F64
  pub origin_lng : Option F64
  pub tags : Option Bytes

pub record UpdateScenario (F64 : Type 0) : Type 0 where
  pub id : Bytes
  pub name : Bytes
  pub description : Option Bytes
  pub origin_lat : Option F64
  pub origin_lng : Option F64
  pub tags : Option Bytes

pub record CreateScenarioTrack (F64 : Type 0) : Type 0 where
  pub scenario_id : Bytes
  pub hex_ident : Bytes
  pub callsign : Bytes
  pub category : Bytes
  pub start_offset_s : Option F64
  pub waypoints_json : Bytes
  pub request_json : Option Bytes

pub record UpdateScenarioTrack (F64 : Type 0) : Type 0 where
  pub id : Bytes
  pub callsign : Option Bytes
  pub start_offset_s : Option F64
  pub ordinal : Option ℤ

pub record Tables (F64 : Type 0) : Type 0 where
  pub scenarios : List (ScenarioRow F64)
  pub tracks : List (ScenarioTrack F64)

-- The errors; `constraint` is the database's own, for a taken key or a number out of its column's range.
pub data ScenarioError : Type 0 where
  scenario_not_found : Bytes → ScenarioError
  track_not_found : Bytes → ScenarioError
  constraint : ScenarioError

-- The range of a column of type INTEGER.
unfoldable pub fits_integer : ℤ → Bool
fits_integer (pos n) = leb n 2147483647
fits_integer (negsuc n) = leb n 2147483647
