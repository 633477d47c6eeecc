-- ===== src/Storage/Scenarios.antt =====
-- The scenarios of rust/adsb-data-engine/src/storage.rs and their tracks.  A table is the list of its rows;
-- an operation that fails leaves the tables as they were.  The identifier of a new row, a random UUID, and
-- the clock are arguments; the order of rows with equal sort keys is that of the table.
pub mod Rows
pub mod Tracks
pub mod Order
pub mod Deleting
pub mod Kept
pub mod Orphans
use mathlib.Core.Option.{get_or}
use adsb_feed.Prelude.{
  Option, none, some, or, Result, ok, err, and_then, List, [], ◌∷◌, ◌++◌, Bytes, bytes_eq, length,
  if◌then◌else◌,
}
use adsb_feed.Prelude.Int.{ℤ, leb_ℤ}
use adsb_feed.Storage.Scenarios.Rows.{
  ScenarioRow, ScenarioTrack, Scenario, ScenarioWithTracks, CreateScenario, UpdateScenario, Tables,
  ScenarioError, scenario_not_found, constraint,
}

module _ {F64 : Type 0} where
  unfoldable pub find_scenario : Bytes → List (ScenarioRow F64) → Option (ScenarioRow F64)
  find_scenario id [] = none
  find_scenario id (r ∷ rows) = if bytes_eq r.id id then some r else find_scenario id rows

  -- `WHERE scenario_id = ?`.
  unfoldable pub tracks_of : Bytes → List (ScenarioTrack F64) → List (ScenarioTrack F64)
  tracks_of id [] = []
  tracks_of id (t ∷ tracks) =
      let rest = tracks_of id tracks in if bytes_eq t.scenario_id id then t ∷ rest else rest

  -- `ORDER BY ordinal ASC`.
  unfoldable pub insert_sorted :
      ScenarioTrack F64 → List (ScenarioTrack F64) → List (ScenarioTrack F64)
  insert_sorted t [] = t ∷ []
  insert_sorted t (u ∷ us) =
      let rest = insert_sorted t us in if leb_ℤ t.ordinal u.ordinal then t ∷ u ∷ us else u ∷ rest

  unfoldable pub by_ordinal : List (ScenarioTrack F64) → List (ScenarioTrack F64)
  unfolding insert_sorted
  by_ordinal [] = []
  by_ordinal (t ∷ tracks) = insert_sorted t (by_ordinal tracks)

  unfoldable pub get_scenario_sync :
      Bytes → Tables F64 → Result (ScenarioWithTracks F64) ScenarioError
  unfolding find_scenario tracks_of by_ordinal
  get_scenario_sync id db =
      let own = tracks_of id db.tracks in
      elim (find_scenario id db.scenarios) [
        | none ↦ err (scenario_not_found id)
        | some r ↦ ok (record {
          scenario = record { row = r; track_count = length own };
          tracks = by_ordinal own;
        })
      ]

  unfoldable pub new_scenario : Bytes → ℤ → CreateScenario F64 → ScenarioRow F64
  new_scenario id now scenario = record {
    id = id;
    name = scenario.name;
    description = get_or scenario.description [];
    origin_lat = scenario.origin_lat;
    origin_lng = scenario.origin_lng;
    tags = scenario.tags;
    created_at_ms = now;
    updated_at_ms = now;
  }

  unfoldable pub insert_scenario_sync :
      Bytes → ℤ → CreateScenario F64 → Tables F64 → Result (Tables F64 × Scenario F64) ScenarioError
  unfolding new_scenario find_scenario
  insert_scenario_sync id now scenario db =
      let r = new_scenario id now scenario in
      elim (find_scenario id db.scenarios) [
        | some taken ↦ err constraint
        | none ↦
            ok (
              record db { scenarios = db.scenarios ++ r ∷ [] },
              record { row = r; track_count = 0 },
            )
      ]

  -- The assignments of the UPDATE of a scenario, and the UPDATE.
  unfoldable pub set_scenario : UpdateScenario F64 → ℤ → ScenarioRow F64 → ScenarioRow F64
  set_scenario s now r = record r {
    name = s.name;
    description = get_or s.description r.description;
    origin_lat = or s.origin_lat r.origin_lat;
    origin_lng = or s.origin_lng r.origin_lng;
    tags = or s.tags r.tags;
    updated_at_ms = now;
  }

  unfoldable pub update_rows :
      (ScenarioRow F64 → ScenarioRow F64) → Bytes → List (ScenarioRow F64) → List (ScenarioRow F64)
  update_rows f id [] = []
  update_rows f id (r ∷ rows) = (if bytes_eq r.id id then f r else r) ∷ update_rows f id rows

  unfoldable pub update_scenario_sync :
      ℤ → UpdateScenario F64 → Tables F64 → Result (Tables F64 × Scenario F64) ScenarioError
  unfolding update_rows set_scenario find_scenario get_scenario_sync
  update_scenario_sync now s db =
      let updated = record db { scenarios = update_rows (set_scenario s now) s.id db.scenarios } in
      elim (find_scenario s.id db.scenarios) [
        | none ↦ err (scenario_not_found s.id)
        | some old ↦
            and_then (get_scenario_sync s.id updated) (λ found. ok (updated, found.scenario))
      ]

  unfoldable pub touch_scenario : Bytes → ℤ → Tables F64 → Tables F64
  unfolding update_rows
  touch_scenario id now db = record db {
    scenarios = update_rows (λ r. record r { updated_at_ms = now }) id db.scenarios;
  }

  unfoldable pub drop_tracks_of : Bytes → List (ScenarioTrack F64) → List (ScenarioTrack F64)
  drop_tracks_of id [] = []
  drop_tracks_of id (t ∷ tracks) =
      let rest = drop_tracks_of id tracks in if bytes_eq t.scenario_id id then rest else t ∷ rest

  unfoldable pub drop_rows : Bytes → List (ScenarioRow F64) → List (ScenarioRow F64)
  drop_rows id [] = []
  drop_rows id (r ∷ rows) =
      let rest = drop_rows id rows in if bytes_eq r.id id then rest else r ∷ rest

  -- Both DELETEs, rolled back when there was no such scenario.
  unfoldable pub delete_scenario_sync : Bytes → Tables F64 → Result (Tables F64) ScenarioError
  unfolding drop_tracks_of drop_rows find_scenario
  delete_scenario_sync id db = elim (find_scenario id db.scenarios) [
    | none ↦ err (scenario_not_found id)
    | some r ↦
        ok (record { scenarios = drop_rows id db.scenarios; tracks = drop_tracks_of id db.tracks })
  ]
