-- ===== src/Storage/Scenarios/Tracks.antt =====
-- The operations on the tracks of a scenario, of rust/adsb-data-engine/src/storage.rs.
use mathlib.Core.Option.{get_or}
use adsb_feed.Prelude.{
  ℕ, ◌+◌, Bool, true, ◌&&◌, Option, none, some, Result, ok, err, List, [], ◌∷◌, ◌++◌, map, Bytes,
  bytes_eq, if◌then◌else◌,
}
use adsb_feed.Prelude.Int.{ℤ, pos, ◌+ℤ◌, leb_ℤ}
use adsb_feed.Storage.Scenarios.{tracks_of, touch_scenario}
use adsb_feed.Storage.Scenarios.Rows.{
  ScenarioTrack, CreateScenarioTrack, UpdateScenarioTrack, Tables, ScenarioError, track_not_found,
  constraint, fits_integer,
}

module _ {F64 : Type 0} where
  unfoldable pub find_track : Bytes → List (ScenarioTrack F64) → Option (ScenarioTrack F64)
  find_track id [] = none
  find_track id (t ∷ tracks) = if bytes_eq t.id id then some t else find_track id tracks

  -- `COALESCE(MAX(ordinal) + 1, 0)` over the tracks of a scenario.
  unfoldable pub max_ordinal : List (ScenarioTrack F64) → Option ℤ
  max_ordinal [] = none
  max_ordinal (t ∷ tracks) = elim (max_ordinal tracks) [
    | none ↦ some t.ordinal
    | some m ↦ if leb_ℤ t.ordinal m then some m else some t.ordinal
  ]

  unfoldable pub next_ordinal : Bytes → List (ScenarioTrack F64) → ℤ
  unfolding tracks_of max_ordinal
  next_ordinal id tracks = elim (max_ordinal (tracks_of id tracks)) [
    | none ↦ pos 0
    | some m ↦ m +ℤ pos 1
  ]

  -- The default offset, 0.0, is an argument.
  unfoldable pub new_track : F64 → Bytes → ℤ → ℤ → CreateScenarioTrack F64 → ScenarioTrack F64
  new_track no_offset id now ordinal t = record {
    id = id;
    scenario_id = t.scenario_id;
    ordinal = ordinal;
    hex_ident = t.hex_ident;
    callsign = t.callsign;
    category = t.category;
    start_offset_s = get_or t.start_offset_s no_offset;
    waypoints_json = t.waypoints_json;
    request_json = t.request_json;
    created_at_ms = now;
    updated_at_ms = now;
  }

  unfoldable pub insert_scenario_track_sync :
      F64
      → Bytes
      → ℤ
      → CreateScenarioTrack F64
      → Tables F64
      → Result (Tables F64 × ScenarioTrack F64) ScenarioError
  unfolding next_ordinal new_track find_track touch_scenario fits_integer
  insert_scenario_track_sync no_offset id now t db =
      let next = next_ordinal t.scenario_id db.tracks in
      let r = new_track no_offset id now next t in
      let inserted = record db { tracks = db.tracks ++ r ∷ [] } in
      let done = ok (touch_scenario t.scenario_id now inserted, r) in
      elim (find_track id db.tracks) [
        | some taken ↦ err constraint
        | none ↦ if fits_integer next then done else err constraint
      ]

  unfoldable pub set_track : UpdateScenarioTrack F64 → ℤ → ScenarioTrack F64 → ScenarioTrack F64
  set_track u now t = record t {
    callsign = get_or u.callsign t.callsign;
    start_offset_s = get_or u.start_offset_s t.start_offset_s;
    ordinal = get_or u.ordinal t.ordinal;
    updated_at_ms = now;
  }

  -- An UPDATE of the tracks that a test selects.
  unfoldable pub update_tracks :
      (ScenarioTrack F64 → ScenarioTrack F64)
      → (ScenarioTrack F64 → Bool)
      → List (ScenarioTrack F64)
      → List (ScenarioTrack F64)
  update_tracks f test tracks = map (λ t. if test t then f t else t) tracks

  unfoldable pub update_scenario_track_sync :
      ℤ
      → UpdateScenarioTrack F64
      → Tables F64
      → Result (Tables F64 × ScenarioTrack F64) ScenarioError
  unfolding set_track update_tracks find_track touch_scenario fits_integer
  update_scenario_track_sync now u db =
      let tracks = update_tracks (set_track u now) (λ t. bytes_eq t.id u.id) db.tracks in
      let in_range : Bool = elim u.ordinal [ none ↦ true | some ordinal ↦ fits_integer ordinal ] in
      elim (find_track u.id tracks) [
        | none ↦ err (track_not_found u.id)
        | some t ↦
            let done = touch_scenario t.scenario_id now (record db { tracks = tracks }) in
            if in_range then ok (done, t) else err constraint
      ]

  unfoldable pub drop_track : Bytes → List (ScenarioTrack F64) → List (ScenarioTrack F64)
  drop_track id [] = []
  drop_track id (t ∷ tracks) =
      let rest = drop_track id tracks in if bytes_eq t.id id then rest else t ∷ rest

  unfoldable pub delete_scenario_track_sync :
      ℤ → Bytes → Tables F64 → Result (Tables F64) ScenarioError
  unfolding find_track drop_track touch_scenario
  delete_scenario_track_sync now id db = elim (find_track id db.tracks) [
    | none ↦ err (track_not_found id)
    | some t ↦
        ok (touch_scenario t.scenario_id now (record db { tracks = drop_track id db.tracks }))
  ]

  -- One UPDATE per identifier, with the numbers from `index` on.
  unfoldable pub renumber :
      Bytes → ℤ → ℕ → List Bytes → List (ScenarioTrack F64) → List (ScenarioTrack F64)
  unfolding update_tracks
  renumber scenario_id now index [] tracks = tracks
  renumber scenario_id now index (id ∷ ids) tracks = renumber scenario_id now (index + 1) ids (
      update_tracks (λ t. record t { ordinal = pos index; updated_at_ms = now })
        (λ t. bytes_eq t.id id && bytes_eq t.scenario_id scenario_id) tracks)

  unfoldable pub reorder_scenario_tracks_sync : ℤ → Bytes → List Bytes → Tables F64 → Tables F64
  unfolding renumber touch_scenario
  reorder_scenario_tracks_sync now scenario_id track_ids db =
      touch_scenario scenario_id now
        (record db { tracks = renumber scenario_id now 0 track_ids db.tracks })
