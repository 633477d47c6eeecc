-- ===== src/Examples/Scenarios.antt =====
-- The theorems on scenarios at concrete inputs.
use adsb_feed.Prelude.{
  false, ◌≢◌, ℕ, ◌≡◌, refl, none, some, ok, [], ◌∷◌, ◌++◌, map, Bytes, codes, bytes_eq,
}
use adsb_feed.Prelude.Int.{pos, ◌+ℤ◌}
use adsb_feed.Storage.Scenarios.{
  find_scenario, tracks_of, by_ordinal, update_rows, touch_scenario, drop_tracks_of, drop_rows,
  delete_scenario_sync,
}
use adsb_feed.Storage.Scenarios.Rows.{
  ScenarioRow, ScenarioTrack, CreateScenarioTrack, Tables, fits_integer,
}
use adsb_feed.Storage.Scenarios.Tracks.{
  find_track, max_ordinal, next_ordinal, new_track, insert_scenario_track_sync,
  reorder_scenario_tracks_sync,
}
use adsb_feed.Storage.Scenarios.Order.{
  placed, reorder_scenario_tracks_sync_lem, insert_scenario_track_sync-Last,
}
use adsb_feed.Storage.Scenarios.Deleting.{delete_scenario_sync_lem}
use adsb_feed.Storage.Scenarios.Kept.{NoOrphans}
use adsb_feed.Storage.Scenarios.Orphans.{
  Steps, stay, go, delete_scenario, insert_track, Steps-NoOrphans,
}

abbrev first : Bytes
first = codes "s1"

abbrev second : Bytes
second = codes "s2"

abbrev scenario : Bytes → ScenarioRow ℕ
scenario id = record {
  id = id;
  name = id;
  description = [];
  origin_lat = none;
  origin_lng = none;
  tags = none;
  created_at_ms = pos 0;
  updated_at_ms = pos 0;
}

abbrev track : Bytes → Bytes → ℕ → ScenarioTrack ℕ
track id scenario_id ordinal = record {
  id = id;
  scenario_id = scenario_id;
  ordinal = pos ordinal;
  hex_ident = [];
  callsign = [];
  category = [];
  start_offset_s = 0;
  waypoints_json = [];
  request_json = none;
  created_at_ms = pos 0;
  updated_at_ms = pos 0;
}

-- Two scenarios, the first with two tracks.
abbrev db : Tables ℕ
db = record {
  scenarios = scenario first ∷ scenario second ∷ [];
  tracks = track (codes "a") first 0 ∷ track (codes "b") second 0 ∷ track (codes "c") first 1 ∷ [];
}

abbrev addition : CreateScenarioTrack ℕ
addition = record {
  scenario_id = first;
  hex_ident = [];
  callsign = [];
  category = [];
  start_offset_s = none;
  waypoints_json = [];
  request_json = none;
}

abbrev added : ScenarioTrack ℕ
added = new_track 0 (codes "d") (pos 9) (pos 2) addition

abbrev db_added : Tables ℕ
db_added = touch_scenario first (pos 9) (record db { tracks = db.tracks ++ added ∷ [] })

abbrev db_deleted : Tables ℕ
db_deleted = record {
  scenarios = drop_rows second db_added.scenarios;
  tracks = drop_tracks_of second db_added.tracks;
}

reorder_scenario_tracks_sync_lem_example :
    (reorder_scenario_tracks_sync (pos 9) first (codes "c" ∷ codes "b" ∷ codes "a" ∷ []) db).tracks
    ≡ map (placed first (pos 9) 0 (codes "c" ∷ codes "b" ∷ codes "a" ∷ [])) db.tracks
reorder_scenario_tracks_sync_lem_example =
    reorder_scenario_tracks_sync_lem (pos 9) first (codes "c" ∷ codes "b" ∷ codes "a" ∷ []) db

insertion : insert_scenario_track_sync 0 (codes "d") (pos 9) addition db ≡ ok (db_added, added)
unfolding insert_scenario_track_sync find_track next_ordinal max_ordinal tracks_of fits_integer
    bytes_eq ◌+ℤ◌ new_track
insertion = refl

deletion : delete_scenario_sync second db_added ≡ ok db_deleted
unfolding delete_scenario_sync find_scenario bytes_eq touch_scenario update_rows
deletion = refl

insert_scenario_track_sync-Last_example :
    by_ordinal (tracks_of first db_added.tracks)
    ≡ by_ordinal (tracks_of first db.tracks) ++ added ∷ []
insert_scenario_track_sync-Last_example =
    insert_scenario_track_sync-Last 0 (codes "d") (pos 9) addition db db_added added insertion

delete_scenario_sync_lem_example :
    (find_scenario second db_deleted.scenarios ≡ none)
    × (tracks_of second db_deleted.tracks ≡ [])
    × ((j : Bytes)
        → bytes_eq j second ≡ false
        → (find_scenario j db_deleted.scenarios ≡ find_scenario j db_added.scenarios)
          × (tracks_of j db_deleted.tracks ≡ tracks_of j db_added.tracks))
delete_scenario_sync_lem_example = delete_scenario_sync_lem second db_added db_deleted deletion

there : (s : ScenarioRow ℕ) → some s ≢ none
there s e = cc

db-NoOrphans : NoOrphans db
unfolding find_scenario bytes_eq
db-NoOrphans = (there _, (there _, (there _, tt)))

first_there : find_scenario first db.scenarios ≢ none
unfolding find_scenario bytes_eq
first_there = there _

-- A track is added to the first scenario, and then the second is deleted.
steps : Steps db db_deleted
steps =
    go db db_added db_deleted
      (insert_track 0 (codes "d") (pos 9) addition db_added added first_there insertion)
      (go db_added db_deleted db_deleted (delete_scenario second db_deleted deletion)
        (stay db_deleted))

Steps-NoOrphans_example : NoOrphans db_deleted
Steps-NoOrphans_example = Steps-NoOrphans db db_deleted steps db-NoOrphans
