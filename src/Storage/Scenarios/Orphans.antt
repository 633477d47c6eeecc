-- ===== src/Storage/Scenarios/Orphans.antt =====
-- That the tracks of rust/adsb-data-engine/src/storage.rs always have their scenario.
use adsb_feed.Prelude.{
  subst, ◌≡◌, ◌≢◌, refl, sym, ◌∙◌, Bool, true, none, some, Result-cases, ok, err, List, [], ◌∷◌,
  ◌++◌, Bytes, All-append, bytes_eq, Bool-cases, Option-cases, inl, inr,
}
use adsb_feed.Prelude.Int.{ℤ}
use adsb_feed.Storage.Scenarios.{
  find_scenario, new_scenario, insert_scenario_sync, set_scenario, update_rows,
  update_scenario_sync, touch_scenario, drop_rows, delete_scenario_sync, get_scenario_sync,
}
use adsb_feed.Storage.Scenarios.Rows.{
  ScenarioTrack, Scenario, CreateScenario, UpdateScenario, CreateScenarioTrack, UpdateScenarioTrack,
  Tables, scenario_not_found, track_not_found, constraint, fits_integer,
}
use adsb_feed.Storage.Scenarios.Tracks.{
  find_track, next_ordinal, new_track, insert_scenario_track_sync, set_track, update_tracks,
  update_scenario_track_sync, drop_track, delete_scenario_track_sync, renumber,
  reorder_scenario_tracks_sync,
}
use adsb_feed.Storage.Scenarios.Deleting.{drop_rows-other, deleted}
use adsb_feed.Storage.Scenarios.Kept.{
  NoOrphans, kept, All-update_tracks, All-renumber, All-drop_track, All-drop_tracks_of, Kept-append,
  with_scenarios, touched-NoOrphans,
}

module _ {F64 : Type 0} where
  -- One operation that succeeds; a track is added to a scenario that there is.
  pub data Step (db : Tables F64) : Tables F64 → Type 0 where
    insert_scenario :
        (id : Bytes) (now : ℤ) (s : CreateScenario F64) (db' : Tables F64) (r : Scenario F64)
        → insert_scenario_sync id now s db ≡ ok (db', r)
        → Step db db'
    update_scenario :
        (now : ℤ) (s : UpdateScenario F64) (db' : Tables F64) (r : Scenario F64)
        → update_scenario_sync now s db ≡ ok (db', r)
        → Step db db'
    delete_scenario :
        (id : Bytes) (db' : Tables F64) → delete_scenario_sync id db ≡ ok db' → Step db db'
    insert_track :
        (no_offset : F64) (id : Bytes) (now : ℤ) (t : CreateScenarioTrack F64) (db' : Tables F64)
        (r : ScenarioTrack F64)
        → find_scenario t.scenario_id db.scenarios ≢ none
        → insert_scenario_track_sync no_offset id now t db ≡ ok (db', r)
        → Step db db'
    update_track :
        (now : ℤ) (u : UpdateScenarioTrack F64) (db' : Tables F64) (r : ScenarioTrack F64)
        → update_scenario_track_sync now u db ≡ ok (db', r)
        → Step db db'
    delete_track :
        (now : ℤ) (id : Bytes) (db' : Tables F64)
        → delete_scenario_track_sync now id db ≡ ok db'
        → Step db db'
    reorder :
        (now : ℤ) (id : Bytes) (ids : List Bytes)
        → Step db (reorder_scenario_tracks_sync now id ids db)

  -- Any number of operations.
  pub data Steps : Tables F64 → Tables F64 → Type 0 where
    stay : (db : Tables F64) → Steps db db
    go : (db db' db'' : Tables F64) → Step db db' → Steps db' db'' → Steps db db''

  insert_scenario-NoOrphans :
      (id : Bytes) (now : ℤ) (s : CreateScenario F64) (db db' : Tables F64) (r : Scenario F64)
      → insert_scenario_sync id now s db ≡ ok (db', r)
      → NoOrphans db
      → NoOrphans db'
  unfolding insert_scenario_sync new_scenario
  insert_scenario-NoOrphans id now s db db' r h old =
      let row = new_scenario id now s in
      let rows = db.scenarios ++ row ∷ [] in
      let made : Tables F64 × Scenario F64 =
        (record { scenarios = rows; tracks = db.tracks }, record { row = row; track_count = 0 }) in
      elim (Option-cases (find_scenario id db.scenarios)) [
        | inl n ↦
            let it : ok made ≡ ok (db', r) = sym (rw (n, insert_scenario_sync) refl) ∙ h in
            let same : made ≡ (db', r) = cc in
            subst (λ p. NoOrphans p.0) same
              (with_scenarios db rows db.tracks (λ j. Kept-append j db.scenarios row) old)
        | inr (q, n) ↦
            let no : err constraint ≡ ok (db', r) = sym (rw (n, insert_scenario_sync) refl) ∙ h in
            cc
      ]

  update_scenario-NoOrphans :
      (now : ℤ) (s : UpdateScenario F64) (db db' : Tables F64) (r : Scenario F64)
      → update_scenario_sync now s db ≡ ok (db', r)
      → NoOrphans db
      → NoOrphans db'
  unfolding set_scenario update_scenario_sync
  update_scenario-NoOrphans now s db db' r h old =
      let rows = update_rows (set_scenario s now) s.id db.scenarios in
      let updated : Tables F64 = record { scenarios = rows; tracks = db.tracks } in
      elim (Option-cases (find_scenario s.id db.scenarios)) [
        | inl n ↦
            let no : err (scenario_not_found s.id) ≡ ok (db', r) =
              sym (rw (n, update_scenario_sync) refl) ∙ h in
            cc
        | inr (q, n) ↦ elim (Result-cases (get_scenario_sync s.id updated)) [
          | inl (found, g) ↦
              let made : Tables F64 × Scenario F64 = (updated, found.scenario) in
              let it : ok made ≡ ok (db', r) = sym (rw (n, update_scenario_sync, g) refl) ∙ h in
              let same : made ≡ (db', r) = cc in
              subst (λ p. NoOrphans p.0) same
                (with_scenarios db rows db.tracks
                  (λ j. kept (set_scenario s now) s.id j db.scenarios λ r. refl) old)
          | inr (e, g) ↦
              let no : err e ≡ ok (db', r) = sym (rw (n, update_scenario_sync, g) refl) ∙ h in cc
        ]
      ]

  delete_scenario-NoOrphans :
      (id : Bytes) (db db' : Tables F64)
      → delete_scenario_sync id db ≡ ok db'
      → NoOrphans db
      → NoOrphans db'
  delete_scenario-NoOrphans id db db' h old = subst NoOrphans (deleted id db db' h) (
      All-drop_tracks_of (λ j. find_scenario j db.scenarios ≢ none)
        (λ j. find_scenario j (drop_rows id db.scenarios) ≢ none) id db.tracks
        (λ j e has n. has (sym (drop_rows-other id j db.scenarios e) ∙ n)) old)

  insert_track-NoOrphans :
      (no_offset : F64) (id : Bytes) (now : ℤ) (t : CreateScenarioTrack F64) (db db' : Tables F64)
      (r : ScenarioTrack F64)
      → find_scenario t.scenario_id db.scenarios ≢ none
      → insert_scenario_track_sync no_offset id now t db ≡ ok (db', r)
      → NoOrphans db
      → NoOrphans db'
  unfolding insert_scenario_track_sync new_track
  insert_track-NoOrphans no_offset id now t db db' r has h old =
      let next = next_ordinal t.scenario_id db.tracks in
      let row = new_track no_offset id now next t in
      let tracks = db.tracks ++ row ∷ [] in
      let made : Tables F64 × ScenarioTrack F64 =
        (touch_scenario t.scenario_id now (record db { tracks = tracks }), row) in
      elim (Option-cases (find_track id db.tracks)) [
        | inl n ↦ elim (Bool-cases (fits_integer next)) [
          | inl q ↦
              let it : ok made ≡ ok (db', r) =
                sym (rw (n, insert_scenario_track_sync, q) refl) ∙ h in
              let same : made ≡ (db', r) = cc in
              subst (λ p. NoOrphans p.0) same
                (touched-NoOrphans t.scenario_id now db tracks (
                  All-append (λ t. find_scenario t.scenario_id db.scenarios ≢ none) db.tracks
                    (row ∷ []) old (has, tt)))
          | inr q ↦
              let no : err constraint ≡ ok (db', r) =
                sym (rw (n, insert_scenario_track_sync, q) refl) ∙ h in
              cc
        ]
        | inr (u, n) ↦
            let no : err constraint ≡ ok (db', r) =
              sym (rw (n, insert_scenario_track_sync) refl) ∙ h in
            cc
      ]

  range_of : UpdateScenarioTrack F64 → Bool
  range_of u = elim u.ordinal [ none ↦ true | some ordinal ↦ fits_integer ordinal ]

  update_track-NoOrphans :
      (now : ℤ) (u : UpdateScenarioTrack F64) (db db' : Tables F64) (r : ScenarioTrack F64)
      → update_scenario_track_sync now u db ≡ ok (db', r)
      → NoOrphans db
      → NoOrphans db'
  unfolding update_scenario_track_sync set_track range_of
  update_track-NoOrphans now u db db' r h old =
      let tracks = update_tracks (set_track u now) (λ t. bytes_eq t.id u.id) db.tracks in
      let P : Bytes → Type 0 = λ j. find_scenario j db.scenarios ≢ none in
      let kept_tracks =
        All-update_tracks P (set_track u now) (λ t. bytes_eq t.id u.id) db.tracks (λ t. refl) old in
      elim (Option-cases (find_track u.id tracks)) [
        | inl n ↦
            let no : err (track_not_found u.id) ≡ ok (db', r) =
              sym (rw (n, update_scenario_track_sync) refl) ∙ h in
            cc
        | inr (t, n) ↦
            let made : Tables F64 × ScenarioTrack F64 =
              (touch_scenario t.scenario_id now (record db { tracks = tracks }), t) in
            elim (Bool-cases (range_of u)) [
              | inl q ↦
                  let it : ok made ≡ ok (db', r) =
                    sym (rw (n, update_scenario_track_sync, q) refl) ∙ h in
                  let same : made ≡ (db', r) = cc in
                  subst (λ p. NoOrphans p.0) same
                    (touched-NoOrphans t.scenario_id now db tracks kept_tracks)
              | inr q ↦
                  let no : err constraint ≡ ok (db', r) =
                    sym (rw (n, update_scenario_track_sync, q) refl) ∙ h in
                  cc
            ]
      ]

  delete_track-NoOrphans :
      (now : ℤ) (id : Bytes) (db db' : Tables F64)
      → delete_scenario_track_sync now id db ≡ ok db'
      → NoOrphans db
      → NoOrphans db'
  unfolding delete_scenario_track_sync
  delete_track-NoOrphans now id db db' h old =
      let tracks = drop_track id db.tracks in
      elim (Option-cases (find_track id db.tracks)) [
        | inl n ↦
            let no : err (track_not_found id) ≡ ok db' =
              sym (rw (n, delete_scenario_track_sync) refl) ∙ h in
            cc
        | inr (t, n) ↦
            let made : Tables F64 =
              touch_scenario t.scenario_id now (record db { tracks = tracks }) in
            let it : ok made ≡ ok db' = sym (rw (n, delete_scenario_track_sync) refl) ∙ h in
            let same : made ≡ db' = cc in
            subst NoOrphans same (
              touched-NoOrphans t.scenario_id now db tracks
                (All-drop_track (λ j. find_scenario j db.scenarios ≢ none) id db.tracks old))
      ]

  Step-NoOrphans : (db db' : Tables F64) → Step db db' → NoOrphans db → NoOrphans db'
  unfolding reorder_scenario_tracks_sync
  Step-NoOrphans db db' (insert_scenario id now s d r h) =
      insert_scenario-NoOrphans id now s db db' r h
  Step-NoOrphans db db' (update_scenario now s d r h) = update_scenario-NoOrphans now s db db' r h
  Step-NoOrphans db db' (delete_scenario id d h) = delete_scenario-NoOrphans id db db' h
  Step-NoOrphans db db' (insert_track no_offset id now t d r has h) =
      insert_track-NoOrphans no_offset id now t db db' r has h
  Step-NoOrphans db db' (update_track now u d r h) = update_track-NoOrphans now u db db' r h
  Step-NoOrphans db db' (delete_track now id d h) = delete_track-NoOrphans now id db db' h
  Step-NoOrphans db db' (reorder now id ids) = λ old.
      touched-NoOrphans id now db (renumber id now 0 ids db.tracks)
        (All-renumber (λ j. find_scenario j db.scenarios ≢ none) id now 0 ids db.tracks old)

  -- However scenarios and tracks are added, changed, deleted and reordered, if each track is added to a
  -- scenario that there is at the time, every track goes on belonging to a scenario that there is.
  pub Steps-NoOrphans : (db db' : Tables F64) → Steps db db' → NoOrphans db → NoOrphans db'
  Steps-NoOrphans db db' (stay d) old = old
  Steps-NoOrphans db db' (go d mid d' step steps) old =
      Steps-NoOrphans mid db' steps (Step-NoOrphans db mid step old)
