-- ===== src/Storage/Scenarios/Deleting.antt =====
-- What the deletion of a scenario in rust/adsb-data-engine/src/storage.rs takes away.
use adsb_feed.Prelude.{
  subst, ◌≡◌, refl, sym, ◌∙◌, true, false, none, ok, err, List, [], ◌∷◌, Bytes, bytes_eq,
  bytes_eq_sound, bytes_eq_refl, Bool-cases, Option-cases, inl, inr,
}
use adsb_feed.Storage.Scenarios.{
  find_scenario, tracks_of, drop_tracks_of, drop_rows, delete_scenario_sync,
}
use adsb_feed.Storage.Scenarios.Rows.{ScenarioRow, ScenarioTrack, Tables, scenario_not_found}

differ : (k id j : Bytes) → bytes_eq k id ≡ true → bytes_eq j id ≡ false → bytes_eq k j ≡ false
differ k id j e h = elim (Bool-cases (bytes_eq k j)) [
  | inl q ↦
      let same = sym (bytes_eq_sound k j q) ∙ bytes_eq_sound k id e in
      let yes : bytes_eq j id ≡ true = rw same (bytes_eq_refl id) in cc
  | inr q ↦ q
]

module _ {F64 : Type 0} where
  pub drop_rows-other :
      (id j : Bytes) (rows : List (ScenarioRow F64))
      → bytes_eq j id ≡ false
      → find_scenario j (drop_rows id rows) ≡ find_scenario j rows
  unfolding find_scenario drop_rows
  drop_rows-other id j [] e = refl
  drop_rows-other id j (r ∷ rows) e = elim (Bool-cases (bytes_eq r.id id)) [
    | inl q ↦ rw (q, differ r.id id j q e) (drop_rows-other id j rows e)
    | inr q ↦ rw (q, drop_rows-other id j rows e) refl
  ]

  drop_rows-gone :
      (id : Bytes) (rows : List (ScenarioRow F64)) → find_scenario id (drop_rows id rows) ≡ none
  unfolding find_scenario drop_rows
  drop_rows-gone id [] = refl
  drop_rows-gone id (r ∷ rows) = elim (Bool-cases (bytes_eq r.id id)) [
    | inl e ↦ rw e (drop_rows-gone id rows)
    | inr e ↦ rw (e, e) (drop_rows-gone id rows)
  ]

  drop_tracks_of-gone :
      (id : Bytes) (tracks : List (ScenarioTrack F64))
      → tracks_of id (drop_tracks_of id tracks) ≡ []
  unfolding tracks_of drop_tracks_of
  drop_tracks_of-gone id [] = refl
  drop_tracks_of-gone id (t ∷ tracks) = elim (Bool-cases (bytes_eq t.scenario_id id)) [
    | inl e ↦ rw e (drop_tracks_of-gone id tracks)
    | inr e ↦ rw (e, e) (drop_tracks_of-gone id tracks)
  ]

  drop_tracks_of-other :
      (id j : Bytes) (tracks : List (ScenarioTrack F64))
      → bytes_eq j id ≡ false
      → tracks_of j (drop_tracks_of id tracks) ≡ tracks_of j tracks
  unfolding tracks_of drop_tracks_of
  drop_tracks_of-other id j [] e = refl
  drop_tracks_of-other id j (t ∷ tracks) e = elim (Bool-cases (bytes_eq t.scenario_id id)) [
    | inl q ↦ rw (q, differ t.scenario_id id j q e) (drop_tracks_of-other id j tracks e)
    | inr q ↦ rw (q, drop_tracks_of-other id j tracks e) refl
  ]

  pub deleted :
      (id : Bytes) (db db' : Tables F64)
      → delete_scenario_sync id db ≡ ok db'
      → record { scenarios = drop_rows id db.scenarios; tracks = drop_tracks_of id db.tracks } ≡ db'
  unfolding delete_scenario_sync
  deleted id db db' h = elim (Option-cases (find_scenario id db.scenarios)) [
    | inl n ↦
        let no : err (scenario_not_found id) ≡ ok db' =
          sym (rw (n, delete_scenario_sync) refl) ∙ h in
        cc
    | inr (r, n) ↦
        let gone : Tables F64 = record {
          scenarios = drop_rows id db.scenarios;
          tracks = drop_tracks_of id db.tracks;
        } in
        let it : ok gone ≡ ok db' = sym (rw (n, delete_scenario_sync) refl) ∙ h in cc
  ]

  -- Deleting a scenario takes it and all of its tracks away, and nothing else: every other scenario is found
  -- as before, with the same tracks.
  pub delete_scenario_sync_lem :
      (id : Bytes) (db db' : Tables F64)
      → delete_scenario_sync id db ≡ ok db'
      → (find_scenario id db'.scenarios ≡ none)
        × (tracks_of id db'.tracks ≡ [])
        × ((j : Bytes)
            → bytes_eq j id ≡ false
            → (find_scenario j db'.scenarios ≡ find_scenario j db.scenarios)
              × (tracks_of j db'.tracks ≡ tracks_of j db.tracks))
  delete_scenario_sync_lem id db db' h =
      subst
        (λ d.
          (find_scenario id d.scenarios ≡ none)
          × (tracks_of id d.tracks ≡ [])
          × ((j : Bytes)
              → bytes_eq j id ≡ false
              → (find_scenario j d.scenarios ≡ find_scenario j db.scenarios)
                × (tracks_of j d.tracks ≡ tracks_of j db.tracks)))
        (deleted id db db' h)
        (
          drop_rows-gone id db.scenarios,
          drop_tracks_of-gone id db.tracks,
          λ j e. (drop_rows-other id j db.scenarios e, drop_tracks_of-other id j db.tracks e),
        )
