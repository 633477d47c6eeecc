-- ===== src/Storage/Scenarios/Kept.antt =====
-- What the statements on the scenarios and tracks of rust/adsb-data-engine/src/storage.rs keep.
use adsb_feed.Prelude.{
  subst, ℕ, ◌+◌, ◌≡◌, ◌≢◌, refl, sym, ap, ◌∙◌, Bool, false, ◌&&◌, none, some, List, [], ◌∷◌, ◌++◌,
  Bytes, All, All-imp, bytes_eq, if◌then◌else◌, if_intro, if_cases, Bool-cases, inl, inr,
}
use adsb_feed.Prelude.Int.{ℤ, pos}
use adsb_feed.Storage.Scenarios.{find_scenario, update_rows, touch_scenario, drop_tracks_of}
use adsb_feed.Storage.Scenarios.Rows.{ScenarioRow, ScenarioTrack, Tables}
use adsb_feed.Storage.Scenarios.Tracks.{update_tracks, drop_track, renumber}

module _ {F64 : Type 0} where
  -- Every track belongs to a scenario.
  abbrev pub NoOrphans : Tables F64 → Type 0
  NoOrphans db = All (λ t. find_scenario t.scenario_id db.scenarios ≢ none) db.tracks

  -- An update of the rows keeps every scenario.
  pub kept :
      (f : ScenarioRow F64 → ScenarioRow F64) (id j : Bytes) (rows : List (ScenarioRow F64))
      → ((r : ScenarioRow F64) → (f r).id ≡ r.id)
      → find_scenario j rows ≢ none
      → find_scenario j (update_rows f id rows) ≢ none
  unfolding find_scenario update_rows
  kept f id j [] same h e = h e
  kept f id j (r ∷ rows) same h e =
      let r' = if bytes_eq r.id id then f r else r in
      let same_id : r'.id ≡ r.id =
        if_intro (λ q. q.id ≡ r.id) (bytes_eq r.id id) (f r) r (same r) refl in
      elim (Bool-cases (bytes_eq r.id j)) [
        | inl q ↦
            let here = ap (λ k. bytes_eq k j) same_id ∙ q in
            let no : some r' ≡ none =
              ap (λ c. if c then some r' else find_scenario j (update_rows f id rows)) (sym here)
              ∙ e in
            cc
        | inr q ↦
            let here = ap (λ k. bytes_eq k j) same_id ∙ q in
            kept f id j rows same (λ n. h (rw q n))
              (ap (λ c. if c then some r' else find_scenario j (update_rows f id rows)) (sym here)
                ∙ e)
      ]

  -- What a track belongs to survives in the rows `rows`.
  abbrev pub Kept : Tables F64 → List (ScenarioRow F64) → Type 0
  Kept db rows = (j : Bytes) → find_scenario j db.scenarios ≢ none → find_scenario j rows ≢ none

  pub touched :
      (id : Bytes) (now : ℤ) (db : Tables F64) → Kept db (touch_scenario id now db).scenarios
  unfolding touch_scenario
  touched id now db j = kept (λ r. record r { updated_at_ms = now }) id j db.scenarios λ r. refl

  -- Tracks with a property of their scenario have it after an UPDATE that keeps the scenario, and so
  -- have those that a DELETE leaves.
  pub All-update_tracks :
      (P : Bytes → Type 0) (f : ScenarioTrack F64 → ScenarioTrack F64)
      (test : ScenarioTrack F64 → Bool) (tracks : List (ScenarioTrack F64))
      → ((t : ScenarioTrack F64) → (f t).scenario_id ≡ t.scenario_id)
      → All (λ t. P t.scenario_id) tracks
      → All (λ t. P t.scenario_id) (update_tracks f test tracks)
  unfolding update_tracks
  All-update_tracks P f test [] same h = tt
  All-update_tracks P f test (t ∷ tracks) same h = (
    if_intro (λ u. P u.scenario_id) (test t) (f t) t (subst P (sym (same t)) h.0) h.0,
    All-update_tracks P f test tracks same h.1,
  )

  pub All-renumber :
      (P : Bytes → Type 0) (sid : Bytes) (now : ℤ) (index : ℕ) (ids : List Bytes)
      (tracks : List (ScenarioTrack F64))
      → All (λ t. P t.scenario_id) tracks
      → All (λ t. P t.scenario_id) (renumber sid now index ids tracks)
  unfolding renumber
  All-renumber P sid now index [] tracks h = h
  All-renumber P sid now index (id ∷ ids) tracks h = All-renumber P sid now (index + 1) ids _ (
      All-update_tracks P (λ t. record t { ordinal = pos index; updated_at_ms = now })
        (λ t. bytes_eq t.id id && bytes_eq t.scenario_id sid) tracks (λ t. refl) h)

  pub All-drop_track :
      (P : Bytes → Type 0) (id : Bytes) (tracks : List (ScenarioTrack F64))
      → All (λ t. P t.scenario_id) tracks
      → All (λ t. P t.scenario_id) (drop_track id tracks)
  unfolding drop_track
  All-drop_track P id [] h = tt
  All-drop_track P id (t ∷ tracks) h =
      let rest = All-drop_track P id tracks h.1 in
      if_intro (All (λ u. P u.scenario_id)) (bytes_eq t.id id) _ _ rest (h.0, rest)

  pub All-drop_tracks_of :
      (P Q : Bytes → Type 0) (id : Bytes) (tracks : List (ScenarioTrack F64))
      → ((j : Bytes) → bytes_eq j id ≡ false → P j → Q j)
      → All (λ t. P t.scenario_id) tracks
      → All (λ t. Q t.scenario_id) (drop_tracks_of id tracks)
  unfolding drop_tracks_of
  All-drop_tracks_of P Q id [] imp h = tt
  All-drop_tracks_of P Q id (t ∷ tracks) imp h =
      let rest = All-drop_tracks_of P Q id tracks imp h.1 in
      if_cases (All (λ u. Q u.scenario_id)) (bytes_eq t.scenario_id id) _ _ (λ e. rest)
        λ e. (imp t.scenario_id e h.0, rest)

  pub Kept-append :
      (j : Bytes) (rows : List (ScenarioRow F64)) (r : ScenarioRow F64)
      → find_scenario j rows ≢ none
      → find_scenario j (rows ++ r ∷ []) ≢ none
  unfolding find_scenario
  Kept-append j [] r h e = h refl
  Kept-append j (q ∷ rows) r h e = elim (Bool-cases (bytes_eq q.id j)) [
    | inl c ↦ let no : some q ≡ none = sym (rw c refl) ∙ e in cc
    | inr c ↦ Kept-append j rows r (λ n. h (rw c n)) (sym (rw c refl) ∙ e)
  ]

  -- What all but the deletion of a scenario come to.
  pub with_scenarios :
      (db : Tables F64) (rows : List (ScenarioRow F64)) (tracks : List (ScenarioTrack F64))
      → Kept db rows
      → All (λ t. find_scenario t.scenario_id db.scenarios ≢ none) tracks
      → NoOrphans (record { scenarios = rows; tracks = tracks })
  with_scenarios db rows tracks keep h = All-imp (λ t. keep t.scenario_id) tracks h

  -- The operations on a track end with a touch of its scenario.
  pub touched-NoOrphans :
      (id : Bytes) (now : ℤ) (db : Tables F64) (tracks : List (ScenarioTrack F64))
      → All (λ t. find_scenario t.scenario_id db.scenarios ≢ none) tracks
      → NoOrphans (touch_scenario id now (record db { tracks = tracks }))
  unfolding touch_scenario
  touched-NoOrphans id now db tracks h =
      with_scenarios db (touch_scenario id now db).scenarios tracks (touched id now db) h
