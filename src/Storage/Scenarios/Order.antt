-- ===== src/Storage/Scenarios/Order.antt =====
-- The order of a scenario's tracks in rust/adsb-data-engine/src/storage.rs.
use mathlib.Core.List.{map-map, map-id}
use adsb_feed.Prelude.{
  subst, ℕ, ◌+◌, ◌≡◌, refl, sym, ap, ◌∙◌, arith, Bool, true, false, ◌&&◌, Option, none, some, or,
  ok, err, List, [], ◌∷◌, ◌++◌, map, Bytes, All, All-imp, bytes_eq, bytes_eq_refl, if◌then◌else◌,
  Bool-cases, Option-cases, inl, inr,
}
use adsb_feed.Prelude.Int.{ℤ, pos, ◌+ℤ◌, ◌≤ℤ◌, leb_ℤ, +ℤ_parts}
use adsb_feed.Storage.Scenarios.{tracks_of, insert_sorted, by_ordinal, touch_scenario}
use adsb_feed.Storage.Scenarios.Rows.{
  ScenarioTrack, CreateScenarioTrack, Tables, constraint, fits_integer,
}
use adsb_feed.Storage.Scenarios.Tracks.{
  find_track, max_ordinal, next_ordinal, new_track, insert_scenario_track_sync, update_tracks,
  renumber, reorder_scenario_tracks_sync,
}

-- The last place of an identifier in a list that is counted from `index`.
abbrev pub place : ℕ → List Bytes → Bytes → Option ℕ
place index [] id = none
place index (i ∷ ids) id =
    or (place (index + 1) ids id) (if bytes_eq id i then some index else none)

leb_ℤ→le : (a b : ℤ) → leb_ℤ a b ≡ true → a ≤ℤ b
leb_ℤ→le a b h = ground arith

below : (a b c : ℤ) → a ≤ℤ b → leb_ℤ c b ≡ false → a ≤ℤ c
below a b c h q = ground arith

below_next : (a m : ℤ) → a ≤ℤ m → a ≤ℤ m +ℤ pos 1
below_next a m h = omega (arith, h, +ℤ_parts m (pos 1))

module _ {F64 : Type 0} where
  abbrev moved : ℤ → ScenarioTrack F64 → Option ℕ → ScenarioTrack F64
  moved now t none = t
  moved now t (some i) = record t { ordinal = pos i; updated_at_ms = now }

  -- A track of the scenario at its place in the list; any other, and one that is not in the list, as it is.
  abbrev pub placed : Bytes → ℤ → ℕ → List Bytes → ScenarioTrack F64 → ScenarioTrack F64
  placed scenario_id now index ids t =
      if bytes_eq t.scenario_id scenario_id then moved now t (place index ids t.id) else t

  placed_nil :
      (scenario_id : Bytes) (now : ℤ) (index : ℕ) (t : ScenarioTrack F64)
      → placed scenario_id now index [] t ≡ t
  placed_nil scenario_id now index t = elim (Bool-cases (bytes_eq t.scenario_id scenario_id)) [
    | inl e ↦ rw e refl
    | inr e ↦ rw e refl
  ]

  moved_twice :
      (now : ℤ) (t : ScenarioTrack F64) (o : Option ℕ) (index : ℕ)
      → moved now (record t { ordinal = pos index; updated_at_ms = now }) o
        ≡ moved now t (or o (some index))
  moved_twice now t none index = refl
  moved_twice now t (some i) index = refl

  moved_once :
      (now : ℤ) (t : ScenarioTrack F64) (o : Option ℕ) → moved now t o ≡ moved now t (or o none)
  moved_once now t none = refl
  moved_once now t (some i) = refl

  one_place :
      (scenario_id : Bytes) (now : ℤ) (index : ℕ) (ids : List Bytes) (t : ScenarioTrack F64)
      (same_id same_scenario : Bool)
      → bytes_eq t.scenario_id scenario_id ≡ same_scenario
      → placed scenario_id now (index + 1) ids (
          if same_id && same_scenario
          then record t { ordinal = pos index; updated_at_ms = now }
          else t)
        ≡ (if same_scenario
            then moved now t
                (or (place (index + 1) ids t.id) (if same_id then some index else none))
            else t)
  one_place scenario_id now index ids t true true e =
      rw e (moved_twice now t (place (index + 1) ids t.id) index)
  one_place scenario_id now index ids t false true e =
      rw e (moved_once now t (place (index + 1) ids t.id))
  one_place scenario_id now index ids t true false e = rw e refl
  one_place scenario_id now index ids t false false e = rw e refl

  renumber_lem :
      (scenario_id : Bytes) (now : ℤ) (index : ℕ) (ids : List Bytes)
      (tracks : List (ScenarioTrack F64))
      → renumber scenario_id now index ids tracks ≡ map (placed scenario_id now index ids) tracks
  unfolding renumber update_tracks
  renumber_lem scenario_id now index [] tracks =
      sym (ap (λ f. map f tracks) (λ i t. placed_nil scenario_id now index t i) ∙ map-id tracks)
  renumber_lem scenario_id now index (id ∷ ids) tracks =
      renumber_lem scenario_id now (index + 1) ids _
      ∙ map-map (placed scenario_id now (index + 1) ids) _ tracks
      ∙ ap (λ f. map f tracks)
          (λ i t.
            one_place scenario_id now index ids t (bytes_eq t.id id)
              (bytes_eq t.scenario_id scenario_id) refl i)

  -- Reordering gives each track of the scenario its place in the list (the last, if it stands there more
  -- than once) as its ordinal, and changes no track that is not in the list or belongs to another
  -- scenario.
  pub reorder_scenario_tracks_sync_lem :
      (now : ℤ) (scenario_id : Bytes) (ids : List Bytes) (db : Tables F64)
      → (reorder_scenario_tracks_sync now scenario_id ids db).tracks
        ≡ map (placed scenario_id now 0 ids) db.tracks
  unfolding reorder_scenario_tracks_sync touch_scenario
  reorder_scenario_tracks_sync_lem now scenario_id ids db =
      renumber_lem scenario_id now 0 ids db.tracks

  max_ordinal-none : (tracks : List (ScenarioTrack F64)) → max_ordinal tracks ≡ none → tracks ≡ []
  unfolding max_ordinal
  max_ordinal-none [] e = refl
  max_ordinal-none (t ∷ tracks) e = elim (Option-cases (max_ordinal tracks)) [
    | inl n ↦ let no : ◌≡◌ {A = Option ℤ} (some t.ordinal) none = sym (rw n refl) ∙ e in cc
    | inr (k, n) ↦ elim (Bool-cases (leb_ℤ t.ordinal k)) [
      | inl q ↦ let no : ◌≡◌ {A = Option ℤ} (some k) none = sym (rw (n, q) refl) ∙ e in cc
      | inr q ↦ let no : ◌≡◌ {A = Option ℤ} (some t.ordinal) none = sym (rw (n, q) refl) ∙ e in cc
    ]
  ]

  abbrev AtMost : ℤ → List (ScenarioTrack F64) → Type 0
  AtMost m tracks = All (λ t. t.ordinal ≤ℤ m) tracks

  max_ordinal-AtMost :
      (tracks : List (ScenarioTrack F64)) (m : ℤ) → max_ordinal tracks ≡ some m → AtMost m tracks
  unfolding max_ordinal
  max_ordinal-AtMost [] m e = tt
  max_ordinal-AtMost (t ∷ tracks) m e = elim (Option-cases (max_ordinal tracks)) [
    | inl n ↦
        let it : some t.ordinal ≡ some m = sym (rw n refl) ∙ e in
        let same : t.ordinal ≡ m = cc in
        let others = subst (AtMost t.ordinal) (sym (max_ordinal-none tracks n)) tt in
        subst (λ m. AtMost m (t ∷ tracks)) same (omega arith, others)
    | inr (k, n) ↦
        let others = max_ordinal-AtMost tracks k n in
        elim (Bool-cases (leb_ℤ t.ordinal k)) [
          | inl q ↦
              let it : some k ≡ some m = sym (rw (n, q) refl) ∙ e in
              let same : k ≡ m = cc in
              subst (λ m. AtMost m (t ∷ tracks)) same (leb_ℤ→le t.ordinal k q, others)
          | inr q ↦
              let it : some t.ordinal ≡ some m = sym (rw (n, q) refl) ∙ e in
              let same : t.ordinal ≡ m = cc in
              let less = All-imp (λ u h. below u.ordinal k t.ordinal h q) tracks others in
              subst (λ m. AtMost m (t ∷ tracks)) same (omega arith, less)
        ]
  ]

  sorted-last :
      (t r : ScenarioTrack F64) (ys : List (ScenarioTrack F64))
      → t.ordinal ≤ℤ r.ordinal
      → insert_sorted t (ys ++ r ∷ []) ≡ insert_sorted t ys ++ r ∷ []
  unfolding insert_sorted
  sorted-last t r [] h = let e : leb_ℤ t.ordinal r.ordinal ≡ true = ground arith in rw e refl
  sorted-last t r (y ∷ ys) h = elim (Bool-cases (leb_ℤ t.ordinal y.ordinal)) [
    | inl e ↦ rw e refl
    | inr e ↦ rw e (ap (λ zs. y ∷ zs) (sorted-last t r ys h))
  ]

  by_ordinal-last :
      (r : ScenarioTrack F64) (tracks : List (ScenarioTrack F64))
      → AtMost r.ordinal tracks
      → by_ordinal (tracks ++ r ∷ []) ≡ by_ordinal tracks ++ r ∷ []
  unfolding by_ordinal insert_sorted
  by_ordinal-last r [] h = refl
  by_ordinal-last r (t ∷ tracks) h =
      ap (insert_sorted t) (by_ordinal-last r tracks h.1) ∙ sorted-last t r (by_ordinal tracks) h.0

  tracks_of-append :
      (id : Bytes) (tracks : List (ScenarioTrack F64)) (r : ScenarioTrack F64)
      → tracks_of id (tracks ++ r ∷ [])
        ≡ tracks_of id tracks ++ (if bytes_eq r.scenario_id id then r ∷ [] else [])
  unfolding tracks_of
  tracks_of-append id [] r = refl
  tracks_of-append id (t ∷ tracks) r = elim (Bool-cases (bytes_eq t.scenario_id id)) [
    | inl e ↦ rw e (ap (λ zs. t ∷ zs) (tracks_of-append id tracks r))
    | inr e ↦ rw e (tracks_of-append id tracks r)
  ]

  next_ordinal-AtMost :
      (id : Bytes) (tracks : List (ScenarioTrack F64))
      → AtMost (next_ordinal id tracks) (tracks_of id tracks)
  unfolding next_ordinal
  next_ordinal-AtMost id tracks = elim (Option-cases (max_ordinal (tracks_of id tracks))) [
    | inl n ↦
        subst (AtMost (next_ordinal id tracks)) (sym (max_ordinal-none (tracks_of id tracks) n)) tt
    | inr (m, n) ↦
        let next : next_ordinal id tracks ≡ m +ℤ pos 1 = rw (n, next_ordinal) refl in
        let others = max_ordinal-AtMost (tracks_of id tracks) m n in
        subst (λ k. AtMost k (tracks_of id tracks)) (sym next)
          (All-imp (λ t. below_next t.ordinal m) (tracks_of id tracks) others)
  ]

  -- A track that is added is the last of its scenario's tracks, in the order in which they are read, behind
  -- those that were there.
  pub insert_scenario_track_sync-Last :
      (no_offset : F64) (id : Bytes) (now : ℤ) (t : CreateScenarioTrack F64) (db db' : Tables F64)
      (r : ScenarioTrack F64)
      → insert_scenario_track_sync no_offset id now t db ≡ ok (db', r)
      → by_ordinal (tracks_of t.scenario_id db'.tracks)
        ≡ by_ordinal (tracks_of t.scenario_id db.tracks) ++ r ∷ []
  unfolding insert_scenario_track_sync new_track touch_scenario
  insert_scenario_track_sync-Last no_offset id now t db db' r h =
      let sid = t.scenario_id in
      let next = next_ordinal sid db.tracks in
      let row = new_track no_offset id now next t in
      let made : Tables F64 × ScenarioTrack F64 =
        (touch_scenario sid now (record db { tracks = db.tracks ++ row ∷ [] }), row) in
      elim (Option-cases (find_track id db.tracks)) [
        | inl n ↦ elim (Bool-cases (fits_integer next)) [
          | inl q ↦
              let it : ok made ≡ ok (db', r) =
                sym (rw (n, insert_scenario_track_sync, q) refl) ∙ h in
              let same : made ≡ (db', r) = cc in
              let all =
                tracks_of-append sid db.tracks row
                ∙ ap (λ c. tracks_of sid db.tracks ++ (if c then row ∷ [] else []))
                    (bytes_eq_refl sid) in
              subst
                (λ p.
                  by_ordinal (tracks_of sid (p.0).tracks)
                  ≡ by_ordinal (tracks_of sid db.tracks) ++ p.1 ∷ [])
                same
                (ap by_ordinal all
                  ∙ by_ordinal-last row (tracks_of sid db.tracks)
                      (next_ordinal-AtMost sid db.tracks))
          | inr q ↦
              let no : err constraint ≡ ok (db', r) =
                sym (rw (n, insert_scenario_track_sync, q) refl) ∙ h in
              cc
        ]
        | inr (u, n) ↦
            let no : err constraint ≡ ok (db', r) =
              sym (rw (n, insert_scenario_track_sync) refl) ∙ h in
            cc
      ]
