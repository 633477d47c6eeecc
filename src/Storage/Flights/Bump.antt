-- ===== src/Storage/Flights/Bump.antt =====
-- How the aggregated updates of rust/adsb-data-engine/src/storage.rs act on the rows of `flights`.
use adsb_feed.Prelude.{
  ◌+◌, ◌%◌, ◌<◌, ◌≡◌, refl, sym, ap, ◌∙◌, arith, true, false, Option, none, some, or, or_assoc,
  List, [], ◌∷◌, ◌++◌, map, Bytes, bytes_eq, bytes_eq_sound, Bool-cases, inl, inr,
}
use mathlib.Core.List.{map-id, map-map, map-append}
use adsb_feed.Prelude.Int.{ℤ}
use adsb_feed.Ingest.Sbs.{AircraftPosition}
use adsb_feed.Ingest.Table.{Table, find, upsert, find-upsert, Distinct, upsert-Distinct}
use adsb_feed.Storage.Flights.{
  u32_mod, Flight, Extremes, AggregatedFlightUpdate, max_ℤ, skip_null, one_update, aggregate, bump,
  bump_if, exec_updates,
}

max_ℤ_assoc : (a b c : ℤ) → max_ℤ (max_ℤ a b) c ≡ max_ℤ a (max_ℤ b c)
unfolding max_ℤ
max_ℤ_assoc a b c = ground arith

module _ {F64 : Type 0} where
  -- What the UPDATE makes of an altitude, in two steps and in one.
  fill : (F64 → F64 → F64) → Option F64 → Option F64 → Option F64
  fill f m a = skip_null f (or m a) (or a m)

  fill_assoc :
      (f : F64 → F64 → F64)
      → ((a b c : F64) → f (f a b) c ≡ f a (f b c))
      → ((a : F64) → f a a ≡ a)
      → (m a b : Option F64) → fill f m (skip_null f a b) ≡ fill f (fill f m a) b
  unfolding fill
  fill_assoc f assoc idem none none none = refl
  fill_assoc f assoc idem none none (some b) = refl
  fill_assoc f assoc idem none (some a) none = ap some (sym (idem (f a a)))
  fill_assoc f assoc idem none (some a) (some b) = rw (idem (f a b), idem a) refl
  fill_assoc f assoc idem (some m) none none = ap some (sym (idem (f m m)))
  fill_assoc f assoc idem (some m) none (some b) = rw (idem m) refl
  fill_assoc f assoc idem (some m) (some a) none = ap some (sym (idem (f m a)))
  fill_assoc f assoc idem (some m) (some a) (some b) = ap some (sym (assoc m a b))

  module _ (E : Extremes F64) where
    -- Aggregating a position and then updating the row is updating it twice.
    pub bump-aggregate :
        (id : Bytes) (pos : AircraftPosition F64) (ts_ms : ℤ) (agg : AggregatedFlightUpdate F64)
        (row : Flight F64)
        → agg.position_count + 1 < u32_mod
        → bump E (aggregate E id pos ts_ms (some agg)) row
          ≡ bump E (one_update id pos ts_ms) (bump E agg row)
    unfolding bump aggregate one_update fill
    bump-aggregate id pos ts_ms agg row h =
        let count : row.position_count + (agg.position_count + 1) % u32_mod
            ≡ row.position_count + agg.position_count + 1 =
          omega arith in
        let times = sym (max_ℤ_assoc row.last_seen_ms agg.max_timestamp_ms ts_ms) in
        let names = sym (or_assoc pos.callsign agg.last_callsign row.callsign) in
        let low =
          fill_assoc E.least E.least_assoc E.least_idem row.min_altitude agg.min_altitude
            pos.altitude in
        let high =
          fill_assoc E.greatest E.greatest_assoc E.greatest_idem row.max_altitude agg.max_altitude
            pos.altitude in
        λ i. record row {
          last_seen_ms = times i;
          position_count = count i;
          callsign = names i;
          min_altitude = low i;
          max_altitude = high i;
        }

    -- All updates on one row.
    abbrev apply_all : Table (AggregatedFlightUpdate F64) → Flight F64 → Flight F64
    apply_all [] row = row
    apply_all ((id, upd) ∷ ups) row = apply_all ups (bump_if E id upd row)

    exec_updates_lem :
        (ups : Table (AggregatedFlightUpdate F64)) (rows : List (Flight F64))
        → exec_updates E ups rows ≡ map (apply_all ups) rows
    unfolding exec_updates
    exec_updates_lem [] rows = sym (map-id rows)
    exec_updates_lem ((id, upd) ∷ ups) rows =
        exec_updates_lem ups (map (bump_if E id upd) rows)
        ∙ map-map (apply_all ups) (bump_if E id upd) rows

    -- The one update that a row gets.
    unfoldable pub applied : Option (AggregatedFlightUpdate F64) → Flight F64 → Flight F64
    applied none row = row
    applied (some upd) row = bump E upd row

    apply_all-none :
        (ups : Table (AggregatedFlightUpdate F64)) (row : Flight F64)
        → find row.flight_id ups ≡ none
        → apply_all ups row ≡ row
    unfolding find bump_if
    apply_all-none [] row h = refl
    apply_all-none ((id, upd) ∷ ups) row h = elim (Bool-cases (bytes_eq row.flight_id id)) [
      | inl e ↦ cc
      | inr e ↦ rw e (apply_all-none ups row (cc))
    ]

    applied_lem :
        (ups : Table (AggregatedFlightUpdate F64)) (row : Flight F64)
        → Distinct ups
        → apply_all ups row ≡ applied (find row.flight_id ups) row
    unfolding applied find bump_if bump
    applied_lem [] row d = refl
    applied_lem ((id, upd) ∷ ups) row d = elim (Bool-cases (bytes_eq row.flight_id id)) [
      | inl e ↦
          let same = bytes_eq_sound row.flight_id id e in
          rw e (apply_all-none ups (bump E upd row) (ap (λ k. find k ups) same ∙ d.0))
      | inr e ↦ rw e (applied_lem ups row d.1)
    ]

    pub exec_updates-applied :
        (ups : Table (AggregatedFlightUpdate F64)) (rows : List (Flight F64))
        → Distinct ups
        → exec_updates E ups rows ≡ map (λ row. applied (find row.flight_id ups) row) rows
    exec_updates-applied ups rows d =
        exec_updates_lem ups rows ∙ ap (λ f. map f rows) (λ i row. applied_lem ups row d i)

    pub applied_id :
        (o : Option (AggregatedFlightUpdate F64)) (row : Flight F64)
        → (applied o row).flight_id ≡ row.flight_id
    unfolding applied bump
    applied_id none row = refl
    applied_id (some upd) row = refl

    pub bump_if_same :
        (id : Bytes) (upd : AggregatedFlightUpdate F64) (row : Flight F64)
        → bytes_eq row.flight_id id ≡ true
        → bump_if E id upd row ≡ bump E upd row
    unfolding bump_if
    bump_if_same id upd row e = rw e refl

    pub bump_if_other :
        (id : Bytes) (upd : AggregatedFlightUpdate F64) (row : Flight F64)
        → bytes_eq row.flight_id id ≡ false
        → bump_if E id upd row ≡ row
    unfolding bump_if
    bump_if_other id upd row e = rw e refl

    module _ (id : Bytes) (pos : AircraftPosition F64) (ts_ms : ℤ) where
      -- The counter of the update that a flight has so far does not wrap.
      abbrev pub HasRoom : Table (AggregatedFlightUpdate F64) → Type 0
      HasRoom ups =
          (u : AggregatedFlightUpdate F64) → find id ups ≡ some u → u.position_count + 1 < u32_mod

      applied-aggregate :
          (o : Option (AggregatedFlightUpdate F64)) (row : Flight F64)
          → ((u : AggregatedFlightUpdate F64) → o ≡ some u → u.position_count + 1 < u32_mod)
          → applied (some (aggregate E id pos ts_ms o)) row
            ≡ bump E (one_update id pos ts_ms) (applied o row)
      unfolding applied aggregate
      applied-aggregate none row h = refl
      applied-aggregate (some u) row h = bump-aggregate id pos ts_ms u row (h u refl)

      applied-upsert :
          (ups : Table (AggregatedFlightUpdate F64)) (row : Flight F64)
          → HasRoom ups
          → applied (find row.flight_id (upsert id (aggregate E id pos ts_ms) ups)) row
            ≡ bump_if E id (one_update id pos ts_ms) (applied (find row.flight_id ups) row)
      applied-upsert ups row h =
          let found = find-upsert row.flight_id id (aggregate E id pos ts_ms) ups in
          let old = applied (find row.flight_id ups) row in
          let same = ap (λ k. bytes_eq k id) (applied_id (find row.flight_id ups) row) in
          elim (Bool-cases (bytes_eq row.flight_id id)) [
            | inl e ↦
                let key = ap (λ k. find k ups) (bytes_eq_sound row.flight_id id e) in
                let hit = ap (λ o. applied o row) (rw (found, e) refl) in
                hit
                ∙ applied-aggregate (find id ups) row h
                ∙ ap (λ o. bump E (one_update id pos ts_ms) (applied o row)) (sym key)
                ∙ sym (bump_if_same id (one_update id pos ts_ms) old (same ∙ e))
            | inr e ↦
                ap (λ o. applied o row) (rw (found, e) refl)
                ∙ sym (bump_if_other id (one_update id pos ts_ms) old (same ∙ e))
          ]

      -- One more position in the aggregated updates is one more UPDATE at the end.
      pub exec_updates-upsert :
          (ups : Table (AggregatedFlightUpdate F64)) (rows : List (Flight F64))
          → Distinct ups
          → HasRoom ups
          → exec_updates E (upsert id (aggregate E id pos ts_ms) ups) rows
            ≡ map (bump_if E id (one_update id pos ts_ms)) (exec_updates E ups rows)
      exec_updates-upsert ups rows d h =
          let more = upsert id (aggregate E id pos ts_ms) ups in
          rw
            (
              exec_updates-applied more rows (upsert-Distinct id (aggregate E id pos ts_ms) ups d),
              exec_updates-applied ups rows d,
              map-map (bump_if E id (one_update id pos ts_ms))
                  (λ row. applied (find row.flight_id ups) row) rows,
            )
            (ap (λ f. map f rows) (λ i row. applied-upsert ups row h i))

    -- A row that no update is for may as well come after them.
    pub exec_updates-append :
        (ups : Table (AggregatedFlightUpdate F64)) (rows : List (Flight F64)) (row : Flight F64)
        → Distinct ups
        → find row.flight_id ups ≡ none
        → exec_updates E ups (rows ++ row ∷ []) ≡ exec_updates E ups rows ++ row ∷ []
    unfolding applied
    exec_updates-append ups rows row d h =
        let f : Flight F64 → Flight F64 = λ row. applied (find row.flight_id ups) row in
        let last : f row ≡ row = rw h refl in
        rw
          (
            exec_updates-applied ups (rows ++ row ∷ []) d,
            exec_updates-applied ups rows d,
            map-append f rows (row ∷ []),
          )
          (ap (λ r. map f rows ++ r ∷ []) last)
