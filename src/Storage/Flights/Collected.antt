-- ===== src/Storage/Flights/Collected.antt =====
-- What the loop of `insert_batch_sync` of rust/adsb-data-engine/src/storage.rs collects, against the plain
-- reading of it: one position at a time, each with its own statement.
use mathlib.Core.List.{append_assoc}
use adsb_feed.Prelude.{
  subst, ℕ, ◌+◌, ◌%◌, ◌≤◌, ◌<◌, ◌≡◌, refl, sym, ap, ◌∙◌, arith, true, none, some, List, [], ◌∷◌,
  ◌++◌, map, Bytes, All, All-append, All-imp, bytes_eq, bytes_eq_sound, bytes_eq_refl, Bool-cases,
  inl, inr, Option-cases,
}
use adsb_feed.Prelude.Int.{ℤ}
use adsb_feed.Ingest.Sbs.{AircraftPosition}
use adsb_feed.Ingest.Table.{Table, find, upsert, find-upsert, Distinct, upsert-Distinct}
use adsb_feed.Storage.FlightId.{flight_id}
use adsb_feed.Storage.Flights.{
  u32_mod, integer_limit, ActiveFlight, Flight, Extremes, AggregatedFlightUpdate, Work, extended,
  next_num, new_flight, one_update, active_of, exec_inserts, aggregate, bump_if, exec_updates,
  collect_extend, collect_new,
}
use adsb_feed.Storage.Flights.Issued.{
  Tracks, Issued, Issued-upsert, Tracks-upsert, next_num_bound, fresh, has_id-fresh,
  exec_inserts-append,
}
use adsb_feed.Storage.Flights.Bump.{exec_updates-upsert, exec_updates-append}

-- The tracker and the `flights` table.
pub record Tables (F64 : Type 0) : Type 0 where
  pub tracker : Table ActiveFlight
  pub rows : List (Flight F64)

module _ {F64 : Type 0} (E : Extremes F64) where
  -- One position on its own: an UPDATE of its flight, or an INSERT.
  abbrev pub see_extend : AircraftPosition F64 → ℤ → ActiveFlight → Tables F64 → Tables F64
  see_extend pos ts_ms active t = record {
    tracker = upsert pos.hex_ident (λ _. record active { last_seen_ms = ts_ms }) t.tracker;
    rows = map (bump_if E active.flight_id (one_update active.flight_id pos ts_ms)) t.rows;
  }

  abbrev pub see_new : AircraftPosition F64 → ℤ → ℕ → Tables F64 → Tables F64
  see_new pos ts_ms num t = record {
    tracker = upsert pos.hex_ident (λ _. active_of pos ts_ms num) t.tracker;
    rows = t.rows ++ new_flight pos ts_ms num ∷ [];
  }

  unfoldable pub see : ℤ → AircraftPosition F64 × ℤ → Tables F64 → Tables F64
  see gap (pos, ts_ms) t =
      let found = find pos.hex_ident t.tracker in
      elim (extended gap ts_ms found) [
        | none ↦ see_new pos ts_ms (next_num found) t
        | some active ↦ see_extend pos ts_ms active t
      ]

  unfoldable pub see_all : ℤ → List (AircraftPosition F64 × ℤ) → Tables F64 → Tables F64
  unfolding see
  see_all gap [] t = t
  see_all gap (p ∷ ps) t = see_all gap ps (see gap p t)

  -- What the loop has collected on top of the rows `base`, after `k` positions.
  pub record Good (base : List (Flight F64)) (w : Work F64) (k m : ℕ) : Type 0 where
    pub tracks : Tracks w.tracker m
    pub inserted : exec_inserts w.inserts base ≡ (base ++ w.inserts, true)
    pub issued : All (λ r. Issued w.tracker r.flight_id) (base ++ w.inserts)
    pub counted :
        (id : Bytes) (u : AggregatedFlightUpdate F64)
        → find id w.updates ≡ some u
        → Issued w.tracker id × (u.position_count ≤ k)
    pub distinct : Distinct w.updates

  -- The tables that the collected statements would leave.
  abbrev pub view : List (Flight F64) → Work F64 → Tables F64
  view base w = record { tracker = w.tracker; rows = exec_updates E w.updates (base ++ w.inserts) }

  module _ (base : List (Flight F64)) (pos : AircraftPosition F64) (ts_ms : ℤ) (w : Work F64)
      (k m : ℕ) (good : Good base w k m) (room : k + 1 < u32_mod) (small : m < integer_limit) where
    pub view-extend :
        (active : ActiveFlight)
        → view base (collect_extend E pos ts_ms active w)
          ≡ see_extend pos ts_ms active (view base w)
    unfolding collect_extend
    view-extend active =
        let same =
          exec_updates-upsert E active.flight_id pos ts_ms w.updates (base ++ w.inserts)
            good.distinct (λ u e. omega (arith, room, (good.counted active.flight_id u e).1)) in
        λ i. record {
          tracker = upsert pos.hex_ident (λ _. record active { last_seen_ms = ts_ms }) w.tracker;
          rows = same i;
        }

    one_more : (id : Bytes) → (aggregate E id pos ts_ms (find id w.updates)).position_count ≤ k + 1
    unfolding aggregate one_update
    one_more id = elim (Option-cases (find id w.updates)) [
      | inl e ↦ rw e (omega arith)
      | inr (u, e) ↦ rw e (omega (arith, (good.counted id u e).1, room))
    ]

    pub Good-extend :
        (active : ActiveFlight)
        → find pos.hex_ident w.tracker ≡ some active
        → Good base (collect_extend E pos ts_ms active w) (k + 1) (m + 1)
    unfolding collect_extend aggregate one_update
    Good-extend active held =
        let hex = pos.hex_ident in
        let new : ActiveFlight = record active { last_seen_ms = ts_ms } in
        let known = good.tracks hex active held in
        let newer : (a : ActiveFlight)
            → find hex w.tracker ≡ some a
            → a.flight_num ≤ new.flight_num =
          λ a e. let same : active ≡ a = cc in omega (arith, ap (λ b. b.flight_num) same) in
        let carry : (id : Bytes)
            → Issued w.tracker id
            → Issued (upsert hex (λ _. new) w.tracker) id =
          λ id. Issued-upsert w.tracker hex new id newer in
        let mine : Issued w.tracker active.flight_id =
          (hex, active.flight_num, active, known.0, held, omega arith) in
        let f = aggregate E active.flight_id pos ts_ms in
        record {
          tracks = Tracks-upsert w.tracker hex new m good.tracks known.0 (omega (arith, known.1));
          inserted = good.inserted;
          issued = All-imp (λ r. carry r.flight_id) (base ++ w.inserts) good.issued;
          counted = λ id u e.
              let found = find-upsert id active.flight_id f w.updates in
              elim (Bool-cases (bytes_eq id active.flight_id)) [
                | inl q ↦
                    let it : some (f (find active.flight_id w.updates)) ≡ some u =
                      sym (rw (found, q) refl) ∙ e in
                    let what : f (find active.flight_id w.updates) ≡ u = cc in
                    (
                      carry id (subst (Issued w.tracker) (sym (bytes_eq_sound id _ q)) mine),
                      subst (λ v. v.position_count ≤ k + 1) what (one_more active.flight_id),
                    )
                | inr q ↦
                    let old = good.counted id u (sym (rw (found, q) refl) ∙ e) in
                    (carry id old.0, omega (arith, old.1))
              ];
          distinct = upsert-Distinct active.flight_id f w.updates good.distinct;
        }

    no_update :
        find (flight_id pos.hex_ident (next_num (find pos.hex_ident w.tracker))) w.updates ≡ none
    no_update =
        let hex = pos.hex_ident in
        let id = flight_id hex (next_num (find hex w.tracker)) in
        elim (Option-cases (find id w.updates)) [
          | inl e ↦ e
          | inr (u, e) ↦
              let old = (good.counted id u e).0 in
              let new = fresh w.tracker hex id m good.tracks (omega (arith, small)) old in
              let same = bytes_eq_refl id in cc
        ]

    pub view-new :
        let num = next_num (find pos.hex_ident w.tracker) in
        view base (collect_new E pos ts_ms num w) ≡ see_new pos ts_ms num (view base w)
    unfolding collect_new new_flight
    view-new =
        let num = next_num (find pos.hex_ident w.tracker) in
        let row = new_flight pos ts_ms num in
        let moved = ap (exec_updates E w.updates) (sym (append_assoc base w.inserts (row ∷ []))) in
        let same =
          moved ∙ exec_updates-append E w.updates (base ++ w.inserts) row good.distinct no_update in
        λ i. record {
          tracker = upsert pos.hex_ident (λ _. active_of pos ts_ms num) w.tracker;
          rows = same i;
        }

    pub Good-new :
        let num = next_num (find pos.hex_ident w.tracker) in
        Good base (collect_new E pos ts_ms num w) (k + 1) (m + 1)
    unfolding collect_new new_flight active_of next_num
    Good-new =
        let hex = pos.hex_ident in
        let num = next_num (find hex w.tracker) in
        let new = active_of pos ts_ms num in
        let row = new_flight pos ts_ms num in
        let tracker = upsert hex (λ _. new) w.tracker in
        let newer : (a : ActiveFlight)
            → find hex w.tracker ≡ some a
            → a.flight_num ≤ new.flight_num =
          λ a e.
            let next : num ≡ (a.flight_num + 1) % u32_mod = ap next_num e in
            omega (arith, next, small, (good.tracks hex a e).1) in
        let carry : (id : Bytes) → Issued w.tracker id → Issued tracker id =
          λ id. Issued-upsert w.tracker hex new id newer in
        let found : find hex tracker ≡ some new =
          find-upsert hex hex (λ _. new) w.tracker ∙ rw (bytes_eq_refl hex) refl in
        let bound : num < m + 1 = next_num_bound w.tracker hex m good.tracks in
        let assoc = append_assoc base w.inserts (row ∷ []) in
        let not_taken =
          has_id-fresh row.flight_id (Issued w.tracker) (base ++ w.inserts)
            (λ j. fresh w.tracker hex j m good.tracks (omega (arith, small))) good.issued in
        record {
          tracks = Tracks-upsert w.tracker hex new m good.tracks refl bound;
          inserted =
              exec_inserts-append w.inserts base (base ++ w.inserts) row good.inserted
                (ground (arith, bound, small)) not_taken
              ∙ ap (λ rows. (rows, true)) assoc;
          issued = subst (All (λ r. Issued tracker r.flight_id)) assoc (
              All-append _ (base ++ w.inserts) (row ∷ [])
                (All-imp (λ r. carry r.flight_id) (base ++ w.inserts) good.issued)
                ((hex, num, new, refl, found, omega arith), tt));
          counted =
              λ id u e. let old = good.counted id u e in (carry id old.0, omega (arith, old.1));
          distinct = good.distinct;
        }
