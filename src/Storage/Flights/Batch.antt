-- ===== src/Storage/Flights/Batch.antt =====
-- `insert_batch_sync` of rust/adsb-data-engine/src/storage.rs as a whole: aggregating the updates of a batch
-- changes nothing, and neither does where one batch ends and the next begins.
use mathlib.Core.List.{map-append, append_assoc, append-nil}
use adsb_feed.Prelude.{
  subst, ℕ, ◌+◌, ◌≤◌, ◌<◌, ◌≡◌, refl, sym, ap, ◌∙◌, arith, true, Option, none, some, List, [], ◌∷◌,
  ◌++◌, map, Bytes, bytes_eq, All, length, length-append, if_intro, Option-cases, inl, inr,
}
use adsb_feed.Prelude.Int.{ℤ}
use adsb_feed.Ingest.Sbs.{AircraftPosition}
use adsb_feed.Ingest.Table.{Table, find}
use adsb_feed.Storage.Flights.{
  u32_mod, integer_limit, ActiveFlight, Flight, Extremes, AggregatedFlightUpdate, Storage, Work,
  exec_inserts, exec_updates, bump, bump_if, PositionRow, extended, collect, collect_all,
  position_row, insert_timed,
}
use adsb_feed.Storage.Flights.Issued.{Tracks, Issued}
use adsb_feed.Storage.Flights.Collected.{
  Tables, see, see_all, Good, view, view-extend, view-new, Good-extend, Good-new,
}

module _ {F64 : Type 0} (E : Extremes F64) where
  -- The tracker and the table agree: each row's flight is the tracker's or an earlier one of the same
  -- aircraft, and the numbers stay below `m`.
  unfoldable pub InSync : Storage F64 → ℕ → Type 0
  InSync s m = Tracks s.flight_tracker m × All (λ r. Issued s.flight_tracker r.flight_id) s.flights

  abbrev pub tables : Storage F64 → Tables F64
  tables s = record { tracker = s.flight_tracker; rows = s.flights }

  -- The storage after the tables `t`, with the batch's rows in `positions`.
  abbrev pub with_tables : List (AircraftPosition F64 × ℤ) → Tables F64 → Storage F64 → Storage F64
  with_tables batch t s = record s {
    flight_tracker = t.tracker;
    positions = s.positions ++ map (λ p. position_row p.0 p.1 s.source_id) batch;
    flights = t.rows;
  }

  abbrev start : Table ActiveFlight → Work F64
  start tracker = record { tracker = tracker; inserts = []; updates = [] }

  pub extended-some :
      (gap ts_ms : ℤ) (o : Option ActiveFlight) (a : ActiveFlight)
      → extended gap ts_ms o ≡ some a
      → o ≡ some a
  unfolding extended
  extended-some gap ts_ms none a e = e
  extended-some gap ts_ms (some b) a e =
      if_intro (λ o. o ≡ some a → some b ≡ some a) _ (some b) none (λ q. q) (λ q. cc) e

  -- A step of the loop is a step of the plain reading.
  collect_step :
      (base : List (Flight F64)) (gap : ℤ) (pos : AircraftPosition F64) (ts_ms : ℤ) (w : Work F64)
      (k m : ℕ)
      → Good E base w k m
      → k + 1 < u32_mod
      → m < integer_limit
      → (view E base (collect E gap (pos, ts_ms) w) ≡ see E gap (pos, ts_ms) (view E base w))
        × Good E base (collect E gap (pos, ts_ms) w) (k + 1) (m + 1)
  unfolding collect see
  collect_step base gap pos ts_ms w k m good room small =
      let found = find pos.hex_ident w.tracker in
      elim (Option-cases (extended gap ts_ms found)) [
        | inl e ↦
            rw (e, collect, see)
              (
                view-new E base pos ts_ms w k m good room small,
                Good-new E base pos ts_ms w k m good room small,
              )
        | inr (a, e) ↦
            rw (e, collect, see)
              (
                view-extend E base pos ts_ms w k m good room small a,
                Good-extend E base pos ts_ms w k m good room small a
                    (extended-some gap ts_ms found a e),
              )
      ]

  reindex :
      (base : List (Flight F64)) (w : Work F64) (k m k' m' : ℕ)
      → Good E base w k m
      → k ≡ k'
      → m ≡ m'
      → Good E base w k' m'
  reindex base w k m k' m' good a b =
      subst (λ i. Good E base w i m') a (subst (Good E base w k) b good)

  collect_all_lem :
      (base : List (Flight F64)) (gap : ℤ) (batch : List (AircraftPosition F64 × ℤ)) (w : Work F64)
      (k m : ℕ)
      → Good E base w k m
      → k + length batch < u32_mod
      → m + length batch ≤ integer_limit
      → (view E base (collect_all E gap batch w) ≡ see_all E gap batch (view E base w))
        × Good E base (collect_all E gap batch w) (k + length batch) (m + length batch)
  unfolding collect_all see_all
  collect_all_lem base gap [] w k m good room small =
      (refl, reindex base w k m _ _ good (omega arith) (omega arith))
  collect_all_lem base gap ((pos, ts_ms) ∷ batch) w k m good room small =
      let one =
        collect_step base gap pos ts_ms w k m good (omega (arith, room)) (omega (arith, small)) in
      let rest =
        collect_all_lem base gap batch (collect E gap (pos, ts_ms) w) (k + 1) (m + 1) one.1
          (omega (arith, room)) (omega (arith, small)) in
      (
        rest.0 ∙ ap (see_all E gap batch) one.0,
        reindex base _ (k + 1 + length batch) (m + 1 + length batch) _ _ rest.1 (omega arith)
            (omega arith),
      )

  start-Good :
      (s : Storage F64) (m : ℕ) → InSync s m → Good E s.flights (start s.flight_tracker) 0 m
  unfolding InSync exec_inserts find
  start-Good s m sync = record {
    tracks = sync.0;
    inserted = ap (λ rows. (rows, true)) (sym (append-nil s.flights));
    issued =
        subst (All (λ r. Issued s.flight_tracker r.flight_id)) (sym (append-nil s.flights)) sync.1;
    counted = λ id u e. cc;
    distinct = tt;
  }

  -- From storage in agreement, with room for the numbers, a batch succeeds, and leaves the tracker and the
  -- `flights` table as they would be if each position, in order, had inserted or updated its own row at
  -- once; the batch's rows are appended to `positions`.
  pub insert_timed-eq-see :
      (batch : List (AircraftPosition F64 × ℤ)) (s : Storage F64) (m : ℕ)
      → InSync s m
      → m + length batch ≤ integer_limit
      → insert_timed E batch s
        ≡ (with_tables batch (see_all E s.gap_threshold_ms batch (tables s)) s, true)
  unfolding insert_timed exec_updates
  insert_timed-eq-see batch s m sync small =
      let w = collect_all E s.gap_threshold_ms batch (start s.flight_tracker) in
      let all =
        collect_all_lem s.flights s.gap_threshold_ms batch (start s.flight_tracker) 0 m
          (start-Good s m sync) (omega (arith, small)) small in
      let rows =
        all.0
        ∙ ap
            (λ rows.
              see_all E s.gap_threshold_ms batch
                (record { tracker = s.flight_tracker; rows = rows }))
            (append-nil s.flights) in
      rw all.1.inserted (ap (λ t. (with_tables batch t s, true)) rows)

  All-bump_if :
      (P : Bytes → Type 0) (id : Bytes) (upd : AggregatedFlightUpdate F64)
      (rows : List (Flight F64))
      → All (λ r. P r.flight_id) rows
      → All (λ r. P r.flight_id) (map (bump_if E id upd) rows)
  unfolding bump_if bump
  All-bump_if P id upd [] h = tt
  All-bump_if P id upd (r ∷ rows) h = (
    if_intro (λ q. P q.flight_id) (bytes_eq r.flight_id id) (bump E upd r) r h.0 h.0,
    All-bump_if P id upd rows h.1,
  )

  All-exec_updates :
      (P : Bytes → Type 0) (ups : Table (AggregatedFlightUpdate F64)) (rows : List (Flight F64))
      → All (λ r. P r.flight_id) rows
      → All (λ r. P r.flight_id) (exec_updates E ups rows)
  unfolding exec_updates
  All-exec_updates P [] rows h = h
  All-exec_updates P ((id, upd) ∷ ups) rows h =
      All-exec_updates P ups (map (bump_if E id upd) rows) (All-bump_if P id upd rows h)

  -- Such a batch leaves the storage in agreement, with the numbers bounded as before or by one more for
  -- each position.
  pub insert_timed-InSync :
      (batch : List (AircraftPosition F64 × ℤ)) (s : Storage F64) (m : ℕ)
      → InSync s m
      → m + length batch ≤ integer_limit
      → InSync (insert_timed E batch s).0 (m + length batch)
  unfolding insert_timed InSync
  insert_timed-InSync batch s m sync small =
      let w = collect_all E s.gap_threshold_ms batch (start s.flight_tracker) in
      let all =
        collect_all_lem s.flights s.gap_threshold_ms batch (start s.flight_tracker) 0 m
          (start-Good s m sync) (omega (arith, small)) small in
      (
        all.1.tracks,
        rw all.1.inserted
            (All-exec_updates (Issued w.tracker) w.updates (s.flights ++ w.inserts) all.1.issued),
      )

  see_all-append :
      (gap : ℤ) (xs ys : List (AircraftPosition F64 × ℤ)) (t : Tables F64)
      → see_all E gap (xs ++ ys) t ≡ see_all E gap ys (see_all E gap xs t)
  unfolding see_all
  see_all-append gap [] ys t = refl
  see_all-append gap (x ∷ xs) ys t = see_all-append gap xs ys (see E gap x t)

  -- Where a batch ends does not matter: inserted at once, two batches leave the same tables and the same
  -- tracker as one after the other, from storage in agreement with room for the numbers.
  insert_timed-append :
      (xs ys : List (AircraftPosition F64 × ℤ)) (s : Storage F64) (m : ℕ)
      → InSync s m
      → m + length (xs ++ ys) ≤ integer_limit
      → insert_timed E (xs ++ ys) s ≡ insert_timed E ys (insert_timed E xs s).0
  insert_timed-append xs ys s m sync small =
      let gap = s.gap_threshold_ms in
      let len = length-append xs ys in
      let room : m + length xs ≤ integer_limit = omega (arith, small, len) in
      let one = insert_timed-eq-see xs s m sync room in
      let t = see_all E gap xs (tables s) in
      let s' = with_tables xs t s in
      let sync' =
        subst (λ r. InSync r.0 (m + length xs)) one (insert_timed-InSync xs s m sync room) in
      let two = insert_timed-eq-see ys s' (m + length xs) sync' (omega (arith, small, len)) in
      let row : AircraftPosition F64 × ℤ → PositionRow F64 =
        λ p. position_row p.0 p.1 s.source_id in
      let positions =
        ap (λ rows. s.positions ++ rows) (map-append row xs ys)
        ∙ sym (append_assoc s.positions (map row xs) (map row ys)) in
      let t' = see_all E gap ys t in
      insert_timed-eq-see (xs ++ ys) s m sync small
      ∙ ap (λ u. (with_tables (xs ++ ys) u s, true)) (see_all-append gap xs ys (tables s))
      ∙ ap
          (λ rows.
            (record s { flight_tracker = t'.tracker; positions = rows; flights = t'.rows }, true))
          positions
      ∙ sym two
      ∙ ap (λ r. insert_timed E ys r.0) (sym one)
