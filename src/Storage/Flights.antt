-- ===== src/Storage/Flights.antt =====
-- The flights of rust/adsb-data-engine/src/storage.rs: the tracker in memory, the `flights` table, and what
-- `insert_batch_sync` does to both.  A table is the list of its rows, an SQL statement the list function
-- that it means.  Altitudes are the floats without NaN.
pub mod Bump
pub mod Issued
pub mod Collected
pub mod Batch
pub mod Rebuild
pub mod Restart
use adsb_feed.Prelude.{
  ℕ, ◌+◌, ◌%◌, Bool, true, false, ◌||◌, ◌&&◌, ◌≡◌, Option, none, some, or, List, [], ◌∷◌, ◌++◌, map,
  Bytes, bytes_eq, leb, ◌==◌, ltb, if◌then◌else◌, is_empty,
}
use adsb_feed.Prelude.Int.{ℤ, ◌-ℤ◌, leb_ℤ}
use adsb_feed.Ingest.Sbs.{AircraftPosition}
use adsb_feed.Ingest.Table.{Table, find, upsert}
use adsb_feed.Storage.FlightId.{flight_id}

abbrev pub u32_mod : ℕ
u32_mod = 4294967296

-- What a column of type INTEGER holds is below this.
abbrev pub integer_limit : ℕ
integer_limit = 2147483648

pub record ActiveFlight : Type 0 where
  pub flight_id : Bytes
  pub flight_num : ℕ
  pub last_seen_ms : ℤ

-- A row of `flights`.
pub record Flight (F64 : Type 0) : Type 0 where
  pub flight_id : Bytes
  pub hex_ident : Bytes
  pub flight_num : ℕ
  pub callsign : Option Bytes
  pub position_count : ℕ
  pub first_seen_ms : ℤ
  pub last_seen_ms : ℤ
  pub min_altitude : Option F64
  pub max_altitude : Option F64

-- A row of `positions`.
pub record PositionRow (F64 : Type 0) : Type 0 where
  pub hex_ident : Bytes
  pub callsign : Option Bytes
  pub latitude : Option F64
  pub longitude : Option F64
  pub altitude : Option F64
  pub ground_speed : Option F64
  pub track : Option F64
  pub vertical_rate : Option F64
  pub squawk : Option Bytes
  pub is_on_ground : Option Bool
  pub timestamp_ms : ℤ
  pub source_id : Bytes

-- The smaller and the larger of two altitudes: `f64::min` and SQL's LEAST, `f64::max` and GREATEST.
pub record Extremes (F64 : Type 0) : Type 0 where
  pub least : F64 → F64 → F64
  pub greatest : F64 → F64 → F64
  pub least_assoc : (a b c : F64) → least (least a b) c ≡ least a (least b c)
  pub greatest_assoc : (a b c : F64) → greatest (greatest a b) c ≡ greatest a (greatest b c)
  pub least_idem : (a : F64) → least a a ≡ a
  pub greatest_idem : (a : F64) → greatest a a ≡ a

unfoldable pub max_ℤ : ℤ → ℤ → ℤ
max_ℤ a b = if leb_ℤ a b then b else a

-- SQL's LEAST and GREATEST skip NULL.
abbrev pub skip_null {ℓ} : {A : Type ℓ} → (A → A → A) → Option A → Option A → Option A
skip_null f none b = b
skip_null f (some a) none = some a
skip_null f (some a) (some b) = some (f a b)

pub record AggregatedFlightUpdate (F64 : Type 0) : Type 0 where
  pub flight_id : Bytes
  pub position_count : ℕ
  pub last_callsign : Option Bytes
  pub max_timestamp_ms : ℤ
  pub min_altitude : Option F64
  pub max_altitude : Option F64

-- The tracker and the two tables, with the settings that `insert_batch_sync` reads.
pub record Storage (F64 : Type 0) : Type 0 where
  pub source_id : Bytes
  pub gap_threshold_ms : ℤ
  pub flight_tracker : Table ActiveFlight
  pub positions : List (PositionRow F64)
  pub flights : List (Flight F64)

-- What the loop over a batch collects: the rows to insert, and one update per flight.
pub record Work (F64 : Type 0) : Type 0 where
  pub tracker : Table ActiveFlight
  pub inserts : List (Flight F64)
  pub updates : Table (AggregatedFlightUpdate F64)

-- The flight that a position at `ts_ms` extends, if there is one.
unfoldable pub extended : ℤ → ℤ → Option ActiveFlight → Option ActiveFlight
extended gap ts_ms none = none
extended gap ts_ms (some active) =
    if leb_ℤ (ts_ms -ℤ active.last_seen_ms) gap then some active else none

unfoldable pub next_num : Option ActiveFlight → ℕ
next_num none = 0
next_num (some active) = (active.flight_num + 1) % u32_mod

module _ {F64 : Type 0} where
  abbrev position_row : AircraftPosition F64 → ℤ → Bytes → PositionRow F64
  position_row pos timestamp_ms source_id = record {
    hex_ident = pos.hex_ident;
    callsign = pos.callsign;
    latitude = pos.latitude;
    longitude = pos.longitude;
    altitude = pos.altitude;
    ground_speed = pos.ground_speed;
    track = pos.track;
    vertical_rate = pos.vertical_rate;
    squawk = pos.squawk;
    is_on_ground = pos.is_on_ground;
    timestamp_ms = timestamp_ms;
    source_id = source_id;
  }

  -- The row that the INSERT of a `FlightInsert` gives.
  unfoldable pub new_flight : AircraftPosition F64 → ℤ → ℕ → Flight F64
  new_flight pos ts_ms num = record {
    flight_id = flight_id pos.hex_ident num;
    hex_ident = pos.hex_ident;
    flight_num = num;
    callsign = pos.callsign;
    position_count = 1;
    first_seen_ms = ts_ms;
    last_seen_ms = ts_ms;
    min_altitude = pos.altitude;
    max_altitude = pos.altitude;
  }

  -- The update that one position asks for.
  unfoldable pub one_update : Bytes → AircraftPosition F64 → ℤ → AggregatedFlightUpdate F64
  one_update id pos ts_ms = record {
    flight_id = id;
    position_count = 1;
    last_callsign = pos.callsign;
    max_timestamp_ms = ts_ms;
    min_altitude = pos.altitude;
    max_altitude = pos.altitude;
  }

  unfoldable pub active_of : AircraftPosition F64 → ℤ → ℕ → ActiveFlight
  active_of pos ts_ms num = record {
    flight_id = flight_id pos.hex_ident num;
    flight_num = num;
    last_seen_ms = ts_ms;
  }

  -- The INSERTs in order.  One fails when its number does not fit the column or its identifier, the
  -- primary key, is taken; the rows before it stay.
  unfoldable pub has_id : Bytes → List (Flight F64) → Bool
  has_id id [] = false
  has_id id (r ∷ rows) = bytes_eq r.flight_id id || has_id id rows

  unfoldable pub exec_inserts : List (Flight F64) → List (Flight F64) → List (Flight F64) × Bool
  unfolding has_id
  exec_inserts [] rows = (rows, true)
  exec_inserts (r ∷ inserts) rows =
      let done = exec_inserts inserts (rows ++ r ∷ []) in
      if leb integer_limit r.flight_num || has_id r.flight_id rows then (rows, false) else done

  module _ (E : Extremes F64) where
    -- `entry(id).and_modify(..).or_insert(..)`.
    unfoldable pub aggregate :
        Bytes
        → AircraftPosition F64
        → ℤ
        → Option (AggregatedFlightUpdate F64)
        → AggregatedFlightUpdate F64
    unfolding one_update
    aggregate id pos ts_ms none = one_update id pos ts_ms
    aggregate id pos ts_ms (some agg) = record agg {
      position_count = (agg.position_count + 1) % u32_mod;
      max_timestamp_ms = max_ℤ agg.max_timestamp_ms ts_ms;
      min_altitude = skip_null E.least agg.min_altitude pos.altitude;
      max_altitude = skip_null E.greatest agg.max_altitude pos.altitude;
      last_callsign = or pos.callsign agg.last_callsign;
    }

    -- The assignments of the UPDATE.
    unfoldable pub bump : AggregatedFlightUpdate F64 → Flight F64 → Flight F64
    bump upd row = record row {
      last_seen_ms = max_ℤ row.last_seen_ms upd.max_timestamp_ms;
      position_count = row.position_count + upd.position_count;
      callsign = or upd.last_callsign row.callsign;
      min_altitude =
          skip_null E.least (or row.min_altitude upd.min_altitude)
            (or upd.min_altitude row.min_altitude);
      max_altitude =
          skip_null E.greatest (or row.max_altitude upd.max_altitude)
            (or upd.max_altitude row.max_altitude);
    }

    -- One UPDATE, on the row with its identifier.
    unfoldable pub bump_if : Bytes → AggregatedFlightUpdate F64 → Flight F64 → Flight F64
    unfolding bump
    bump_if id upd row = if bytes_eq row.flight_id id then bump upd row else row

    unfoldable pub exec_updates :
        Table (AggregatedFlightUpdate F64) → List (Flight F64) → List (Flight F64)
    unfolding bump_if
    exec_updates [] rows = rows
    exec_updates ((id, upd) ∷ updates) rows = exec_updates updates (map (bump_if id upd) rows)

    -- One position of the loop: its flight is extended, or a new one begins.
    unfoldable pub collect_extend : AircraftPosition F64 → ℤ → ActiveFlight → Work F64 → Work F64
    unfolding upsert aggregate
    collect_extend pos ts_ms active w = record w {
      tracker = upsert pos.hex_ident (λ _. record active { last_seen_ms = ts_ms }) w.tracker;
      updates = upsert active.flight_id (aggregate active.flight_id pos ts_ms) w.updates;
    }

    unfoldable pub collect_new : AircraftPosition F64 → ℤ → ℕ → Work F64 → Work F64
    unfolding upsert new_flight active_of
    collect_new pos ts_ms num w = record w {
      tracker = upsert pos.hex_ident (λ _. active_of pos ts_ms num) w.tracker;
      inserts = w.inserts ++ new_flight pos ts_ms num ∷ [];
    }

    unfoldable pub collect : ℤ → AircraftPosition F64 × ℤ → Work F64 → Work F64
    unfolding collect_extend collect_new extended
    collect gap (pos, ts_ms) w =
        let found = find pos.hex_ident w.tracker in
        elim (extended gap ts_ms found) [
          | none ↦ collect_new pos ts_ms (next_num found) w
          | some active ↦ collect_extend pos ts_ms active w
        ]

    unfoldable pub collect_all : ℤ → List (AircraftPosition F64 × ℤ) → Work F64 → Work F64
    unfolding collect
    collect_all gap [] w = w
    collect_all gap (p ∷ ps) w = collect_all gap ps (collect gap p w)

    -- A batch whose timestamps have been read, and whether every statement succeeded.
    unfoldable pub insert_timed : List (AircraftPosition F64 × ℤ) → Storage F64 → Storage F64 × Bool
    unfolding collect_all exec_inserts exec_updates
    insert_timed batch s =
        let start : Work F64 = record { tracker = s.flight_tracker; inserts = []; updates = [] } in
        let w = collect_all s.gap_threshold_ms batch start in
        let done = exec_inserts w.inserts s.flights in
        (
          record s {
            flight_tracker = w.tracker;
            positions = s.positions ++ map (λ p. position_row p.0 p.1 s.source_id) batch;
            flights = if done.1 then exec_updates w.updates done.0 else done.0;
          },
          done.1,
        )

    -- `insert_batch_sync`, each position with the clock at its turn: `parse_timestamp_to_ms` stands on a
    -- library of time zones, and gives the clock's time for a text that is no timestamp.
    unfoldable pub insert_batch_sync :
        (Bytes → ℤ → ℤ) → List (AircraftPosition F64 × ℤ) → Storage F64 → Storage F64 × Bool
    unfolding insert_timed
    insert_batch_sync parse_timestamp_to_ms positions s =
        let batch = map (λ p. (p.0, parse_timestamp_to_ms (p.0).timestamp p.1)) positions in
        if is_empty positions then (s, true) else insert_timed batch s

  -- `rebuild_flight_tracker_sync`: the rows with the largest number of their aircraft.
  unfoldable pub max_num : Bytes → List (Flight F64) → ℕ
  max_num hex [] = 0
  max_num hex (r ∷ rows) =
      let rest = max_num hex rows in
      if bytes_eq hex r.hex_ident && ltb rest r.flight_num then r.flight_num else rest

  unfoldable pub entry_of : Flight F64 → ActiveFlight
  entry_of r = record {
    flight_id = r.flight_id;
    flight_num = r.flight_num;
    last_seen_ms = r.last_seen_ms;
  }

  unfoldable pub load_entries :
      List (Flight F64) → List (Flight F64) → Table ActiveFlight → Table ActiveFlight
  unfolding max_num upsert entry_of
  load_entries all [] tracker = tracker
  load_entries all (r ∷ rows) tracker =
      let with_r = upsert r.hex_ident (λ _. entry_of r) tracker in
      load_entries all rows (if r.flight_num == max_num r.hex_ident all then with_r else tracker)

  unfoldable pub rebuild_flight_tracker_sync : Storage F64 → Storage F64
  unfolding load_entries
  rebuild_flight_tracker_sync s = record s { flight_tracker = load_entries s.flights s.flights [] }
