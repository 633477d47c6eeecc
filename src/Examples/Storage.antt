-- ===== src/Examples/Storage.antt =====
-- The storage's theorems at concrete inputs.
use adsb_feed.Prelude.{
  subst, ℕ, ◌+◌, min, max, ◌≡◌, refl, arith, true, Option, none, some, List, [], ◌∷◌, bytes_eq,
}
use adsb_feed.Prelude.Int.{ℤ, pos, ◌≤ℤ◌, ◌-ℤ◌}
use adsb_feed.Ingest.Sbs.{AircraftPosition}
use adsb_feed.Ingest.Table.{find, upsert}
use adsb_feed.Storage.Flights.{
  ActiveFlight, Extremes, Storage, extended, next_num, active_of, insert_timed,
  rebuild_flight_tracker_sync, load_entries,
}
use adsb_feed.Storage.Flights.Collected.{see, see_all}
use adsb_feed.Storage.Flights.Batch.{
  InSync, tables, with_tables, insert_timed-eq-see, insert_timed-InSync,
}
use adsb_feed.Storage.Flights.Restart.{InOrder, insert_timed-Restartable}

abbrev extremes : Extremes ℕ
extremes = record {
  least = min;
  greatest = max;
  least_assoc = λ a b c. omega arith;
  greatest_assoc = λ a b c. omega arith;
  least_idem = λ a. omega arith;
  greatest_idem = λ a. omega arith;
}

abbrev empty : Storage ℕ
empty = record {
  source_id = [];
  gap_threshold_ms = pos 300;
  flight_tracker = [];
  positions = [];
  flights = [];
}

empty-InSync : InSync extremes empty 0
unfolding InSync find
empty-InSync = (λ h a e. cc, tt)

abbrev at_altitude : Option ℕ → AircraftPosition ℕ
at_altitude altitude = record {
  hex_ident = b'A' ∷ b'1' ∷ [];
  callsign = none;
  altitude = altitude;
  ground_speed = none;
  track = none;
  latitude = none;
  longitude = none;
  vertical_rate = none;
  squawk = none;
  is_on_ground = none;
  timestamp = [];
  message_count = 0;
}

-- The second position extends the first one's flight, the third begins another.
abbrev batch : List (AircraftPosition ℕ × ℤ)
batch =
    (at_altitude (some 30), pos 10)
    ∷ (at_altitude (some 35), pos 20)
    ∷ (at_altitude none, pos 900)
    ∷ []

insert_timed-eq-see_example : insert_timed extremes batch empty ≡ (
  with_tables extremes batch
      (see_all extremes empty.gap_threshold_ms batch (tables extremes empty))
      empty,
  true,
)
insert_timed-eq-see_example = insert_timed-eq-see extremes batch empty 0 empty-InSync (omega arith)

insert_timed-InSync_example : InSync extremes (insert_timed extremes batch empty).0 (0 + 3)
insert_timed-InSync_example = insert_timed-InSync extremes batch empty 0 empty-InSync (omega arith)

last_seen :
    (x a : ActiveFlight) (ts : ℤ) → some x ≡ some a → x.last_seen_ms ≤ℤ ts → a.last_seen_ms ≤ℤ ts
last_seen x a ts e h = let same : x ≡ a = cc in subst (λ b. b.last_seen_ms ≤ℤ ts) same h

batch-InOrder : InOrder extremes (pos 300) batch (tables extremes empty)
unfolding InOrder find upsert see extended next_num active_of ◌-ℤ◌ bytes_eq
batch-InOrder = (
  λ a e. cc,
  (
    λ a e. last_seen _ a (pos 20) e (omega arith),
    (λ a e. last_seen _ a (pos 900) e (omega arith), tt),
  ),
)

insert_timed-Restartable_example :
    let s = (insert_timed extremes batch empty).0 in
    find (b'A' ∷ b'1' ∷ []) (rebuild_flight_tracker_sync s).flight_tracker
    ≡ find (b'A' ∷ b'1' ∷ []) s.flight_tracker
unfolding rebuild_flight_tracker_sync load_entries
insert_timed-Restartable_example =
    insert_timed-Restartable extremes batch empty 0 empty-InSync (omega arith) batch-InOrder
      (λ h. refl) (b'A' ∷ b'1' ∷ [])
