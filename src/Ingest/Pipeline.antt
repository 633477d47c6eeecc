-- ===== src/Ingest/Pipeline.antt =====
-- `IngestPipeline` of rust/adsb-data-engine/src/ingest.rs.  The storage and the sink are the lists of the
-- batches that they were given; an insert that fails is only logged there.
pub mod Merging
pub mod Window
pub mod Effect
pub mod Delivery
use adsb_feed.Prelude.{
  ℕ, ◌+◌, ◌%◌, Bool, true, false, ◌&&◌, Option, none, some, or, ◌>>=◌, List, [], ◌∷◌, ◌++◌, map,
  Bytes, bytes_eq, if◌then◌else◌, is_empty,
}
use mathlib.Core.Option.{get_or}
use adsb_feed.Time.{u64_mod}
use adsb_feed.Ingest.Text.{from_utf8}
use adsb_feed.Ingest.Sbs.{
  AircraftPosition, parse_sbs_raw_fields, extract_sbs_timestamp, parse_sbs_message,
}
use adsb_feed.Ingest.Table.{Table, find, upsert, remove}

pub record RawSbsRecord : Type 0 where
  pub hex_ident : Bytes
  pub msg_type : Bytes
  pub transmission_type : Option ℕ
  pub timestamp : Bytes
  pub timestamp_ms : ℕ
  pub raw_message : Bytes
  pub source_id : Bytes

-- The clock, the three buffers, the counter, and what storage and sink were given, the newest first.
pub record Pipeline (F64 : Type 0) : Type 0 where
  pub last_message_time : ℕ
  pub messages_parsed : ℕ
  pub buffer : Table (AircraftPosition F64)
  pub message_counts : Table ℕ
  pub raw_buffer : List RawSbsRecord
  pub stored : List (List (AircraftPosition F64))
  pub stored_raw : List (List RawSbsRecord)
  pub sunk : List (List (AircraftPosition F64))

-- An atomic counter wraps.
abbrev pub count_one : Option ℕ → ℕ
count_one old = (get_or old 0 + 1) % u64_mod

-- The record for the archive, if the line gives its fields and its time.
unfoldable pub raw_record : Bytes → Bytes → Option RawSbsRecord
raw_record source_id line = do
  (hex, msg_type, trans_type) ← parse_sbs_raw_fields line
  ts ← extract_sbs_timestamp line
  some (record {
    hex_ident = hex;
    msg_type = msg_type;
    transmission_type = trans_type;
    timestamp = ts;
    timestamp_ms = 0;
    raw_message = line;
    source_id = source_id;
  })

module _ {F64 : Type 0} where
  -- The old entry with what the new position knows.
  unfoldable pub merged : AircraftPosition F64 → AircraftPosition F64 → AircraftPosition F64
  merged new existing = record existing {
    callsign = or new.callsign existing.callsign;
    altitude = or new.altitude existing.altitude;
    ground_speed = or new.ground_speed existing.ground_speed;
    track = or new.track existing.track;
    latitude = or new.latitude existing.latitude;
    longitude = or new.longitude existing.longitude;
    vertical_rate = or new.vertical_rate existing.vertical_rate;
    squawk = or new.squawk existing.squawk;
    is_on_ground = or new.is_on_ground existing.is_on_ground;
    timestamp = new.timestamp;
  }

  unfoldable pub merge_entry :
      AircraftPosition F64 → Option (AircraftPosition F64) → AircraftPosition F64
  unfolding merged
  merge_entry new none = new
  merge_entry new (some existing) = merged new existing

  unfoldable pub merge_into_buffer :
      Table (AircraftPosition F64) → AircraftPosition F64 → Table (AircraftPosition F64)
  unfolding upsert merge_entry
  merge_into_buffer buffer new = upsert new.hex_ident (merge_entry new) buffer

  unfoldable pub take_position : AircraftPosition F64 → Pipeline F64 → Pipeline F64
  unfolding upsert merge_into_buffer
  take_position pos s = record s {
    messages_parsed = (s.messages_parsed + 1) % u64_mod;
    message_counts = upsert pos.hex_ident count_one s.message_counts;
    buffer = merge_into_buffer s.buffer pos;
  }

  unfoldable pub take_raw : Option RawSbsRecord → Pipeline F64 → Pipeline F64
  take_raw none s = s
  take_raw (some r) s = record s { raw_buffer = s.raw_buffer ++ r ∷ [] }

  unfoldable pub take_parsed : Option (AircraftPosition F64) → Pipeline F64 → Pipeline F64
  unfolding take_position
  take_parsed none s = s
  take_parsed (some pos) s = take_position pos s

  -- The batch with its counts, taken out of the table one by one.
  unfoldable pub attach :
      List (AircraftPosition F64) → Table ℕ → List (AircraftPosition F64) × Table ℕ
  unfolding find remove
  attach [] counts = ([], counts)
  attach (pos ∷ batch) counts =
      let (rest, left) = attach batch (remove pos.hex_ident counts) in
      (
        record pos { message_count = get_or (find pos.hex_ident counts) pos.message_count } ∷ rest,
        left,
      )

  -- `drain()`, and the counts: the batch, and the counts that are left.
  unfoldable pub drain : Pipeline F64 → List (AircraftPosition F64) × Table ℕ
  unfolding attach
  drain s = attach (map (λ e. e.1) s.buffer) s.message_counts

  -- The batch is stored if the toggle is on and storage is attached, and handed to the sink.
  unfoldable pub flush_positions : Bool → Bool → Pipeline F64 → Pipeline F64
  flush_positions attached record_positions s =
      let (batch, left) = drain s in
      let drained = record s {
        buffer = [];
        message_counts = left;
        stored = if record_positions && attached then batch ∷ s.stored else s.stored;
        sunk = batch ∷ s.sunk;
      } in
      if is_empty s.buffer then s else drained

  unfoldable pub flush_raw : Bool → Bool → Pipeline F64 → Pipeline F64
  flush_raw attached record_raw s =
      let stored_raw =
        if is_empty s.raw_buffer then s.stored_raw else s.raw_buffer ∷ s.stored_raw in
      record s {
        stored_raw = if record_raw && attached then stored_raw else s.stored_raw;
        raw_buffer = [];
      }

  -- The toggles as `flush` reads them, and whether storage is attached.
  unfoldable pub flush : Bool → Bool → Bool → Pipeline F64 → Pipeline F64
  unfolding flush_positions flush_raw
  flush attached record_positions record_raw s =
      flush_raw attached record_raw (flush_positions attached record_positions s)

  module _ (from_str : Bytes → Option F64) (source_id : Bytes) where
    unfoldable pub absorb_line : Bytes → Pipeline F64 → Pipeline F64
    unfolding take_raw take_parsed
    absorb_line line s =
        take_parsed (parse_sbs_message from_str line) (take_raw (raw_record source_id line) s)

    -- One received message: the clock first, then the line if it is UTF-8.
    unfoldable pub absorb : ℕ → Bytes → Pipeline F64 → Pipeline F64
    unfolding absorb_line
    absorb now bytes s =
        let s' = record s { last_message_time = now } in
        elim (from_utf8 bytes) [ none ↦ s' | some line ↦ absorb_line line s' ]

    unfoldable pub absorb_all : List (ℕ × Bytes) → Pipeline F64 → Pipeline F64
    unfolding absorb
    absorb_all [] s = s
    absorb_all ((now, bytes) ∷ rest) s = absorb_all rest (absorb now bytes s)
