-- ===== src/Feed/Client.antt =====
-- rust/adsb-pulsar-client/src/client.rs: `ADSBFeedClient`, its messages on the way out and one round of
-- the receive loop.  Clocks, the socket and the `select!` choices are the arguments of an event; the
-- broadcast tap is the list of what was sent to it.
pub mod Forwarding
pub mod Receiving
pub mod Gauge
pub mod Modes
pub mod Reconnecting
pub mod Quiet
pub mod Panics
use adsb_feed.Prelude.{
  ℕ, ◌+◌, ◌%◌, Bool, true, false, Option, none, some, List, [], ◌∷◌, ◌++◌, Bytes, length, ◌==◌,
  if◌then◌else◌,
}
use mathlib.Core.Option
use adsb_feed.Prelude.Int.{ℤ}
use adsb_feed.Time.{Duration, u64_mod}
use adsb_feed.Feed.Error.{
  ClientError, IoKind, timed_out, connection_aborted, socket, shutdown, Result, ok, err,
}
use adsb_feed.Feed.Metrics.{
  Metrics, inc_messages_sent, inc_messages_received, add_bytes_sent, add_bytes_received,
  mark_meaningful_message,
}
use adsb_feed.Feed.Lines.{LineState, process_buffer}
use adsb_feed.Feed.Monitor.{ConnectionMonitor, record_tcp_activity, classify_line, is_stale}
use adsb_feed.Feed.Slot.{Forwarder, Slot, fan_out, drain_retry_queue}

abbrev pub timestamp_update_interval : ℕ
timestamp_update_interval = 10

abbrev pub max_retry_drain_per_tick : ℕ
max_retry_drain_per_tick = 500

-- The settings of `Config` that the loop reads.
pub record Config : Type 0 where
  pub test_mode : Bool
  pub log_sample_rate : ℕ
  pub max_retry_queue_size : ℕ
  pub max_line_buffer_size : ℕ

pub record Client (F : Type 0) : Type 0 where
  pub config : Config
  pub metrics : Metrics
  pub slots : List (Slot F)
  pub line_buffer : Bytes
  pub last_timestamp_ms : ℤ
  pub timestamp_update_counter : ℕ
  pub message_tx : Option (List Bytes)
  pub connection_monitor : ConnectionMonitor

-- What `select!` chose, with the readings of the clocks.
pub data Event : Type 0 where
  shutdown_changed : Bool → Event
  read_ok : Bytes → Duration → ℤ → Event
  read_err : IoKind → Event
  stats_tick : Event
  housekeeping_tick : Duration → Event

-- How a round ends: the loop goes on, it returns an error, or the thread panics.
pub data Round (F : Type 0) : Type 0 where
  running : Client F → Round F
  stopped : Client F → ClientError → Round F
  panicked : Round F

-- Each message of a read: counted, classified, marked.
unfoldable pub note_message :
    Duration → Bytes → Metrics × ConnectionMonitor → Metrics × ConnectionMonitor
note_message now message (m, c) =
    (mark_meaningful_message now (inc_messages_received m), (classify_line now c message).0)

unfoldable pub note_messages :
    Duration → List Bytes → Metrics × ConnectionMonitor → Metrics × ConnectionMonitor
note_messages now [] p = p
note_messages now (message ∷ rest) p = note_messages now rest (note_message now message p)

module _ {F : Type 0} (fw : Forwarder F) where
  -- `tx.send(message.clone())`.
  unfoldable pub emit_tap : Bytes → Client F → Client F
  emit_tap message c = record c {
    message_tx = Option.map (λ sent. sent ++ message ∷ []) c.message_tx;
  }

  -- The wall clock is read again at every tenth message.
  unfoldable pub update_timestamp : ℤ → Client F → Client F
  update_timestamp now_ms c = record c {
    last_timestamp_ms =
        if c.timestamp_update_counter % timestamp_update_interval == 0
        then now_ms
        else c.last_timestamp_ms;
    timestamp_update_counter = (c.timestamp_update_counter + 1) % u64_mod;
  }

  -- `forward_message` in test mode: `% log_sample_rate` panics at rate 0.
  unfoldable pub forward_test : Client F → Option (Client F)
  forward_test c =
      if c.config.log_sample_rate == 0
      then none
      else some (record c { metrics = inc_messages_sent c.metrics })

  unfoldable pub forward_live : ℤ → Bytes → Client F → Client F
  unfolding update_timestamp
  forward_live now_ms message c =
      let t = update_timestamp now_ms c in
      let (slots, m) = fan_out fw t.config.max_retry_queue_size message [] t.slots t.metrics in
      record t { slots = slots; metrics = add_bytes_sent (length message) (inc_messages_sent m) }

  -- `forward_message`; `none` is a panic.
  unfoldable pub forward_message : ℤ → Bytes → Client F → Option (Client F)
  forward_message now_ms message c =
      let tapped = emit_tap message c in
      if c.config.test_mode then forward_test tapped else some (forward_live now_ms message tapped)

  unfoldable pub forward_messages : ℤ → List Bytes → Client F → Option (Client F)
  forward_messages now_ms [] c = some c
  forward_messages now_ms (message ∷ rest) c =
      Option.bind (forward_message now_ms message c) (forward_messages now_ms rest)

  -- The housekeeping loop over the forwarders: drain the queue of a connected one, then flush it.
  unfoldable pub drain_slots : List (Slot F) → List (Slot F) → Metrics → List (Slot F) × Metrics
  drain_slots before [] m = (before, m)
  drain_slots before (s ∷ rest) m =
      let (s', m') = drain_retry_queue fw max_retry_drain_per_tick before s rest m in
      let flushed : Slot F = record s' { forwarder = fw.flush s'.forwarder } in
      let connected = fw.is_connected s.forwarder in
      drain_slots (before ++ (if connected then flushed else s) ∷ []) rest
        (if connected then m' else m)

  abbrev pub running_or_panicked : Option (Client F) → Round F
  running_or_panicked none = panicked
  running_or_panicked (some c) = running c

  -- The messages that `process_buffer` found, noted and forwarded; its error ends the loop.
  unfoldable pub after_process : Duration → ℤ → Client F → LineState × Result (List Bytes) → Round F
  unfolding note_messages
  after_process now now_ms c (s, err e) =
      stopped (record c { line_buffer = s.line_buffer; metrics = s.metrics }) e
  after_process now now_ms c (s, ok messages) =
      let (m, monitor) = note_messages now messages (s.metrics, c.connection_monitor) in
      running_or_panicked (
        forward_messages now_ms messages
          (record c { line_buffer = s.line_buffer; metrics = m; connection_monitor = monitor }))

  unfoldable pub receive_bytes : Bytes → Duration → ℤ → Client F → Round F
  receive_bytes chunk now now_ms c =
      let m = add_bytes_received (length chunk) c.metrics in
      let monitor = record_tcp_activity now c.connection_monitor in
      after_process now now_ms (record c { connection_monitor = monitor })
        (process_buffer c.config.max_line_buffer_size
          (record { line_buffer = c.line_buffer; metrics = m }) chunk)

  -- `is_stale` ends the connection with a time-out.
  unfoldable pub check_stale : Duration → Client F → Round F
  check_stale now c = elim (is_stale now c.connection_monitor) [
    | none ↦ running c
    | some reason ↦ stopped c (socket timed_out)
  ]

  unfoldable pub housekeeping : Duration → Client F → Round F
  housekeeping now c =
      let (slots, m) = drain_slots [] c.slots c.metrics in
      check_stale now (if c.config.test_mode then c else record c { slots = slots; metrics = m })

  -- One round of the loop of `receive_and_forward`.
  unfoldable pub receive : Event → Client F → Round F
  unfolding receive_bytes housekeeping
  receive (shutdown_changed true) c = stopped c shutdown
  receive (shutdown_changed false) c = running c
  receive (read_ok [] now now_ms) c = stopped c (socket connection_aborted)
  receive (read_ok (b ∷ bs) now now_ms) c = receive_bytes (b ∷ bs) now now_ms c
  receive (read_err kind) c = stopped c (socket kind)
  receive stats_tick c = running c
  receive (housekeeping_tick now) c = housekeeping now c
