-- ===== src/Examples/Data.antt =====
-- Test data: a backend that is up or down, a client, a store, and arithmetic in tenths for jitter.
use adsb_feed.Prelude.{
  ℕ, ◌+◌, ◌-◌, ◌*◌, ◌/◌, ◌≤◌, refl, min, max, Bool, true, false, none, some, [], ◌∷◌, Bytes, arith,
}
use adsb_feed.Time.{from_secs}
use adsb_feed.Prelude.Int.{pos}
use adsb_feed.Feed.Metrics.{Metrics, new}
use adsb_feed.Feed.Monitor.{ConnectionMonitor}
use adsb_feed.Feed.Slot.{Forwarder, Slot}
use adsb_feed.Feed.Client.{Client}
use adsb_feed.Weather.StateFile.{StateStore, PersistedState, holds}
use adsb_feed.Weather.Schedule.{Floats}

-- A backend that takes messages while it is up.
abbrev pub backend : Forwarder Bool
backend = record {
  connect = λ f. (true, true);
  send = λ f m. (f, f);
  flush = λ f. f;
  disconnect = λ f. false;
  is_connected = λ f. f;
}

-- A backend that always takes messages.
abbrev pub open_backend : Forwarder Bool
open_backend = record {
  connect = λ f. (true, true);
  send = λ f m. (f, true);
  flush = λ f. f;
  disconnect = λ f. false;
  is_connected = λ f. f;
}

abbrev pub hello : Bytes
hello = b'h' ∷ b'i' ∷ []

abbrev pub two_lines : Bytes
two_lines = b'a' ∷ b'\n' ∷ b'b' ∷ b'\n' ∷ b'c' ∷ []

abbrev pub up_slot : Slot Bool
up_slot = record { forwarder = true; queue = hello ∷ [] }

abbrev pub down_slot : Slot Bool
down_slot = record { forwarder = false; queue = [] }

abbrev pub monitor : ConnectionMonitor
monitor = record {
  last_tcp_activity = 0;
  last_heartbeat = 0;
  last_data_message = 0;
  heartbeat_pattern = some hello;
  heartbeat_timeout = some (from_secs 90);
}

abbrev pub metrics : Metrics
metrics = record (new 0) { retry_queue_size = 1 }

abbrev pub client : Client Bool
client = record {
  config = record {
    test_mode = false;
    log_sample_rate = 0;
    max_retry_queue_size = 2;
    max_line_buffer_size = 64;
  };
  metrics = metrics;
  slots = up_slot ∷ down_slot ∷ [];
  line_buffer = hello;
  last_timestamp_ms = pos 0;
  timestamp_update_counter = 0;
  message_tx = some [];
  connection_monitor = monitor;
}

abbrev pub enabled_state : PersistedState
enabled_state = record { enabled = true; not_before_ms = none }

abbrev pub store : StateStore
store = record { persistent = true; state = enabled_state; file = holds enabled_state }

products : (a b c : ℕ) → b ≤ c → a * b ≤ a * c
products a b c h = grind arith

pub scaled : (a b c : ℕ) → b ≤ c → a * b / 10 ≤ a * c / 10
scaled a b c h = omega (arith, products a b c h)

-- Arithmetic in whole tenths.
abbrev pub tenths : Floats
tenths = record {
  F64 = ℕ;
  zero_f = 0;
  half = 5;
  tenth = 1;
  one = 10;
  eleven_tenths = 11;
  add = λ a b. a + b;
  sub = λ a b. a - b;
  mul = λ a b. a * b / 10;
  clamp = λ lo hi u. max lo (min u hi);
  mul_f64 = λ d f. d * f / 10;
  exact_below = from_secs 1000000;
  Le = λ a b. a ≤ b;
  clamp-ge = λ lo hi u h. omega arith;
  clamp-le = λ lo hi u h. omega arith;
  zero-le-one = omega arith;
  add_mono = λ a b c h. omega arith;
  sub_anti = λ a b c h. omega arith;
  mul_mono = λ a b c p h. scaled a b c h;
  zero-le-half = omega arith;
  zero-le-tenth = omega arith;
  half_zero = refl;
  half_one = refl;
  sub_one_one = refl;
  sub_one_zero = refl;
  one_zero = refl;
  one_tenth = refl;
  mul_f64_mono = λ d f g h. scaled d f g h;
  mul_f64_one = λ d h. omega arith;
  mul_f64_half = λ d h. omega arith;
  mul_f64_eleven_tenths = λ d h. omega arith;
}
