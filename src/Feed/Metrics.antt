-- ===== src/Feed/Metrics.antt =====
-- rust/adsb-pulsar-client/src/metrics.rs: the counters, as `AtomicU64` words that wrap.
use adsb_feed.Prelude.{ℕ, ◌+◌, ◌-◌, ◌%◌}
use adsb_feed.Time.{Duration, from_millis, as_millis, u64_mod}

pub record Metrics : Type 0 where
  pub messages_sent : ℕ
  pub errors : ℕ
  pub bytes_received : ℕ
  pub bytes_sent : ℕ
  pub retry_queue_size : ℕ
  pub reconnection_attempts : ℕ
  pub messages_received : ℕ
  pub last_meaningful_ms : ℕ
  pub start_time : Duration

-- `Metrics::new` at the instant `now`.
abbrev pub new : Duration → Metrics
new now = record {
  messages_sent = 0;
  errors = 0;
  bytes_received = 0;
  bytes_sent = 0;
  retry_queue_size = 0;
  reconnection_attempts = 0;
  messages_received = 0;
  last_meaningful_ms = 0;
  start_time = now;
}

-- `AtomicU64::fetch_add`.
abbrev pub fetch_add : ℕ → ℕ → ℕ
fetch_add x n = (x + n) % u64_mod

abbrev pub inc_messages_sent : Metrics → Metrics
inc_messages_sent m = record m { messages_sent = fetch_add m.messages_sent 1 }

abbrev pub inc_errors : Metrics → Metrics
inc_errors m = record m { errors = fetch_add m.errors 1 }

abbrev pub add_bytes_received : ℕ → Metrics → Metrics
add_bytes_received n m = record m { bytes_received = fetch_add m.bytes_received n }

abbrev pub add_bytes_sent : ℕ → Metrics → Metrics
add_bytes_sent n m = record m { bytes_sent = fetch_add m.bytes_sent n }

abbrev pub set_retry_queue_size : ℕ → Metrics → Metrics
set_retry_queue_size n m = record m { retry_queue_size = n }

abbrev pub inc_reconnection_attempts : Metrics → Metrics
inc_reconnection_attempts m = record m {
  reconnection_attempts = fetch_add m.reconnection_attempts 1;
}

abbrev pub inc_messages_received : Metrics → Metrics
inc_messages_received m = record m { messages_received = fetch_add m.messages_received 1 }

-- `mark_meaningful_message` at the instant `now`; `as u64` keeps the low 64 bits.
abbrev pub mark_meaningful_message : Duration → Metrics → Metrics
mark_meaningful_message now m = record m {
  last_meaningful_ms = as_millis (now - m.start_time) % u64_mod;
}

-- `since_last_meaningful_message`: saturating, since the two loads are not atomic together.
unfoldable pub since_last_meaningful_message : Duration → Metrics → Duration
since_last_meaningful_message now m =
    from_millis (as_millis (now - m.start_time) % u64_mod - m.last_meaningful_ms)
