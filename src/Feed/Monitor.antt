-- ===== src/Feed/Monitor.antt =====
-- rust/adsb-pulsar-client/src/connection_monitor.rs.  An instant is a number of nanoseconds;
-- `Instant::now()` is the argument `now`, and `elapsed` saturates at zero.
pub mod Staleness
pub mod Pattern
use adsb_feed.Prelude.{
  ℕ, ◌-◌, Bool, true, false, ◌||◌, ◌&&◌, Option, none, some, List, [], ◌∷◌, Bytes, leb, ◌==◌,
  if◌then◌else◌, is_empty, max,
}
use adsb_feed.Time.{Duration, from_secs}

pub data LineKind : Type 0 where
  heartbeat line_data : LineKind

pub data StaleReason : Type 0 where
  heartbeat_timeout : Duration → StaleReason

pub record ConnectionMonitor : Type 0 where
  pub last_tcp_activity : Duration
  pub last_heartbeat : Duration
  pub last_data_message : Duration
  pub heartbeat_pattern : Option Bytes
  pub heartbeat_timeout : Option Duration

-- `Config::heartbeat_timeout`: 0 seconds switch the check off.
unfoldable pub heartbeat_timeout_of : ℕ → Option Duration
heartbeat_timeout_of secs = if secs == 0 then none else some (from_secs secs)

-- `ConnectionMonitor::new` from the pattern and the timeout of the configuration.
unfoldable pub new : Bytes → ℕ → Duration → ConnectionMonitor
unfolding heartbeat_timeout_of
new pattern secs now = record {
  last_tcp_activity = now;
  last_heartbeat = now;
  last_data_message = now;
  heartbeat_pattern = if is_empty pattern then none else some pattern;
  heartbeat_timeout = heartbeat_timeout_of secs;
}

unfoldable pub record_tcp_activity : Duration → ConnectionMonitor → ConnectionMonitor
record_tcp_activity now c = record c { last_tcp_activity = now }

-- Whether the text begins with the pattern: one window against the pattern.
unfoldable pub starts_with : Bytes → Bytes → Bool
starts_with [] line = true
starts_with (p ∷ ps) [] = false
starts_with (p ∷ ps) (b ∷ bs) = p == b && starts_with ps bs

-- `line.windows(n).any(|w| w == pattern)`, for a pattern that is not empty.
unfoldable pub any_window : Bytes → Bytes → Bool
unfolding starts_with
any_window pattern [] = false
any_window pattern (b ∷ bs) = starts_with pattern (b ∷ bs) || any_window pattern bs

unfoldable pub is_heartbeat : ConnectionMonitor → Bytes → Bool
is_heartbeat c line = elim c.heartbeat_pattern [
  | none ↦ false
  | some pattern ↦ any_window pattern line
]

unfoldable pub classify_line : Duration → ConnectionMonitor → Bytes → ConnectionMonitor × LineKind
classify_line now c line =
    if is_heartbeat c line
    then (record c { last_heartbeat = now }, heartbeat)
    else (record c { last_data_message = now }, line_data)

unfoldable pub since_last_meaningful_message : Duration → ConnectionMonitor → Duration
since_last_meaningful_message now c = now - max c.last_heartbeat c.last_data_message

unfoldable pub since_last_tcp_activity : Duration → ConnectionMonitor → Duration
since_last_tcp_activity now c = now - c.last_tcp_activity

unfoldable pub is_stale : Duration → ConnectionMonitor → Option StaleReason
is_stale now c = elim c.heartbeat_timeout [
  | none ↦ none
  | some timeout ↦
      let elapsed = now - max c.last_heartbeat c.last_data_message in
      if leb timeout elapsed then some (heartbeat_timeout elapsed) else none
]

unfoldable pub reset : Duration → ConnectionMonitor → ConnectionMonitor
reset now c = record c { last_tcp_activity = now; last_heartbeat = now; last_data_message = now }
