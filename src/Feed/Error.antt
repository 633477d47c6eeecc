-- ===== src/Feed/Error.antt =====
-- rust/adsb-pulsar-client/src/error.rs
use adsb_feed.Prelude.{ℕ, Bool, true, false, Bytes}

-- The kinds of `std::io::Error` that the client tells apart.
pub data IoKind : Type 0 where
  timed_out connection_aborted other_kind : IoKind

pub data ClientError : Type 0 where
  socket : IoKind → ClientError
  pulsar : ClientError
  forwarder : Bytes → ClientError
  config : Bytes → ClientError
  buffer_overflow : ℕ → ℕ → ClientError
  retry_queue_full : ℕ → ClientError
  shutdown : ClientError
  other : Bytes → ClientError

-- `ClientError::is_recoverable`, with the `pulsar` feature on.
unfoldable pub is_recoverable : ClientError → Bool
is_recoverable (socket k) = true
is_recoverable (forwarder s) = true
is_recoverable (buffer_overflow c l) = true
is_recoverable pulsar = true
is_recoverable _ = false

-- `ClientError::should_retry`.
unfoldable pub should_retry : ClientError → Bool
should_retry (socket k) = true
should_retry (forwarder s) = true
should_retry (retry_queue_full n) = true
should_retry (buffer_overflow c l) = true
should_retry pulsar = true
should_retry _ = false

-- `error::Result`.
pub data Result {ℓ} (A : Type ℓ) : Type ℓ where
  ok : A → Result A
  err : ClientError → Result A
