-- ===== src/Feed/Slot.antt =====
-- One forwarder with its retry queue: rust/adsb-pulsar-client/src/forwarder/mod.rs (the trait) and
-- the queues of rust/adsb-pulsar-client/src/client.rs.  `ADSBFeedClient` keeps `forwarders` and
-- `retry_queues` as two vectors of one length; here an entry of both is a slot.
pub mod Queue
pub mod Drain
pub mod Delivery
use adsb_feed.Prelude.{
  ℕ, zero, suc, ◌+◌, Bool, true, false, ◌||◌, not, List, [], ◌∷◌, ◌++◌, Bytes, length, drop, ltb,
  if◌then◌else◌, is_empty,
}
use adsb_feed.Feed.Metrics.{Metrics, inc_errors, add_bytes_sent, set_retry_queue_size}

-- The trait `MessageForwarder` over a backend of state `F`; `true` is `Ok`.
pub record Forwarder (F : Type 0) : Type 0 where
  pub connect : F → F × Bool
  pub send : F → Bytes → F × Bool
  pub flush : F → F
  pub disconnect : F → F
  pub is_connected : F → Bool

pub record Slot (F : Type 0) : Type 0 where
  pub forwarder : F
  pub queue : List Bytes

-- The queue part of `enqueue_retry`: a full queue drops its oldest message first.
unfoldable pub enqueue : ℕ → List Bytes → Bytes → List Bytes
enqueue cap queue message =
    if ltb (length queue) cap then queue ++ message ∷ [] else drop 1 queue ++ message ∷ []

-- `retry_queues.iter().map(|q| q.len()).sum()`.
abbrev pub total {ℓ} : {A : Type ℓ} → (A → ℕ) → List A → ℕ
total f [] = 0
total f (x ∷ xs) = f x + total f xs

-- What became of a message at one forwarder.
pub data Outcome : Type 0 where
  accepted queued failed : Outcome

-- What a drain leaves, and what it sent.
pub record Drained (F : Type 0) : Type 0 where
  pub forwarder : F
  pub queue : List Bytes
  pub sent : List Bytes
  pub metrics : Metrics

module _ {F : Type 0} (fw : Forwarder F) where
  abbrev pub queued_length : Slot F → ℕ
  queued_length s = length s.queue

  -- The body of the fan-out loop of `forward_message` for one forwarder.
  unfoldable pub offer : ℕ → Bytes → Slot F → Slot F × Outcome
  offer cap message s =
      let (f, sent) = fw.send s.forwarder message in
      if not (fw.is_connected s.forwarder)
      then (record s { queue = enqueue cap s.queue message }, queued)
      else if sent
      then (record s { forwarder = f }, accepted)
      else (record s { forwarder = fw.disconnect f; queue = enqueue cap s.queue message }, failed)

  -- The counters after one forwarder: `enqueue_retry` stores the length of all queues together.
  unfoldable pub count_outcome : Outcome → List (Slot F) → Metrics → Metrics
  count_outcome accepted all m = m
  count_outcome queued all m = set_retry_queue_size (total queued_length all) m
  count_outcome failed all m = set_retry_queue_size (total queued_length all) (inc_errors m)

  -- The fan-out loop, with the forwarders that have had their turn in front.
  unfoldable pub fan_out :
      ℕ → Bytes → List (Slot F) → List (Slot F) → Metrics → List (Slot F) × Metrics
  fan_out cap message before [] m = (before, m)
  fan_out cap message before (s ∷ rest) m =
      let r = offer cap message s in
      fan_out cap message (before ++ r.0 ∷ []) rest (count_outcome r.1 (before ++ r.0 ∷ rest) m)

  -- The `while` loop of `drain_retry_queue` over the rounds left; a message that fails goes back to
  -- the front.
  unfoldable pub drain_loop : ℕ → F → List Bytes → Metrics → Drained F
  drain_loop zero f q m = record { forwarder = f; queue = q; sent = []; metrics = m }
  drain_loop (suc left) f [] m = record { forwarder = f; queue = []; sent = []; metrics = m }
  drain_loop (suc left) f (message ∷ q) m =
      let (f', sent) = fw.send f message in
      let rest = drain_loop left f' q (add_bytes_sent (length message) m) in
      if sent
      then record rest { sent = message ∷ rest.sent }
      else record { forwarder = f'; queue = message ∷ q; sent = []; metrics = m }

  -- `drain_retry_queue` on the slot that stands between `before` and `after`.
  unfoldable pub drain_retry_queue :
      ℕ → List (Slot F) → Slot F → List (Slot F) → Metrics → Slot F × Metrics
  drain_retry_queue most before s after m =
      let d = drain_loop most s.forwarder s.queue m in
      let s' : Slot F = record { forwarder = d.forwarder; queue = d.queue } in
      if is_empty s.queue || not (fw.is_connected s.forwarder)
      then (s, m)
      else (s', set_retry_queue_size (total queued_length (before ++ s' ∷ after)) d.metrics)
