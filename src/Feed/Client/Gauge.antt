-- ===== src/Feed/Client/Gauge.antt =====
-- The gauge of queued messages over any history of the receive loop
-- (rust/adsb-pulsar-client/src/client.rs).
use adsb_feed.Prelude.{
  ℕ, ◌≡◌, refl, ◌∙◌, inl, inr, true, false, not, ◌||◌, Option, none, List, [], ◌∷◌, ◌++◌, Bytes,
  length, arith, Bool-cases, if_intro, Option-cases, ◌==◌, subst, is_empty,
}
use mathlib.Core.Option
use mathlib.Core.List.{append_assoc, append-nil}
use adsb_feed.Prelude.Int.{ℤ}
use adsb_feed.Time.{Duration}
use adsb_feed.Feed.Error.{Result, ok, err}
use adsb_feed.Feed.Metrics.{Metrics, add_bytes_received}
use adsb_feed.Feed.Lines.{LineState, process_buffer}
use adsb_feed.Feed.Monitor.{ConnectionMonitor, is_stale, record_tcp_activity}
use adsb_feed.Feed.Slot.{Forwarder, Slot, total, queued_length, drain_retry_queue}
use adsb_feed.Feed.Slot.Delivery.{Exact, fan_out-Exact, total-append}
use adsb_feed.Feed.Client.{
  Client, Event, shutdown_changed, read_ok, read_err, stats_tick, housekeeping_tick, Round, running,
  stopped, panicked, receive, after_process, note_messages, note_message, forward_messages,
  forward_message, forward_test, forward_live, emit_tap, running_or_panicked, drain_slots,
  housekeeping, check_stale, max_retry_drain_per_tick,
}

note_messages-gauge :
    (now : Duration) (ms : List Bytes) (m : Metrics) (c : ConnectionMonitor)
    → (note_messages now ms (m, c)).0.retry_queue_size ≡ m.retry_queue_size
unfolding note_messages note_message
note_messages-gauge now [] m c = refl
note_messages-gauge now (x ∷ xs) m c =
    let p = note_message now x (m, c) in note_messages-gauge now xs p.0 p.1

process_buffer-gauge :
    (limit : ℕ) (s : LineState) (chunk : Bytes)
    → (process_buffer limit s chunk).0.metrics.retry_queue_size ≡ s.metrics.retry_queue_size
unfolding process_buffer
process_buffer-gauge limit s chunk = ground arith

module _ {F : Type 0} (fw : Forwarder F) where
  abbrev pub IsExact : Client F → Type 0
  IsExact c = Exact fw c.slots c.metrics

  drain_retry_queue-Exact :
      (most : ℕ) (before after : List (Slot F)) (s : Slot F) (m : Metrics)
      → Exact fw (before ++ s ∷ after) m
      → let r = drain_retry_queue fw most before s after m in Exact fw (before ++ r.0 ∷ after) r.1
  unfolding drain_retry_queue
  drain_retry_queue-Exact most before after s m h =
      elim (Bool-cases (is_empty s.queue || not (fw.is_connected s.forwarder))) [
        | inl stay ↦ rw (stay, drain_retry_queue) h
        | inr go ↦ rw (go, drain_retry_queue) refl
      ]

  same_queue-total :
      (before after : List (Slot F)) (s t : Slot F)
      → s.queue ≡ t.queue
      → total (queued_length fw) (before ++ s ∷ after)
        ≡ total (queued_length fw) (before ++ t ∷ after)
  same_queue-total before after s t e = ground (
    arith,
    total-append (queued_length fw) before (s ∷ after),
    total-append (queued_length fw) before (t ∷ after),
  )

  drain_slots-Exact :
      (before slots : List (Slot F)) (m : Metrics)
      → Exact fw (before ++ slots) m
      → let r = drain_slots fw before slots m in Exact fw r.0 r.1
  unfolding drain_slots
  drain_slots-Exact before [] m h = rw (← append-nil before) h
  drain_slots-Exact before (s ∷ rest) m h =
      let r = drain_retry_queue fw max_retry_drain_per_tick before s rest m in
      let flushed : Slot F = record { forwarder = fw.flush r.0.forwarder; queue = r.0.queue } in
      let drained =
        drain_retry_queue-Exact max_retry_drain_per_tick before rest s m h
        ∙ same_queue-total before rest r.0 flushed refl in
      elim (Bool-cases (fw.is_connected s.forwarder)) [
        | inl up ↦
            rw (up, drain_slots)
              (drain_slots-Exact (before ++ flushed ∷ []) rest r.1
                (rw (append_assoc before (flushed ∷ []) rest) drained))
        | inr down ↦
            rw (down, drain_slots)
              (drain_slots-Exact (before ++ s ∷ []) rest m
                (rw (append_assoc before (s ∷ []) rest) h))
      ]

  forward_live-Exact :
      (now_ms : ℤ) (x : Bytes) (c : Client F) → IsExact c → IsExact (forward_live fw now_ms x c)
  unfolding forward_live
  forward_live-Exact now_ms x c h =
      fan_out-Exact fw c.config.max_retry_queue_size x [] c.slots c.metrics h

  -- Whatever a round ends in, the client that it leaves is exact.
  abbrev pub RoundIsExact : Round F → Type 0
  RoundIsExact (running c) = IsExact c
  RoundIsExact (stopped c e) = IsExact c
  RoundIsExact panicked = Unit

  abbrev OutcomeIsExact : Option (Client F) → Type 0
  OutcomeIsExact o = RoundIsExact (running_or_panicked fw o)

  forward_test-Exact : (c : Client F) → IsExact c → OutcomeIsExact (forward_test fw c)
  unfolding forward_test
  forward_test-Exact c h = if_intro OutcomeIsExact (c.config.log_sample_rate == 0) none _ tt h

  forward_message-Exact :
      (now_ms : ℤ) (x : Bytes) (c : Client F)
      → IsExact c
      → OutcomeIsExact (forward_message fw now_ms x c)
  unfolding forward_message emit_tap
  forward_message-Exact now_ms x c h =
      if_intro OutcomeIsExact c.config.test_mode _ _ (forward_test-Exact (emit_tap fw x c) h)
        (forward_live-Exact now_ms x (emit_tap fw x c) h)

  forward_messages-Exact :
      (now_ms : ℤ) (ms : List Bytes) (c : Client F)
      → IsExact c
      → OutcomeIsExact (forward_messages fw now_ms ms c)
  unfolding forward_messages Option.bind
  forward_messages-Exact now_ms [] c h = h
  forward_messages-Exact now_ms (x ∷ xs) c h = elim (Option-cases (forward_message fw now_ms x c)) [
    | inl e ↦ rw (e, forward_messages) tt
    | inr (d, e) ↦
        rw (e, forward_messages)
          (forward_messages-Exact now_ms xs d
            (subst OutcomeIsExact e (forward_message-Exact now_ms x c h)))
  ]

  after_process-Exact :
      (now : Duration) (now_ms : ℤ) (c : Client F) (r : LineState × Result (List Bytes))
      → r.0.metrics.retry_queue_size ≡ c.metrics.retry_queue_size
      → IsExact c
      → RoundIsExact (after_process fw now now_ms c r)
  unfolding after_process
  after_process-Exact now now_ms c (s, err e) k h = k ∙ h
  after_process-Exact now now_ms c (s, ok ms) k h =
      forward_messages-Exact now_ms ms _
        (note_messages-gauge now ms s.metrics c.connection_monitor ∙ k ∙ h)

  check_stale-Exact :
      (now : Duration) (c : Client F) → IsExact c → RoundIsExact (check_stale fw now c)
  unfolding check_stale
  check_stale-Exact now c h = elim (Option-cases (is_stale now c.connection_monitor)) [
    | inl e ↦ rw (e, check_stale) h
    | inr (r, e) ↦ rw (e, check_stale) h
  ]

  housekeeping-Exact :
      (now : Duration) (c : Client F) → IsExact c → RoundIsExact (housekeeping fw now c)
  unfolding housekeeping
  housekeeping-Exact now c h =
      check_stale-Exact now _
        (if_intro IsExact c.config.test_mode c _ h (drain_slots-Exact [] c.slots c.metrics h))

  -- If the published gauge is the number of messages that wait in all retry queues together, it is so after
  -- a round, whether the loop goes on or returns an error.
  pub receive-Exact : (e : Event) (c : Client F) → IsExact c → RoundIsExact (receive fw e c)
  unfolding receive
  receive-Exact (shutdown_changed true) c h = h
  receive-Exact (shutdown_changed false) c h = h
  receive-Exact (read_ok [] now now_ms) c h = h
  receive-Exact (read_ok (b ∷ bs) now now_ms) c h =
      let s : LineState = record {
        line_buffer = c.line_buffer;
        metrics = add_bytes_received (length (b ∷ bs)) c.metrics;
      } in
      after_process-Exact now now_ms
        (record c { connection_monitor = record_tcp_activity now c.connection_monitor })
        (process_buffer c.config.max_line_buffer_size s (b ∷ bs))
        (process_buffer-gauge c.config.max_line_buffer_size s (b ∷ bs)) h
  receive-Exact (read_err kind) c h = h
  receive-Exact stats_tick c h = h
  receive-Exact (housekeeping_tick now) c h = housekeeping-Exact now c h
