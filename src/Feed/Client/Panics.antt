-- ===== src/Feed/Client/Panics.antt =====
-- When the receive loop of rust/adsb-pulsar-client/src/client.rs panics.
use adsb_feed.Prelude.{
  ℕ, ◌≤◌, ◌≡◌, ◌≢◌, ◌↔◌, inl, inr, refl, sym, ap, ◌∙◌, true, false, Option, none, some, List, [],
  ◌∷◌, ◌++◌, Bytes, length, ltb, ltb→lt, ◌==◌, arith, Bool-cases, Option-cases, ==_iff,
}
use mathlib.Core.Option
use adsb_feed.Prelude.Int.{ℤ}
use adsb_feed.Time.{Duration}
use adsb_feed.Feed.Error.{timed_out, socket}
use adsb_feed.Feed.Metrics.{Metrics, inc_messages_sent, add_bytes_received}
use adsb_feed.Feed.Lines.{LineState}
use adsb_feed.Feed.Lines.Split.{split, keep_all}
use adsb_feed.Feed.Lines.Stream.{process_buffer_lem}
use adsb_feed.Feed.Monitor.{ConnectionMonitor, is_stale, record_tcp_activity}
use adsb_feed.Feed.Slot.{Forwarder}
use adsb_feed.Feed.Client.{
  Client, Event, shutdown_changed, read_ok, read_err, stats_tick, housekeeping_tick, running,
  stopped, panicked, running_or_panicked, receive, after_process, check_stale, housekeeping,
  emit_tap, forward_test, forward_message, forward_messages, note_messages,
}
use adsb_feed.Feed.Client.Forwarding.{live_all, forward_messages-live}

module _ {F : Type 0} (fw : Forwarder F) where
  -- The settings under which a message brings the client down.
  abbrev pub Divides : Client F → Type 0
  Divides c = (c.config.test_mode ≡ true) × (c.config.log_sample_rate ≡ 0)

  -- In test mode with a rate above 0 every message goes through.
  counted : Bytes → Client F → Client F
  counted m c = record (emit_tap fw m c) { metrics = inc_messages_sent c.metrics }

  counted_step :
      (now_ms : ℤ) (m : Bytes) (c : Client F)
      → c.config.test_mode ≡ true
      → (c.config.log_sample_rate == 0) ≡ false
      → forward_message fw now_ms m c ≡ some (counted m c)
  unfolding forward_message forward_test emit_tap counted
  counted_step now_ms m c t r = rw t (rw r refl)

  broken_step :
      (now_ms : ℤ) (m : Bytes) (c : Client F)
      → c.config.test_mode ≡ true
      → (c.config.log_sample_rate == 0) ≡ true
      → forward_message fw now_ms m c ≡ none
  unfolding forward_message forward_test emit_tap
  broken_step now_ms m c t r = rw t (rw r refl)

  forward_messages-counted :
      (now_ms : ℤ) (ms : List Bytes) (c : Client F)
      → c.config.test_mode ≡ true
      → (c.config.log_sample_rate == 0) ≡ false
      → (c' : Client F) × (forward_messages fw now_ms ms c ≡ some c')
  unfolding forward_messages Option.bind counted emit_tap
  forward_messages-counted now_ms [] c t r = (c, refl)
  forward_messages-counted now_ms (m ∷ ms) c t r =
      rw (counted_step now_ms m c t r) (forward_messages-counted now_ms ms (counted m c) t r)

  -- Forwarding ends in a panic exactly with a message, in test mode, at rate 0.
  forward_messages-panics :
      (now_ms : ℤ) (ms : List Bytes) (c : Client F)
      → (forward_messages fw now_ms ms c ≡ none) ↔ ((ms ≢ []) × Divides c)
  unfolding forward_messages Option.bind
  forward_messages-panics now_ms [] c = (λ h. cc, λ h. absurd (h.0 refl))
  forward_messages-panics now_ms (m ∷ ms) c = elim (Bool-cases c.config.test_mode) [
    | inr live ↦
        let e = forward_messages-live fw now_ms (m ∷ ms) c live in
        (λ h. let no : none ≡ some (live_all fw now_ms (m ∷ ms) c) = sym h ∙ e in cc, λ h. cc)
    | inl test ↦ elim (Bool-cases (c.config.log_sample_rate == 0)) [
      | inl zero ↦ (
        λ h. (λ q. cc, (test, (==_iff _ _).0 zero)),
        λ h. rw (broken_step now_ms m c test zero) refl,
      )
      | inr more ↦
          let (c', e) = forward_messages-counted now_ms (m ∷ ms) c test more in
          (
            λ h. let no : none ≡ some c' = sym h ∙ e in cc,
            λ h. let no : true ≡ false = sym ((==_iff _ _).1 h.1.1) ∙ more in cc,
          )
    ]
  ]

  -- A round that panics: a read that finds room and completes a line that is not blank, in test mode, with
  -- a rate of 0.
  abbrev pub Panics : Event → Client F → Type 0
  Panics (read_ok (b ∷ bs) now now_ms) c =
      (length (c.line_buffer ++ b ∷ bs) ≤ c.config.max_line_buffer_size)
      × ((keep_all (split (c.line_buffer ++ b ∷ bs)).0 ≢ []) × Divides c)
  Panics _ c = ⊥

  running_or_panicked_iff :
      (o : Option (Client F)) → (running_or_panicked fw o ≡ panicked) ↔ (o ≡ none)
  running_or_panicked_iff none = (λ h. refl, λ h. refl)
  running_or_panicked_iff (some c) = (λ h. cc, λ h. cc)

  check_stale-never : (now : Duration) (c : Client F) → check_stale fw now c ≢ panicked
  unfolding check_stale
  check_stale-never now c h = elim (Option-cases (is_stale now c.connection_monitor)) [
    | inl e ↦ let no : running c ≡ panicked = sym (rw (e, check_stale) refl) ∙ h in cc
    | inr (r, e) ↦
        let no : stopped c (socket timed_out) ≡ panicked = sym (rw (e, check_stale) refl) ∙ h in cc
  ]

  receive_bytes-Panics :
      (b : ℕ) (bs : Bytes) (now : Duration) (now_ms : ℤ) (c : Client F)
      → (receive fw (read_ok (b ∷ bs) now now_ms) c ≡ panicked)
        ↔ Panics (read_ok (b ∷ bs) now now_ms) c
  unfolding receive after_process
  receive_bytes-Panics b bs now now_ms c =
      elim (Bool-cases (ltb c.config.max_line_buffer_size (length text))) [
        | inl over ↦
            let e =
              ap (after_process fw now now_ms c0) (
                (process_buffer_lem c.config.max_line_buffer_size s (b ∷ bs)).0
                  (ltb→lt _ _ over)) in
            (λ h. let no = sym e ∙ h in cc, λ h. absurd (omega (arith, h.0, ltb→lt _ _ over)))
        | inr room ↦
            let fits : length text ≤ c.config.max_line_buffer_size = ground arith in
            let e =
              ap (after_process fw now now_ms c0)
                ((process_buffer_lem c.config.max_line_buffer_size s (b ∷ bs)).1 fits) in
            let f = forward_messages-panics now_ms (keep_all (split text).0) d in
            let r =
              running_or_panicked_iff (forward_messages fw now_ms (keep_all (split text).0) d) in
            (λ h. (fits, f.0 (r.0 (sym e ∙ h))), λ h. e ∙ r.1 (f.1 h.1))
      ]
    where
      text : Bytes
      text = c.line_buffer ++ b ∷ bs

      s : LineState
      s = record {
        line_buffer = c.line_buffer;
        metrics = add_bytes_received (length (b ∷ bs)) c.metrics;
      }

      c0 : Client F
      c0 = record c { connection_monitor = record_tcp_activity now c.connection_monitor }

      noted : Metrics × ConnectionMonitor
      noted = note_messages now (keep_all (split text).0) (s.metrics, c0.connection_monitor)

      d : Client F
      d = record c { line_buffer = (split text).1; metrics = noted.0; connection_monitor = noted.1 }

  -- A round of the receive loop panics exactly when it is a read of at least one byte that fits the line
  -- buffer, the buffered text and the read together hold a complete line that is not blank, and the client
  -- is in test mode with a log sample rate of 0. No other event does, for any backends.
  pub receive-Panics : (e : Event) (c : Client F) → (receive fw e c ≡ panicked) ↔ Panics e c
  unfolding receive housekeeping
  receive-Panics (shutdown_changed true) c = (λ h. cc, λ h. elim h [ ])
  receive-Panics (shutdown_changed false) c = (λ h. cc, λ h. elim h [ ])
  receive-Panics (read_ok [] now now_ms) c = (λ h. cc, λ h. elim h [ ])
  receive-Panics (read_ok (b ∷ bs) now now_ms) c = receive_bytes-Panics b bs now now_ms c
  receive-Panics (read_err kind) c = (λ h. cc, λ h. elim h [ ])
  receive-Panics stats_tick c = (λ h. cc, λ h. elim h [ ])
  receive-Panics (housekeeping_tick now) c = (λ h. check_stale-never now _ h, λ h. elim h [ ])
