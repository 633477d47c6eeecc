-- ===== src/Feed/Client/Quiet.antt =====
-- Connections of rust/adsb-pulsar-client/src/client.rs that bring no line, in server mode.
use adsb_feed.Prelude.{
  ℕ, ◌+◌, ◌-◌, ◌≤◌, ◌≡◌, ◌≢◌, refl, sym, ap, ◌∙◌, true, false, some, List, [], ◌∷◌, ◌++◌, Bytes,
  length, length-append, All, All-append, if◌then◌else◌, if_intro, arith, max, subst, ==_iff,
  Bool-cases, inl, inr, ◌==◌,
}
use adsb_feed.Prelude.Int.{ℤ}
use adsb_feed.Time.{Duration}
use adsb_feed.Feed.Error.{timed_out, socket}
use adsb_feed.Feed.Metrics.{add_bytes_received}
use adsb_feed.Feed.Lines.{newline, LineState}
use adsb_feed.Feed.Lines.Split.{split, keep_all}
use adsb_feed.Feed.Lines.Stream.{process_buffer_lem}
use adsb_feed.Feed.Monitor.{
  ConnectionMonitor, StaleReason, heartbeat_timeout, is_stale, record_tcp_activity,
}
use adsb_feed.Feed.Slot.{Forwarder}
use adsb_feed.Feed.Client.{
  Client, Event, shutdown_changed, read_ok, read_err, stats_tick, housekeeping_tick, Round, running,
  stopped, panicked, receive, after_process, check_stale, housekeeping, drain_slots, note_messages,
  forward_messages,
}
use adsb_feed.Feed.Client.Modes.{reconnect, serve, after_server, server_turn}

abbrev pub NoNewline : Bytes → Type 0
NoNewline bs = All (λ b. b ≢ newline) bs

-- Events that bring no complete line, for a buffer that holds `n` bytes: reads without a newline that
-- find room, ticks of the statistics, and a change of the shutdown flag to false.
abbrev pub Quiet : ℕ → ℕ → List Event → Type 0
Quiet limit n [] = Unit
Quiet limit n (shutdown_changed true ∷ es) = ⊥
Quiet limit n (shutdown_changed false ∷ es) = Quiet limit n es
Quiet limit n (read_ok [] now now_ms ∷ es) = ⊥
Quiet limit n (read_ok (b ∷ bs) now now_ms ∷ es) =
    NoNewline (b ∷ bs) × (n + length (b ∷ bs) ≤ limit) × Quiet limit (n + length (b ∷ bs)) es
Quiet limit n (read_err kind ∷ es) = ⊥
Quiet limit n (stats_tick ∷ es) = Quiet limit n es
Quiet limit n (housekeeping_tick now ∷ es) = ⊥

split-NoNewline : (bs : Bytes) → NoNewline bs → split bs ≡ ([], bs)
unfolding split
split-NoNewline [] h = refl
split-NoNewline (b ∷ bs) h = elim (Bool-cases (b == newline)) [
  | inl e ↦ absurd (h.0 ((==_iff b newline).0 e))
  | inr e ↦ rw e (rw (split-NoNewline bs h.1) refl)
]

-- The monitor but for the time of the last read.
abbrev pub AtTcp : Duration → ConnectionMonitor → ConnectionMonitor
AtTcp t m = record m { last_tcp_activity = t }

module _ {F : Type 0} (fw : Forwarder F) where
  -- A read without a newline that finds room: its bytes are buffered, and the loop goes on.
  abbrev buffered : Bytes → Duration → Client F → Client F
  buffered chunk now c = record c {
    line_buffer = c.line_buffer ++ chunk;
    metrics = add_bytes_received (length chunk) c.metrics;
    connection_monitor = record_tcp_activity now c.connection_monitor;
  }

  receive-buffered :
      (b : ℕ) (bs : Bytes) (now : Duration) (now_ms : ℤ) (c : Client F)
      → NoNewline (c.line_buffer ++ b ∷ bs)
      → length (c.line_buffer ++ b ∷ bs) ≤ c.config.max_line_buffer_size
      → receive fw (read_ok (b ∷ bs) now now_ms) c ≡ running (buffered (b ∷ bs) now c)
  unfolding receive after_process note_messages forward_messages keep_all
  receive-buffered b bs now now_ms c h room =
      let monitor = record_tcp_activity now c.connection_monitor in
      let s : LineState = record {
        line_buffer = c.line_buffer;
        metrics = add_bytes_received (length (b ∷ bs)) c.metrics;
      } in
      ap (after_process fw now now_ms (record c { connection_monitor = monitor }))
        ((process_buffer_lem c.config.max_line_buffer_size s (b ∷ bs)).1 room)
      ∙ rw (split-NoNewline (c.line_buffer ++ b ∷ bs) h) refl

  is_stale-quiet :
      (now timeout : Duration) (m : ConnectionMonitor)
      → m.heartbeat_timeout ≡ some timeout
      → timeout ≤ now - max m.last_heartbeat m.last_data_message
      → is_stale now m ≡ some (heartbeat_timeout (now - max m.last_heartbeat m.last_data_message))
  unfolding is_stale
  is_stale-quiet now timeout m on quiet = ground arith

  check_stale-stops :
      (now : Duration) (r : StaleReason) (d : Client F)
      → is_stale now d.connection_monitor ≡ some r
      → check_stale fw now d ≡ stopped d (socket timed_out)
  unfolding check_stale
  check_stale-stops now r d e = rw (e, check_stale) refl

  -- The client of a housekeeping round when its staleness is checked.
  abbrev drained : Client F → Client F
  drained c =
      let (slots, m) = drain_slots fw [] c.slots c.metrics in
      if c.config.test_mode then c else record c { slots = slots; metrics = m }

  drained-monitor : (c : Client F) → (drained c).connection_monitor ≡ c.connection_monitor
  drained-monitor c =
      let (slots, m) = drain_slots fw [] c.slots c.metrics in
      if_intro (λ (d : Client F). d.connection_monitor ≡ c.connection_monitor) c.config.test_mode c
        (record c { slots = slots; metrics = m }) refl refl

  -- The connection is ended with an empty line buffer, and the monitor kept but for the last read.
  abbrev pub EndsStale : List Event → Client F → Type 0
  EndsStale events c =
      (c' : Client F) × (server_turn fw events c ≡ reconnect c')
      × (c'.line_buffer ≡ [])
      × (c'.connection_monitor ≡ AtTcp c'.connection_monitor.last_tcp_activity c.connection_monitor)

  -- What the loop makes of a round, and then of the events behind it.
  abbrev go_on : List Event → Round F → Round F
  go_on events r = elim r [
    | running c' ↦ serve fw events c'
    | stopped c' x ↦ stopped c' x
    | panicked ↦ panicked
  ]

  housekeeping-EndsStale :
      (now timeout : Duration) (after : List Event) (c : Client F)
      → c.connection_monitor.heartbeat_timeout ≡ some timeout
      → timeout
        ≤ now - max c.connection_monitor.last_heartbeat c.connection_monitor.last_data_message
      → EndsStale (housekeeping_tick now ∷ after) c
  unfolding server_turn serve after_server receive housekeeping
  housekeeping-EndsStale now timeout after c on quiet =
      let kept = drained-monitor c in
      let stale =
        ap (is_stale now) kept ∙ is_stale-quiet now timeout c.connection_monitor on quiet in
      let ends = check_stale-stops now _ (drained c) stale in
      (
        record (drained c) { line_buffer = [] },
        ap (λ r. after_server fw (go_on after r)) ends,
        refl,
        kept
            ∙ sym (
                ap (λ (m : ConnectionMonitor). AtTcp m.last_tcp_activity c.connection_monitor)
                  kept),
      )

  -- A read without a newline goes before.
  buffered-EndsStale :
      (b : ℕ) (bs : Bytes) (now : Duration) (now_ms : ℤ) (es : List Event) (c : Client F)
      → NoNewline (c.line_buffer ++ b ∷ bs)
      → length (c.line_buffer ++ b ∷ bs) ≤ c.config.max_line_buffer_size
      → EndsStale es (buffered (b ∷ bs) now c)
      → EndsStale (read_ok (b ∷ bs) now now_ms ∷ es) c
  unfolding server_turn serve record_tcp_activity
  buffered-EndsStale b bs now now_ms es c h room (c', ends, empty, kept) = (
    c',
    ap (λ r. after_server fw (go_on es r)) (receive-buffered b bs now now_ms c h room) ∙ ends,
    empty,
    kept,
  )

  -- Server mode keeps the monitor of the connection before: when that has been quiet for its timeout, a
  -- connection that brings no complete line before its first housekeeping (reads without a newline that
  -- find room, ticks of the statistics) is ended by it. The line buffer is then empty and the monitor as it
  -- was, but for the time of the last read, so that the same holds of the next connection.
  pub server_turn-stale :
      (now timeout : Duration) (before after : List Event) (c : Client F)
      → NoNewline c.line_buffer
      → Quiet c.config.max_line_buffer_size (length c.line_buffer) before
      → c.connection_monitor.heartbeat_timeout ≡ some timeout
      → timeout
        ≤ now - max c.connection_monitor.last_heartbeat c.connection_monitor.last_data_message
      → EndsStale (before ++ housekeeping_tick now ∷ after) c
  unfolding server_turn serve receive record_tcp_activity
  server_turn-stale now timeout [] after c clean calm on quiet =
      housekeeping-EndsStale now timeout after c on quiet
  server_turn-stale now timeout (shutdown_changed true ∷ es) after c clean calm on quiet =
      elim calm [ ]
  server_turn-stale now timeout (shutdown_changed false ∷ es) after c clean calm on quiet =
      server_turn-stale now timeout es after c clean calm on quiet
  server_turn-stale now timeout (read_ok [] at now_ms ∷ es) after c clean calm on quiet =
      elim calm [ ]
  server_turn-stale now timeout (read_ok (b ∷ bs) at now_ms ∷ es) after c clean calm on quiet =
      let n = length-append c.line_buffer (b ∷ bs) in
      let text = All-append (λ x. x ≢ newline) c.line_buffer (b ∷ bs) clean calm.0 in
      let limit = c.config.max_line_buffer_size in
      buffered-EndsStale b bs at now_ms (es ++ housekeeping_tick now ∷ after) c text
        (omega (arith, n, calm.1))
        (server_turn-stale now timeout es after (buffered (b ∷ bs) at c) text
          (subst (λ k. Quiet limit k es) (sym n) calm.2) on quiet)
  server_turn-stale now timeout (read_err kind ∷ es) after c clean calm on quiet = elim calm [ ]
  server_turn-stale now timeout (stats_tick ∷ es) after c clean calm on quiet =
      server_turn-stale now timeout es after c clean calm on quiet
  server_turn-stale now timeout (housekeeping_tick at ∷ es) after c clean calm on quiet =
      elim calm [ ]
