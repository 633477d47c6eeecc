-- ===== src/Feed/Client/Receiving.antt =====
-- One read of the receive loop of rust/adsb-pulsar-client/src/client.rs, from the socket's bytes to the
-- forwarders.
use adsb_feed.Prelude.{
  ℕ, ◌+◌, ◌%◌, ◌≤◌, ◌<◌, ◌≡◌, ap, ◌∙◌, false, List, [], ◌∷◌, ◌++◌, Bytes, length, arith,
}
use mathlib.Core.Option
use adsb_feed.Prelude.Int.{ℤ}
use adsb_feed.Time.{Duration, u64_mod}
use adsb_feed.Feed.Metrics.{Metrics, add_bytes_received}
use adsb_feed.Feed.Lines.{LineState}
use adsb_feed.Feed.Lines.Split.{split, keep_all}
use adsb_feed.Feed.Lines.Stream.{process_buffer_lem}
use adsb_feed.Feed.Monitor.{ConnectionMonitor, record_tcp_activity}
use adsb_feed.Feed.Slot.{Forwarder}
use adsb_feed.Feed.Client.{
  Client, read_ok, running, receive, after_process, note_messages, note_message,
  running_or_panicked,
}
use adsb_feed.Feed.Client.Forwarding.{
  offer_all, live_all, Forwarded, live_all-Forwarded, forward_messages-live,
}

note_messages-received :
    (now : Duration) (ms : List Bytes) (m : Metrics) (c : ConnectionMonitor)
    → m.messages_received < u64_mod
    → (note_messages now ms (m, c)).0.messages_received
      ≡ (m.messages_received + length ms) % u64_mod
unfolding note_messages note_message
note_messages-received now [] m c h = omega arith
note_messages-received now (x ∷ xs) m c h =
    let p = note_message now x (m, c) in
    omega (arith, note_messages-received now xs p.0 p.1 (omega arith))

module _ {F : Type 0} (fw : Forwarder F) where
  -- What a read that finds room leaves of the client: every complete line that is not blank is counted,
  -- sent to the tap and offered to every slot, in order; the unfinished line is buffered.
  pub record Received (text : Bytes) (c c' : Client F) : Type 0 where
    pub counted :
        c'.metrics.messages_received
        ≡ (c.metrics.messages_received + length (keep_all (split text).0)) % u64_mod
    pub tapped : c'.message_tx ≡ Option.map (λ sent. sent ++ keep_all (split text).0) c.message_tx
    pub offered :
        c'.slots ≡ offer_all fw c.config.max_retry_queue_size (keep_all (split text).0) c.slots
    pub buffered : c'.line_buffer ≡ (split text).1

  -- Outside test mode a read of at least one byte that fits the line buffer is delivered, and the loop
  -- goes on: of the buffered text and the read, every complete line that is not blank is counted (modulo
  -- 64 bits, from a count that fits them), sent to the tap and offered to every forwarder, in order, and
  -- the unfinished line is buffered.
  pub receive-Received :
      (b : ℕ) (bs : Bytes) (now : Duration) (now_ms : ℤ) (c : Client F)
      → c.config.test_mode ≡ false
      → c.metrics.messages_received < u64_mod
      → length (c.line_buffer ++ b ∷ bs) ≤ c.config.max_line_buffer_size
      → (c' : Client F) × (receive fw (read_ok (b ∷ bs) now now_ms) c ≡ running c')
        × Received (c.line_buffer ++ b ∷ bs) c c'
  unfolding receive after_process
  receive-Received b bs now now_ms c live small room = (
    live_all fw now_ms ms d,
    ap (after_process fw now now_ms c0)
          ((process_buffer_lem c.config.max_line_buffer_size s (b ∷ bs)).1 room)
        ∙ ap (running_or_panicked fw) (forward_messages-live fw now_ms ms d live),
    record {
      counted = f.received_kept ∙ note_messages-received now ms m monitor small;
      tapped = f.tapped;
      offered = f.offered;
      buffered = f.buffer_kept;
    },
  )
    where
      text : Bytes
      text = c.line_buffer ++ b ∷ bs

      ms : List Bytes
      ms = keep_all (split text).0

      m : Metrics
      m = add_bytes_received (length (b ∷ bs)) c.metrics

      monitor : ConnectionMonitor
      monitor = record_tcp_activity now c.connection_monitor

      d : Client F
      d = record c {
        line_buffer = (split text).1;
        metrics = (note_messages now ms (m, monitor)).0;
        connection_monitor = (note_messages now ms (m, monitor)).1;
      }

      f : Forwarded fw ms d (live_all fw now_ms ms d)
      f = live_all-Forwarded fw now_ms ms d

      c0 : Client F
      c0 = record c { connection_monitor = monitor }

      s : LineState
      s = record { line_buffer = c.line_buffer; metrics = m }
