-- ===== src/Examples/Feed.antt =====
-- The feed client's theorems at concrete inputs.
use adsb_feed.Prelude.{
  ◌+◌, ◌-◌, ◌*◌, ◌%◌, ◌^◌, ◌≤◌, ◌≡◌, ◌⊎◌, ◌↔◌, refl, min, Bool, true, false, some, List, [], ◌∷◌,
  ◌++◌, Bytes, length, ltb, if◌then◌else◌, arith,
}
use adsb_feed.Prelude.Int.{pos}
use adsb_feed.Time.{from_secs, from_millis, u64_mod}
use adsb_feed.Backoff.{delay}
use adsb_feed.Backoff.Delay.{delay-eq-doubling}
use adsb_feed.Feed.Error.{timed_out, ok, err, buffer_overflow}
use adsb_feed.Feed.Metrics.{inc_errors}
use adsb_feed.Feed.Lines.{LineState, process_buffer}
use adsb_feed.Feed.Lines.Split.{split, keep_all}
use adsb_feed.Feed.Lines.Stream.{process_buffer-eq-split, process_all, process_all-eq-split, concat}
use adsb_feed.Feed.Monitor.{is_stale}
use adsb_feed.Feed.Monitor.Staleness.{
  bytes_read, line_read, observe_all, last_line, stale_after, is_stale-last_line,
}
use adsb_feed.Feed.Slot.{drain_loop, total}
use adsb_feed.Feed.Slot.Queue.{enqueue_all, newest, enqueue_all-newest}
use adsb_feed.Feed.Slot.Drain.{drain_loop_lem, drain_loop_stops}
use adsb_feed.Feed.Client.{
  Client, Event, receive, read_ok, read_err, running, panicked, stats_tick, housekeeping_tick,
}
use adsb_feed.Feed.Client.Panics.{Panics, receive-Panics}
use adsb_feed.Feed.Client.Quiet.{EndsStale, server_turn-stale}
use adsb_feed.Feed.Client.Receiving.{Received, receive-Received}
use adsb_feed.Feed.Client.Gauge.{RoundIsExact, receive-Exact}
use adsb_feed.Examples.Data.{backend, hello, two_lines, monitor, metrics, client}

abbrev line_state : LineState
line_state = record { line_buffer = hello; metrics = metrics }

delay-eq-doubling_example :
    delay (record { base = from_millis 100; max = from_secs 30 }) 5
    ≡ min (from_millis (100 * 2 ^ 5)) (from_secs 30)
delay-eq-doubling_example =
    delay-eq-doubling 100 (from_secs 30) 5 (omega arith) (omega arith) (omega arith)

process_buffer-eq-split_example : process_buffer 64 line_state two_lines ≡ (
    if ltb 64 7
    then (
      record line_state { line_buffer = []; metrics = inc_errors metrics },
      err (buffer_overflow 0 64),
    )
    else (
      record line_state { line_buffer = (split (hello ++ two_lines)).1 },
      ok (keep_all (split (hello ++ two_lines)).0),
    ))
process_buffer-eq-split_example = process_buffer-eq-split 64 line_state two_lines

process_all-eq-split_example : process_all 64 line_state (two_lines ∷ two_lines ∷ []) ≡ (
  record line_state { line_buffer = (split (hello ++ concat (two_lines ∷ two_lines ∷ []))).1 },
  ok (keep_all (split (hello ++ concat (two_lines ∷ two_lines ∷ []))).0),
)
unfolding split
process_all-eq-split_example =
    process_all-eq-split 64 line_state (two_lines ∷ two_lines ∷ []) (omega arith, (omega arith, tt))
      refl

is_stale-last_line_example :
    is_stale (from_secs 100) (observe_all ((1, line_read hello) ∷ (2, bytes_read) ∷ []) monitor)
    ≡ stale_after
        (some (from_secs 90))
        (from_secs 100 - last_line 0 ((1, line_read hello) ∷ (2, bytes_read) ∷ []))
is_stale-last_line_example =
    is_stale-last_line 0 (from_secs 100) ((1, line_read hello) ∷ (2, bytes_read) ∷ []) monitor
      (omega arith) (omega arith, (omega arith, tt))

enqueue_all-newest_example :
    enqueue_all 2 (newest 2 []) (hello ∷ two_lines ∷ hello ∷ [])
    ≡ newest 2 ([] ++ (hello ∷ two_lines ∷ hello ∷ []))
enqueue_all-newest_example = enqueue_all-newest 2 [] (hello ∷ two_lines ∷ hello ∷ []) (omega arith)

drain_loop_lem_example :
    let d = drain_loop backend 1 true (hello ∷ two_lines ∷ []) metrics in
    (d.sent ++ d.queue ≡ hello ∷ two_lines ∷ [])
    × (length d.sent ≤ 1)
    × (d.metrics.bytes_sent ≡ (0 + total length d.sent) % u64_mod)
drain_loop_lem_example =
    drain_loop_lem backend 1 true (hello ∷ two_lines ∷ []) metrics (omega arith)

drain_loop_stops_example :
    let d = drain_loop backend 3 false (hello ∷ two_lines ∷ []) metrics in
    (length d.sent ≡ 3)
    ⊎ (d.queue ≡ [])
    ⊎ ((g : Bool) × (x : Bytes) × (rest : List Bytes) × (d.queue ≡ x ∷ rest)
        × ((backend.send g x).1 ≡ false)
        × (d.forwarder ≡ (backend.send g x).0))
drain_loop_stops_example = drain_loop_stops backend 3 false (hello ∷ two_lines ∷ []) metrics

-- In test mode, with the sample rate of 0 that `client` has.
abbrev test_client : Client Bool
test_client = record client { config = record client.config { test_mode = true } }

receive-Panics_example :
    (receive backend (read_ok two_lines 7 (pos 5)) test_client ≡ panicked)
    ↔ Panics backend (read_ok two_lines 7 (pos 5)) test_client
receive-Panics_example = receive-Panics backend (read_ok two_lines 7 (pos 5)) test_client

receive-Received_example :
    (c' : Client Bool) × (receive backend (read_ok two_lines 7 (pos 5)) client ≡ running c')
    × Received backend (hello ++ two_lines) client c'
receive-Received_example =
    receive-Received backend b'a' (b'\n' ∷ b'b' ∷ b'\n' ∷ b'c' ∷ []) 7 (pos 5) client refl
      (omega arith) (omega arith)

receive-Exact_example : RoundIsExact backend (receive backend (housekeeping_tick 7) client)
receive-Exact_example = receive-Exact backend (housekeeping_tick 7) client refl

-- Half a line and a tick before the housekeeping.
abbrev half_line : List Event
half_line = read_ok hello 7 (pos 5) ∷ stats_tick ∷ []

server_turn-stale_example :
    EndsStale backend
      (half_line ++ housekeeping_tick (from_secs 200) ∷ read_err timed_out ∷ [])
      client
server_turn-stale_example =
    server_turn-stale backend (from_secs 200) (from_secs 90) half_line (read_err timed_out ∷ [])
      client (omega arith, (omega arith, tt)) ((omega arith, (omega arith, tt)), omega arith, tt)
      refl (omega arith)
