-- ===== src/Feed/Client/Modes.antt =====
-- The reconnect loops of rust/adsb-pulsar-client/src/client.rs (`run_client_mode`, `run_server_mode`)
-- around the receive loop. A connection is the list of what its `select!` chooses.
use adsb_feed.Prelude.{
  ℕ, ◌-◌, ◌<◌, ◌≡◌, refl, sym, ◌⊎◌, inl, inr, true, false, Option, none, some, List, [], ◌∷◌, Bytes,
  if◌then◌else◌, if_intro, arith, Option-cases, ltb, length, ◌++◌, subst,
}
use adsb_feed.Prelude.Int.{ℤ}
use adsb_feed.Time.{Duration}
use adsb_feed.Feed.Error.{
  ClientError, socket, shutdown, pulsar, forwarder, config, retry_queue_full, other,
  buffer_overflow, is_recoverable, Result, ok, err,
}
use adsb_feed.Feed.Metrics.{inc_reconnection_attempts}
use adsb_feed.Feed.Lines.{LineState, process_buffer}
use adsb_feed.Feed.Lines.Stream.{process_buffer-eq-split}
use adsb_feed.Feed.Monitor.{is_stale, reset}
use adsb_feed.Feed.Slot.{Forwarder}
use adsb_feed.Feed.Client.{
  Client, Event, shutdown_changed, read_ok, read_err, stats_tick, housekeeping_tick, Round, running,
  stopped, panicked, receive, after_process, check_stale, running_or_panicked,
}

-- How the client goes on after a connection.
pub data Turn (F : Type 0) : Type 0 where
  connected : Client F → Turn F
  reconnect : Client F → Turn F
  finished : Client F → Turn F
  returned : Client F → ClientError → Turn F
  crashed : Turn F

abbrev Recoverable : Result (List Bytes) → Type 0
Recoverable (ok ms) = Unit
Recoverable (err e) = is_recoverable e ≡ true

process_buffer-Recoverable :
    (limit : ℕ) (s : LineState) (chunk : Bytes) → Recoverable (process_buffer limit s chunk).1
unfolding is_recoverable
process_buffer-Recoverable limit s chunk =
    subst P (sym (process_buffer-eq-split limit s chunk))
      (if_intro P (ltb limit (length (s.line_buffer ++ chunk))) _ _ refl tt)
  where
    P : LineState × Result (List Bytes) → Type 0
    P r = Recoverable r.1

module _ {F : Type 0} (fw : Forwarder F) where
  -- `receive_and_forward`, until it returns.
  unfoldable pub serve : List Event → Client F → Round F
  serve [] c = running c
  serve (e ∷ es) c = elim (receive fw e c) [
    | running c' ↦ serve es c'
    | stopped c' x ↦ stopped c' x
    | panicked ↦ panicked
  ]

  -- What client mode does before it connects.
  unfoldable pub begin_attempt : Duration → Client F → Client F
  begin_attempt now c = record c {
    metrics = inc_reconnection_attempts c.metrics;
    connection_monitor = reset now c.connection_monitor;
  }

  -- Client mode after the connection: only an error that is not recoverable is returned.
  unfoldable pub after_client : Round F → Turn F
  after_client (running c) = connected c
  after_client panicked = crashed
  after_client (stopped c e) =
      let c' = record c { line_buffer = [] } in
      let next = if is_recoverable e then reconnect c' else returned c' e in
      elim e [ shutdown ↦ finished c | _ ↦ next ]

  -- Server mode after the connection.
  unfoldable pub after_server : Round F → Turn F
  after_server (running c) = connected c
  after_server panicked = crashed
  after_server (stopped c e) = elim e [
    | shutdown ↦ finished c
    | _ ↦ reconnect (record c { line_buffer = [] })
  ]

  -- One connection of client mode, and of server mode.
  unfoldable pub client_turn : Duration → List Event → Client F → Turn F
  unfolding serve begin_attempt after_client
  client_turn now events c = after_client (serve events (begin_attempt now c))

  unfoldable pub server_turn : List Event → Client F → Turn F
  unfolding serve after_server
  server_turn events c = after_server (serve events c)

  -- What can end a connection: a shutdown, the socket, or a line that is too long.
  abbrev Ending : Round F → Type 0
  Ending (running c) = Unit
  Ending panicked = Unit
  Ending (stopped c e) = (e ≡ shutdown) ⊎ (is_recoverable e ≡ true)

  outcome-Ending : (o : Option (Client F)) → Ending (running_or_panicked fw o)
  outcome-Ending none = tt
  outcome-Ending (some c) = tt

  after_process-Ending :
      (now : Duration) (now_ms : ℤ) (c : Client F) (r : LineState × Result (List Bytes))
      → Recoverable r.1
      → Ending (after_process fw now now_ms c r)
  unfolding after_process
  after_process-Ending now now_ms c (s, err e) h = inr h
  after_process-Ending now now_ms c (s, ok ms) h = outcome-Ending _

  check_stale-Ending : (now : Duration) (c : Client F) → Ending (check_stale fw now c)
  unfolding check_stale is_recoverable
  check_stale-Ending now c = elim (Option-cases (is_stale now c.connection_monitor)) [
    | inl e ↦ rw (e, check_stale) tt
    | inr (r, e) ↦ rw (e, check_stale) (inr refl)
  ]

  receive-Ending : (e : Event) (c : Client F) → Ending (receive fw e c)
  unfolding receive is_recoverable
  receive-Ending (shutdown_changed true) c = inl refl
  receive-Ending (shutdown_changed false) c = tt
  receive-Ending (read_ok [] now now_ms) c = inr refl
  receive-Ending (read_ok (b ∷ bs) now now_ms) c =
      after_process-Ending now now_ms _ _ (process_buffer-Recoverable _ _ _)
  receive-Ending (read_err kind) c = inr refl
  receive-Ending stats_tick c = tt
  receive-Ending (housekeeping_tick now) c = check_stale-Ending now _

  serve-Ending : (es : List Event) (c : Client F) → Ending (serve es c)
  unfolding serve
  serve-Ending [] c = tt
  serve-Ending (e ∷ es) c = by_round (receive fw e c) (receive-Ending e c) (serve-Ending es)
    where
      by_round :
          (r : Round F)
          → Ending r
          → ((c' : Client F) → Ending (serve es c'))
          → Ending (elim r [
            | running c' ↦ serve es c'
            | stopped c' x ↦ stopped c' x
            | panicked ↦ panicked
          ])
      by_round (running c') h k = k c'
      by_round (stopped c' x) h k = h
      by_round panicked h k = tt

  -- The client did not give up with an error.
  abbrev pub NeverReturns : Turn F → Type 0
  NeverReturns (connected c) = Unit
  NeverReturns (reconnect c) = c.line_buffer ≡ []
  NeverReturns (finished c) = Unit
  NeverReturns (returned c e) = ⊥
  NeverReturns crashed = Unit

  after_client-NeverReturns : (r : Round F) → Ending r → NeverReturns (after_client r)
  unfolding after_client is_recoverable
  after_client-NeverReturns (running c) h = tt
  after_client-NeverReturns panicked h = tt
  after_client-NeverReturns (stopped c shutdown) h = tt
  after_client-NeverReturns (stopped c (socket k)) h = refl
  after_client-NeverReturns (stopped c pulsar) h = refl
  after_client-NeverReturns (stopped c (forwarder t)) h = refl
  after_client-NeverReturns (stopped c (buffer_overflow n l)) h = refl
  after_client-NeverReturns (stopped c (config t)) h = elim h [ inl q ↦ cc | inr q ↦ cc ]
  after_client-NeverReturns (stopped c (retry_queue_full n)) h = elim h [ inl q ↦ cc | inr q ↦ cc ]
  after_client-NeverReturns (stopped c (other t)) h = elim h [ inl q ↦ cc | inr q ↦ cc ]

  -- No error of a connection ends client mode: it goes on connected, stops at a shutdown, or reconnects
  -- with an empty line buffer (or the process has crashed).
  pub client_turn-NeverReturns :
      (now : Duration) (events : List Event) (c : Client F)
      → NeverReturns (client_turn now events c)
  unfolding client_turn
  client_turn-NeverReturns now events c =
      after_client-NeverReturns _ (serve-Ending events (begin_attempt now c))

  -- Client mode resets the monitor: a connection is not stale before the timeout has passed since it was
  -- begun.
  pub begin_attempt-fresh :
      (began now timeout : Duration) (c : Client F)
      → c.connection_monitor.heartbeat_timeout ≡ some timeout
      → now - began < timeout
      → is_stale now (begin_attempt began c).connection_monitor ≡ none
  unfolding begin_attempt reset is_stale
  begin_attempt-fresh began now timeout c on early = ground arith
