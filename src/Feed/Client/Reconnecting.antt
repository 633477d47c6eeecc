-- ===== src/Feed/Client/Reconnecting.antt =====
-- rust/adsb-pulsar-client/src/client.rs: `run_client_mode` with its pauses, and `connect_socket`. What
-- the network and the user do is the argument: a `Session` says it of one round of the loop. The
-- result is the pauses slept, in order, and how the loop ended.
pub mod Pausing
use adsb_feed.Prelude.{
  ℕ, ◌*◌, ◌+◌, min, Bool, true, false, Option, none, some, List, [], ◌∷◌, leb, if◌then◌else◌,
}
use adsb_feed.Time.{Duration, from_secs, u64_max}
use adsb_feed.Feed.Error.{ClientError, Result, ok, err, is_recoverable}
use adsb_feed.Feed.Slot.{Forwarder}
use adsb_feed.Feed.Client.{Client, Event}
use adsb_feed.Feed.Client.Modes.{
  Turn, connected, reconnect, finished, returned, crashed, begin_attempt, client_turn,
}

-- `Duration::MAX`.
abbrev pub duration_max : Duration
duration_max = u64_max * 1000000000 + 999999999

-- `retry_delay * 2` panics on overflow.
unfoldable pub double : Duration → Option Duration
double d = if leb (d * 2) duration_max then some (d * 2) else none

-- The settings of `Config`.
pub record Pauses : Type 0 where
  pub initial_retry_delay_secs : ℕ
  pub max_retry_delay_secs : ℕ

unfoldable pub initial_retry_delay : Pauses → Duration
initial_retry_delay p = from_secs p.initial_retry_delay_secs

unfoldable pub max_retry_delay : Pauses → Duration
max_retry_delay p = from_secs p.max_retry_delay_secs

-- What `tokio::time::timeout` of `TcpStream::connect` gives.
pub data Attempt : Type 0 where
  accepted refused attempt_timed_out : Attempt

-- `connect_socket` is still at it, has returned, or has panicked.
pub data Connecting : Type 0 where
  trying : Connecting
  answered : Result (Unit {0}) → Connecting
  overflowed : Connecting

-- What happens after a failed attempt: the pause, and the next attempt with the doubled one.
abbrev retry :
    Duration
    → Option Duration
    → (Duration → List Duration × Connecting)
    → List Duration × Connecting
retry delay none next = (delay ∷ [], overflowed)
retry delay (some d) next = (delay ∷ (next d).0, (next d).1)

unfoldable pub connect_loop : Duration → Duration → List Attempt → List Duration × Connecting
connect_loop max_delay delay [] = ([], trying)
connect_loop max_delay delay (accepted ∷ rest) = ([], answered (ok tt))
connect_loop max_delay delay (refused ∷ rest) =
    retry delay (double delay) (λ d. connect_loop max_delay (min d max_delay) rest)
connect_loop max_delay delay (attempt_timed_out ∷ rest) =
    retry delay (double delay) (λ d. connect_loop max_delay (min d max_delay) rest)

unfoldable pub connect_socket : Pauses → List Attempt → List Duration × Connecting
unfolding connect_loop initial_retry_delay max_retry_delay
connect_socket p attempts = connect_loop (max_retry_delay p) (initial_retry_delay p) attempts

-- One round of the loop: whether shutdown was asked for before it, the clock, the attempts to connect,
-- what the connection brought, and whether shutdown came during the pause.
pub record Session : Type 0 where
  pub shutdown_before : Bool
  pub began : Duration
  pub attempts : List Attempt
  pub events : List Event
  pub shutdown_in_pause : Bool

-- How client mode ends; `working` is not an end: the rounds given are over, or the last is not.
pub data Exit (F : Type 0) : Type 0 where
  working : Client F → Exit F
  exited_ok : Client F → Exit F
  exited_err : ClientError → Exit F
  exited_panic : Exit F

module _ {F : Type 0} where
  -- The `select!` of the pause, then the doubled delay for the next round.
  unfoldable pub pause_then :
      Bool
      → Duration
      → Duration
      → Client F
      → (Duration → Client F → List Duration × Exit F)
      → List Duration × Exit F
  unfolding double
  pause_then true delay max_delay c next = ([], exited_ok c)
  pause_then false delay max_delay c next = elim (double delay) [
    | none ↦ (delay ∷ [], exited_panic)
    | some d ↦ (delay ∷ (next (min d max_delay) c).0, (next (min d max_delay) c).1)
  ]

  -- After the connection.
  unfoldable pub after_turn : Turn F → (Client F → List Duration × Exit F) → List Duration × Exit F
  after_turn (connected c) pausing = ([], working c)
  after_turn (reconnect c) pausing = pausing c
  after_turn (finished c) pausing = ([], exited_ok c)
  after_turn (returned c e) pausing = ([], exited_err e)
  after_turn crashed pausing = ([], exited_panic)

  -- The `match` on `connect_socket`: a success resets the delay, a failure keeps it.
  unfoldable pub after_connect :
      Connecting
      → Duration
      → Duration
      → Client F
      → Turn F
      → (Duration → Client F → List Duration × Exit F)
      → List Duration × Exit F
  unfolding after_turn
  after_connect trying initial delay c turn pausing = ([], working c)
  after_connect overflowed initial delay c turn pausing = ([], exited_panic)
  after_connect (answered (ok u)) initial delay c turn pausing = after_turn turn (pausing initial)
  after_connect (answered (err e)) initial delay c turn pausing =
      if is_recoverable e then pausing delay c else ([], exited_err e)

module _ {F : Type 0} (fw : Forwarder F) where
  unfoldable pub client_loop : Pauses → Duration → List Session → Client F → List Duration × Exit F
  unfolding after_connect pause_then begin_attempt client_turn connect_socket initial_retry_delay
      max_retry_delay
  client_loop p delay [] c = ([], working c)
  client_loop p delay (s ∷ rest) c =
      let round =
        after_connect (connect_socket p s.attempts).1 (initial_retry_delay p) delay
          (begin_attempt fw s.began c) (client_turn fw s.began s.events c)
          (λ pause c'.
            pause_then s.shutdown_in_pause pause (max_retry_delay p) c'
              (λ d c''. client_loop p d rest c'')) in
      if s.shutdown_before then ([], exited_ok c) else round

  -- `run_client_mode`.
  unfoldable pub run_client_mode : Pauses → List Session → Client F → List Duration × Exit F
  unfolding client_loop initial_retry_delay
  run_client_mode p sessions c = client_loop p (initial_retry_delay p) sessions c
