-- ===== src/Feed/Client/Reconnecting/Pausing.antt =====
-- The pauses of `connect_socket` and of `run_client_mode` in rust/adsb-pulsar-client/src/client.rs.
use adsb_feed.Prelude.{
  ℕ, zero, suc, ◌*◌, ◌^◌, ◌≤◌, ◌≡◌, refl, min, max, Bool, true, false, some, List, [], ◌∷◌, ◌++◌,
  length, if_intro, All, arith, inl, inr, Option-cases,
}
use adsb_feed.Time.{Duration}
use adsb_feed.Feed.Error.{ok, err}
use adsb_feed.Feed.Slot.{Forwarder}
use adsb_feed.Feed.Client.{Client}
use adsb_feed.Feed.Client.Modes.{
  Turn, connected, reconnect, finished, returned, crashed, NeverReturns, client_turn-NeverReturns,
}
use adsb_feed.Feed.Client.Reconnecting.{
  duration_max, double, Pauses, initial_retry_delay, max_retry_delay, Attempt, accepted, refused,
  attempt_timed_out, Connecting, trying, answered, overflowed, connect_loop, connect_socket,
  Session, Exit, working, exited_ok, exited_err, exited_panic, pause_then, after_turn,
  after_connect, client_loop, run_client_mode,
}

abbrev pub Failed : Attempt → Type 0
Failed accepted = ⊥
Failed refused = Unit
Failed attempt_timed_out = Unit

-- The pause after the failed attempt number `k`, counted from 0.
abbrev pub nth_delay : Duration → Duration → ℕ → Duration
nth_delay initial ceiling zero = initial
nth_delay initial ceiling (suc k) = min (initial * 2 ^ suc k) ceiling

-- The `n` pauses from number `k` on.
abbrev pub delays_from : Duration → Duration → ℕ → ℕ → List Duration
delays_from initial ceiling k zero = []
delays_from initial ceiling k (suc n) =
    nth_delay initial ceiling k ∷ delays_from initial ceiling (suc k) n

pow_step : (i k : ℕ) → i * 2 ^ suc k ≡ i * 2 ^ k * 2
pow_step i k = grind arith

nth_delay-suc : (i m k : ℕ) → min (nth_delay i m k * 2) m ≡ nth_delay i m (suc k)
nth_delay-suc i m zero = omega arith
nth_delay-suc i m (suc k) = omega (arith, pow_step i (suc k))

nth_delay-le : (i m k : ℕ) → nth_delay i m k ≤ max i m
nth_delay-le i m zero = omega arith
nth_delay-le i m (suc k) = omega arith

double-some : (d : Duration) → d * 2 ≤ duration_max → double d ≡ some (d * 2)
unfolding double
double-some d h = ground arith

connect_loop-delays :
    (i m k : ℕ) (failed rest : List Attempt)
    → All Failed failed
    → max i m * 2 ≤ duration_max
    → connect_loop m (nth_delay i m k) (failed ++ accepted ∷ rest)
      ≡ (delays_from i m k (length failed), answered (ok tt))
unfolding connect_loop
connect_loop-delays i m k [] rest h small = refl
connect_loop-delays i m k (accepted ∷ failed) rest h small = elim h.0 [ ]
connect_loop-delays i m k (refused ∷ failed) rest h small =
    rw
      (
        double-some (nth_delay i m k) (omega (arith, nth_delay-le i m k)),
        nth_delay-suc i m k,
        connect_loop-delays i m (suc k) failed rest h.1 small,
      )
      refl
connect_loop-delays i m k (attempt_timed_out ∷ failed) rest h small =
    rw
      (
        double-some (nth_delay i m k) (omega (arith, nth_delay-le i m k)),
        nth_delay-suc i m k,
        connect_loop-delays i m (suc k) failed rest h.1 small,
      )
      refl

-- After any failed attempts, the first one that is accepted ends `connect_socket` with success, and
-- the pauses before it were the initial delay, then its doubles up to the ceiling, provided twice the
-- longer of the two settings is a duration.
pub connect_socket_lem :
    (p : Pauses) (failed rest : List Attempt)
    → All Failed failed
    → max (initial_retry_delay p) (max_retry_delay p) * 2 ≤ duration_max
    → connect_socket p (failed ++ accepted ∷ rest) ≡ (
      delays_from (initial_retry_delay p) (max_retry_delay p) 0 (length failed),
      answered (ok tt),
    )
unfolding connect_socket
connect_socket_lem p failed rest h small =
    connect_loop-delays (initial_retry_delay p) (max_retry_delay p) 0 failed rest h small

-- `connect_socket` has no error to return.
abbrev NoError : Connecting → Type 0
NoError (answered (err e)) = ⊥
NoError _ = Unit

connect_loop-NoError :
    (m d : Duration) (attempts : List Attempt) → NoError (connect_loop m d attempts).1
unfolding connect_loop
connect_loop-NoError m d [] = tt
connect_loop-NoError m d (accepted ∷ rest) = tt
connect_loop-NoError m d (refused ∷ rest) = elim (Option-cases (double d)) [
  | inl e ↦ rw e tt
  | inr (x, e) ↦ rw e (connect_loop-NoError m (min x m) rest)
]
connect_loop-NoError m d (attempt_timed_out ∷ rest) = elim (Option-cases (double d)) [
  | inl e ↦ rw e tt
  | inr (x, e) ↦ rw e (connect_loop-NoError m (min x m) rest)
]

module _ {F : Type 0} where
  -- Client mode has not returned an error.
  abbrev pub NoErrorExit : Exit F → Type 0
  NoErrorExit (exited_err e) = ⊥
  NoErrorExit (working c) = Unit
  NoErrorExit (exited_ok c) = Unit
  NoErrorExit exited_panic = Unit

  -- Every pause is the given one, and no error came out.
  abbrev pub Steady : Duration → List Duration × Exit F → Type 0
  Steady initial (pauses, exit) = All (λ (d : Duration). d ≡ initial) pauses × NoErrorExit exit

  pause_then-Steady :
      (b : Bool) (i m : Duration) (c : Client F)
      (next : Duration → Client F → List Duration × Exit F)
      → ((d : Duration) (c' : Client F) → Steady i (next d c'))
      → Steady i (pause_then b i m c next)
  unfolding pause_then
  pause_then-Steady true i m c next h = (tt, tt)
  pause_then-Steady false i m c next h = elim (Option-cases (double i)) [
    | inl e ↦ rw (e, pause_then) ((refl, tt), tt)
    | inr (x, e) ↦ rw (e, pause_then) ((refl, (h (min x m) c).0), (h (min x m) c).1)
  ]

module _ {F : Type 0} (fw : Forwarder F) where
  after_turn-Steady :
      (i : Duration) (t : Turn F) (pausing : Client F → List Duration × Exit F)
      → NeverReturns fw t
      → ((c : Client F) → Steady i (pausing c))
      → Steady i (after_turn t pausing)
  unfolding after_turn
  after_turn-Steady i (connected c) pausing h k = (tt, tt)
  after_turn-Steady i (reconnect c) pausing h k = k c
  after_turn-Steady i (finished c) pausing h k = (tt, tt)
  after_turn-Steady i (returned c e) pausing h k = elim h [ ]
  after_turn-Steady i crashed pausing h k = (tt, tt)

  after_connect-Steady :
      (o : Connecting) (i d : Duration) (c : Client F) (t : Turn F)
      (pausing : Duration → Client F → List Duration × Exit F)
      → NoError o
      → NeverReturns fw t
      → ((c' : Client F) → Steady i (pausing i c'))
      → Steady i (after_connect o i d c t pausing)
  unfolding after_connect
  after_connect-Steady trying i d c t pausing n h k = (tt, tt)
  after_connect-Steady overflowed i d c t pausing n h k = (tt, tt)
  after_connect-Steady (answered (ok u)) i d c t pausing n h k =
      after_turn-Steady i t (pausing i) h k
  after_connect-Steady (answered (err e)) i d c t pausing n h k = elim n [ ]

  client_loop-Steady :
      (p : Pauses) (delay : Duration) (sessions : List Session) (c : Client F)
      → Steady (initial_retry_delay p) (client_loop fw p delay sessions c)
  unfolding client_loop connect_socket
  client_loop-Steady p delay [] c = (tt, tt)
  client_loop-Steady p delay (s ∷ rest) c =
      if_intro (Steady (initial_retry_delay p)) s.shutdown_before _ _ (tt, tt)
        (after_connect-Steady _ _ _ _ _ _
          (connect_loop-NoError (max_retry_delay p) (initial_retry_delay p) s.attempts)
          (client_turn-NeverReturns fw s.began s.events c)
          (λ c'. pause_then-Steady _ _ _ c' _ (λ d c''. client_loop-Steady p d rest c'')))

  -- Whatever the network does, every pause between two rounds of client mode is the initial retry delay:
  -- a round pauses only after a connection, which has reset the delay, so its doubling is never slept.
  -- And client mode does not return an error.
  pub run_client_mode-Steady :
      (p : Pauses) (sessions : List Session) (c : Client F)
      → Steady (initial_retry_delay p) (run_client_mode fw p sessions c)
  unfolding run_client_mode
  run_client_mode-Steady p sessions c = client_loop-Steady p (initial_retry_delay p) sessions c
