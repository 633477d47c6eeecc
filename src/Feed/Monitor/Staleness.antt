-- ===== src/Feed/Monitor/Staleness.antt =====
-- When the monitor of rust/adsb-pulsar-client/src/connection_monitor.rs calls a link stale.
use adsb_feed.Prelude.{
  ◌-◌, ◌≤◌, ◌∙◌, ap, ◌≡◌, refl, Option, none, some, leb, if◌then◌else◌, List, [], ◌∷◌, Bytes, arith,
  max,
}
use adsb_feed.Time.{Duration}
use adsb_feed.Feed.Monitor.{
  ConnectionMonitor, StaleReason, heartbeat_timeout, classify_line, record_tcp_activity, is_stale,
}

-- What happens on a live connection.
pub data Activity : Type 0 where
  bytes_read : Activity
  line_read : Bytes → Activity

unfoldable pub observe : Duration → Activity → ConnectionMonitor → ConnectionMonitor
observe now bytes_read c = record_tcp_activity now c
observe now (line_read l) c = (classify_line now c l).0

unfoldable pub observe_all : List (Duration × Activity) → ConnectionMonitor → ConnectionMonitor
observe_all [] c = c
observe_all ((now, a) ∷ rest) c = observe_all rest (observe now a c)

-- The time of the last line in a history, or `since` where it has none.
unfoldable pub last_line : Duration → List (Duration × Activity) → Duration
last_line since [] = since
last_line since ((now, bytes_read) ∷ rest) = last_line since rest
last_line since ((now, line_read l) ∷ rest) = last_line now rest

-- Times that do not run backwards from `since`.
abbrev pub Ordered : Duration → List (Duration × Activity) → Type 0
Ordered since [] = Unit
Ordered since ((now, a) ∷ rest) = (since ≤ now) × Ordered now rest

observe-timeout :
    (now : Duration) (a : Activity) (c : ConnectionMonitor)
    → (observe now a c).heartbeat_timeout ≡ c.heartbeat_timeout
unfolding observe record_tcp_activity classify_line
observe-timeout now bytes_read c = refl
observe-timeout now (line_read l) c = ground arith

observe_all-timeout :
    (h : List (Duration × Activity)) (c : ConnectionMonitor)
    → (observe_all h c).heartbeat_timeout ≡ c.heartbeat_timeout
unfolding observe_all
observe_all-timeout [] c = refl
observe_all-timeout ((now, a) ∷ rest) c =
    rw (observe_all-timeout rest (observe now a c)) (observe-timeout now a c)

abbrev pub meaningful : ConnectionMonitor → Duration
meaningful c = max c.last_heartbeat c.last_data_message

observe_all-meaningful :
    (t : Duration) (h : List (Duration × Activity)) (c : ConnectionMonitor)
    → meaningful c ≤ t
    → Ordered t h
    → meaningful (observe_all h c) ≡ last_line (meaningful c) h
unfolding observe_all last_line record_tcp_activity observe
observe_all-meaningful t [] c m o = refl
observe_all-meaningful t ((now, bytes_read) ∷ rest) c m o =
    observe_all-meaningful now rest (record_tcp_activity now c)
      (unfold record_tcp_activity in omega arith) o.1
    ∙ (unfold record_tcp_activity in refl)
observe_all-meaningful t ((now, line_read l) ∷ rest) c m o =
    observe_all-meaningful now rest (classify_line now c l).0 (omega (arith, fresh)) o.1
    ∙ ap (λ s. last_line s rest) fresh
  where
    fresh : meaningful (classify_line now c l).0 ≡ now
    fresh = unfold classify_line in ground arith

-- What a timeout says of a link that has been quiet for so long.
abbrev pub stale_after : Option Duration → Duration → Option StaleReason
stale_after none quiet = none
stale_after (some timeout) quiet =
    if leb timeout quiet then some (heartbeat_timeout quiet) else none

is_stale-quiet :
    (now : Duration) (c : ConnectionMonitor)
    → is_stale now c ≡ stale_after c.heartbeat_timeout (now - meaningful c)
unfolding is_stale
is_stale-quiet now c = ground arith

-- Over any history of reads and lines, from times that do not run backwards, the monitor reports a stale
-- link exactly when its timeout is on and that much time has passed since the last line, heartbeat or
-- data; bytes alone do not count.
pub is_stale-last_line :
    (t now : Duration) (h : List (Duration × Activity)) (c : ConnectionMonitor)
    → meaningful c ≤ t
    → Ordered t h
    → is_stale now (observe_all h c)
      ≡ stale_after c.heartbeat_timeout (now - last_line (meaningful c) h)
is_stale-last_line t now h c m o =
    is_stale-quiet now (observe_all h c)
    ∙ ap (λ k. stale_after k (now - meaningful (observe_all h c))) (observe_all-timeout h c)
    ∙ ap (λ (m : Duration). stale_after c.heartbeat_timeout (now - m))
        (observe_all-meaningful t h c m o)
