-- ===== src/Examples/Source.antt =====
-- The subscriber's theorems at concrete inputs.
use adsb_feed.Prelude.{◌+◌, ◌≡◌, refl, true, none, List, [], ◌∷◌, ◌++◌, arith}
use adsb_feed.Time.{from_secs}
use adsb_feed.Feed.Source.{connecting}
use adsb_feed.Feed.Source.Mqtt.{
  MqttSource, Event, conn_ack, publish, other, poll_error, shutdown_changed, run, step,
}
use adsb_feed.Feed.Source.Mqtt.Pacing.{failures, pauses, run-pauses}
use adsb_feed.Feed.Source.Mqtt.Routing.{Delivered, publish-Delivered}
use adsb_feed.Examples.Data.{hello, two_lines}

abbrev source : MqttSource
source = record {
  topic = hello;
  aux = record { topic = two_lines; value = none } ∷ [];
  status = connecting;
  attempt = 2;
  connected_at = none;
  short_lived = 0;
  running = true;
  sent = [];
  slept = [];
  warned = 0;
}

-- A publish within a connection that fails, a failure without one, and one of a connection of four seconds.
abbrev weather : List Event
weather =
    conn_ack 5 (λ t. true)
    ∷ publish hello two_lines
    ∷ poll_error (from_secs 4)
    ∷ poll_error (from_secs 60)
    ∷ conn_ack (from_secs 61) (λ t. true)
    ∷ other
    ∷ poll_error (from_secs 65)
    ∷ shutdown_changed true
    ∷ poll_error (from_secs 900)
    ∷ []

run-pauses_example :
    let s' = run weather source in
    (s'.slept ≡ pauses 2 (failures weather) ++ []) × (s'.attempt ≡ 2 + failures weather)
run-pauses_example =
    run-pauses weather source refl refl ((omega arith, tt), (tt, ((omega arith, tt), tt)))
      (omega arith)

publish-Delivered_example : Delivered two_lines hello source (step (publish two_lines hello) source)
publish-Delivered_example = publish-Delivered two_lines hello source
