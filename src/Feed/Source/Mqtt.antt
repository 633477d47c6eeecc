-- ===== src/Feed/Source/Mqtt.antt =====
-- The subscriber of rust/adsb-pulsar-client/src/source/mqtt_source.rs.  Its event loop is a fold over what
-- wakes it; an instant is a number of nanoseconds.
pub mod Pacing
pub mod Routing
use adsb_feed.Prelude.{
  ℕ, zero, suc, ◌+◌, ◌-◌, Bool, true, false, not, ◌&&◌, ◌||◌, Option, none, some, List, [], ◌∷◌,
  ◌++◌, Bytes, map, bytes_eq, ◌==◌, if◌then◌else◌,
}
use mathlib.Core.Option
use adsb_feed.Time.{Duration, u32_max, saturating_add}
use adsb_feed.Backoff.{
  default, delay, should_log, should_reset, was_short_lived, looks_like_id_collision,
}
use adsb_feed.Feed.Source.{SourceStatus, disconnected, connecting, connected, split_lines}

pub data Route : Type 0 where
  sbs : Route
  aux_at : ℕ → Route
  ignore : Route

-- `aux_topics.position(|aux| aux == topic)`.
unfoldable pub position : Bytes → List Bytes → Option ℕ
position topic [] = none
position topic (t ∷ ts) =
    let rest = Option.map suc (position topic ts) in if bytes_eq t topic then some 0 else rest

unfoldable pub route_publish : Bytes → Bytes → List Bytes → Route
unfolding position
route_publish topic sbs_topic aux_topics =
    if bytes_eq topic sbs_topic
    then sbs
    else elim (position topic aux_topics) [ none ↦ ignore | some index ↦ aux_at index ]

-- An auxiliary topic and the value of its watch channel.
pub record AuxTopic : Type 0 where
  pub topic : Bytes
  pub value : Option Bytes

abbrev pub names : List AuxTopic → List Bytes
names aux = map (λ (a : AuxTopic). a.topic) aux

-- The source and the variables of its loop: `sent` is what was broadcast and `slept` the pauses, both the
-- newest last and first, `warned` the errors that were logged.
pub record MqttSource : Type 0 where
  pub topic : Bytes
  pub aux : List AuxTopic
  pub status : SourceStatus
  pub attempt : ℕ
  pub connected_at : Option Duration
  pub short_lived : ℕ
  pub running : Bool
  pub sent : List Bytes
  pub slept : List Duration
  pub warned : ℕ

unfoldable pub with_aux_topic : Bytes → MqttSource → MqttSource
unfolding position
with_aux_topic topic s = elim (position topic (names s.aux)) [
  | some index ↦ s
  | none ↦ record s { aux = s.aux ++ record { topic = topic; value = none } ∷ [] }
]

unfoldable pub filter_not : Bytes → List Bytes → List Bytes
filter_not t [] = []
filter_not t (u ∷ us) = let rest = filter_not t us in if bytes_eq u t then rest else u ∷ rest

-- `topics`: the SBS topic, and the others that differ from it.
unfoldable pub topics : MqttSource → List Bytes
unfolding filter_not
topics s = s.topic ∷ filter_not s.topic (names s.aux)

-- `send_replace` on the channel of one topic.
unfoldable pub replace : ℕ → Bytes → List AuxTopic → List AuxTopic
replace i payload [] = []
replace zero payload (a ∷ aux) = record a { value = some payload } ∷ aux
replace (suc i) payload (a ∷ aux) = a ∷ replace i payload aux

-- Whether the SBS subscription was accepted, from what `subscribe` answers to each topic.
unfoldable pub sbs_subscribed : Bytes → (Bytes → Bool) → List Bytes → Bool
sbs_subscribed sbs_topic accepted [] = false
sbs_subscribed sbs_topic accepted (t ∷ ts) =
    (accepted t && bytes_eq t sbs_topic) || sbs_subscribed sbs_topic accepted ts

-- What `eventloop.poll()` and the shutdown channel give.
pub data Event : Type 0 where
  conn_ack : Duration → (Bytes → Bool) → Event
  publish : Bytes → Bytes → Event
  other : Event
  poll_error : Duration → Event
  shutdown_changed : Bool → Event

unfoldable pub on_conn_ack : Duration → (Bytes → Bool) → MqttSource → MqttSource
unfolding sbs_subscribed topics
on_conn_ack now accepted s =
    if sbs_subscribed s.topic accepted (topics s)
    then record s { connected_at = some now; status = connected }
    else s

unfoldable pub on_publish : Bytes → Route → MqttSource → MqttSource
unfolding replace
on_publish payload sbs s = record s { sent = s.sent ++ split_lines payload }
on_publish payload (aux_at index) s = record s { aux = replace index payload s.aux }
on_publish payload ignore s = s

-- Only a connection that held counts as recovery.
unfoldable pub recovered : Option Duration → MqttSource → MqttSource
recovered none s = s
recovered (some lasted) s =
    if should_reset lasted
    then record s { attempt = 0; short_lived = 0 }
    else if was_short_lived lasted
    then record s { short_lived = saturating_add s.short_lived 1 }
    else s

-- A warning, but for a connection that has never come up on its first failure.
unfoldable pub is_warned : Bool → MqttSource → Bool
is_warned was_connected s =
    should_log s.attempt
    && (looks_like_id_collision s.short_lived || was_connected || not (s.attempt == 0))

abbrev is_connected : SourceStatus → Bool
is_connected connected = true
is_connected connecting = false
is_connected disconnected = false

-- The poll failed: the pause is by the attempts so far, then the attempt counts.
unfoldable pub on_error : Duration → MqttSource → MqttSource
unfolding recovered is_warned
on_error now s =
    let s' = recovered (Option.map (λ t. now - t) s.connected_at) s in
    record s' {
      connected_at = none;
      status = connecting;
      warned = if is_warned (is_connected s.status) s' then suc s'.warned else s'.warned;
      slept = delay default s'.attempt ∷ s'.slept;
      attempt = saturating_add s'.attempt 1;
    }

unfoldable pub step : Event → MqttSource → MqttSource
unfolding on_conn_ack on_publish route_publish on_error
step (conn_ack now accepted) s = on_conn_ack now accepted s
step (publish topic payload) s = on_publish payload (route_publish topic s.topic (names s.aux)) s
step other s = s
step (poll_error now) s = on_error now s
step (shutdown_changed true) s = record s { running = false; status = disconnected }
step (shutdown_changed false) s = s

-- The loop over a run of events; it is left at a shutdown.
unfoldable pub run : List Event → MqttSource → MqttSource
unfolding step
run [] s = s
run (e ∷ es) s = let s' = step e s in if s.running then run es s' else s
