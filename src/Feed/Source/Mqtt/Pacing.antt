-- ===== src/Feed/Source/Mqtt/Pacing.antt =====
-- How the subscriber of rust/adsb-pulsar-client/src/source/mqtt_source.rs paces its reconnects.
use adsb_feed.Prelude.{
  ℕ, zero, suc, ◌+◌, ◌-◌, ◌≤◌, ◌<◌, ◌≡◌, refl, sym, ap, ◌∙◌, Bool, true, false, Option, none, some,
  List, [], ◌∷◌, ◌++◌, Bytes, All, if◌then◌else◌, if_intro, if_cases, arith, leb,
}
use mathlib.Core.Option
use mathlib.Core.List.{append_assoc}
use adsb_feed.Time.{Duration, from_secs, u32_max, saturating_add}
use adsb_feed.Backoff.{default, delay, should_reset, was_short_lived}
use adsb_feed.Feed.Source.{SourceStatus, disconnected, connecting, connected}
use adsb_feed.Feed.Source.Mqtt.{
  MqttSource, Event, conn_ack, publish, other, poll_error, shutdown_changed, Route, sbs, aux_at,
  ignore, route_publish, names, on_conn_ack, on_publish, recovered, on_error, step, run,
}

-- The status against the time of the connection.
abbrev pub Agrees : SourceStatus → Option Duration → Type 0
Agrees connected (some t) = Unit
Agrees connected none = ⊥
Agrees connecting t = t ≡ none
Agrees disconnected t = Unit

on_publish-Agrees :
    (payload : Bytes) (r : Route) (s : MqttSource)
    → Agrees s.status s.connected_at
    → let s' = on_publish payload r s in Agrees s'.status s'.connected_at
unfolding on_publish
on_publish-Agrees payload sbs s h = h
on_publish-Agrees payload (aux_at i) s h = h
on_publish-Agrees payload ignore s h = h

step-Agrees :
    (e : Event) (s : MqttSource)
    → Agrees s.status s.connected_at
    → let s' = step e s in Agrees s'.status s'.connected_at
unfolding step on_conn_ack on_error
step-Agrees (conn_ack now accepted) s h =
    if_intro (λ (t : MqttSource). Agrees t.status t.connected_at) _
      (record s { connected_at = some now; status = connected }) s tt h
step-Agrees (publish topic payload) s h =
    on_publish-Agrees payload (route_publish topic s.topic (names s.aux)) s h
step-Agrees other s h = h
step-Agrees (poll_error now) s h = refl
step-Agrees (shutdown_changed true) s h = tt
step-Agrees (shutdown_changed false) s h = h

-- If it is so at the start, then through any run a status of connected has the time since when behind it,
-- and a status of connecting has none.
pub run-Agrees :
    (es : List Event) (s : MqttSource)
    → Agrees s.status s.connected_at
    → let s' = run es s in Agrees s'.status s'.connected_at
unfolding run
run-Agrees [] s h = h
run-Agrees (e ∷ es) s h =
    if_intro (λ (t : MqttSource). Agrees t.status t.connected_at) s.running (run es (step e s)) s
      (run-Agrees es (step e s) (step-Agrees e s h)) h

-- The pauses after `n` failures in a row, from the attempt `a`, the last one first.
abbrev pub pauses : ℕ → ℕ → List Duration
pauses a zero = []
pauses a (suc n) = pauses (suc a) n ++ delay default a ∷ []

-- A failure of a connection that did not hold.
pub record Failed (s s' : MqttSource) : Type 0 where
  pub slept : s'.slept ≡ delay default s.attempt ∷ s.slept
  pub attempt : s'.attempt ≡ saturating_add s.attempt 1
  pub down : s'.connected_at ≡ none
  pub running : s'.running ≡ s.running

abbrev Brief : Option Duration → Type 0
Brief none = Unit
Brief (some lasted) = lasted < from_secs 30

recovered-Brief :
    (o : Option Duration) (s : MqttSource)
    → Brief o
    → let s' = recovered o s in
      (s'.attempt ≡ s.attempt) × (s'.slept ≡ s.slept) × (s'.running ≡ s.running)
unfolding recovered should_reset
recovered-Brief none s h = (refl, refl, refl)
recovered-Brief (some lasted) s h =
    if_cases P (leb (from_secs 30) lasted) _ _ (λ e. absurd (ground arith))
      (λ e.
        if_intro P (was_short_lived lasted)
          (record s { short_lived = saturating_add s.short_lived 1 }) s (refl, refl, refl)
          (refl, refl, refl))
  where
    P : MqttSource → Type 0
    P s' = (s'.attempt ≡ s.attempt) × (s'.slept ≡ s.slept) × (s'.running ≡ s.running)

on_error-Failed :
    (now : Duration) (s : MqttSource)
    → Brief (Option.map (λ t. now - t) s.connected_at)
    → Failed s (on_error now s)
unfolding on_error
on_error-Failed now s h =
    let r = recovered-Brief (Option.map (λ t. now - t) s.connected_at) s h in
    record {
      slept =
          ap (λ a. delay default a ∷ (recovered (Option.map (λ t. now - t) s.connected_at) s).slept)
            r.0
          ∙ ap (λ l. delay default s.attempt ∷ l) r.1;
      attempt = ap (λ a. saturating_add a 1) r.0;
      down = refl;
      running = r.2;
    }

-- No connection holds for thirty seconds: at each failure before a shutdown, less than that has passed
-- since every acknowledgement (`acks`, of which the list is emptied at a failure).
abbrev pub NeverHolds : List Duration → List Event → Type 0
NeverHolds acks [] = Unit
NeverHolds acks (conn_ack now accepted ∷ es) = NeverHolds (now ∷ acks) es
NeverHolds acks (publish topic payload ∷ es) = NeverHolds acks es
NeverHolds acks (other ∷ es) = NeverHolds acks es
NeverHolds acks (poll_error now ∷ es) = All (λ t. now - t < from_secs 30) acks × NeverHolds [] es
NeverHolds acks (shutdown_changed true ∷ es) = Unit
NeverHolds acks (shutdown_changed false ∷ es) = NeverHolds acks es

-- The failures before a shutdown.
abbrev pub failures : List Event → ℕ
failures [] = 0
failures (conn_ack now accepted ∷ es) = failures es
failures (publish topic payload ∷ es) = failures es
failures (other ∷ es) = failures es
failures (poll_error now ∷ es) = suc (failures es)
failures (shutdown_changed true ∷ es) = 0
failures (shutdown_changed false ∷ es) = failures es

-- The time of the connection is that of an acknowledgement: what holds of these holds of it.
abbrev Acked : List Duration → Option Duration → Type 0
Acked acks o =
    (now : Duration) → All (λ t. now - t < from_secs 30) acks → Brief (Option.map (λ t. now - t) o)

-- The outcome of a run as far as pacing goes.
abbrev pub Paced : ℕ → MqttSource → MqttSource → Type 0
Paced n s s' = (s'.slept ≡ pauses s.attempt n ++ s.slept) × (s'.attempt ≡ s.attempt + n)

-- A step that touches neither the pauses nor the number of the attempt.
Paced-unmoved :
    (n : ℕ) (s t s' : MqttSource)
    → t.slept ≡ s.slept
    → t.attempt ≡ s.attempt
    → Paced n t s'
    → Paced n s s'
Paced-unmoved n s t s' p q h = (
  h.0 ∙ ap (λ a. pauses a n ++ t.slept) q ∙ ap (λ l. pauses s.attempt n ++ l) p,
  h.1 ∙ ap (λ a. a + n) q,
)

Paced-Failed :
    (n : ℕ) (s t s' : MqttSource)
    → s.attempt < u32_max
    → Failed s t
    → Paced n t s'
    → Paced (suc n) s s'
Paced-Failed n s t s' b f h =
    let a : t.attempt ≡ suc s.attempt = f.attempt ∙ omega arith in
    (
      h.0
          ∙ ap (λ k. pauses k n ++ t.slept) a
          ∙ ap (λ l. pauses (suc s.attempt) n ++ l) f.slept
          ∙ sym (append_assoc (pauses (suc s.attempt) n) (delay default s.attempt ∷ []) s.slept),
      h.1 ∙ omega (arith, a),
    )

run-one :
    (e : Event) (es : List Event) (s : MqttSource)
    → s.running ≡ true
    → run (e ∷ es) s ≡ run es (step e s)
unfolding run
run-one e es s r = ap (λ b. if b then run es (step e s) else s) r

run-stopped : (es : List Event) (s : MqttSource) → s.running ≡ false → run es s ≡ s
unfolding run
run-stopped [] s r = refl
run-stopped (e ∷ es) s r = ap (λ b. if b then run es (step e s) else s) r

-- What an acknowledgement and a publish leave as it was.
record Unmoved (acks : List Duration) (s t : MqttSource) : Type 0 where
  slept : t.slept ≡ s.slept
  attempt : t.attempt ≡ s.attempt
  running : t.running ≡ s.running
  acked : Acked acks t.connected_at

conn_ack-Unmoved :
    (now : Duration) (accepted : Bytes → Bool) (acks : List Duration) (s : MqttSource)
    → Acked acks s.connected_at
    → Unmoved (now ∷ acks) s (step (conn_ack now accepted) s)
unfolding step on_conn_ack
conn_ack-Unmoved now accepted acks s h =
    if_intro (Unmoved (now ∷ acks) s) _ (record s { connected_at = some now; status = connected }) s
      (record { slept = refl; attempt = refl; running = refl; acked = λ n a. a.0 })
      (record { slept = refl; attempt = refl; running = refl; acked = λ n a. h n a.1 })

on_publish-Unmoved :
    (payload : Bytes) (r : Route) (acks : List Duration) (s : MqttSource)
    → Acked acks s.connected_at
    → Unmoved acks s (on_publish payload r s)
unfolding on_publish
on_publish-Unmoved payload sbs acks s h = record {
  slept = refl;
  attempt = refl;
  running = refl;
  acked = h;
}
on_publish-Unmoved payload (aux_at i) acks s h = record {
  slept = refl;
  attempt = refl;
  running = refl;
  acked = h;
}
on_publish-Unmoved payload ignore acks s h = record {
  slept = refl;
  attempt = refl;
  running = refl;
  acked = h;
}

run-Paced :
    (acks : List Duration) (es : List Event) (s : MqttSource)
    → s.running ≡ true
    → Acked acks s.connected_at
    → NeverHolds acks es
    → s.attempt + failures es ≤ u32_max
    → Paced (failures es) s (run es s)
unfolding run step
run-Paced acks [] s r c h b = (refl, omega arith)
run-Paced acks (conn_ack now accepted ∷ es) s r c h b =
    let u = conn_ack-Unmoved now accepted acks s c in
    let t = step (conn_ack now accepted) s in
    rw (run-one (conn_ack now accepted) es s r) (
      Paced-unmoved (failures es) s t (run es t) u.slept u.attempt
        (run-Paced (now ∷ acks) es t (u.running ∙ r) u.acked h (omega (arith, u.attempt))))
run-Paced acks (publish topic payload ∷ es) s r c h b =
    let u = on_publish-Unmoved payload (route_publish topic s.topic (names s.aux)) acks s c in
    let t = step (publish topic payload) s in
    rw (run-one (publish topic payload) es s r) (
      Paced-unmoved (failures es) s t (run es t) u.slept u.attempt
        (run-Paced acks es t (u.running ∙ r) u.acked h (omega (arith, u.attempt))))
run-Paced acks (other ∷ es) s r c h b = rw (run-one other es s r) (run-Paced acks es s r c h b)
run-Paced acks (poll_error now ∷ es) s r c h b =
    let t = step (poll_error now) s in
    let f = on_error-Failed now s (c now h.0) in
    let down : Acked [] t.connected_at = λ n a. tt in
    rw (run-one (poll_error now) es s r) (
      Paced-Failed (failures es) s t (run es t) (omega arith) f
        (run-Paced [] es t (f.running ∙ r) down h.1 (omega (arith, f.attempt))))
run-Paced acks (shutdown_changed true ∷ es) s r c h b =
    let t = step (shutdown_changed true) s in
    rw (run-one (shutdown_changed true) es s r, run-stopped es t refl) (refl, omega arith)
run-Paced acks (shutdown_changed false ∷ es) s r c h b =
    rw (run-one (shutdown_changed false) es s r) (run-Paced acks es s r c h b)

-- From a running source that is not connected, through any events (acknowledgements or none, publishes,
-- failures, a shutdown) in which no connection holds for thirty seconds, while the attempts fit 32 bits:
-- the source sleeps after each failure before the shutdown, for the delay of its number, counts it, and
-- never begins again at the first.
pub run-pauses :
    (es : List Event) (s : MqttSource)
    → s.running ≡ true
    → s.connected_at ≡ none
    → NeverHolds [] es
    → s.attempt + failures es ≤ u32_max
    → let s' = run es s in
      (s'.slept ≡ pauses s.attempt (failures es) ++ s.slept)
      × (s'.attempt ≡ s.attempt + failures es)
run-pauses es s r c h b = run-Paced [] es s r (λ now a. rw c tt) h b
