-- ===== src/Feed/Client/Forwarding.antt =====
-- `forward_message` of rust/adsb-pulsar-client/src/client.rs over a list of messages.
use adsb_feed.Prelude.{
  ℕ, ◌≡◌, refl, sym, ap, ◌∙◌, false, Option, none, some, List, [], ◌∷◌, ◌++◌, map, Bytes,
}
use mathlib.Core.Option
use mathlib.Core.List.{append_assoc, append-nil}
use adsb_feed.Prelude.Int.{ℤ}
use adsb_feed.Feed.Metrics.{Metrics}
use adsb_feed.Feed.Slot.{
  Forwarder, Slot, offer, fan_out, count_outcome, Outcome, accepted, queued, failed,
}
use adsb_feed.Feed.Slot.Delivery.{fan_out_slots}
use adsb_feed.Feed.Client.{Client, emit_tap, forward_live, forward_message, forward_messages}

module _ {F : Type 0} (fw : Forwarder F) where
  count_outcome-received :
      (o : Outcome) (all : List (Slot F)) (m : Metrics)
      → (count_outcome fw o all m).messages_received ≡ m.messages_received
  unfolding count_outcome
  count_outcome-received accepted all m = refl
  count_outcome-received queued all m = refl
  count_outcome-received failed all m = refl

  fan_out-received :
      (cap : ℕ) (x : Bytes) (before slots : List (Slot F)) (m : Metrics)
      → (fan_out fw cap x before slots m).1.messages_received ≡ m.messages_received
  unfolding fan_out
  fan_out-received cap x before [] m = refl
  fan_out-received cap x before (s ∷ rest) m =
      let r = offer fw cap x s in
      fan_out-received cap x (before ++ r.0 ∷ []) rest
        (count_outcome fw r.1 (before ++ r.0 ∷ rest) m)
      ∙ count_outcome-received r.1 (before ++ r.0 ∷ rest) m

  -- Every slot offered the messages one after another, alone.
  pub offer_all : ℕ → List Bytes → List (Slot F) → List (Slot F)
  offer_all cap [] slots = slots
  offer_all cap (m ∷ ms) slots = offer_all cap ms (map (λ s. (offer fw cap m s).0) slots)

  -- The client after the messages were forwarded, outside test mode.
  pub live_all : ℤ → List Bytes → Client F → Client F
  live_all now_ms [] c = c
  live_all now_ms (m ∷ ms) c = live_all now_ms ms (forward_live fw now_ms m (emit_tap fw m c))

  -- What forwarding leaves of the client.
  pub record Forwarded (ms : List Bytes) (c c' : Client F) : Type 0 where
    pub config_kept : c'.config ≡ c.config
    pub buffer_kept : c'.line_buffer ≡ c.line_buffer
    pub monitor_kept : c'.connection_monitor ≡ c.connection_monitor
    pub received_kept : c'.metrics.messages_received ≡ c.metrics.messages_received
    pub tapped : c'.message_tx ≡ Option.map (λ sent. sent ++ ms) c.message_tx
    pub offered : c'.slots ≡ offer_all c.config.max_retry_queue_size ms c.slots

  tap_nil : (t : Option (List Bytes)) → t ≡ Option.map (λ sent. sent ++ []) t
  tap_nil none = refl
  tap_nil (some x) = ap some (sym (append-nil x))

  tap_cons :
      (m : Bytes) (ms : List Bytes) (t : Option (List Bytes))
      → Option.map (λ sent. sent ++ ms) (Option.map (λ sent. sent ++ m ∷ []) t)
        ≡ Option.map (λ sent. sent ++ m ∷ ms) t
  tap_cons m ms none = refl
  tap_cons m ms (some x) = ap some (append_assoc x (m ∷ []) ms)

  forward_one :
      (now_ms : ℤ) (m : Bytes) (c : Client F)
      → Forwarded (m ∷ []) c (forward_live fw now_ms m (emit_tap fw m c))
  unfolding forward_live emit_tap offer_all
  forward_one now_ms m c = record {
    config_kept = refl;
    buffer_kept = refl;
    monitor_kept = refl;
    received_kept = fan_out-received c.config.max_retry_queue_size m [] c.slots c.metrics;
    tapped = refl;
    offered = fan_out_slots fw c.config.max_retry_queue_size m [] c.slots c.metrics;
  }

  offer_all-eq :
      (cap cap' : ℕ) (ms : List Bytes) (s s' : List (Slot F))
      → cap ≡ cap'
      → s ≡ s'
      → offer_all cap ms s ≡ offer_all cap' ms s'
  offer_all-eq cap cap' ms s s' p q = cc

  pub live_all-Forwarded :
      (now_ms : ℤ) (ms : List Bytes) (c : Client F) → Forwarded ms c (live_all now_ms ms c)
  unfolding live_all offer_all
  live_all-Forwarded now_ms [] c = record {
    config_kept = refl;
    buffer_kept = refl;
    monitor_kept = refl;
    received_kept = refl;
    tapped = tap_nil c.message_tx;
    offered = refl;
  }
  live_all-Forwarded now_ms (m ∷ ms) c =
      let d = forward_live fw now_ms m (emit_tap fw m c) in
      let one = forward_one now_ms m c in
      let rest = live_all-Forwarded now_ms ms d in
      record {
        config_kept = rest.config_kept ∙ one.config_kept;
        buffer_kept = rest.buffer_kept ∙ one.buffer_kept;
        monitor_kept = rest.monitor_kept ∙ one.monitor_kept;
        received_kept = rest.received_kept ∙ one.received_kept;
        tapped =
            rest.tapped
            ∙ ap (Option.map (λ sent. sent ++ ms)) one.tapped
            ∙ tap_cons m ms c.message_tx;
        offered =
            rest.offered
            ∙ offer_all-eq _ c.config.max_retry_queue_size ms d.slots _
                (ap (λ k. k.max_retry_queue_size) one.config_kept) one.offered;
      }

  live_step :
      (now_ms : ℤ) (m : Bytes) (c : Client F)
      → c.config.test_mode ≡ false
      → forward_message fw now_ms m c ≡ some (forward_live fw now_ms m (emit_tap fw m c))
  unfolding forward_message
  live_step now_ms m c h = rw h

  -- Outside test mode forwarding never panics, and is `live_all`.
  pub forward_messages-live :
      (now_ms : ℤ) (ms : List Bytes) (c : Client F)
      → c.config.test_mode ≡ false
      → forward_messages fw now_ms ms c ≡ some (live_all now_ms ms c)
  unfolding forward_messages live_all Option.bind
  forward_messages-live now_ms [] c h = refl
  forward_messages-live now_ms (m ∷ ms) c h =
      let d = forward_live fw now_ms m (emit_tap fw m c) in
      rw (live_step now_ms m c h) (
        forward_messages-live now_ms ms d
          (ap (λ k. k.test_mode) (forward_one now_ms m c).config_kept ∙ h))
