-- ===== src/Feed/Slot/Delivery.antt =====
-- What the fan-out of `forward_message` (rust/adsb-pulsar-client/src/client.rs) guarantees.
use adsb_feed.Prelude.{ℕ, ◌+◌, ◌≡◌, ◌∙◌, ◌⊎◌, true, false, List, [], ◌∷◌, ◌++◌, map, Bytes, arith}
use mathlib.Core.List.{append_assoc, append-nil}
use adsb_feed.Feed.Metrics.{Metrics}
use adsb_feed.Feed.Slot.{
  Forwarder, Slot, accepted, queued, failed, total, enqueue, offer, count_outcome, fan_out,
  queued_length,
}

pub total-append {ℓ} :
    {A : Type ℓ} (f : A → ℕ) (xs ys : List A) → total f (xs ++ ys) ≡ total f xs + total f ys
total-append f [] ys = omega arith
total-append f (x ∷ xs) ys = omega (arith, total-append f xs ys)

module _ {F : Type 0} (fw : Forwarder F) where
  -- A slot either hands the message to a connected backend that takes it, with its queue untouched, or
  -- keeps it at the back of the queue; a backend that refuses it is disconnected.
  pub offer_lem :
      (cap : ℕ) (m : Bytes) (s : Slot F)
      → let r = offer fw cap m s in
        ((r.1 ≡ accepted)
          × (fw.is_connected s.forwarder ≡ true)
          × ((fw.send s.forwarder m).1 ≡ true)
          × (r.0.queue ≡ s.queue))
        ⊎ ((r.1 ≡ queued)
            × (fw.is_connected s.forwarder ≡ false)
            × (r.0.forwarder ≡ s.forwarder)
            × (r.0.queue ≡ enqueue cap s.queue m))
        ⊎ ((r.1 ≡ failed)
            × ((fw.send s.forwarder m).1 ≡ false)
            × (r.0.forwarder ≡ fw.disconnect (fw.send s.forwarder m).0)
            × (r.0.queue ≡ enqueue cap s.queue m))
  unfolding offer
  offer_lem cap m s = ground arith

  -- One forwarder's failure does not touch another: each slot ends as if it had been offered the
  -- message alone.
  pub fan_out_slots :
      (cap : ℕ) (m : Bytes) (before slots : List (Slot F)) (mt : Metrics)
      → (fan_out fw cap m before slots mt).0 ≡ before ++ map (λ s. (offer fw cap m s).0) slots
  unfolding fan_out
  fan_out_slots cap m before [] mt = rw append-nil
  fan_out_slots cap m before (s ∷ rest) mt =
      fan_out_slots cap m (before ++ (offer fw cap m s).0 ∷ []) rest _
      ∙ append_assoc before ((offer fw cap m s).0 ∷ []) _

  -- The gauge shows the length of all queues together.
  abbrev pub Exact : List (Slot F) → Metrics → Type 0
  Exact slots mt = mt.retry_queue_size ≡ total (queued_length fw) slots

  count_outcome-Exact :
      (cap : ℕ) (m : Bytes) (before rest : List (Slot F)) (s : Slot F) (mt : Metrics)
      → Exact (before ++ s ∷ rest) mt
      → let r = offer fw cap m s in
        Exact (before ++ r.0 ∷ rest) (count_outcome fw r.1 (before ++ r.0 ∷ rest) mt)
  unfolding count_outcome
  count_outcome-Exact cap m before rest s mt h =
      let r = offer fw cap m s in
      ground (
        arith,
        offer_lem cap m s,
        total-append (queued_length fw) before (r.0 ∷ rest),
        total-append (queued_length fw) before (s ∷ rest),
      )

  -- The gauge of queued messages stays exact through a fan-out.
  pub fan_out-Exact :
      (cap : ℕ) (m : Bytes) (before slots : List (Slot F)) (mt : Metrics)
      → Exact (before ++ slots) mt
      → let r = fan_out fw cap m before slots mt in Exact r.0 r.1
  unfolding fan_out
  fan_out-Exact cap m before [] mt h = rw (← append-nil before) h
  fan_out-Exact cap m before (s ∷ rest) mt h =
      let r = offer fw cap m s in
      fan_out-Exact cap m (before ++ r.0 ∷ []) rest (count_outcome fw r.1 (before ++ r.0 ∷ rest) mt)
        (rw (append_assoc before (r.0 ∷ []) rest) (count_outcome-Exact cap m before rest s mt h))
