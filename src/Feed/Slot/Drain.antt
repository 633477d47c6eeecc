-- ===== src/Feed/Slot/Drain.antt =====
-- What `drain_retry_queue` (rust/adsb-pulsar-client/src/client.rs) does to a queue.
use adsb_feed.Prelude.{
  ℕ, zero, suc, ◌+◌, ◌%◌, ◌≤◌, ◌<◌, ◌≡◌, refl, ap, ◌∙◌, ◌⊎◌, inl, inr, true, false, List, [], ◌∷◌,
  ◌++◌, Bytes, length, take, drop, arith, Bool-cases,
}
use adsb_feed.Time.{u64_mod}
use adsb_feed.Feed.Metrics.{Metrics, add_bytes_sent}
use adsb_feed.Feed.Slot.{Forwarder, drain_loop, total}

add_mod : (a b c : ℕ) → ((a + b) % u64_mod + c) % u64_mod ≡ (a + (b + c)) % u64_mod
add_mod a b c = omega arith

module _ {F : Type 0} (fw : Forwarder F) where
  -- Sent messages leave in the order of the queue, none is lost or sent twice, at most `most` go, and
  -- the counter of sent bytes, from a value of 64 bits, grows by theirs, modulo 64 bits.
  pub drain_loop_lem :
      (most : ℕ) (f : F) (q : List Bytes) (m : Metrics)
      → m.bytes_sent < u64_mod
      → let d = drain_loop fw most f q m in
        (d.sent ++ d.queue ≡ q)
        × (length d.sent ≤ most)
        × (d.metrics.bytes_sent ≡ (m.bytes_sent + total length d.sent) % u64_mod)
  unfolding drain_loop
  drain_loop_lem zero f q m h = (refl, omega arith, omega arith)
  drain_loop_lem (suc k) f [] m h = (refl, omega arith, omega arith)
  drain_loop_lem (suc k) f (x ∷ q) m h =
      let m' = add_bytes_sent (length x) m in
      let ih = drain_loop_lem k (fw.send f x).0 q m' (omega arith) in
      let d = drain_loop fw k (fw.send f x).0 q m' in
      elim (Bool-cases (fw.send f x).1) [
        | inl took ↦ rw (took) (
          ap (◌∷◌ x) ih.0,
          omega (arith, ih.1),
          ih.2 ∙ add_mod m.bytes_sent (length x) (total length d.sent),
        )
        | inr refused ↦ rw (refused) (refl, omega arith, omega arith)
      ]

  -- A drain ends with its allowance spent, with the queue empty, or at a message that the backend
  -- refused, which is then the first of the queue again.
  pub drain_loop_stops :
      (most : ℕ) (f : F) (q : List Bytes) (m : Metrics)
      → let d = drain_loop fw most f q m in
        (length d.sent ≡ most)
        ⊎ (d.queue ≡ [])
        ⊎ ((g : F) × (x : Bytes) × (rest : List Bytes) × (d.queue ≡ x ∷ rest)
            × ((fw.send g x).1 ≡ false)
            × (d.forwarder ≡ (fw.send g x).0))
  unfolding drain_loop
  drain_loop_stops zero f q m = inl refl
  drain_loop_stops (suc k) f [] m = inr (inl refl)
  drain_loop_stops (suc k) f (x ∷ q) m = elim (Bool-cases (fw.send f x).1) [
    | inl took ↦
        rw took (elim (drain_loop_stops k (fw.send f x).0 q (add_bytes_sent (length x) m)) [
          | inl spent ↦ inl (omega arith)
          | inr later ↦ inr later
        ])
    | inr refused ↦ rw refused (inr (inr (f, x, q, refl, refused, refl)))
  ]

  -- A backend that takes every message is sent the first `most` messages of the queue, or all of it.
  pub drain_loop-accepting :
      (most : ℕ) (f : F) (q : List Bytes) (m : Metrics)
      → ((g : F) (x : Bytes) → (fw.send g x).1 ≡ true)
      → let d = drain_loop fw most f q m in (d.sent ≡ take most q) × (d.queue ≡ drop most q)
  unfolding drain_loop
  drain_loop-accepting zero f q m ok = (refl, refl)
  drain_loop-accepting (suc k) f [] m ok = (refl, refl)
  drain_loop-accepting (suc k) f (x ∷ q) m ok =
      let ih = drain_loop-accepting k (fw.send f x).0 q (add_bytes_sent (length x) m) ok in
      rw (ok f x) (ap (◌∷◌ x) ih.0, ih.1)
