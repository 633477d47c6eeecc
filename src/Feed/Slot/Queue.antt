-- ===== src/Feed/Slot/Queue.antt =====
-- What the bounded retry queue of rust/adsb-pulsar-client/src/client.rs holds.
use adsb_feed.Prelude.{
  ℕ, zero, suc, ◌-◌, ◌≤◌, ◌<◌, ◌≡◌, refl, List, [], ◌∷◌, ◌++◌, Bytes, length, drop, ltb, arith,
  length-append, lt→ltb, false,
}
use mathlib.Core.List.{append_assoc, append-nil}
use adsb_feed.Feed.Slot.{enqueue}
use native.Mathlib.Decide.{dec_lt}

-- Messages queued one after another.
pub enqueue_all : ℕ → List Bytes → List Bytes → List Bytes
enqueue_all cap q [] = q
enqueue_all cap q (m ∷ ms) = enqueue_all cap (enqueue cap q m) ms

length-drop : (n : ℕ) (xs : List Bytes) → length (drop n xs) ≡ length xs - n
length-drop zero xs = omega arith
length-drop (suc n) [] = omega arith
length-drop (suc n) (x ∷ xs) = omega (arith, length-drop n xs)

drop-append : (n : ℕ) (xs ys : List Bytes) → n ≤ length xs → drop n (xs ++ ys) ≡ drop n xs ++ ys
drop-append zero xs ys h = refl
drop-append (suc n) [] ys h = absurd (omega arith)
drop-append (suc n) (x ∷ xs) ys h = drop-append n xs ys (omega arith)

drop-suc : (n : ℕ) (xs : List Bytes) → drop 1 (drop n xs) ≡ drop (suc n) xs
drop-suc zero xs = refl
drop-suc (suc n) [] = refl
drop-suc (suc n) (x ∷ xs) = drop-suc n xs

-- The `cap` newest of a sequence.
abbrev pub newest : ℕ → List Bytes → List Bytes
newest cap ms = drop (length ms - cap) ms

room :
    (cap : ℕ) (ms : List Bytes) (m : Bytes)
    → length ms < cap
    → enqueue cap (newest cap ms) m ≡ newest cap (ms ++ m ∷ [])
unfolding enqueue
room cap ms m h =
    let none_dropped : length ms - cap ≡ 0 = omega arith in
    let still_none : length (ms ++ m ∷ []) - cap ≡ 0 = omega (arith, length-append ms (m ∷ [])) in
    rw (none_dropped, still_none, lt→ltb _ _ h)

full :
    (cap : ℕ) (ms : List Bytes) (m : Bytes)
    → 0 < cap
    → cap ≤ length ms
    → enqueue cap (newest cap ms) m ≡ newest cap (ms ++ m ∷ [])
unfolding enqueue
full cap ms m h f =
    let k = length ms - cap in
    let one_more : length (ms ++ m ∷ []) - cap ≡ suc k = omega (arith, length-append ms (m ∷ [])) in
    let at_cap : ltb (length (drop k ms)) cap ≡ false = ground (arith, length-drop k ms) in
    rw (one_more, at_cap, drop-append (suc k) ms (m ∷ []) (omega arith), drop-suc k ms)

-- A queue that holds the newest messages still does after one more.
enqueue-newest :
    (cap : ℕ) (ms : List Bytes) (m : Bytes)
    → 0 < cap
    → enqueue cap (newest cap ms) m ≡ newest cap (ms ++ m ∷ [])
enqueue-newest cap ms m h = elim (dec_lt (length ms) cap) [
  | yes few ↦ room cap ms m few
  | no many ↦ full cap ms m h (omega arith)
]

-- Whatever failed before, a queue of positive capacity `cap` holds the `cap` newest of the messages
-- that were queued, in the order of their arrival.
pub enqueue_all-newest :
    (cap : ℕ) (ms ns : List Bytes)
    → 0 < cap
    → enqueue_all cap (newest cap ms) ns ≡ newest cap (ms ++ ns)
unfolding enqueue_all
enqueue_all-newest cap ms [] h = rw append-nil
enqueue_all-newest cap ms (n ∷ ns) h = rw (
  enqueue-newest cap ms n h,
  enqueue_all-newest cap (ms ++ n ∷ []) ns h,
  append_assoc ms (n ∷ []) ns,
)
