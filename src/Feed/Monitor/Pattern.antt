-- ===== src/Feed/Monitor/Pattern.antt =====
-- What the window search of rust/adsb-pulsar-client/src/connection_monitor.rs finds.
use adsb_feed.Prelude.{
  ℕ, ◌≡◌, refl, ap, ◌↔◌, true, some, [], ◌∷◌, ◌++◌, Bytes, arith, Bool-cases, inl, inr,
}
use adsb_feed.Feed.Monitor.{ConnectionMonitor, starts_with, any_window, is_heartbeat}

starts_with_sound : (p bs : Bytes) → starts_with p bs ≡ true → (post : Bytes) × (bs ≡ p ++ post)
unfolding starts_with
starts_with_sound [] bs h = (bs, refl)
starts_with_sound (p ∷ ps) [] h = cc
starts_with_sound (p ∷ ps) (b ∷ bs) h =
    let (post, e) = starts_with_sound ps bs (ground arith) in (post, ground arith)

starts_with_complete : (p post : Bytes) → starts_with p (p ++ post) ≡ true
unfolding starts_with
starts_with_complete [] post = refl
starts_with_complete (p ∷ ps) post = ground (arith, starts_with_complete ps post)

-- The pattern stands in the line, with something before and behind it.
abbrev pub Stands : Bytes → Bytes → Type 0
Stands pattern line = (pre : Bytes) × (post : Bytes) × (line ≡ pre ++ (pattern ++ post))

any_window_sound : (p bs : Bytes) → any_window p bs ≡ true → Stands p bs
unfolding any_window
any_window_sound p [] h = cc
any_window_sound p (b ∷ bs) h = elim (Bool-cases (starts_with p (b ∷ bs))) [
  | inl here ↦ let (post, e) = starts_with_sound p (b ∷ bs) here in ([], post, e)
  | inr later ↦
      let (pre, post, e) = any_window_sound p bs (ground arith) in (b ∷ pre, post, ap (◌∷◌ b) e)
]

any_window_complete :
    (c : ℕ) (cs pre post : Bytes) → any_window (c ∷ cs) (pre ++ ((c ∷ cs) ++ post)) ≡ true
unfolding any_window
any_window_complete c cs [] post = rw (starts_with_complete (c ∷ cs) post)
any_window_complete c cs (x ∷ pre) post = ground (arith, any_window_complete c cs pre post)

-- A line counts as a heartbeat exactly when the configured pattern, which is not empty, stands
-- somewhere in it.
pub is_heartbeat_iff :
    (m : ConnectionMonitor) (c : ℕ) (cs line : Bytes)
    → m.heartbeat_pattern ≡ some (c ∷ cs)
    → (is_heartbeat m line ≡ true) ↔ Stands (c ∷ cs) line
unfolding is_heartbeat
is_heartbeat_iff m c cs line h =
    rw (h, is_heartbeat)
      (any_window_sound (c ∷ cs) line, λ w. rw w.2 (any_window_complete c cs w.0 w.1))
