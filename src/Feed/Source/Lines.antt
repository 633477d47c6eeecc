-- ===== src/Feed/Source/Lines.antt =====
-- What `split_lines` and `LivenessPolicy` of rust/adsb-pulsar-client/src/source/mod.rs give.
use adsb_feed.Prelude.{
  ℕ, ◌≤◌, ◌≡◌, false, List, [], ◌∷◌, Bytes, All, ◌==◌, if_intro, if_cases, is_empty, arith,
}
use adsb_feed.Time.{Duration}
use adsb_feed.Feed.Source.{
  SourceStatus, disconnected, connecting, connected, Liveness, coming_up, healthy, degraded, lost,
  prefix, pieces, strip_cr, clean, split_lines, LivenessPolicy, resolve,
}

-- One line: not empty, and no newline in it.
abbrev pub NoNewline : Bytes → Type 0
NoNewline = All (λ b. (b == b'\n') ≡ false)

abbrev pub IsLine : Bytes → Type 0
IsLine l = (is_empty l ≡ false) × NoNewline l

prefix-NoNewline :
    (b : ℕ) (ls : List Bytes)
    → (b == b'\n') ≡ false
    → All NoNewline ls
    → All NoNewline (prefix b ls)
prefix-NoNewline b [] h k = ((h, tt), tt)
prefix-NoNewline b (l ∷ ls) h k = ((h, k.0), k.1)

pieces-NoNewline : (bs : Bytes) → All NoNewline (pieces bs)
unfolding pieces
pieces-NoNewline [] = (tt, tt)
pieces-NoNewline (b ∷ bs) =
    if_cases (All NoNewline) (b == b'\n') _ _ (λ e. (tt, pieces-NoNewline bs))
      (λ e. prefix-NoNewline b (pieces bs) e (pieces-NoNewline bs))

strip_cr-NoNewline : (l : Bytes) → NoNewline l → NoNewline (strip_cr l)
unfolding strip_cr
strip_cr-NoNewline [] k = tt
strip_cr-NoNewline (b ∷ bs) k =
    if_intro NoNewline (b == b'\r') _ _
      (if_intro NoNewline (is_empty bs) _ _ tt (k.0, strip_cr-NoNewline bs k.1))
      (k.0, strip_cr-NoNewline bs k.1)

clean-IsLine : (ls : List Bytes) → All NoNewline ls → All IsLine (clean ls)
unfolding clean
clean-IsLine [] k = tt
clean-IsLine (l ∷ ls) k =
    if_cases (All IsLine) (is_empty (strip_cr l)) _ _ (λ e. clean-IsLine ls k.1)
      (λ e. ((e, strip_cr-NoNewline l k.0), clean-IsLine ls k.1))

-- Every message that is broadcast is one line: it is not empty and has no newline in it.
pub split_lines-IsLine : (payload : Bytes) → All IsLine (split_lines payload)
unfolding split_lines
split_lines-IsLine payload = clean-IsLine (pieces payload) (pieces-NoNewline payload)

-- How bad a verdict is; a feed that is coming up is not bad.
abbrev pub badness : Liveness → ℕ
badness healthy = 0
badness coming_up = 0
badness degraded = 1
badness lost = 2

-- Whatever the policy and the status of the transport, a feed's verdict only gets worse by being quiet for
-- longer.
pub resolve_mono :
    (policy : LivenessPolicy) (status : SourceStatus) (q r : Duration)
    → q ≤ r
    → badness (resolve policy status q) ≤ badness (resolve policy status r)
unfolding resolve
resolve_mono policy disconnected q r h = omega arith
resolve_mono policy connecting q r h = omega arith
resolve_mono policy connected q r h = ground arith
