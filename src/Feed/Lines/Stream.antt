-- ===== src/Feed/Lines/Stream.antt =====
-- What `process_buffer` (rust/adsb-pulsar-client/src/client.rs) makes of a stream that arrives in
-- pieces.
use adsb_feed.Prelude.{
  ℕ, ◌≤◌, ◌<◌, ◌≡◌, refl, ap, List, [], ◌∷◌, ◌++◌, Bytes, length, ltb, lt→ltb, ltb→lt, arith, false,
  Bool-cases, inl, inr, if◌then◌else◌,
}
use mathlib.Core.List.{append_assoc, append-nil}
use adsb_feed.Feed.Error.{buffer_overflow, Result, ok, err}
use adsb_feed.Feed.Metrics.{inc_errors}
use adsb_feed.Feed.Lines.{LineState, process_buffer}
use adsb_feed.Feed.Lines.Split.{
  split, keep_all, split_loop_lem, split-append, split_rest, split_clean, keep_all-append,
}

-- The two branches, each under its condition.
pub process_buffer_lem :
    (limit : ℕ) (s : LineState) (chunk : Bytes)
    → let text = s.line_buffer ++ chunk in
      (limit < length text
        → process_buffer limit s chunk ≡ (
          record s { line_buffer = []; metrics = inc_errors s.metrics },
          err (buffer_overflow 0 limit),
        ))
      × (length text ≤ limit
          → process_buffer limit s chunk
            ≡ (record s { line_buffer = (split text).1 }, ok (keep_all (split text).0)))
unfolding process_buffer
process_buffer_lem limit s chunk = (
  λ h. rw (lt→ltb _ _ h),
  λ h. rw (not_ltb h) (
      rw (split_loop_lem (length (s.line_buffer ++ chunk)) (s.line_buffer ++ chunk) (omega arith))),
)
  where
    not_ltb :
        length (s.line_buffer ++ chunk) ≤ limit
        → ltb limit (length (s.line_buffer ++ chunk)) ≡ false
    not_ltb h = ground arith

-- A read that would overfill the buffer is refused: the buffer is dropped, one error is counted and
-- the error reports 0 bytes. Any other read yields the complete lines that are not blank, in order,
-- and leaves the unfinished line in the buffer.
pub process_buffer-eq-split :
    (limit : ℕ) (s : LineState) (chunk : Bytes)
    → let text = s.line_buffer ++ chunk in
      process_buffer limit s chunk ≡ (
        if ltb limit (length text)
        then (
          record s { line_buffer = []; metrics = inc_errors s.metrics },
          err (buffer_overflow 0 limit),
        )
        else (record s { line_buffer = (split text).1 }, ok (keep_all (split text).0)))
process_buffer-eq-split limit s chunk =
    let text = s.line_buffer ++ chunk in
    let l = process_buffer_lem limit s chunk in
    elim (Bool-cases (ltb limit (length text))) [
      | inl e ↦ rw e (l.0 (ltb→lt _ _ e))
      | inr e ↦ rw e (l.1 (ground arith))
    ]

-- The reads of one connection, one after another, until one is refused.
abbrev after :
    LineState × Result (List Bytes)
    → LineState × Result (List Bytes)
    → LineState × Result (List Bytes)
after (t, err e) rest = (t, err e)
after (t, ok ms) (u, ok ns) = (u, ok (ms ++ ns))
after (t, ok ms) (u, err e) = (u, err e)

pub process_all : ℕ → LineState → List Bytes → LineState × Result (List Bytes)
process_all limit s [] = (s, ok [])
process_all limit s (c ∷ cs) =
    let r = process_buffer limit s c in after r (process_all limit r.0 cs)

abbrev pub concat : List Bytes → Bytes
concat [] = []
concat (c ∷ cs) = c ++ concat cs

-- Every read finds room behind the unfinished line that the reads before it left.
abbrev pub Fits : ℕ → Bytes → List Bytes → Type 0
Fits limit rest [] = Unit
Fits limit rest (c ∷ cs) = (length (rest ++ c) ≤ limit) × Fits limit (split (rest ++ c)).1 cs

-- The messages do not depend on how the stream is cut into reads: while every read finds room, they
-- are the lines of the whole text that are not blank, and its unfinished line stays buffered.
pub process_all-eq-split :
    (limit : ℕ) (s : LineState) (chunks : List Bytes)
    → Fits limit s.line_buffer chunks
    → (split s.line_buffer).0 ≡ []
    → let text = s.line_buffer ++ concat chunks in
      process_all limit s chunks
      ≡ (record s { line_buffer = (split text).1 }, ok (keep_all (split text).0))
unfolding process_all keep_all
process_all-eq-split limit s [] fits clean =
    rw (append-nil s.line_buffer, split_clean s.line_buffer clean, clean) refl
process_all-eq-split limit s (c ∷ cs) fits clean =
    rw
      (
        (process_buffer_lem limit s c).1 fits.0,
        process_all-eq-split limit (record s { line_buffer = (split (s.line_buffer ++ c)).1 }) cs
            fits.1 (ap (λ p. p.0) (split_rest (s.line_buffer ++ c))),
      )
      (rw (
        ← append_assoc s.line_buffer c (concat cs),
        split-append (s.line_buffer ++ c) (concat cs),
        keep_all-append (split (s.line_buffer ++ c)).0
            (split ((split (s.line_buffer ++ c)).1 ++ concat cs)).0,
      ))
