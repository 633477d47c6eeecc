-- ===== src/Feed/Lines.antt =====
-- The line buffer of rust/adsb-pulsar-client/src/client.rs (`process_buffer`).
pub mod Split
pub mod Stream
use adsb_feed.Prelude.{
  ℕ, zero, suc, ◌+◌, Bool, true, false, ◌&&◌, ◌||◌, not, Option, none, some, List, [], ◌∷◌, ◌++◌,
  Bytes, length, take, drop, ltb, ◌==◌, if◌then◌else◌, is_empty,
}
use adsb_feed.Feed.Error.{ClientError, buffer_overflow, Result, ok, err}
use adsb_feed.Feed.Metrics.{Metrics, inc_errors}
use mathlib.Core.Option

abbrev pub newline : ℕ
newline = b'\n'

-- `iter().position(|&b| b == c)`.
unfoldable pub position : ℕ → Bytes → Option ℕ
position c [] = none
position c (b ∷ bs) = if b == c then some 0 else Option.map suc (position c bs)

-- `u8::is_ascii_whitespace`: space, tab, line feed, form feed, carriage return.
abbrev pub is_ascii_whitespace : ℕ → Bool
is_ascii_whitespace b = b == b' ' || b == 9 || b == 10 || b == 12 || b == 13

-- `line.iter().any(|&b| !b.is_ascii_whitespace())`.
unfoldable pub any_visible : Bytes → Bool
any_visible [] = false
any_visible (b ∷ bs) = not (is_ascii_whitespace b) || any_visible bs

-- A line is kept unless it is empty or blank.
unfoldable pub keep : Bytes → List Bytes → List Bytes
keep line messages = if not (is_empty line) && any_visible line then line ∷ messages else messages

-- The `while let` loop: split off a line (`split_to`), skip the newline (`advance`), go on. Each round
-- shortens the buffer, so its length is enough fuel (`split_loop_lem`).
unfoldable pub split_loop : ℕ → Bytes → List Bytes × Bytes
split_loop zero buffer = ([], buffer)
split_loop (suc fuel) buffer = elim (position newline buffer) [
  | none ↦ ([], buffer)
  | some at ↦
      let (messages, rest) = split_loop fuel (drop (suc at) buffer) in
      (keep (take at buffer) messages, rest)
]

-- What `process_buffer` reads and writes of the client.
pub record LineState : Type 0 where
  pub line_buffer : Bytes
  pub metrics : Metrics

-- The buffer is cleared before the error is built, so `current` is read from the empty buffer.
unfoldable pub process_buffer : ℕ → LineState → Bytes → LineState × Result (List Bytes)
process_buffer limit s chunk =
    let buffer = s.line_buffer ++ chunk in
    let (messages, rest) = split_loop (length buffer) buffer in
    let cleared = record s { line_buffer = []; metrics = inc_errors s.metrics } in
    if ltb limit (length buffer)
    then (cleared, err (buffer_overflow (length cleared.line_buffer) limit))
    else (record s { line_buffer = rest }, ok messages)
