-- ===== src/Ingest/Text.antt =====
-- The parts of Rust's `str` that rust/adsb-data-engine/src/sbs_parser.rs and ingest.rs use.  A text is the
-- list of its characters, as code points.
use adsb_feed.Prelude.{
  ℕ, ◌+◌, ◌-◌, ◌*◌, Bool, ◌&&◌, ◌||◌, Option, none, some, List, [], ◌∷◌, Bytes, ltb, leb, ◌==◌,
  if◌then◌else◌, is_empty,
}
use mathlib.Core.Option

abbrev pub between : ℕ → ℕ → ℕ → Bool
between lo hi c = leb lo c && leb c hi

-- A character under construction: the continuation bytes still wanted, the bounds of the next one, and
-- the bits so far.
pub record Lead : Type 0 where
  pub wanted : ℕ
  pub lo : ℕ
  pub hi : ℕ
  pub bits : ℕ

-- What the first byte of a character asks for; the narrower bounds shut out overlong forms, surrogates
-- and code points above 0x10FFFF.
unfoldable pub lead : ℕ → Option Lead
lead b =
    if ltb b 128
    then some (record { wanted = 0; lo = 128; hi = 191; bits = b })
    else if between 194 223 b
    then some (record { wanted = 1; lo = 128; hi = 191; bits = b - 192 })
    else if b == 224
    then some (record { wanted = 2; lo = 160; hi = 191; bits = 0 })
    else if b == 237
    then some (record { wanted = 2; lo = 128; hi = 159; bits = 13 })
    else if between 225 239 b
    then some (record { wanted = 2; lo = 128; hi = 191; bits = b - 224 })
    else if b == 240
    then some (record { wanted = 3; lo = 144; hi = 191; bits = 0 })
    else if between 241 243 b
    then some (record { wanted = 3; lo = 128; hi = 191; bits = b - 240 })
    else if b == 244
    then some (record { wanted = 3; lo = 128; hi = 143; bits = 4 })
    else none

-- The state between two bytes: `none` at the start of a character.
unfoldable pub utf8 : Option Lead → Bytes → Option Bytes
unfolding lead
utf8 none [] = some []
utf8 (some l) [] = none
utf8 none (b ∷ bs) = elim (lead b) [
  | none ↦ none
  | some l ↦
      if l.wanted == 0 then Option.map (λ cs. l.bits ∷ cs) (utf8 none bs) else utf8 (some l) bs
]
utf8 (some l) (b ∷ bs) =
    let bits = l.bits * 64 + (b - 128) in
    let last = Option.map (λ cs. bits ∷ cs) (utf8 none bs) in
    let more = utf8 (some (record { wanted = l.wanted - 1; lo = 128; hi = 191; bits = bits })) bs in
    if between l.lo l.hi b then (if l.wanted == 1 then last else more) else none

-- `std::str::from_utf8`.
unfoldable pub from_utf8 : Bytes → Option Bytes
unfolding utf8
from_utf8 bs = utf8 none bs

-- `char::is_whitespace`.
abbrev pub is_whitespace : ℕ → Bool
is_whitespace c =
    between 9 13 c
    || c == 32
    || c == 133
    || c == 160
    || c == 5760
    || between 8192 8202 c
    || c == 8232
    || c == 8233
    || c == 8239
    || c == 8287
    || c == 12288

unfoldable pub trim_start : Bytes → Bytes
trim_start [] = []
trim_start (c ∷ cs) = if is_whitespace c then trim_start cs else c ∷ cs

unfoldable pub trim_end : Bytes → Bytes
trim_end [] = []
trim_end (c ∷ cs) =
    let rest = trim_end cs in if is_whitespace c && is_empty rest then [] else c ∷ rest

unfoldable pub trim : Bytes → Bytes
unfolding trim_start trim_end
trim cs = trim_end (trim_start cs)

abbrev pub prefix : ℕ → List Bytes → List Bytes
prefix c [] = (c ∷ []) ∷ []
prefix c (f ∷ fs) = (c ∷ f) ∷ fs

-- `split(c).collect()`: always one piece more than there are separators.
unfoldable pub split_on : ℕ → Bytes → List Bytes
split_on sep [] = [] ∷ []
split_on sep (c ∷ cs) = let rest = split_on sep cs in if c == sep then [] ∷ rest else prefix c rest

abbrev pub is_digit : ℕ → Bool
is_digit c = between 48 57 c

-- The value of digits, behind the value of those in front; `none` above `u8::MAX`.
unfoldable pub digits : ℕ → Bytes → Option ℕ
digits n [] = some n
digits n (c ∷ cs) =
    let next = n * 10 + (c - 48) in
    let rest = digits next cs in if is_digit c && leb next 255 then rest else none

-- `parse::<u8>().ok()`: a plus sign may stand before the digits, of which there is at least one.
unfoldable pub parse_u8 : Bytes → Option ℕ
unfolding digits
parse_u8 [] = none
parse_u8 (c ∷ []) = digits 0 (c ∷ [])
parse_u8 (c ∷ d ∷ cs) = if c == b'+' then digits 0 (d ∷ cs) else digits 0 (c ∷ d ∷ cs)
