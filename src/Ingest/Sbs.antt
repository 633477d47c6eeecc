-- ===== src/Ingest/Sbs.antt =====
-- rust/adsb-data-engine/src/sbs_parser.rs.
pub mod Guards
pub mod RoundTrip
use adsb_feed.Prelude.{
  ℕ, Bool, true, false, ◌&&◌, ◌||◌, not, Option, none, some, List, [], ◌∷◌, ◌++◌, Bytes, length,
  get_elem?, bytes_eq, ltb, if◌then◌else◌, is_empty,
}
use mathlib.Core.Option.{get_or}
use adsb_feed.Ingest.Text.{trim, split_on, parse_u8}

pub record AircraftPosition (F64 : Type 0) : Type 0 where
  pub hex_ident : Bytes
  pub callsign : Option Bytes
  pub altitude : Option F64
  pub ground_speed : Option F64
  pub track : Option F64
  pub latitude : Option F64
  pub longitude : Option F64
  pub vertical_rate : Option F64
  pub squawk : Option Bytes
  pub is_on_ground : Option Bool
  pub timestamp : Bytes
  pub message_count : ℕ

abbrev pub comma : ℕ
comma = b','

abbrev pub msg : Bytes
msg = b'M' ∷ b'S' ∷ b'G' ∷ []

abbrev pub msg_comma : Bytes
msg_comma = b'M' ∷ b'S' ∷ b'G' ∷ comma ∷ []

-- "000000", the identity of a receiver's heartbeat.
abbrev pub receiver : Bytes
receiver = b'0' ∷ b'0' ∷ b'0' ∷ b'0' ∷ b'0' ∷ b'0' ∷ []

abbrev zero_text : Bytes
zero_text = b'0' ∷ []

abbrev one_text : Bytes
one_text = b'1' ∷ []

abbrev minus_one : Bytes
minus_one = b'-' ∷ b'1' ∷ []

-- `fields[i]`; the length is tested first, so the default is not reached.
unfoldable pub field : List Bytes → ℕ → Bytes
field fields i = get_or (get_elem? fields i) []

unfoldable pub non_empty : Bytes → Option Bytes
non_empty s = let trimmed = trim s in if is_empty trimmed then none else some trimmed

unfoldable pub parse_bool : Bytes → Option Bool
unfolding bytes_eq
parse_bool s =
    let trimmed = trim s in
    if bytes_eq trimmed zero_text || bytes_eq trimmed minus_one
    then some false
    else if bytes_eq trimmed one_text
    then some true
    else none

-- The tests that both parsers begin with.
unfoldable pub parse_sbs_raw_fields : Bytes → Option (Bytes × Bytes × Option ℕ)
unfolding field bytes_eq
parse_sbs_raw_fields line =
    let fields = split_on comma line in
    if ltb (length fields) 22
    then none
    else if not (bytes_eq (trim (field fields 0)) msg)
    then none
    else let hex_ident = trim (field fields 4) in
      if is_empty hex_ident || bytes_eq hex_ident receiver
      then none
      else some (hex_ident, msg_comma ++ trim (field fields 1), parse_u8 (trim (field fields 1)))

unfoldable pub extract_sbs_timestamp : Bytes → Option Bytes
unfolding field
extract_sbs_timestamp line =
    let fields = split_on comma line in
    let date = trim (field fields 6) in
    let time = trim (field fields 7) in
    if ltb (length fields) 8
    then none
    else if is_empty date && is_empty time
    then none
    else some (date ++ (b' ' ∷ []) ++ time)

-- `from_str` is `parse::<f64>().ok()`.
module _ {F64 : Type 0} (from_str : Bytes → Option F64) where
  unfoldable pub parse_f64 : Bytes → Option F64
  parse_f64 s = from_str (trim s)

  unfoldable pub parse_sbs_message : Bytes → Option (AircraftPosition F64)
  unfolding field bytes_eq
  parse_sbs_message line =
      let fields = split_on comma line in
      if ltb (length fields) 22
      then none
      else if not (bytes_eq (trim (field fields 0)) msg)
      then none
      else let hex_ident = trim (field fields 4) in
        if is_empty hex_ident || bytes_eq hex_ident receiver
        then none
        else some (record {
          hex_ident = hex_ident;
          callsign = non_empty (field fields 10);
          altitude = parse_f64 (field fields 11);
          ground_speed = parse_f64 (field fields 12);
          track = parse_f64 (field fields 13);
          latitude = parse_f64 (field fields 14);
          longitude = parse_f64 (field fields 15);
          vertical_rate = parse_f64 (field fields 16);
          squawk = non_empty (field fields 17);
          is_on_ground = parse_bool (field fields 21);
          timestamp = trim (field fields 6) ++ (b' ' ∷ []) ++ trim (field fields 7);
          message_count = 0;
        })
