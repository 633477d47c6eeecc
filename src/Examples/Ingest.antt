-- ===== src/Examples/Ingest.antt =====
-- The ingest pipeline's theorems at concrete inputs.
use adsb_feed.Prelude.{
  bytes_eq, All, arith, ℕ, zero, suc, ◌≡◌, refl, true, Option, none, some, List, [], ◌∷◌, ◌++◌,
  Bytes,
}
use mathlib.Core.Option
use adsb_feed.Ingest.Sbs.RoundTrip.{join, NoComma, parse_sbs_raw_fields-join}
use adsb_feed.Ingest.Text.{trim, parse_u8}
use adsb_feed.Ingest.Sbs.{
  AircraftPosition, comma, msg, msg_comma, parse_sbs_raw_fields, parse_sbs_message,
}
use adsb_feed.Ingest.Sbs.Guards.{raw_fields-eq-message}
use adsb_feed.Ingest.Table.{find}
use adsb_feed.Ingest.Pipeline.{Pipeline, flush, drain, absorb_all}
use adsb_feed.Ingest.Pipeline.Merging.{own, merge_all, Holds, merge_all-Holds}
use adsb_feed.Ingest.Pipeline.Window.{lookup}
use adsb_feed.Ingest.Pipeline.Effect.{collect, position_of, archived}
use adsb_feed.Ingest.Pipeline.Delivery.{Fresh, Reported, window-Reported}

abbrev hex : Bytes
hex = b'A' ∷ b'1' ∷ []

abbrev commas : ℕ → Bytes
commas zero = []
commas (suc n) = comma ∷ commas n

-- "MSG,3,,,A1,,,,,,,35,,,,,,,,,,0".
abbrev line : Bytes
line =
    msg
    ++ (comma ∷ b'3' ∷ commas 3)
    ++ hex
    ++ commas 7
    ++ (b'3' ∷ b'5' ∷ [])
    ++ commas 10
    ++ (b'0' ∷ [])

abbrev broken : Bytes
broken = msg ++ commas 3

abbrev empty : Pipeline ℕ
empty = record {
  last_message_time = 0;
  messages_parsed = 0;
  buffer = [];
  message_counts = [];
  raw_buffer = [];
  stored = [];
  stored_raw = [];
  sunk = [];
}

abbrev position : Option Bytes → Option ℕ → AircraftPosition ℕ
position callsign altitude = record {
  hex_ident = hex;
  callsign = callsign;
  altitude = altitude;
  ground_speed = none;
  track = none;
  latitude = none;
  longitude = none;
  vertical_rate = none;
  squawk = none;
  is_on_ground = none;
  timestamp = [];
  message_count = 0;
}

raw_fields-eq-message_example :
    Option.map (λ r. r.0) (parse_sbs_raw_fields line)
    ≡ Option.map (λ p. p.hex_ident) (parse_sbs_message parse_u8 line)
raw_fields-eq-message_example = raw_fields-eq-message parse_u8 line

merge_all-Holds_example :
    Holds
      (find hex [])
      (own hex (position (some hex) none ∷ position none (some 35) ∷ []))
      (find hex (merge_all [] (position (some hex) none ∷ position none (some 35) ∷ [])))
merge_all-Holds_example =
    merge_all-Holds hex [] (position (some hex) none ∷ position none (some 35) ∷ [])

abbrev events : List (ℕ × Bytes)
events = (1, line) ∷ (2, broken) ∷ (3, line) ∷ []

window-Reported_example :
    let s' = absorb_all parse_u8 hex events empty in
    ((h : Bytes) → Reported (own h (collect (position_of parse_u8) events)) (lookup h (drain s').0))
    × (s'.raw_buffer ≡ collect (archived hex) events)
    × Fresh (flush true true true s')
unfolding find
window-Reported_example =
    window-Reported parse_u8 hex events true true true empty
      (record { buffer = refl; message_counts = λ h. refl; raw_buffer = refl })

abbrev empties : ℕ → List Bytes
empties zero = []
empties (suc n) = [] ∷ empties n

empties-NoComma : (n : ℕ) → All NoComma (empties n)
empties-NoComma zero = tt
empties-NoComma (suc n) = (tt, empties-NoComma n)

parse_sbs_raw_fields-join_example :
    parse_sbs_raw_fields (join msg ((b'3' ∷ []) ∷ [] ∷ [] ∷ hex ∷ empties 17))
    ≡ some (hex, msg_comma ++ trim (b'3' ∷ []), parse_u8 (trim (b'3' ∷ [])))
unfolding trim bytes_eq
parse_sbs_raw_fields-join_example =
    parse_sbs_raw_fields-join (b'3' ∷ []) [] [] hex (empties 17)
      (
        (refl, (refl, (refl, tt))),
        ((refl, tt), (tt, (tt, ((refl, (refl, tt)), empties-NoComma 17)))),
      )
      (omega arith) refl refl refl
