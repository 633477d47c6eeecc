-- ===== src/Ingest/Pipeline/Effect.antt =====
-- What messages do to the buffers of the ingest pipeline (rust/adsb-data-engine/src/ingest.rs).
use adsb_feed.Prelude.{
  ℕ, ◌≡◌, refl, sym, ap, ◌∙◌, Option, none, some, ◌>>=◌, List, [], ◌∷◌, ◌++◌, Bytes, bytes_eq,
  bytes_eq_sound, Bool-cases, inl, inr,
}
use mathlib.Core.List.{append-nil, append_assoc}
use adsb_feed.Ingest.Text.{from_utf8}
use adsb_feed.Ingest.Sbs.{AircraftPosition, parse_sbs_message}
use adsb_feed.Ingest.Sbs.Guards.{raw_fields-none}
use adsb_feed.Ingest.Table.{Table, find, upsert, find-upsert}
use adsb_feed.Ingest.Pipeline.{
  RawSbsRecord, Pipeline, count_one, raw_record, take_position, take_raw, take_parsed, absorb_line,
  absorb, absorb_all,
}
use adsb_feed.Ingest.Pipeline.Merging.{own, merge_all}

abbrev pub add : {A : Type 0} → Option A → List A → List A
add none xs = xs
add (some x) xs = x ∷ xs

-- What `f` makes of the messages of a run, in order.
abbrev pub collect : {A : Type 0} → (Bytes → Option A) → List (ℕ × Bytes) → List A
collect f [] = []
collect f (e ∷ rest) = add (f e.1) (collect f rest)

abbrev pub archived : Bytes → Bytes → Option RawSbsRecord
archived source_id bytes = from_utf8 bytes >>= raw_record source_id

module _ {F64 : Type 0} where
  abbrev pub ones : Option ℕ → List (AircraftPosition F64) → Option ℕ
  ones n [] = n
  ones n (p ∷ ps) = ones (some (count_one n)) ps

  ones-upsert :
      (h : Bytes) (p : AircraftPosition F64) (ps : List (AircraftPosition F64)) (c : Table ℕ)
      → ones (find h (upsert p.hex_ident count_one c)) (own h ps) ≡ ones (find h c) (own h (p ∷ ps))
  ones-upsert h p ps c =
      let found = find-upsert h p.hex_ident count_one c in
      elim (Bool-cases (bytes_eq h p.hex_ident)) [
        | inl e ↦ rw (found, e, sym (ap (λ k. find k c) (bytes_eq_sound h p.hex_ident e))) refl
        | inr e ↦ rw (found, e) refl
      ]

  -- What positions and records do to the buffers.
  pub record Effect (ps : List (AircraftPosition F64)) (rs : List RawSbsRecord)
      (s s' : Pipeline F64) : Type 0 where
    pub buffer : s'.buffer ≡ merge_all s.buffer ps
    pub message_counts :
        (h : Bytes) → find h s'.message_counts ≡ ones (find h s.message_counts) (own h ps)
    pub raw_buffer : s'.raw_buffer ≡ s.raw_buffer ++ rs

  Effect-add :
      (o : Option (AircraftPosition F64)) (r : Option RawSbsRecord)
      (ps : List (AircraftPosition F64)) (rs : List RawSbsRecord) (s s' : Pipeline F64)
      → Effect ps rs (take_parsed o (take_raw r s)) s'
      → Effect (add o ps) (add r rs) s s'
  unfolding take_parsed take_position take_raw merge_all
  Effect-add none none ps rs s s' e = e
  Effect-add none (some r) ps rs s s' e = record {
    buffer = e.buffer;
    message_counts = e.message_counts;
    raw_buffer = e.raw_buffer ∙ append_assoc s.raw_buffer (r ∷ []) rs;
  }
  Effect-add (some p) none ps rs s s' e = record {
    buffer = e.buffer;
    message_counts = λ h. e.message_counts h ∙ ones-upsert h p ps s.message_counts;
    raw_buffer = e.raw_buffer;
  }
  Effect-add (some p) (some r) ps rs s s' e = record {
    buffer = e.buffer;
    message_counts = λ h. e.message_counts h ∙ ones-upsert h p ps s.message_counts;
    raw_buffer = e.raw_buffer ∙ append_assoc s.raw_buffer (r ∷ []) rs;
  }

  -- The position of a message, and its record for the archive.
  abbrev pub position_of : (Bytes → Option F64) → Bytes → Option (AircraftPosition F64)
  position_of from_str bytes = from_utf8 bytes >>= parse_sbs_message from_str

  module _ (from_str : Bytes → Option F64) (source_id : Bytes) where
    absorb-Effect :
        (now : ℕ) (bytes : Bytes) (ps : List (AircraftPosition F64)) (rs : List RawSbsRecord)
        (s s' : Pipeline F64)
        → Effect ps rs (absorb from_str source_id now bytes s) s'
        → Effect (add (position_of from_str bytes) ps) (add (archived source_id bytes) rs) s s'
    unfolding absorb absorb_line
    absorb-Effect now bytes ps rs s s' = by_line (from_utf8 bytes)
      where
        s1 : Pipeline F64
        s1 = record s { last_message_time = now }

        by_line :
            (o : Option Bytes)
            → Effect ps rs
                (elim o [ none ↦ s1 | some line ↦ absorb_line from_str source_id line s1 ])
                s'
            → Effect
                (add (o >>= parse_sbs_message from_str) ps)
                (add (o >>= raw_record source_id) rs)
                s
                s'
        by_line none e = record {
          buffer = e.buffer;
          message_counts = e.message_counts;
          raw_buffer = e.raw_buffer;
        }
        by_line (some line) e =
            let k =
              Effect-add (parse_sbs_message from_str line) (raw_record source_id line) ps rs s1 s'
                e in
            record {
              buffer = k.buffer;
              message_counts = k.message_counts;
              raw_buffer = k.raw_buffer;
            }

    pub absorb_all-Effect :
        (events : List (ℕ × Bytes)) (s : Pipeline F64)
        → Effect
            (collect (position_of from_str) events)
            (collect (archived source_id) events)
            s
            (absorb_all from_str source_id events s)
    unfolding absorb_all merge_all
    absorb_all-Effect [] s = record {
      buffer = refl;
      message_counts = λ h. refl;
      raw_buffer = sym (append-nil s.raw_buffer);
    }
    absorb_all-Effect ((now, bytes) ∷ rest) s =
        absorb-Effect now bytes (collect (position_of from_str) rest)
          (collect (archived source_id) rest) s _
          (absorb_all-Effect rest (absorb from_str source_id now bytes s))

    -- Only what parses as a position is archived.
    pub raw_record-none :
        (line : Bytes) → parse_sbs_message from_str line ≡ none → raw_record source_id line ≡ none
    unfolding raw_record
    raw_record-none line h = rw (raw_fields-none from_str line h) refl
