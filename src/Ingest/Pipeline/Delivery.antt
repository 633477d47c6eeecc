-- ===== src/Ingest/Pipeline/Delivery.antt =====
-- What the ingest pipeline of rust/adsb-data-engine/src/ingest.rs gives out at the end of a window.
use adsb_feed.Prelude.{
  ℕ, ◌+◌, ◌%◌, ◌≡◌, refl, sym, ap, ◌∙◌, subst, Bool, true, Option, none, some, List, [], ◌∷◌, ◌++◌,
  map, length, Bytes, if_cases, is_empty, arith,
}
use mathlib.Core.Option
use adsb_feed.Time.{u64_mod}
use adsb_feed.Ingest.Text.{from_utf8}
use adsb_feed.Ingest.Sbs.{AircraftPosition}
use adsb_feed.Ingest.Table.{Table, find}
use adsb_feed.Ingest.Pipeline.{
  Pipeline, raw_record, drain, flush, flush_positions, flush_raw, absorb_line, absorb, absorb_all,
}
use adsb_feed.Ingest.Pipeline.Merging.{own, merge_all, Known, Holds, merge_all-Holds}
use adsb_feed.Ingest.Pipeline.Window.{
  lookup, counted, lookup-attach, lookup-values, Valid, Keyed, Matched, take_parsed-Valid,
  take_raw-Valid, find-drain, empty_matched,
}
use adsb_feed.Ingest.Pipeline.Effect.{
  collect, ones, Effect, position_of, archived, absorb_all-Effect,
}

module _ {F64 : Type 0} where
  empty-eq : (b : Table (AircraftPosition F64)) → is_empty b ≡ true → b ≡ []
  empty-eq [] e = refl
  empty-eq (x ∷ b) e = cc

  -- What the next window begins with.
  pub record Fresh (s : Pipeline F64) : Type 0 where
    pub buffer : s.buffer ≡ []
    pub message_counts : (h : Bytes) → find h s.message_counts ≡ none
    pub raw_buffer : s.raw_buffer ≡ []

  Fresh-Valid : (s : Pipeline F64) → Fresh s → Valid s
  unfolding find
  Fresh-Valid s f = record {
    keyed = subst Keyed (sym f.buffer) tt;
    matched = λ h. rw (f.buffer, find, f.message_counts h) refl;
  }

  Drained : Pipeline F64 → Type 0
  Drained s = (s.buffer ≡ []) × ((h : Bytes) → find h s.message_counts ≡ none)

  flush_positions-Drained :
      (attached record_positions : Bool) (s : Pipeline F64)
      → Valid s
      → Drained (flush_positions attached record_positions s)
  unfolding flush_positions Drained
  flush_positions-Drained attached record_positions s v =
      if_cases Drained (is_empty s.buffer) _ _
        (λ e. (
          empty-eq s.buffer e,
          λ h. counts_of h (find h s.buffer) (empty_matched s.buffer e h) (v.matched h),
        ))
        (λ e. (refl, λ h. find-drain s h v))
    where
      counts_of :
          (h : Bytes) (o : Option (AircraftPosition F64))
          → o ≡ none
          → Matched o (find h s.message_counts)
          → find h s.message_counts ≡ none
      counts_of h none e m = m
      counts_of h (some p) e m = cc

  -- A flush leaves nothing behind for the next window, whatever the toggles say and whether storage is
  -- attached or not, if the two tables were of the same aircraft.
  pub flush-Fresh :
      (attached record_positions record_raw : Bool) (s : Pipeline F64)
      → Valid s
      → Fresh (flush attached record_positions record_raw s)
  unfolding flush flush_raw Drained
  flush-Fresh attached record_positions record_raw s v =
      let d = flush_positions-Drained attached record_positions s v in
      record { buffer = d.0; message_counts = d.1; raw_buffer = refl }

  ones-length :
      (k : ℕ) (ps : List (AircraftPosition F64))
      → ones (some (k % u64_mod)) ps ≡ some ((k + length ps) % u64_mod)
  ones-length k [] = ap some (omega arith)
  ones-length k (p ∷ ps) =
      ap (λ n. ones (some n) ps) (one_more k) ∙ ones-length (k + 1) ps ∙ ap some (omega arith)
    where
      one_more : (k : ℕ) → (k % u64_mod + 1) % u64_mod ≡ (k + 1) % u64_mod
      one_more k = omega arith

  -- What a batch says of an aircraft with the positions `ps` in the window.
  abbrev pub Reported : List (AircraftPosition F64) → Option (AircraftPosition F64) → Type 0
  Reported [] r = r ≡ none
  Reported (p ∷ ps) r =
      (q : AircraftPosition F64) × (r ≡ some q)
      × Known p ps q
      × (q.message_count ≡ length (p ∷ ps) % u64_mod)

  counted-Reported :
      (ps : List (AircraftPosition F64)) (r : Option (AircraftPosition F64)) (n : Option ℕ)
      → Holds none ps r
      → n ≡ ones none ps
      → Reported ps (Option.map (counted n) r)
  counted-Reported [] r n h e = ap (Option.map (counted n)) h
  counted-Reported (p ∷ ps) r n (q, e, k) c = (
    counted n q,
    ap (Option.map (counted n)) e,
    record {
      hex_ident = k.hex_ident;
      callsign = k.callsign;
      altitude = k.altitude;
      ground_speed = k.ground_speed;
      track = k.track;
      latitude = k.latitude;
      longitude = k.longitude;
      vertical_rate = k.vertical_rate;
      squawk = k.squawk;
      is_on_ground = k.is_on_ground;
      timestamp = k.timestamp;
    },
    ap (λ m. Option.get_or m q.message_count) (c ∙ ones-length 1 ps) ∙ omega arith,
  )

  module _ (from_str : Bytes → Option F64) (source_id : Bytes) where
    absorb-Valid :
        (now : ℕ) (bytes : Bytes) (s : Pipeline F64)
        → Valid s
        → Valid (absorb from_str source_id now bytes s)
    unfolding absorb absorb_line
    absorb-Valid now bytes s v = by_line (from_utf8 bytes)
      where
        s1 : Pipeline F64
        s1 = record s { last_message_time = now }

        v1 : Valid s1
        v1 = record { keyed = v.keyed; matched = v.matched }

        by_line :
            (o : Option Bytes)
            → Valid (elim o [ none ↦ s1 | some line ↦ absorb_line from_str source_id line s1 ])
        by_line none = v1
        by_line (some line) =
            take_parsed-Valid _ _ (take_raw-Valid (raw_record source_id line) s1 v1)

    pub absorb_all-Valid :
        (events : List (ℕ × Bytes)) (s : Pipeline F64)
        → Valid s
        → Valid (absorb_all from_str source_id events s)
    unfolding absorb_all
    absorb_all-Valid [] s v = v
    absorb_all-Valid ((now, bytes) ∷ rest) s v =
        absorb_all-Valid rest (absorb from_str source_id now bytes s) (absorb-Valid now bytes s v)

    -- The batch that is drained at the end of a window that began fresh: for every aircraft of which a
    -- message could be parsed, its first entry has the last known value of each field, the last
    -- timestamp, and the number of its messages modulo 64 bits; of no other aircraft is there an entry.
    -- The raw buffer holds the records of the messages, in order, until the flush, which leaves a fresh
    -- window behind, whatever the toggles say.
    pub window-Reported :
        (events : List (ℕ × Bytes)) (attached record_positions record_raw : Bool) (s : Pipeline F64)
        → Fresh s
        → let s' = absorb_all from_str source_id events s in
          ((h : Bytes)
            → Reported (own h (collect (position_of from_str) events)) (lookup h (drain s').0))
          × (s'.raw_buffer ≡ collect (archived source_id) events)
          × Fresh (flush attached record_positions record_raw s')
    unfolding drain find
    window-Reported events attached record_positions record_raw s f =
        let v = absorb_all-Valid events s (Fresh-Valid s f) in
        let k = absorb_all-Effect from_str source_id events s in
        (
          λ h. batch h v k,
          k.raw_buffer ∙ ap (λ rs. rs ++ collect (archived source_id) events) f.raw_buffer,
          flush-Fresh attached record_positions record_raw _ v,
        )
      where
        s' : Pipeline F64
        s' = absorb_all from_str source_id events s

        ps : List (AircraftPosition F64)
        ps = collect (position_of from_str) events

        batch :
            (h : Bytes)
            → Valid s'
            → Effect ps (collect (archived source_id) events) s s'
            → Reported (own h ps) (lookup h (drain s').0)
        batch h v k =
            rw
              (
                lookup-attach h (map (λ e. e.1) s'.buffer) s'.message_counts,
                lookup-values h s'.buffer v.keyed,
              )
              (counted-Reported (own h ps) (find h s'.buffer) (find h s'.message_counts)
                (subst (λ b. Holds none (own h ps) (find h b))
                  (sym (k.buffer ∙ ap (λ b. merge_all b ps) f.buffer)) (merge_all-Holds h [] ps))
                (k.message_counts h ∙ ap (λ n. ones n (own h ps)) (f.message_counts h)))
