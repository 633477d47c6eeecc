-- ===== src/Ingest/Pipeline/Merging.antt =====
-- What `merge_into_buffer` of rust/adsb-data-engine/src/ingest.rs keeps of each aircraft.
use adsb_feed.Prelude.{
  ◌≡◌, refl, sym, ap, subst, bytes_eq_sound, Option, none, some, or, List, [], ◌∷◌, Bytes, bytes_eq,
  if◌then◌else◌, Bool-cases, inl, inr,
}
use adsb_feed.Ingest.Sbs.{AircraftPosition}
use adsb_feed.Ingest.Table.{Table, find, find-upsert}
use adsb_feed.Ingest.Pipeline.{merged, merge_entry, merge_into_buffer}

module _ {F64 : Type 0} where
  unfoldable pub merge_all :
      Table (AircraftPosition F64) → List (AircraftPosition F64) → Table (AircraftPosition F64)
  merge_all b [] = b
  merge_all b (p ∷ ps) = merge_all (merge_into_buffer b p) ps

  -- The positions of one aircraft, in the order of their arrival.
  abbrev pub own : Bytes → List (AircraftPosition F64) → List (AircraftPosition F64)
  own h [] = []
  own h (p ∷ ps) = if bytes_eq h p.hex_ident then p ∷ own h ps else own h ps

  -- The last value that is known, and the one before the list where none is.
  abbrev pub latest :
      {B : Type 0}
      → (AircraftPosition F64 → Option B)
      → Option B
      → List (AircraftPosition F64)
      → Option B
  latest f before [] = before
  latest f before (p ∷ ps) = latest f (or (f p) before) ps

  -- What is known of an aircraft from its positions `ps`, seen after `before`.
  pub record Known (before : AircraftPosition F64) (ps : List (AircraftPosition F64))
      (p : AircraftPosition F64) : Type 0 where
    pub hex_ident : p.hex_ident ≡ before.hex_ident
    pub callsign : p.callsign ≡ latest (λ q. q.callsign) before.callsign ps
    pub altitude : p.altitude ≡ latest (λ q. q.altitude) before.altitude ps
    pub ground_speed : p.ground_speed ≡ latest (λ q. q.ground_speed) before.ground_speed ps
    pub track : p.track ≡ latest (λ q. q.track) before.track ps
    pub latitude : p.latitude ≡ latest (λ q. q.latitude) before.latitude ps
    pub longitude : p.longitude ≡ latest (λ q. q.longitude) before.longitude ps
    pub vertical_rate : p.vertical_rate ≡ latest (λ q. q.vertical_rate) before.vertical_rate ps
    pub squawk : p.squawk ≡ latest (λ q. q.squawk) before.squawk ps
    pub is_on_ground : p.is_on_ground ≡ latest (λ q. q.is_on_ground) before.is_on_ground ps
    pub timestamp : some p.timestamp ≡ latest (λ q. some q.timestamp) (some before.timestamp) ps

  abbrev fold : AircraftPosition F64 → List (AircraftPosition F64) → AircraftPosition F64
  fold p [] = p
  fold p (q ∷ qs) = fold (merged q p) qs

  fold-Known :
      (p : AircraftPosition F64) (ps : List (AircraftPosition F64)) → Known p ps (fold p ps)
  unfolding merged
  fold-Known p [] = record {
    hex_ident = refl;
    callsign = refl;
    altitude = refl;
    ground_speed = refl;
    track = refl;
    latitude = refl;
    longitude = refl;
    vertical_rate = refl;
    squawk = refl;
    is_on_ground = refl;
    timestamp = refl;
  }
  fold-Known p (q ∷ qs) =
      let k = fold-Known (merged q p) qs in
      record {
        hex_ident = k.hex_ident;
        callsign = k.callsign;
        altitude = k.altitude;
        ground_speed = k.ground_speed;
        track = k.track;
        latitude = k.latitude;
        longitude = k.longitude;
        vertical_rate = k.vertical_rate;
        squawk = k.squawk;
        is_on_ground = k.is_on_ground;
        timestamp = k.timestamp;
      }

  -- What a table holds of an aircraft after its positions.
  abbrev pub Holds :
      Option (AircraftPosition F64)
      → List (AircraftPosition F64)
      → Option (AircraftPosition F64)
      → Type 0
  Holds none [] r = r ≡ none
  Holds none (p ∷ ps) r = (q : AircraftPosition F64) × (r ≡ some q) × Known p ps q
  Holds (some p) ps r = (q : AircraftPosition F64) × (r ≡ some q) × Known p ps q

  abbrev after :
      Option (AircraftPosition F64) → List (AircraftPosition F64) → Option (AircraftPosition F64)
  after none [] = none
  after none (p ∷ ps) = some (fold p ps)
  after (some p) ps = some (fold p ps)

  after-Holds :
      (o : Option (AircraftPosition F64)) (ps : List (AircraftPosition F64))
      → Holds o ps (after o ps)
  after-Holds none [] = refl
  after-Holds none (p ∷ ps) = (fold p ps, refl, fold-Known p ps)
  after-Holds (some p) ps = (fold p ps, refl, fold-Known p ps)

  after-merge_entry :
      (o : Option (AircraftPosition F64)) (p : AircraftPosition F64)
      (ps : List (AircraftPosition F64))
      → after (some (merge_entry p o)) ps ≡ after o (p ∷ ps)
  unfolding merge_entry
  after-merge_entry none p ps = refl
  after-merge_entry (some e) p ps = refl

  after-nil : (o : Option (AircraftPosition F64)) → o ≡ after o []
  after-nil none = refl
  after-nil (some p) = refl

  find-merge_all :
      (h : Bytes) (b : Table (AircraftPosition F64)) (ps : List (AircraftPosition F64))
      → find h (merge_all b ps) ≡ after (find h b) (own h ps)
  unfolding merge_all merge_into_buffer
  find-merge_all h b [] = after-nil (find h b)
  find-merge_all h b (p ∷ ps) =
      let found = find-upsert h p.hex_ident (merge_entry p) b in
      elim (Bool-cases (bytes_eq h p.hex_ident)) [
        | inl e ↦
            rw
              (
                find-merge_all h (merge_into_buffer b p) ps,
                found,
                e,
                sym (ap (λ k. find k b) (bytes_eq_sound h p.hex_ident e)),
              )
              (after-merge_entry (find h b) p (own h ps))
        | inr e ↦ rw (find-merge_all h (merge_into_buffer b p) ps, found, e) refl
      ]

  -- After any positions, the buffer holds of each aircraft the last value of every field that some position
  -- of it gave, or else the value held before, and the last timestamp; and nothing of an aircraft that it
  -- did not hold and of which no position came.
  pub merge_all-Holds :
      (h : Bytes) (b : Table (AircraftPosition F64)) (ps : List (AircraftPosition F64))
      → Holds (find h b) (own h ps) (find h (merge_all b ps))
  merge_all-Holds h b ps =
      subst (Holds (find h b) (own h ps)) (sym (find-merge_all h b ps))
        (after-Holds (find h b) (own h ps))
