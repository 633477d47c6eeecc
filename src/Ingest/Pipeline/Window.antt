-- ===== src/Ingest/Pipeline/Window.antt =====
-- One window of the ingest pipeline of rust/adsb-data-engine/src/ingest.rs: from one flush to the next.
use adsb_feed.Prelude.{
  ℕ, ◌≡◌, refl, ap, Bool, true, false, Option, none, some, All, List, [], ◌∷◌, map, Bytes, bytes_eq,
  bytes_eq_sound, if◌then◌else◌, if_intro, is_empty, Bool-cases, inl, inr,
}
use mathlib.Core.Option
use adsb_feed.Ingest.Sbs.{AircraftPosition}
use adsb_feed.Ingest.Table.{Table, find, upsert, remove, find-upsert, find-remove}
use adsb_feed.Ingest.Pipeline.{
  RawSbsRecord, Pipeline, count_one, merge_entry, merged, merge_into_buffer, drain, take_position,
  take_raw, take_parsed, attach,
}

module _ {F64 : Type 0} where
  -- The first position of an aircraft in a batch.
  unfoldable pub lookup : Bytes → List (AircraftPosition F64) → Option (AircraftPosition F64)
  lookup h [] = none
  lookup h (p ∷ ps) = if bytes_eq h p.hex_ident then some p else lookup h ps

  abbrev pub counted : Option ℕ → AircraftPosition F64 → AircraftPosition F64
  counted n p = record p { message_count = Option.get_or n p.message_count }

  -- Each position gets the count of its aircraft.
  pub lookup-attach :
      (h : Bytes) (ps : List (AircraftPosition F64)) (c : Table ℕ)
      → lookup h (attach ps c).0 ≡ Option.map (counted (find h c)) (lookup h ps)
  unfolding lookup attach
  lookup-attach h [] c = refl
  lookup-attach h (p ∷ ps) c = elim (Bool-cases (bytes_eq h p.hex_ident)) [
    | inl e ↦ rw (e, ap (λ k. find k c) (bytes_eq_sound h p.hex_ident e)) refl
    | inr e ↦ rw (e, lookup-attach h ps (remove p.hex_ident c), find-remove h p.hex_ident c, e) refl
  ]

  abbrev taken : Option (AircraftPosition F64) → Option ℕ → Option ℕ
  taken none n = n
  taken (some p) n = none

  taken-none : (o : Option (AircraftPosition F64)) → taken o none ≡ none
  taken-none none = refl
  taken-none (some p) = refl

  -- And its count is taken out of the table.
  pub find-attach :
      (h : Bytes) (ps : List (AircraftPosition F64)) (c : Table ℕ)
      → find h (attach ps c).1 ≡ taken (lookup h ps) (find h c)
  unfolding lookup attach
  find-attach h [] c = refl
  find-attach h (p ∷ ps) c = elim (Bool-cases (bytes_eq h p.hex_ident)) [
    | inl e ↦
        rw (e, find-attach h ps (remove p.hex_ident c), find-remove h p.hex_ident c, e)
          (taken-none (lookup h ps))
    | inr e ↦ rw (e, find-attach h ps (remove p.hex_ident c), find-remove h p.hex_ident c, e) refl
  ]

  -- Every entry stands under its own aircraft.
  abbrev pub Keyed : Table (AircraftPosition F64) → Type 0
  Keyed = All (λ e. e.0 ≡ e.1.hex_ident)

  pub lookup-values :
      (h : Bytes) (b : Table (AircraftPosition F64))
      → Keyed b
      → lookup h (map (λ e. e.1) b) ≡ find h b
  unfolding lookup find
  lookup-values h [] k = refl
  lookup-values h ((j, p) ∷ b) k = rw (k.0, lookup-values h b k.1) refl

  -- The entries of both tables are of the same aircraft.
  abbrev pub Matched : Option (AircraftPosition F64) → Option ℕ → Type 0
  Matched none n = n ≡ none
  Matched (some p) n = Unit

  pub record Valid (s : Pipeline F64) : Type 0 where
    pub keyed : Keyed s.buffer
    pub matched : (h : Bytes) → Matched (find h s.buffer) (find h s.message_counts)

  upsert-Keyed :
      (p : AircraftPosition F64) (b : Table (AircraftPosition F64))
      → Keyed b
      → Keyed (upsert p.hex_ident (merge_entry p) b)
  unfolding upsert merge_entry merged
  upsert-Keyed p [] k = (refl, tt)
  upsert-Keyed p ((j, q) ∷ b) k =
      if_intro Keyed (bytes_eq p.hex_ident j) _ _ (k.0, k.1) (k.0, upsert-Keyed p b k.1)

  Matched-upsert :
      (c : Bool) (p : AircraftPosition F64) (n : ℕ) (o : Option (AircraftPosition F64))
      (m : Option ℕ)
      → Matched o m
      → Matched (if c then some p else o) (if c then some n else m)
  Matched-upsert true p n o m h = tt
  Matched-upsert false p n o m h = h

  pub take_parsed-Valid :
      (o : Option (AircraftPosition F64)) (s : Pipeline F64) → Valid s → Valid (take_parsed o s)
  unfolding take_parsed take_position merge_into_buffer
  take_parsed-Valid none s v = v
  take_parsed-Valid (some p) s v = record {
    keyed = upsert-Keyed p s.buffer v.keyed;
    matched = λ h.
        rw
          (
            find-upsert h p.hex_ident (merge_entry p) s.buffer,
            find-upsert h p.hex_ident count_one s.message_counts,
          )
          (Matched-upsert (bytes_eq h p.hex_ident) _ _ _ _ (v.matched h));
  }

  pub take_raw-Valid : (o : Option RawSbsRecord) (s : Pipeline F64) → Valid s → Valid (take_raw o s)
  unfolding take_raw
  take_raw-Valid none s v = v
  take_raw-Valid (some r) s v = record { keyed = v.keyed; matched = v.matched }

  -- Nothing is left of an aircraft once the buffer is drained.
  pub find-drain : (s : Pipeline F64) (h : Bytes) → Valid s → find h (drain s).1 ≡ none
  unfolding drain
  find-drain s h v =
      rw
        (find-attach h (map (λ e. e.1) s.buffer) s.message_counts, lookup-values h s.buffer v.keyed)
        (none_left (find h s.buffer) (find h s.message_counts) (v.matched h))
    where
      none_left :
          (o : Option (AircraftPosition F64)) (n : Option ℕ) → Matched o n → taken o n ≡ none
      none_left none n m = m
      none_left (some p) n m = refl

  pub empty_matched :
      (b : Table (AircraftPosition F64)) → is_empty b ≡ true → (h : Bytes) → find h b ≡ none
  unfolding find
  empty_matched [] e h = refl
  empty_matched (x ∷ b) e h = cc
