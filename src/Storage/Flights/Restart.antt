-- ===== src/Storage/Flights/Restart.antt =====
-- What rust/adsb-data-engine/src/storage.rs knows of the flights after a restart: the tracker that
-- `rebuild_flight_tracker_sync` makes, against the one that `insert_batch_sync` kept.
use mathlib.Core.Option
use adsb_feed.Prelude.{
  ℕ, ◌+◌, ◌≤◌, ◌<◌, ◌≡◌, refl, sym, ap, ◌∙◌, arith, Bool, true, false, Option, none, some, List, [],
  ◌∷◌, Bytes, bytes_eq, bytes_eq_sound, bytes_eq_refl, length, if◌then◌else◌, if_intro, Bool-cases,
  Option-cases, inl, inr,
}
use adsb_feed.Prelude.Int.{ℤ, ◌≤ℤ◌}
use adsb_feed.Ingest.Sbs.{AircraftPosition}
use adsb_feed.Ingest.Table.{find, find-upsert}
use adsb_feed.Storage.FlightId.{flight_id-injective}
use adsb_feed.Storage.Flights.{
  integer_limit, ActiveFlight, Flight, Extremes, Storage, max_ℤ, extended, next_num, new_flight,
  one_update, active_of, bump, bump_if, max_num, entry_of, rebuild_flight_tracker_sync,
  insert_timed,
}
use adsb_feed.Storage.Flights.Bump.{bump_if_same, bump_if_other}
use adsb_feed.Storage.Flights.Issued.{Tracks, Tracks-upsert, next_num_bound}
use adsb_feed.Storage.Flights.Collected.{Tables, see_extend, see_new, see, see_all}
use adsb_feed.Storage.Flights.Rebuild.{
  newest, find-rebuild, newest-append, newest-map, max_num-none, max_num_some,
}
use adsb_feed.Storage.Flights.Batch.{
  InSync, extended-some, tables, with_tables, insert_timed-eq-see,
}

max_ℤ_later : (a b : ℤ) → a ≤ℤ b → max_ℤ a b ≡ b
unfolding max_ℤ
max_ℤ_later a b h = ground arith

entry_if :
    {F64 : Type 0} (c : Bool) (row : Flight F64) (old : Option ActiveFlight)
    (was : Option (Flight F64))
    → old ≡ Option.map entry_of was
    → (if c then some (entry_of row) else old) ≡ Option.map entry_of (if c then some row else was)
entry_if true row old was e = refl
entry_if false row old was e = e

module _ {F64 : Type 0} (E : Extremes F64) where
  -- The tracker has of each aircraft what the table's newest row says.
  record Mirror (t : Tables F64) (m : ℕ) : Type 0 where
    tracks : Tracks t.tracker m
    newest : (h : Bytes) → find h t.tracker ≡ Option.map entry_of (newest h t.rows)

  -- No position is older than what its aircraft was last seen.
  unfoldable pub InOrder : ℤ → List (AircraftPosition F64 × ℤ) → Tables F64 → Type 0
  InOrder gap [] t = Unit
  InOrder gap (p ∷ ps) t =
      ((a : ActiveFlight) → find (p.0).hex_ident t.tracker ≡ some a → a.last_seen_ms ≤ℤ p.1)
      × InOrder gap ps (see E gap p t)

  module _ (pos : AircraftPosition F64) (ts_ms : ℤ) (t : Tables F64) (m : ℕ) (mirror : Mirror t m)
      (room : m < integer_limit) where
    not_smaller :
        let num = next_num (find pos.hex_ident t.tracker) in max_num pos.hex_ident t.rows ≤ num
    unfolding next_num entry_of
    not_smaller =
        let hex = pos.hex_ident in
        elim (Option-cases (newest hex t.rows)) [
          | inl e ↦ rw (max_num-none hex t.rows e) (omega arith)
          | inr (q, e) ↦
              let found : find hex t.tracker ≡ some (entry_of q) =
                mirror.newest hex ∙ ap (Option.map entry_of) e in
              let bound = (mirror.tracks hex (entry_of q) found).1 in
              let num = max_num_some hex (max_num hex t.rows) t.rows q e in
              rw found (omega (arith, bound, num, room))
        ]

    see_new-Mirror :
        Mirror (see_new E pos ts_ms (next_num (find pos.hex_ident t.tracker)) t) (m + 1)
    unfolding new_flight active_of entry_of
    see_new-Mirror =
        let hex = pos.hex_ident in
        let num = next_num (find hex t.tracker) in
        let new = active_of pos ts_ms num in
        let row = new_flight pos ts_ms num in
        record {
          tracks =
              Tracks-upsert t.tracker hex new m mirror.tracks refl
                (next_num_bound t.tracker hex m mirror.tracks);
          newest = λ h.
              find-upsert h hex (λ _. new) t.tracker
              ∙ entry_if (bytes_eq h hex) row (find h t.tracker) (newest h t.rows) (mirror.newest h)
              ∙ ap (Option.map entry_of) (sym (newest-append h t.rows row not_smaller));
        }

    module _ (active : ActiveFlight) (held : find pos.hex_ident t.tracker ≡ some active)
        (later : active.last_seen_ms ≤ℤ ts_ms) where
      abbrev upd : Flight F64 → Flight F64
      upd = bump_if E active.flight_id (one_update active.flight_id pos ts_ms)

      bumped :
          (q : Flight F64)
          → entry_of q ≡ active
          → entry_of (upd q) ≡ record active { last_seen_ms = ts_ms }
      unfolding bump one_update entry_of
      bumped q e =
          let id : q.flight_id ≡ active.flight_id = ap (λ a. a.flight_id) e in
          let hit =
            bump_if_same E active.flight_id (one_update active.flight_id pos ts_ms) q
              (rw id (bytes_eq_refl active.flight_id)) in
          let num : q.flight_num ≡ active.flight_num = ap (λ a. a.flight_num) e in
          let last =
            ap (λ a. max_ℤ a.last_seen_ms ts_ms) e ∙ max_ℤ_later active.last_seen_ms ts_ms later in
          ap entry_of hit ∙ λ i. record {
            flight_id = id i;
            flight_num = num i;
            last_seen_ms = last i;
          }

      not_bumped :
          (h : Bytes) (q : Flight F64)
          → bytes_eq h pos.hex_ident ≡ false
          → find h t.tracker ≡ some (entry_of q)
          → upd q ≡ q
      unfolding entry_of
      not_bumped h q other found =
          bump_if_other E active.flight_id (one_update active.flight_id pos ts_ms) q
            (elim (Bool-cases (bytes_eq q.flight_id active.flight_id)) [
              | inl e ↦
                  let theirs = (mirror.tracks h (entry_of q) found).0 in
                  let mine = (mirror.tracks pos.hex_ident active held).0 in
                  let same = sym theirs ∙ bytes_eq_sound q.flight_id active.flight_id e ∙ mine in
                  let hex =
                    (flight_id-injective h pos.hex_ident q.flight_num active.flight_num same).0 in
                  let yes : bytes_eq h pos.hex_ident ≡ true =
                    rw hex (bytes_eq_refl pos.hex_ident) in
                  cc
              | inr e ↦ e
            ])

      extended_entry :
          (h : Bytes)
          → (if bytes_eq h pos.hex_ident
              then some (record active { last_seen_ms = ts_ms })
              else find h t.tracker)
            ≡ Option.map entry_of (Option.map upd (newest h t.rows))
      extended_entry h =
          let was = mirror.newest h in
          elim (Option-cases (newest h t.rows)) [
            | inl n ↦
                let missing : find h t.tracker ≡ none = was ∙ ap (Option.map entry_of) n in
                elim (Bool-cases (bytes_eq h pos.hex_ident)) [
                  | inl e ↦
                      let key = ap (λ k. find k t.tracker) (bytes_eq_sound h pos.hex_ident e) in
                      let no : some active ≡ none = sym held ∙ sym key ∙ missing in cc
                  | inr e ↦ rw (e, n) missing
                ]
            | inr (q, n) ↦
                let found : find h t.tracker ≡ some (entry_of q) =
                  was ∙ ap (Option.map entry_of) n in
                elim (Bool-cases (bytes_eq h pos.hex_ident)) [
                  | inl e ↦
                      let key = ap (λ k. find k t.tracker) (bytes_eq_sound h pos.hex_ident e) in
                      let it : some (entry_of q) ≡ some active = sym found ∙ key ∙ held in
                      let same : entry_of q ≡ active = cc in
                      rw (e, n) (ap some (sym (bumped q same)))
                  | inr e ↦
                      rw (e, n) (found ∙ ap (λ r. some (entry_of r)) (sym (not_bumped h q e found)))
                ]
          ]

      see_extend-Mirror : Mirror (see_extend E pos ts_ms active t) (m + 1)
      unfolding bump_if bump
      see_extend-Mirror =
          let hex = pos.hex_ident in
          let new : ActiveFlight = record active { last_seen_ms = ts_ms } in
          let known = mirror.tracks hex active held in
          record {
            tracks =
                Tracks-upsert t.tracker hex new m mirror.tracks known.0 (omega (arith, known.1));
            newest = λ h.
                find-upsert h hex (λ _. new) t.tracker
                ∙ extended_entry h
                ∙ ap (Option.map entry_of) (
                    sym (
                      newest-map upd h t.rows
                        (λ r. if_intro (λ q. q.hex_ident ≡ r.hex_ident) _ _ r refl refl)
                        (λ r. if_intro (λ q. q.flight_num ≡ r.flight_num) _ _ r refl refl)));
          }

  see-Mirror :
      (gap : ℤ) (p : AircraftPosition F64 × ℤ) (t : Tables F64) (m : ℕ)
      → Mirror t m
      → m < integer_limit
      → ((a : ActiveFlight) → find (p.0).hex_ident t.tracker ≡ some a → a.last_seen_ms ≤ℤ p.1)
      → Mirror (see E gap p t) (m + 1)
  unfolding see
  see-Mirror gap (pos, ts_ms) t m mirror room later =
      let found = find pos.hex_ident t.tracker in
      elim (Option-cases (extended gap ts_ms found)) [
        | inl e ↦ rw (e, see) (see_new-Mirror pos ts_ms t m mirror room)
        | inr (a, e) ↦
            let held = extended-some E gap ts_ms found a e in
            rw (e, see) (see_extend-Mirror pos ts_ms t m mirror room a held (later a held))
      ]

  see_all-Mirror :
      (gap : ℤ) (ps : List (AircraftPosition F64 × ℤ)) (t : Tables F64) (m : ℕ)
      → Mirror t m
      → m + length ps ≤ integer_limit
      → InOrder gap ps t
      → (h : Bytes)
      → find h (see_all E gap ps t).tracker
        ≡ Option.map entry_of (newest h (see_all E gap ps t).rows)
  unfolding see_all InOrder
  see_all-Mirror gap [] t m mirror room order = mirror.newest
  see_all-Mirror gap (p ∷ ps) t m mirror room order =
      see_all-Mirror gap ps (see E gap p t) (m + 1)
        (see-Mirror gap p t m mirror (omega (arith, room)) order.0) (omega (arith, room)) order.1

  -- A restart finds the tracker as it was.
  abbrev pub Restartable : Storage F64 → Type 0
  Restartable s =
      (h : Bytes) → find h (rebuild_flight_tracker_sync s).flight_tracker ≡ find h s.flight_tracker

  -- From storage in agreement, whose tracker a restart would rebuild as it is, a batch with room for its
  -- numbers and with no position older than what its aircraft was last seen leaves a tracker that a
  -- restart rebuilds as it is: every lookup is the same.
  pub insert_timed-Restartable :
      (batch : List (AircraftPosition F64 × ℤ)) (s : Storage F64) (m : ℕ)
      → InSync E s m
      → m + length batch ≤ integer_limit
      → InOrder s.gap_threshold_ms batch (tables E s)
      → Restartable s
      → Restartable (insert_timed E batch s).0
  unfolding InSync
  insert_timed-Restartable batch s m sync room order old =
      let gap = s.gap_threshold_ms in
      let start : Mirror (tables E s) m = record {
        tracks = sync.0;
        newest = λ h. sym (old h) ∙ find-rebuild h s;
      } in
      let s' = with_tables E batch (see_all E gap batch (tables E s)) s in
      rw (insert_timed-eq-see E batch s m sync room)
        λ h. find-rebuild h s' ∙ sym (see_all-Mirror gap batch (tables E s) m start room order h)
