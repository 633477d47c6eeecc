-- ===== src/Storage/Flights/Rebuild.antt =====
-- The rows from which `rebuild_flight_tracker_sync` of rust/adsb-data-engine/src/storage.rs makes the tracker.
use mathlib.Core.Option
use adsb_feed.Prelude.{
  subst, ℕ, ◌≤◌, ◌≡◌, refl, sym, ap, ◌∙◌, arith, Bool, true, false, ◌&&◌, Option, none, some, or,
  or_assoc, List, [], ◌∷◌, ◌++◌, map, Bytes, bytes_eq, bytes_eq_sound, bytes_eq_refl, ltb, ◌==◌,
  if◌then◌else◌, Bool-cases, Option-cases, inl, inr, ◌≢◌,
}
use adsb_feed.Ingest.Table.{Table, find, upsert, find-upsert}
use adsb_feed.Storage.Flights.{
  ActiveFlight, Flight, Storage, max_num, entry_of, load_entries, rebuild_flight_tracker_sync,
}

or_none {ℓ} : {A : Type ℓ} (o : Option A) → or o none ≡ o
or_none none = refl
or_none (some a) = refl

or-map {ℓ κ} :
    {A : Type ℓ} {B : Type κ} (f : A → B) (l o : Option A) (x : Option B)
    → or (Option.map f (or l o)) x ≡ or (Option.map f l) (or (Option.map f o) x)
or-map f none o x = refl
or-map f (some a) o x = refl

map-or {ℓ κ} :
    {A : Type ℓ} {B : Type κ} (f : A → B) (l : Option A) (c : Bool) (a : A)
    → or (Option.map f l) (if c then some (f a) else none)
      ≡ Option.map f (or l (if c then some a else none))
map-or f none true a = refl
map-or f none false a = refl
map-or f (some b) c a = refl

or_some {ℓ} : {A : Type ℓ} (o : Option A) (a : A) → or o (some a) ≢ none
or_some none a e = cc
or_some (some b) a e = cc

or_left {ℓ} : {A : Type ℓ} (o p : Option A) → or o p ≡ none → o ≡ none
or_left none p e = refl
or_left (some a) p e = e

module _ {F64 : Type 0} where
  -- The last of an aircraft's rows with the number `m`.
  abbrev pub last_at : Bytes → ℕ → List (Flight F64) → Option (Flight F64)
  last_at h m [] = none
  last_at h m (r ∷ rows) =
      or (last_at h m rows) (if bytes_eq h r.hex_ident && r.flight_num == m then some r else none)

  abbrev pub newest : Bytes → List (Flight F64) → Option (Flight F64)
  newest h rows = last_at h (max_num h rows) rows

  one_row :
      (h : Bytes) (all : List (Flight F64)) (r : Flight F64) (t : Table ActiveFlight)
      → find h (
          if r.flight_num == max_num r.hex_ident all
          then upsert r.hex_ident (λ _. entry_of r) t
          else t)
        ≡ or
            (Option.map entry_of
              (if bytes_eq h r.hex_ident && r.flight_num == max_num h all then some r else none))
            (find h t)
  one_row h all r t =
      let found = find-upsert h r.hex_ident (λ _. entry_of r) t in
      let largest = r.flight_num == max_num r.hex_ident all in
      elim (Bool-cases (bytes_eq h r.hex_ident)) [
        | inl e ↦
            let same : r.flight_num == max_num h all ≡ largest =
              ap (λ k. r.flight_num == max_num k all) (bytes_eq_sound h r.hex_ident e) in
            elim (Bool-cases largest) [
              | inl q ↦ rw (q, found, e, same ∙ q) refl
              | inr q ↦ rw (q, e, same ∙ q) refl
            ]
        | inr e ↦ elim (Bool-cases largest) [
          | inl q ↦ rw (q, found, e) refl
          | inr q ↦ rw (q, e) refl
        ]
      ]

  from_row :
      (h : Bytes) (all rows : List (Flight F64)) (t : Table ActiveFlight)
      → find h (load_entries all rows t)
        ≡ or (Option.map entry_of (last_at h (max_num h all) rows)) (find h t)
  unfolding load_entries
  from_row h all [] t = refl
  from_row h all (r ∷ rows) t =
      let hit = if bytes_eq h r.hex_ident && r.flight_num == max_num h all then some r else none in
      let t' =
        if r.flight_num == max_num r.hex_ident all
        then upsert r.hex_ident (λ _. entry_of r) t
        else t in
      let rest = last_at h (max_num h all) rows in
      from_row h all rows t'
      ∙ ap (or (Option.map entry_of rest)) (one_row h all r t)
      ∙ sym (or-map entry_of rest hit (find h t))

  -- After a restart the tracker has, of each aircraft, the last row with its largest number.
  pub find-rebuild :
      (h : Bytes) (s : Storage F64)
      → find h (rebuild_flight_tracker_sync s).flight_tracker
        ≡ Option.map entry_of (newest h s.flights)
  unfolding rebuild_flight_tracker_sync find
  find-rebuild h s =
      from_row h s.flights s.flights [] ∙ or_none (Option.map entry_of (newest h s.flights))

  last_at-map :
      (f : Flight F64 → Flight F64) (h : Bytes) (m : ℕ) (rows : List (Flight F64))
      → ((r : Flight F64) → (f r).hex_ident ≡ r.hex_ident)
      → ((r : Flight F64) → (f r).flight_num ≡ r.flight_num)
      → last_at h m (map f rows) ≡ Option.map f (last_at h m rows)
  last_at-map f h m [] hex num = refl
  last_at-map f h m (r ∷ rows) hex num =
      let rest = last_at h m (map f rows) in
      let here = bytes_eq h r.hex_ident && r.flight_num == m in
      let cond : (bytes_eq h (f r).hex_ident && (f r).flight_num == m) ≡ here =
        rw (hex r, num r) refl in
      ap (λ c. or rest (if c then some (f r) else none)) cond
      ∙ ap (λ o. or o (if here then some (f r) else none)) (last_at-map f h m rows hex num)
      ∙ map-or f (last_at h m rows) here r

  max_num-map :
      (f : Flight F64 → Flight F64) (h : Bytes) (rows : List (Flight F64))
      → ((r : Flight F64) → (f r).hex_ident ≡ r.hex_ident)
      → ((r : Flight F64) → (f r).flight_num ≡ r.flight_num)
      → max_num h (map f rows) ≡ max_num h rows
  unfolding max_num
  max_num-map f h [] hex num = refl
  max_num-map f h (r ∷ rows) hex num = rw (max_num-map f h rows hex num, hex r, num r) refl

  last_at-append :
      (h : Bytes) (m : ℕ) (rows : List (Flight F64)) (r : Flight F64)
      → last_at h m (rows ++ r ∷ []) ≡ or (last_at h m (r ∷ [])) (last_at h m rows)
  last_at-append h m [] r = sym (or_none _)
  last_at-append h m (x ∷ rows) r = rw (last_at-append h m rows r) (
      sym (
        or_assoc (last_at h m (r ∷ [])) (last_at h m rows)
          (if bytes_eq h x.hex_ident && x.flight_num == m then some x else none)))

  -- A new row with a number that is not smaller.
  max_num-append :
      (h : Bytes) (rows : List (Flight F64)) (r : Flight F64)
      → h ≡ r.hex_ident
      → max_num h rows ≤ r.flight_num
      → max_num h (rows ++ r ∷ []) ≡ r.flight_num
  unfolding max_num
  max_num-append h [] r same le = let e = bytes_eq_refl h in ground arith
  max_num-append h (x ∷ rows) r same le = ground (arith, max_num-append h rows r same)

  max_num-append_other :
      (h : Bytes) (rows : List (Flight F64)) (r : Flight F64)
      → bytes_eq h r.hex_ident ≡ false
      → max_num h (rows ++ r ∷ []) ≡ max_num h rows
  unfolding max_num
  max_num-append_other h [] r e = rw e refl
  max_num-append_other h (x ∷ rows) r e = rw (max_num-append_other h rows r e) refl

  -- Where no row has the largest number, there is none.
  pub max_num-none :
      (h : Bytes) (rows : List (Flight F64)) → newest h rows ≡ none → max_num h rows ≡ 0
  unfolding max_num
  max_num-none h [] e = refl
  max_num-none h (r ∷ rows) e =
      elim (Bool-cases (bytes_eq h r.hex_ident && ltb (max_num h rows) r.flight_num)) [
        | inl q ↦
            let num : max_num h (r ∷ rows) ≡ r.flight_num = rw q refl in
            let at : last_at h r.flight_num (r ∷ rows) ≡ none =
              subst (λ m. last_at h m (r ∷ rows) ≡ none) num e in
            let mine : (bytes_eq h r.hex_ident && r.flight_num == r.flight_num) ≡ true =
              ground arith in
            let found =
              ap (λ c. or (last_at h r.flight_num rows) (if c then some r else none)) (sym mine)
              ∙ at in
            absurd (or_some (last_at h r.flight_num rows) r found)
        | inr q ↦
            let num : max_num h (r ∷ rows) ≡ max_num h rows = rw q refl in
            let at : last_at h (max_num h rows) (r ∷ rows) ≡ none =
              subst (λ m. last_at h m (r ∷ rows) ≡ none) num e in
            num ∙ max_num-none h rows (or_left (newest h rows) _ at)
      ]

  pub max_num_some :
      (h : Bytes) (m : ℕ) (rows : List (Flight F64)) (q : Flight F64)
      → last_at h m rows ≡ some q
      → q.flight_num ≡ m
  max_num_some h m [] q e = cc
  max_num_some h m (r ∷ rows) q e = elim (Option-cases (last_at h m rows)) [
    | inl n ↦
        let here = bytes_eq h r.hex_ident && r.flight_num == m in
        let it : (if here then some r else none) ≡ some q =
          ap (λ o. or o (if here then some r else none)) (sym n) ∙ e in
        elim (Bool-cases here) [
          | inl c ↦
              let same : r ≡ q = let yes : some r ≡ some q = sym (rw c refl) ∙ it in cc in
              let num : r.flight_num ≡ m = ground arith in ap (λ r. r.flight_num) (sym same) ∙ num
          | inr c ↦ let no : none ≡ some q = sym (rw c refl) ∙ it in cc
        ]
    | inr (p, n) ↦
        let same : p ≡ q = cc in ap (λ r. r.flight_num) (sym same) ∙ max_num_some h m rows p n
  ]

  last_at_other :
      (h : Bytes) (m : ℕ) (rows : List (Flight F64)) (r : Flight F64)
      → bytes_eq h r.hex_ident ≡ false
      → last_at h m (rows ++ r ∷ []) ≡ last_at h m rows
  last_at_other h m rows r e = last_at-append h m rows r ∙ rw e refl

  -- The rows after an INSERT of a number that is not smaller.
  pub newest-append :
      (h : Bytes) (rows : List (Flight F64)) (r : Flight F64)
      → max_num r.hex_ident rows ≤ r.flight_num
      → newest h (rows ++ r ∷ []) ≡ (if bytes_eq h r.hex_ident then some r else newest h rows)
  newest-append h rows r le = elim (Bool-cases (bytes_eq h r.hex_ident)) [
    | inl e ↦
        let same = bytes_eq_sound h r.hex_ident e in
        let num = max_num-append h rows r same (rw same le) in
        let hit : (bytes_eq h r.hex_ident && r.flight_num == r.flight_num) ≡ true = ground arith in
        ap (λ m. last_at h m (rows ++ r ∷ [])) num
        ∙ last_at-append h r.flight_num rows r
        ∙ ap (λ c. or (if c then some r else none) (last_at h r.flight_num rows)) hit
        ∙ rw e refl
    | inr e ↦
        ap (λ m. last_at h m (rows ++ r ∷ [])) (max_num-append_other h rows r e)
        ∙ last_at_other h (max_num h rows) rows r e
        ∙ rw e refl
  ]

  pub newest-map :
      (f : Flight F64 → Flight F64) (h : Bytes) (rows : List (Flight F64))
      → ((r : Flight F64) → (f r).hex_ident ≡ r.hex_ident)
      → ((r : Flight F64) → (f r).flight_num ≡ r.flight_num)
      → newest h (map f rows) ≡ Option.map f (newest h rows)
  newest-map f h rows hex num =
      ap (λ m. last_at h m (map f rows)) (max_num-map f h rows hex num)
      ∙ last_at-map f h (max_num h rows) rows hex num
