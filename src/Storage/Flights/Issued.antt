-- ===== src/Storage/Flights/Issued.antt =====
-- The identifiers that the flights of rust/adsb-data-engine/src/storage.rs get are never given twice.
use adsb_feed.Prelude.{
  subst, ℕ, ◌+◌, ◌%◌, ◌≤◌, ◌<◌, ◌≡◌, refl, sym, ap, ◌∙◌, arith, true, false, ◌||◌, some, List, [],
  ◌∷◌, ◌++◌, Bytes, All, bytes_eq, bytes_eq_sound, leb, Bool-cases, inl, inr, Option-cases,
}
use adsb_feed.Ingest.Table.{Table, find, upsert, find-upsert}
use adsb_feed.Storage.FlightId.{flight_id, flight_id-injective}
use adsb_feed.Storage.Flights.{
  u32_mod, integer_limit, ActiveFlight, Flight, next_num, has_id, exec_inserts,
}

-- The tracker names its flights as the code does, with numbers below `m`.
abbrev pub Tracks : Table ActiveFlight → ℕ → Type 0
Tracks t m =
    (h : Bytes) (a : ActiveFlight)
    → find h t ≡ some a
    → (a.flight_id ≡ flight_id h a.flight_num) × (a.flight_num < m)

-- The identifier of a flight that the tracker has or once had.
abbrev pub Issued : Table ActiveFlight → Bytes → Type 0
Issued t id =
    (h : Bytes) × (n : ℕ) × (a : ActiveFlight) × (id ≡ flight_id h n)
    × (find h t ≡ some a)
    × (n ≤ a.flight_num)

pub Issued-upsert :
    (t : Table ActiveFlight) (hex : Bytes) (new : ActiveFlight) (id : Bytes)
    → ((a : ActiveFlight) → find hex t ≡ some a → a.flight_num ≤ new.flight_num)
    → Issued t id
    → Issued (upsert hex (λ _. new) t) id
Issued-upsert t hex new id newer (h, n, a, e, f, le) =
    let found = find-upsert h hex (λ _. new) t in
    elim (Bool-cases (bytes_eq h hex)) [
      | inl q ↦
          let old = newer a (sym (ap (λ k. find k t) (bytes_eq_sound h hex q)) ∙ f) in
          (h, n, new, e, rw (found, q) refl, omega (arith, old, le))
      | inr q ↦ (h, n, a, e, rw (found, q) f, le)
    ]

pub Tracks-upsert :
    (t : Table ActiveFlight) (hex : Bytes) (new : ActiveFlight) (m : ℕ)
    → Tracks t m
    → new.flight_id ≡ flight_id hex new.flight_num
    → new.flight_num < m + 1
    → Tracks (upsert hex (λ _. new) t) (m + 1)
Tracks-upsert t hex new m tracks id small h a e =
    let found = find-upsert h hex (λ _. new) t in
    elim (Bool-cases (bytes_eq h hex)) [
      | inl q ↦
          let it : some new ≡ some a = sym (rw (found, q) refl) ∙ e in
          let same = bytes_eq_sound h hex q in
          let what : new ≡ a = cc in
          subst (λ b. (b.flight_id ≡ flight_id h b.flight_num) × (b.flight_num < m + 1)) what
            (rw same id, small)
      | inr q ↦ let old = tracks h a (sym (rw (found, q) refl) ∙ e) in (old.0, omega (arith, old.1))
    ]

pub next_num_bound :
    (t : Table ActiveFlight) (hex : Bytes) (m : ℕ) → Tracks t m → next_num (find hex t) < m + 1
unfolding next_num
next_num_bound t hex m tracks = elim (Option-cases (find hex t)) [
  | inl e ↦ rw e (omega arith)
  | inr (a, e) ↦ rw e (omega (arith, (tracks hex a e).1))
]

-- The number of a new flight is new.
pub fresh :
    (t : Table ActiveFlight) (hex id : Bytes) (m : ℕ)
    → Tracks t m
    → m < u32_mod
    → Issued t id
    → bytes_eq id (flight_id hex (next_num (find hex t))) ≡ false
unfolding next_num
fresh t hex id m tracks room (h, n, a, e, f, le) =
    let new = next_num (find hex t) in
    elim (Bool-cases (bytes_eq id (flight_id hex new))) [
      | inl q ↦
          let same = flight_id-injective h hex n new (sym e ∙ bytes_eq_sound id _ q) in
          let held : find hex t ≡ some a = sym (ap (λ k. find k t) same.0) ∙ f in
          let next : new ≡ (a.flight_num + 1) % u32_mod = ap next_num held in
          absurd (omega (arith, same.1, next, (tracks hex a held).1))
      | inr q ↦ q
    ]

module _ {F64 : Type 0} where
  pub has_id-fresh :
      (id : Bytes) (P : Bytes → Type 0) (rows : List (Flight F64))
      → ((j : Bytes) → P j → bytes_eq j id ≡ false)
      → All (λ r. P r.flight_id) rows
      → has_id id rows ≡ false
  unfolding has_id
  has_id-fresh id P [] h all = refl
  has_id-fresh id P (r ∷ rows) h all = rw (h r.flight_id all.0, has_id-fresh id P rows h all.1) refl

  -- One more INSERT, after those that succeeded.
  pub exec_inserts-append :
      (inserts rows rows' : List (Flight F64)) (r : Flight F64)
      → exec_inserts inserts rows ≡ (rows', true)
      → leb integer_limit r.flight_num ≡ false
      → has_id r.flight_id rows' ≡ false
      → exec_inserts (inserts ++ r ∷ []) rows ≡ (rows' ++ r ∷ [], true)
  unfolding exec_inserts
  exec_inserts-append [] rows rows' r done fits new =
      let same : rows ≡ rows' = ap (λ d. d.0) done in rw (fits, same, new) refl
  exec_inserts-append (x ∷ inserts) rows rows' r done fits new =
      elim (Bool-cases (leb integer_limit x.flight_num || has_id x.flight_id rows)) [
        | inl e ↦ let failed : false ≡ true = sym (rw e refl) ∙ ap (λ d. d.1) done in cc
        | inr e ↦
            let rest = sym (rw e refl) ∙ done in
            rw e (exec_inserts-append inserts (rows ++ x ∷ []) rows' r rest fits new)
      ]
