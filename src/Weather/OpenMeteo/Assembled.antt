-- ===== src/Weather/OpenMeteo/Assembled.antt =====
-- What `assemble_snapshot` of rust/adsb-weather-server/src/open_meteo.rs guarantees of the snapshot it makes.
use adsb_feed.Prelude.{
  subst, leb→le, ℕ, suc, ◌≤◌, ◌<◌, ◌≡◌, refl, sym, ap, ◌∙◌, arith, false, Option, none, some,
  Result, ok, err, and_then, List, [], ◌∷◌, map, Bytes, codes, length, get_elem?, take, All,
  All-imp, leb, ◌==◌, ==_iff, Bool-cases, Option-cases, inl, inr,
}
use adsb_feed.Prelude.Int.{ℤ}
use adsb_feed.Weather.Grid.{GridSpec, len}
use adsb_feed.Weather.Snapshot.{
  WeatherSnapshot, ensure_len, validate_levels, validate_surface, validate,
}
use adsb_feed.Weather.OpenMeteo.Urls.{wind_speed_at, wind_direction_at}
use adsb_feed.Weather.OpenMeteo.{
  location_count, no_times, LocationResponse, distance, nearest, select_hour, value_at, column,
  level_fields, snapshot_at, valid_time, assemble_snapshot,
}

-- The time at `i` is a nearest one: none is nearer, and those before it are farther.
abbrev pub Nearest : ℤ → List ℤ → ℕ → Type 0
Nearest now_ms times i =
    (t : ℤ) × (get_elem? times i ≡ some t)
    × All (λ u. distance now_ms t ≤ distance now_ms u) times
    × All (λ u. distance now_ms t < distance now_ms u) (take i times)

le_trans : (a b c : ℕ) → a ≤ b → b ≤ c → a ≤ c
le_trans a b c h k = omega arith

not_leb : (a b : ℕ) → leb a b ≡ false → b < a
not_leb a b h = ground arith

abbrev Found : ℤ → List ℤ → ℕ × ℕ → Type 0
Found now_ms times p =
    (t : ℤ) × (get_elem? times p.0 ≡ some t)
    × (p.1 ≡ distance now_ms t)
    × All (λ u. p.1 ≤ distance now_ms u) times
    × All (λ u. p.1 < distance now_ms u) (take p.0 times)

no_times_left : (now_ms : ℤ) (times : List ℤ) → nearest now_ms times ≡ none → times ≡ []
unfolding nearest
no_times_left now_ms [] e = refl
no_times_left now_ms (t ∷ times) e = elim (Option-cases (nearest now_ms times)) [
  | inl n ↦
      let no : ◌≡◌ {A = Option (ℕ × ℕ)} (some (0, distance now_ms t)) none = sym (rw n refl) ∙ e in
      cc
  | inr (q, n) ↦ elim (Bool-cases (leb (distance now_ms t) q.1)) [
    | inl c ↦
        let no : ◌≡◌ {A = Option (ℕ × ℕ)} (some (0, distance now_ms t)) none =
          sym (rw (n, c) refl) ∙ e in
        cc
    | inr c ↦
        let no : ◌≡◌ {A = Option (ℕ × ℕ)} (some (suc q.0, q.1)) none = sym (rw (n, c) refl) ∙ e in
        cc
  ]
]

Found-nearest :
    (now_ms : ℤ) (times : List ℤ) (p : ℕ × ℕ) → nearest now_ms times ≡ some p → Found now_ms times p
unfolding nearest
Found-nearest now_ms [] p e = cc
Found-nearest now_ms (t ∷ times) p e = elim (Option-cases (nearest now_ms times)) [
  | inl n ↦
      let it : some (0, distance now_ms t) ≡ some p = sym (rw n refl) ∙ e in
      let same : (0, distance now_ms t) ≡ p = cc in
      let far =
        subst (All (λ u. distance now_ms t ≤ distance now_ms u))
          (sym (no_times_left now_ms times n)) tt in
      subst (Found now_ms (t ∷ times)) same (t, refl, refl, (omega arith, far), tt)
  | inr (q, n) ↦
      let (t', at, d, far, earlier) = Found-nearest now_ms times q n in
      elim (Bool-cases (leb (distance now_ms t) q.1)) [
        | inl c ↦
            let it : some (0, distance now_ms t) ≡ some p = sym (rw (n, c) refl) ∙ e in
            let same : (0, distance now_ms t) ≡ p = cc in
            let farther =
              All-imp (λ u h. le_trans (distance now_ms t) q.1 (distance now_ms u) (leb→le _ _ c) h)
                times far in
            subst (Found now_ms (t ∷ times)) same (t, refl, refl, (omega arith, farther), tt)
        | inr c ↦
            let it : some (suc q.0, q.1) ≡ some p = sym (rw (n, c) refl) ∙ e in
            let same : (suc q.0, q.1) ≡ p = cc in
            let less = not_leb (distance now_ms t) q.1 c in
            subst (Found now_ms (t ∷ times)) same
              (t', at, d, (omega (arith, less), far), (less, earlier))
      ]
]

-- The hour that is selected is the first of those nearest to the clock.
pub select_hour-Nearest :
    (now_ms : ℤ) (times : List ℤ) (i : ℕ)
    → select_hour now_ms times ≡ some i
    → Nearest now_ms times i
unfolding select_hour
select_hour-Nearest now_ms times i e = elim (Option-cases (nearest now_ms times)) [
  | inl n ↦ let no : none ≡ some i = sym (rw n refl) ∙ e in cc
  | inr (p, n) ↦
      let it : some p.0 ≡ some i = sym (rw n refl) ∙ e in
      let same : p.0 ≡ i = cc in
      let (t, at, d, far, earlier) = Found-nearest now_ms times p n in
      subst (Nearest now_ms times) same (
        t,
        at,
        subst (λ k. All (λ u. k ≤ distance now_ms u) times) d far,
        subst (λ k. All (λ u. k < distance now_ms u) (take p.0 times)) d earlier,
      )
]

length-map : {A B : Type 0} (f : A → B) (xs : List A) → length (map f xs) ≡ length xs
length-map f [] = refl
length-map f (x ∷ xs) = ap suc (length-map f xs)

then_ok :
    {E : Type 0} (r q : Result (Unit {0}) E) → r ≡ ok tt → q ≡ ok tt → and_then r (λ _. q) ≡ ok tt
then_ok r q e f = ap (λ x. and_then x (λ _. q)) e ∙ f

module _ {F32 : Type 0} where
  ensured :
      (name : Bytes) (locations : List (LocationResponse F32)) (t : ℤ) (variable : Bytes) (n : ℕ)
      → length locations ≡ n
      → ensure_len name (column locations t variable) n ≡ ok tt
  unfolding ensure_len column
  ensured name locations t variable n e =
      let count = length-map (value_at variable t) locations ∙ e in
      let same = (==_iff (length (map (value_at variable t) locations)) n).1 count in rw same refl

  levels_valid :
      (locations : List (LocationResponse F32)) (t : ℤ) (levels : List ℕ) (n : ℕ)
      → length locations ≡ n
      → validate_levels (level_fields locations t levels) n ≡ ok tt
  unfolding validate_levels level_fields
  levels_valid locations t [] n e = refl
  levels_valid locations t (level ∷ levels) n e =
      then_ok _ _ (ensured _ locations t (wind_speed_at level) n e) (
        then_ok _ _ (ensured _ locations t (wind_direction_at level) n e)
          (levels_valid locations t levels n e))

  module _ {F64 : Type 0} where
    snapshot_at-validate :
        (grid : GridSpec F64) (levels : List ℕ) (model : Bytes)
        (locations : List (LocationResponse F32)) (t fetched_at_ms : ℤ)
        → length locations ≡ len grid
        → validate (snapshot_at grid levels model locations t fetched_at_ms) ≡ ok tt
    unfolding validate validate_surface snapshot_at
    snapshot_at-validate grid levels model locations t fetched_at_ms e =
        let n = len grid in
        then_ok _ _
          (then_ok _ _ (ensured _ locations t (codes "pressure_msl") n e) (
            then_ok _ _ (ensured _ locations t (codes "wind_speed_10m") n e)
              (ensured _ locations t (codes "wind_direction_10m") n e)))
          (levels_valid locations t levels n e)

    -- What it takes to assemble a snapshot.
    pub assembled :
        (grid : GridSpec F64) (levels : List ℕ) (model : Bytes)
        (locations : List (LocationResponse F32)) (now_ms fetched_at_ms : ℤ)
        (s : WeatherSnapshot F64 F32)
        → assemble_snapshot grid levels model locations now_ms fetched_at_ms ≡ ok s
        → (t : ℤ) × (valid_time now_ms locations ≡ some t)
          × (s ≡ snapshot_at grid levels model locations t fetched_at_ms)
          × (length locations ≡ len grid)
    unfolding assemble_snapshot
    assembled grid levels model locations now_ms fetched_at_ms s h =
        elim (Bool-cases (length locations == len grid)) [
          | inl e ↦ elim (Option-cases (valid_time now_ms locations)) [
            | inl n ↦ let no : err no_times ≡ ok s = sym (rw (e, n) refl) ∙ h in cc
            | inr (t, n) ↦
                let made = snapshot_at grid levels model locations t fetched_at_ms in
                let it : ok made ≡ ok s = sym (rw (e, n) refl) ∙ h in
                let same : made ≡ s = cc in (t, n, sym same, (==_iff _ _).0 e)
          ]
          | inr e ↦
              let no : err (location_count (length locations) (len grid)) ≡ ok s =
                sym (rw e refl) ∙ h in
              cc
        ]

    -- Every snapshot that is assembled passes the check that its consumers make.
    pub assemble_snapshot-validate :
        (grid : GridSpec F64) (levels : List ℕ) (model : Bytes)
        (locations : List (LocationResponse F32)) (now_ms fetched_at_ms : ℤ)
        (s : WeatherSnapshot F64 F32)
        → assemble_snapshot grid levels model locations now_ms fetched_at_ms ≡ ok s
        → validate s ≡ ok tt
    assemble_snapshot-validate grid levels model locations now_ms fetched_at_ms s h =
        let (t, time, what, count) =
          assembled grid levels model locations now_ms fetched_at_ms s h in
        ap validate what ∙ snapshot_at-validate grid levels model locations t fetched_at_ms count
