-- ===== src/Weather/Provider/Cells.antt =====
-- From the grid of rust/adsb-weather-server/src/grid.rs through the requests of src/open_meteo.rs and the fetch
-- of src/provider.rs to the arrays of the snapshot: each value belongs to the point of its cell.
use mathlib.Core.List.{map-append}
use adsb_feed.Prelude.{
  ℕ, zero, suc, max, ◌<◌, ◌≡◌, refl, sym, ap, ◌∙◌, arith, Option, some, Result, Result-cases, ok,
  err, and_then, map_err, subst, List, [], ◌∷◌, ◌++◌, map, Bytes, codes, All, get_elem?, inl, inr,
}
use adsb_feed.Prelude.Int.{ℤ, wrap_i64, times_ℤ}
use adsb_feed.Weather.Grid.{GridSpec, index, points}
use adsb_feed.Weather.Grid.Cells.{points-index}
use adsb_feed.Weather.Snapshot.{WeatherSnapshot}
use adsb_feed.Weather.OpenMeteo.{
  LocationResponse, Body, value_at, column, valid_time, snapshot_at, assemble_snapshot,
}
use adsb_feed.Weather.OpenMeteo.Urls.{hourly_variables, join, chunks, chunk_url, build_urls}
use adsb_feed.Weather.OpenMeteo.Assembled.{assembled}
use adsb_feed.Weather.Provider.{
  ProviderError, decode, Answer, Provider, nearest_hour, fetch_chunks, get, fetch,
}
use adsb_feed.Weather.Provider.Chunks.{concat, concat-chunks}
use adsb_feed.Weather.Provider.Contents.{Honest, Sourced, fetch_chunks_lem}

one_at_least : (n : ℕ) → (k : ℕ) × (max n 1 ≡ suc k)
one_at_least zero = (0, omega arith)
one_at_least (suc n) = (n, omega arith)

module _ {A B : Type 0} where
  concat-map : (f : A → B) (xss : List (List A)) → concat (map (map f) xss) ≡ map f (concat xss)
  concat-map f [] = refl
  concat-map f (xs ∷ xss) =
      ap (λ ys. map f xs ++ ys) (concat-map f xss) ∙ sym (map-append f xs (concat xss))

  get_elem?-map :
      (f : A → B) (xs : List A) (i : ℕ) (x : A)
      → get_elem? xs i ≡ some x
      → get_elem? (map f xs) i ≡ some (f x)
  get_elem?-map f [] i x e = cc
  get_elem?-map f (y ∷ xs) zero x e = let same : y ≡ x = cc in ap (λ z. some (f z)) same
  get_elem?-map f (y ∷ xs) (suc i) x e = get_elem?-map f xs i x e

module _ {F64 F32 : Type 0} (show : F64 → Bytes) (point : GridSpec F64 → ℕ → ℕ → F64 × F64)
    (from_slice : Bytes → Result (Body F32) Bytes) (send : ℕ → Bytes → Answer)
    (base_url model : Bytes) (chunk : ℕ) (grid : GridSpec F64) (levels : List ℕ) (now_ms : ℤ)
    (want : Bytes → List (LocationResponse F32)) (respond : F64 × F64 → LocationResponse F32) where
  -- The URL of each chunk asks for its points, one by one.
  abbrev pub Asks : Type 0
  Asks =
      All
        (λ ps.
          want (chunk_url show base_url model (join (hourly_variables levels)) ps) ≡ map respond ps)
        (chunks (max chunk 1) (points point grid))

  wanted :
      (pss : List (List (F64 × F64)))
      → All
          (λ ps.
            want (chunk_url show base_url model (join (hourly_variables levels)) ps)
            ≡ map respond ps)
          pss
      → map want (map (chunk_url show base_url model (join (hourly_variables levels))) pss)
        ≡ map (map respond) pss
  wanted [] asks = refl
  wanted (ps ∷ pss) asks = λ i. asks.0 i ∷ wanted pss asks.1 i

  all_wanted :
      Asks
      → concat (map want (build_urls show base_url model levels (points point grid) chunk))
        ≡ map respond (points point grid)
  unfolding build_urls
  all_wanted asks =
      let (k, size) = one_at_least chunk in
      let ps = points point grid in
      ap concat (wanted (chunks (max chunk 1) ps) asks)
      ∙ concat-map respond (chunks (max chunk 1) ps)
      ∙ ap (λ n. map respond (concat (chunks n ps))) size
      ∙ ap (map respond) (concat-chunks k ps)

  -- What a value of the arrays is: that of the variable at the chosen hour and at the cell's point.
  abbrev pub Cell : List (Option F32) → Bytes → ℤ → ℕ → ℕ → Type 0
  Cell values variable t row col =
      get_elem? values (index grid row col)
      ≡ some (value_at variable t (respond (point grid row col)))

  Cell-column :
      (variable : Bytes) (t : ℤ) (row col : ℕ)
      → row < grid.nlat
      → col < grid.nlon
      → Cell (column (map respond (points point grid)) t variable) variable t row col
  unfolding column
  Cell-column variable t row col h k =
      let at = points-index point grid row col h k in
      get_elem?-map (value_at variable t) (map respond (points point grid)) (index grid row col) _
        (get_elem?-map respond (points point grid) (index grid row col) _ at)

  abbrev assembled_of :
      Result (List (LocationResponse F32)) ProviderError
      → Result (WeatherSnapshot F64 F32) ProviderError
  assembled_of result =
      and_then result
        λ locations. map_err decode (assemble_snapshot grid levels model locations now_ms now_ms)

  -- From a server that answers each URL only with the locations of its points, one by one and in order, and
  -- from held chunks of such answers: a fetch that succeeds gives one hour's snapshot, the one selected
  -- from the first location's times, in which the surface values at the index of every cell of the grid
  -- are those of that hour at the cell's point.
  pub fetch-Cell :
      (p : Provider (List (LocationResponse F32))) (s : WeatherSnapshot F64 F32)
      → Asks
      → Honest (get from_slice send) want (nearest_hour now_ms)
      → Sourced (get from_slice send) want (nearest_hour now_ms) p
      → (fetch show point from_slice send base_url model chunk grid levels now_ms p).1 ≡ ok s
      → (t : ℤ) × (valid_time now_ms (map respond (points point grid)) ≡ some t)
        × (s.valid_time_ms ≡ wrap_i64 (times_ℤ 1000 t))
        × ((row col : ℕ)
            → row < grid.nlat
            → col < grid.nlon
            → Cell s.surface.mslp_hpa (codes "pressure_msl") t row col
              × Cell s.surface.wind_speed_kt (codes "wind_speed_10m") t row col
              × Cell s.surface.wind_dir_deg (codes "wind_direction_10m") t row col)
  unfolding fetch snapshot_at
  fetch-Cell p s asks honest sourced h =
      let urls = build_urls show base_url model levels (points point grid) chunk in
      let fetched = (fetch_chunks (get from_slice send) (nearest_hour now_ms) urls p).1 in
      let all = map respond (points point grid) in
      elim (fetch_chunks_lem (get from_slice send) want (nearest_hour now_ms) urls p honest
        sourced) [
          | inl e ↦
              let came : fetched ≡ ok all = e ∙ ap ok (all_wanted asks) in
              let made : assembled_of (ok all) ≡ ok s = ap assembled_of (sym came) ∙ h in
              elim (Result-cases (assemble_snapshot grid levels model all now_ms now_ms)) [
                | inl (s', q) ↦
                    let it : ok s' ≡ ok s = ap (map_err decode) (sym q) ∙ made in
                    let same : s' ≡ s = cc in
                    let (t, time, what, count) =
                      assembled grid levels model all now_ms now_ms s' q in
                    let whole = sym same ∙ what in
                    (
                      t,
                      time,
                      ap (λ r. r.valid_time_ms) whole,
                      λ row col h k. (
                        subst (λ v. Cell v (codes "pressure_msl") t row col)
                            (ap (λ r. r.surface.mslp_hpa) (sym whole))
                            (Cell-column _ t row col h k),
                        subst (λ v. Cell v (codes "wind_speed_10m") t row col)
                            (ap (λ r. r.surface.wind_speed_kt) (sym whole))
                            (Cell-column _ t row col h k),
                        subst (λ v. Cell v (codes "wind_direction_10m") t row col)
                            (ap (λ r. r.surface.wind_dir_deg) (sym whole))
                            (Cell-column _ t row col h k),
                      ),
                    )
                | inr (e', q) ↦
                    let no : err (decode e') ≡ ok s = ap (map_err decode) (sym q) ∙ made in cc
              ]
          | inr (e, q, refused) ↦
              let no : assembled_of (err e) ≡ ok s = ap assembled_of (sym q) ∙ h in cc
        ]
