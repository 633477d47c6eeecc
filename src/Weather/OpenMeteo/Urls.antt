-- ===== src/Weather/OpenMeteo/Urls.antt =====
-- The requests of rust/adsb-weather-server/src/open_meteo.rs.  Printing a coordinate is a parameter.
use adsb_feed.Prelude.{
  ℕ, zero, suc, max, List, [], ◌∷◌, ◌++◌, map, Bytes, codes, length, take, drop,
}
use adsb_feed.Prelude.Decimal.{decimal}

abbrev pub wind_speed_at : ℕ → Bytes
wind_speed_at level = codes "wind_speed_" ++ decimal level ++ codes "hPa"

abbrev pub wind_direction_at : ℕ → Bytes
wind_direction_at level = codes "wind_direction_" ++ decimal level ++ codes "hPa"

unfoldable pub level_variables : List ℕ → List Bytes
level_variables [] = []
level_variables (level ∷ levels) =
    wind_speed_at level ∷ wind_direction_at level ∷ level_variables levels

unfoldable pub hourly_variables : List ℕ → List Bytes
unfolding level_variables
hourly_variables levels =
    codes "pressure_msl"
    ∷ codes "wind_speed_10m"
    ∷ codes "wind_direction_10m"
    ∷ level_variables levels

unfoldable pub join : List Bytes → Bytes
join [] = []
join (x ∷ []) = x
join (x ∷ y ∷ xs) = x ++ b',' ∷ join (y ∷ xs)

-- `chunks(n)`, at most `fuel` of them.
unfoldable pub chunks_on {ℓ} : {A : Type ℓ} → ℕ → ℕ → List A → List (List A)
chunks_on zero n xs = []
chunks_on (suc fuel) n [] = []
chunks_on (suc fuel) n (x ∷ xs) = take n (x ∷ xs) ∷ chunks_on fuel n (drop n (x ∷ xs))

unfoldable pub chunks {ℓ} : {A : Type ℓ} → ℕ → List A → List (List A)
unfolding chunks_on
chunks n xs = chunks_on (length xs) n xs

module _ {F64 : Type 0} (show : F64 → Bytes) where
  unfoldable pub chunk_url : Bytes → Bytes → Bytes → List (F64 × F64) → Bytes
  unfolding join
  chunk_url base_url model variables chunk =
      base_url
      ++ codes "?latitude="
      ++ join (map (λ p. show p.0) chunk)
      ++ codes "&longitude="
      ++ join (map (λ p. show p.1) chunk)
      ++ codes "&hourly="
      ++ variables
      ++ codes "&past_hours=1&forecast_hours=2&wind_speed_unit=kn&timezone=GMT"
      ++ codes "&timeformat=unixtime&cell_selection=nearest&models="
      ++ model

  unfoldable pub build_urls : Bytes → Bytes → List ℕ → List (F64 × F64) → ℕ → List Bytes
  unfolding chunk_url hourly_variables chunks
  build_urls base_url model levels points chunk =
      map (chunk_url base_url model (join (hourly_variables levels))) (chunks (max chunk 1) points)
