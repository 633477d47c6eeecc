-- ===== src/Examples/Provider.antt =====
-- The theorems on the weather provider at concrete inputs.
use adsb_feed.Prelude.{
  ℕ, zero, suc, ◌+◌, ◌*◌, ◌<◌, ◌≡◌, refl, Bool, true, false, none, some, Result, ok, err, sym, ◌∙◌,
  ◌⊎◌, List, [], ◌∷◌, map, Bytes, codes, bytes_eq, if◌then◌else◌, arith,
}
use adsb_feed.Prelude.Decimal.{decimal, digits}
use adsb_feed.Prelude.Int.{ℤ, pos, eqb_ℤ, wrap_i64, times_ℤ, ◌+ℤ◌, ◌-ℤ◌, saturate_i64}
use adsb_feed.Ingest.Table.{find, upsert}
use adsb_feed.Weather.Grid.{GridSpec, len, points, rows_points, row_points}
use adsb_feed.Weather.Snapshot.{WeatherSnapshot, validate}
use adsb_feed.Weather.OpenMeteo.{
  LocationResponse, Body, many, parse_body, nearest, select_hour, valid_time, snapshot_at,
  assemble_snapshot,
}
use adsb_feed.Weather.OpenMeteo.Urls.{
  level_variables, hourly_variables, join, chunks_on, chunks, chunk_url, build_urls,
}
use adsb_feed.Weather.OpenMeteo.Assembled.{assemble_snapshot-validate}
use adsb_feed.Weather.OpenMeteo.Hour.{NearestTime, times_of, assemble_snapshot-NearestTime}
use adsb_feed.Weather.Provider.{
  ProviderError, http, Answer, answered, Provider, nearest_hour, get_held, insert_held, buy_chunk,
  take_chunk, fetch_chunks, get, fetch,
}
use adsb_feed.Weather.Provider.Retrying.{Buys, fetch_chunks-Buys}
use adsb_feed.Weather.Provider.Chunks.{concat}
use adsb_feed.Weather.Provider.Contents.{Sourced, Refused, fetch_chunks_lem}
use adsb_feed.Weather.Provider.Cells.{Asks, Cell, fetch-Cell}

abbrev grid : GridSpec ℕ
grid = record { lat0 = 47; lon0 = 3; dlat = 1; dlon = 1; nlat = 1; nlon = 2 }

abbrev point : GridSpec ℕ → ℕ → ℕ → ℕ × ℕ
point g row col = (g.lat0 + row * g.dlat, g.lon0 + col * g.dlon)

-- The pressure at a point, for one hour.
abbrev respond : ℕ × ℕ → LocationResponse ℕ
respond p = record {
  time = pos 3600 ∷ [];
  series = (codes "pressure_msl", some (1000 + p.1) ∷ []) ∷ [];
}

abbrev url_of : List (ℕ × ℕ) → Bytes
url_of ps = chunk_url decimal [] [] (join (hourly_variables [])) ps

-- Two URLs, of one point each.
abbrev want : Bytes → List (LocationResponse ℕ)
want url =
    if bytes_eq url (url_of ((47, 3) ∷ [])) then respond (47, 3) ∷ [] else respond (47, 4) ∷ []

abbrev from_slice : Bytes → Result (Body ℕ) Bytes
from_slice body = ok (many (want body))

-- A server whose body is the URL, which `from_slice` decodes to what is wanted.
abbrev send : ℕ → Bytes → Answer
send n url = answered 200 none url

abbrev fresh_provider : Provider (List (LocationResponse ℕ))
fresh_provider = record { partial = record { hour = pos 0; chunks = [] }; requests = [] }

abbrev snapshot : WeatherSnapshot ℕ ℕ
snapshot = snapshot_at grid [] [] (map respond (points point grid)) (pos 3600) (pos 3600000)

assemble_snapshot-validate_example : validate snapshot ≡ ok tt
unfolding assemble_snapshot valid_time select_hour nearest len points rows_points row_points
assemble_snapshot-validate_example =
    assemble_snapshot-validate grid [] [] (map respond (points point grid)) (pos 3600000)
      (pos 3600000) snapshot refl

-- Two locations of three hours, at a quarter past the second.
abbrev three_hours : List (LocationResponse ℕ)
three_hours =
    let l : LocationResponse ℕ = record { time = pos 0 ∷ pos 3600 ∷ pos 7200 ∷ []; series = [] } in
    l ∷ l ∷ []

abbrev second_hour : WeatherSnapshot ℕ ℕ
second_hour = snapshot_at grid [] [] three_hours (pos 3600) (pos 4500000)

assemble_snapshot-NearestTime_example :
    (t : ℤ) × (second_hour.valid_time_ms ≡ times_ℤ 1000 t)
    × NearestTime (pos 4500000) (times_of three_hours) t
unfolding assemble_snapshot valid_time select_hour nearest len ◌-ℤ◌ saturate_i64
assemble_snapshot-NearestTime_example =
    assemble_snapshot-NearestTime grid [] [] three_hours (pos 4500000) (pos 4500000) second_hour
      ((omega arith, omega arith), ((omega arith, omega arith), ((omega arith, omega arith), tt)))
      refl

abbrev answers : ℕ → Bytes → Result (List (LocationResponse ℕ)) ProviderError
answers zero url = ok (want url)
answers (suc n) url = err (http [])

-- The second request fails; the first chunk is held.
abbrev urls : List Bytes
urls = url_of ((47, 3) ∷ []) ∷ url_of ((47, 4) ∷ []) ∷ []

fetch_chunks-Buys_example :
    Buys answers
      (pos 1)
      fresh_provider
      (fetch_chunks answers (pos 1) urls fresh_provider).0
      (fetch_chunks answers (pos 1) urls fresh_provider).1
fetch_chunks-Buys_example = fetch_chunks-Buys answers (pos 1) urls fresh_provider

honest_get :
    (n : ℕ) (url : Bytes) (l : List (LocationResponse ℕ))
    → get from_slice send n url ≡ ok l
    → l ≡ want url
unfolding get parse_body
honest_get n url l e = let it : ok (want url) ≡ ok l = e in cc

if_same : {A : Type 0} (b : Bool) (x : A) → (if b then x else x) ≡ x
if_same true x = refl
if_same false x = refl

fresh_Sourced : (hour : ℤ) → Sourced (get from_slice send) want hour fresh_provider
unfolding get_held find
fresh_Sourced hour url l e =
    let no : none ≡ some l = sym (if_same (eqb_ℤ (pos 0) hour) none) ∙ e in cc

fetch_chunks_lem_example :
    ((fetch_chunks (get from_slice send) (pos 1) urls fresh_provider).1
      ≡ ok (concat (map want urls)))
    ⊎ ((e : ProviderError) × ((fetch_chunks (get from_slice send) (pos 1) urls fresh_provider).1
          ≡ err e)
        × Refused (get from_slice send) want (pos 1) e)
fetch_chunks_lem_example =
    fetch_chunks_lem (get from_slice send) want (pos 1) urls fresh_provider honest_get
      (fresh_Sourced (pos 1))

asks : Asks decimal point from_slice send [] [] 1 grid [] (pos 3600000) want respond
unfolding points rows_points row_points chunks chunks_on chunk_url hourly_variables join digits
    level_variables bytes_eq
asks = (refl, (refl, tt))

fetch-Cell_example :
    (t : ℤ) × (valid_time (pos 3600000) (map respond (points point grid)) ≡ some t)
    × (snapshot.valid_time_ms ≡ wrap_i64 (times_ℤ 1000 t))
    × ((row col : ℕ)
        → row < 1
        → col < 2
        → Cell decimal point from_slice send [] [] 1 grid []
            (pos 3600000)
            want
            respond
            snapshot.surface.mslp_hpa
            (codes "pressure_msl")
            t
            row
            col
          × Cell decimal point from_slice send [] [] 1 grid []
              (pos 3600000)
              want
              respond
              snapshot.surface.wind_speed_kt
              (codes "wind_speed_10m")
              t
              row
              col
          × Cell decimal point from_slice send [] [] 1 grid []
              (pos 3600000)
              want
              respond
              snapshot.surface.wind_dir_deg
              (codes "wind_direction_10m")
              t
              row
              col)
unfolding fetch points rows_points row_points build_urls chunks chunks_on chunk_url hourly_variables
    join digits level_variables bytes_eq fetch_chunks take_chunk buy_chunk get_held insert_held find
    upsert get parse_body assemble_snapshot valid_time select_hour nearest len ◌-ℤ◌ ◌+ℤ◌
fetch-Cell_example =
    fetch-Cell decimal point from_slice send [] [] 1 grid [] (pos 3600000) want respond
      fresh_provider snapshot asks honest_get (fresh_Sourced (nearest_hour (pos 3600000))) refl
