-- ===== src/Weather/Grid/Cells.antt =====
-- The row-major order of rust/adsb-weather-server/src/grid.rs.
use adsb_feed.Prelude.{
  ℕ, zero, suc, ◌+◌, ◌*◌, ◌<◌, ◌≡◌, refl, ap, ◌∙◌, arith, some, List, [], ◌∷◌, ◌++◌, length,
  length-append, get_elem?,
}
use adsb_feed.Weather.Grid.{GridSpec, len, index, row_points, rows_points, points}

module _ {ℓ} {A : Type ℓ} where
  get_elem?_left :
      (xs ys : List A) (i : ℕ) → i < length xs → get_elem? (xs ++ ys) i ≡ get_elem? xs i
  get_elem?_left [] ys i h = absurd (omega (arith, h))
  get_elem?_left (x ∷ xs) ys zero h = refl
  get_elem?_left (x ∷ xs) ys (suc i) h = get_elem?_left xs ys i (omega (arith, h))

  get_elem?_right : (xs ys : List A) (i : ℕ) → get_elem? (xs ++ ys) (length xs + i) ≡ get_elem? ys i
  get_elem?_right [] ys i = ap (get_elem? ys) (omega arith)
  get_elem?_right (x ∷ xs) ys i =
      let next : suc (length xs) + i ≡ suc (length xs + i) = omega arith in
      ap (get_elem? (x ∷ xs ++ ys)) next ∙ get_elem?_right xs ys i

module _ {F64 : Type 0} (point : GridSpec F64 → ℕ → ℕ → F64 × F64) (grid : GridSpec F64) where
  length-row_points : (row col n : ℕ) → length (row_points point grid row col n) ≡ n
  unfolding row_points
  length-row_points row col zero = refl
  length-row_points row col (suc n) = ap suc (length-row_points row (col + 1) n)

  length-rows_points : (row n : ℕ) → length (rows_points point grid row n) ≡ n * grid.nlon
  unfolding rows_points
  length-rows_points row zero = omega arith
  length-rows_points row (suc n) =
      let here = row_points point grid row 0 grid.nlon in
      let both = length-append here (rows_points point grid (row + 1) n) in
      both ∙ omega (arith, length-row_points row 0 grid.nlon, length-rows_points (row + 1) n)

  -- As many points as `len` says.
  pub length-points : length (points point grid) ≡ len grid
  unfolding points len
  length-points = length-rows_points 0 grid.nlat

  row_points_at :
      (row col n i : ℕ)
      → i < n
      → get_elem? (row_points point grid row col n) i ≡ some (point grid row (col + i))
  unfolding row_points
  row_points_at row col zero i h = absurd (omega (arith, h))
  row_points_at row col (suc n) zero h = ap (λ c. some (point grid row c)) (omega arith)
  row_points_at row col (suc n) (suc i) h =
      row_points_at row (col + 1) n i (omega (arith, h))
      ∙ ap (λ c. some (point grid row c)) (omega arith)

  rows_points_at :
      (row n i col : ℕ)
      → i < n
      → col < grid.nlon
      → get_elem? (rows_points point grid row n) (i * grid.nlon + col)
        ≡ some (point grid (row + i) col)
  unfolding rows_points
  rows_points_at row zero i col h k = absurd (omega (arith, h))
  rows_points_at row (suc n) zero col h k =
      let here = row_points point grid row 0 grid.nlon in
      let rest = rows_points point grid (row + 1) n in
      let fits : col < length here = omega (arith, k, length-row_points row 0 grid.nlon) in
      let at : 0 * grid.nlon + col ≡ col = omega arith in
      ap (get_elem? (here ++ rest)) at
      ∙ get_elem?_left here rest col fits
      ∙ row_points_at row 0 grid.nlon col k
      ∙ (λ i. some (point grid (same row i) (zero_plus col i)))
    where
      same : (n : ℕ) → n ≡ n + 0
      same n = omega arith

      zero_plus : (n : ℕ) → 0 + n ≡ n
      zero_plus n = omega arith
  rows_points_at row (suc n) (suc i) col h k =
      let here = row_points point grid row 0 grid.nlon in
      let rest = rows_points point grid (row + 1) n in
      let at : suc i * grid.nlon + col ≡ length here + (i * grid.nlon + col) =
        omega (arith, length-row_points row 0 grid.nlon) in
      ap (get_elem? (here ++ rest)) at
      ∙ get_elem?_right here rest (i * grid.nlon + col)
      ∙ rows_points_at (row + 1) n i col (omega (arith, h)) k
      ∙ ap (λ r. some (point grid r col)) (omega arith)

  -- The point of a cell stands at the cell's index, so an index below both sizes is never out of range.
  pub points-index :
      (row col : ℕ)
      → row < grid.nlat
      → col < grid.nlon
      → get_elem? (points point grid) (index grid row col) ≡ some (point grid row col)
  unfolding points index
  points-index row col h k =
      rows_points_at 0 grid.nlat row col h k ∙ ap (λ r. some (point grid r col)) (omega arith)
