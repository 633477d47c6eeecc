-- ===== src/Weather/Grid.antt =====
-- The cells of rust/adsb-weather-server/src/grid.rs.  A coordinate is a float; `point`, its arithmetic, is a
-- parameter.
pub mod Cells
use adsb_feed.Prelude.{ℕ, zero, suc, ◌+◌, ◌*◌, List, [], ◌∷◌, ◌++◌}

pub record GridSpec (F64 : Type 0) : Type 0 where
  pub lat0 : F64
  pub lon0 : F64
  pub dlat : F64
  pub dlon : F64
  pub nlat : ℕ
  pub nlon : ℕ

module _ {F64 : Type 0} where
  unfoldable pub len : GridSpec F64 → ℕ
  len grid = grid.nlat * grid.nlon

  unfoldable pub index : GridSpec F64 → ℕ → ℕ → ℕ
  index grid row col = row * grid.nlon + col

  module _ (point : GridSpec F64 → ℕ → ℕ → F64 × F64) where
    -- The points of a row, from a column on; and of the rows from one on.
    unfoldable pub row_points : GridSpec F64 → ℕ → ℕ → ℕ → List (F64 × F64)
    row_points grid row col zero = []
    row_points grid row col (suc n) = point grid row col ∷ row_points grid row (col + 1) n

    unfoldable pub rows_points : GridSpec F64 → ℕ → ℕ → List (F64 × F64)
    unfolding row_points
    rows_points grid row zero = []
    rows_points grid row (suc n) = row_points grid row 0 grid.nlon ++ rows_points grid (row + 1) n

    unfoldable pub points : GridSpec F64 → List (F64 × F64)
    unfolding rows_points
    points grid = rows_points grid 0 grid.nlat
