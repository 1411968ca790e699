-- ===== src/Country/GridLaws.antt =====
-- Longer grid locators of src/analyze/geo.js refine shorter ones.
use contestscore.Country.Grid.{
  Cell, is_field_letter, is_subsquare_letter, field_cell, square_cell, subsquare_cell, grid_cell,
  center,
}
use contestscore.Prelude.{ℕ, ◌+◌, ◌*◌, ◌≤◌, ◌<◌, ◌≡◌, refl, true, [], ◌∷◌, some, arith}
use contestscore.Prelude.Text.{is_digit}

-- The small cell lies in the big one, and the point for it strictly inside both.
pub record Refines (small big : Cell) : Type 0 where
  pub south : big.lat ≤ small.lat
  pub west : big.lon ≤ small.lon
  pub north : small.lat + small.lat_span ≤ big.lat + big.lat_span
  pub east : small.lon + small.lon_span ≤ big.lon + big.lon_span
  pub inside :
      (small.lat < (center small).lat)
      × ((center small).lat < small.lat + small.lat_span)
      × (small.lon < (center small).lon)
      × ((center small).lon < small.lon + small.lon_span)

-- all of the earth
abbrev pub earth : Cell
earth = record { lat = 0; lon = 0; lat_span = 180 * 48; lon_span = 360 * 48 }

field_cell-Refines :
    (a b : ℕ) → is_field_letter a ≡ true → is_field_letter b ≡ true → Refines (field_cell a b) earth
unfolding is_field_letter field_cell center
field_cell-Refines a b p q = record {
  south = omega arith;
  west = omega arith;
  north = ground arith;
  east = ground arith;
  inside = (omega arith, omega arith, omega arith, omega arith);
}

square_cell-Refines :
    (a b c d : ℕ)
    → is_digit c ≡ true
    → is_digit d ≡ true
    → Refines (square_cell c d (field_cell a b)) (field_cell a b)
unfolding is_digit field_cell square_cell center
square_cell-Refines a b c d p q = record {
  south = omega arith;
  west = omega arith;
  north = ground arith;
  east = ground arith;
  inside = (omega arith, omega arith, omega arith, omega arith);
}

subsquare_cell-Refines :
    (c d e f : ℕ) (field : Cell)
    → is_subsquare_letter e ≡ true
    → is_subsquare_letter f ≡ true
    → Refines (subsquare_cell e f (square_cell c d field)) (square_cell c d field)
unfolding is_subsquare_letter square_cell subsquare_cell center
subsquare_cell-Refines c d e f field p q = record {
  south = omega arith;
  west = omega arith;
  north = ground arith;
  east = ground arith;
  inside = (omega arith, omega arith, omega arith, omega arith);
}

-- A locator of six characters has a cell inside that of its first four, which lies inside that of
-- its first two, which lies on the earth; the point for each locator lies strictly inside its cell.
pub grid_cell-Refines :
    (a b c d e f : ℕ) (cell : Cell)
    → grid_cell (a ∷ b ∷ c ∷ d ∷ e ∷ f ∷ []) ≡ some cell
    → (square : Cell) × (field : Cell) × (grid_cell (a ∷ b ∷ c ∷ d ∷ []) ≡ some square)
      × (grid_cell (a ∷ b ∷ []) ≡ some field)
      × Refines cell square
      × Refines square field
      × Refines field earth
unfolding grid_cell
grid_cell-Refines a b c d e f cell h =
    let field = field_cell a b in
    let square = square_cell c d field in
    let same : subsquare_cell e f square ≡ cell = ground arith in
    let pa : is_field_letter a ≡ true = ground arith in
    let pb : is_field_letter b ≡ true = ground arith in
    let pc : is_digit c ≡ true = ground arith in
    let pd : is_digit d ≡ true = ground arith in
    (
      square,
      field,
      rw (pa, pb, pc, pd) refl,
      rw (pa, pb) refl,
      rw (← same) (subsquare_cell-Refines c d e f field (ground arith) (ground arith)),
      square_cell-Refines a b c d pc pd,
      field_cell-Refines a b pa pb,
    )
