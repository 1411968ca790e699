-- ===== src/Country/Grid.antt =====
-- gridToLatLon of src/analyze/geo.js. Latitudes count from the south pole and longitudes from the
-- antimeridian, in 48ths of a degree, in which every number of the source is whole.
use contestscore.Prelude.{
  ℕ, ◌+◌, ◌-◌, ◌*◌, ◌/◌, Bool, ◌&&◌, [], ◌∷◌, Option, none, some, leb, if◌then◌else◌,
}
use contestscore.Prelude.Text.{Text, is_digit, to_upper_case, trim}

-- a cell by its south-west corner and its size
pub record Cell : Type 0 where
  pub lat : ℕ
  pub lon : ℕ
  pub lat_span : ℕ
  pub lon_span : ℕ

pub record Point : Type 0 where
  pub lat : ℕ
  pub lon : ℕ

-- [A-R]
unfoldable pub is_field_letter : ℕ → Bool
is_field_letter c = leb b'A' c && leb c b'R'

-- [A-X]
unfoldable pub is_subsquare_letter : ℕ → Bool
is_subsquare_letter c = leb b'A' c && leb c b'X'

-- 20 by 10 degrees for each pair of letters
unfoldable pub field_cell : ℕ → ℕ → Cell
field_cell a b = record {
  lat = (b - 65) * 480;
  lon = (a - 65) * 960;
  lat_span = 480;
  lon_span = 960;
}

-- 2 by 1 degrees for each pair of digits
unfoldable pub square_cell : ℕ → ℕ → Cell → Cell
square_cell c d field = record {
  lat = field.lat + (d - 48) * 48;
  lon = field.lon + (c - 48) * 96;
  lat_span = 48;
  lon_span = 96;
}

-- a 24th of the square for each letter
unfoldable pub subsquare_cell : ℕ → ℕ → Cell → Cell
subsquare_cell e f square = record {
  lat = square.lat + (f - 65) * 2;
  lon = square.lon + (e - 65) * 4;
  lat_span = 2;
  lon_span = 4;
}

-- the regular expression and the cell
unfoldable pub grid_cell : Text → Option Cell
unfolding is_field_letter is_subsquare_letter is_digit field_cell square_cell subsquare_cell
grid_cell (a ∷ b ∷ []) =
    if is_field_letter a && is_field_letter b then some (field_cell a b) else none
grid_cell (a ∷ b ∷ c ∷ d ∷ []) =
    if is_field_letter a && is_field_letter b && is_digit c && is_digit d
    then some (square_cell c d (field_cell a b))
    else none
grid_cell (a ∷ b ∷ c ∷ d ∷ e ∷ f ∷ []) =
    if is_field_letter a
      && is_field_letter b
      && is_digit c
      && is_digit d
      && is_subsquare_letter e
      && is_subsquare_letter f
    then some (subsquare_cell e f (square_cell c d (field_cell a b)))
    else none
grid_cell _ = none

unfoldable pub center : Cell → Point
center cell = record { lat = cell.lat + cell.lat_span / 2; lon = cell.lon + cell.lon_span / 2 }

unfoldable pub grid_to_lat_lon : Text → Option Point
unfolding grid_cell center trim to_upper_case
grid_to_lat_lon grid = elim (grid_cell (to_upper_case (trim grid))) [
  | none ↦ none
  | some cell ↦ some (center cell)
]
