-- ===== src/Tests/AnalyzeTests.antt =====
-- Runs of src/analyze/cabrillo.js, and of the grid squares of src/analyze/geo.js.
use contestscore.Analyze.Cabrillo.{parse_cabrillo}
use contestscore.Analyze.Exchange.{pick_worked_call-between}
use contestscore.Analyze.Lines.{lines_qsos, parse_cabrillo-qsos}
use contestscore.Analyze.Tokens.{
  pick_worked_call, is_other_call, looks_like_callsign, is_call_of_parts, is_base_call, all_parts,
  ends_in_letter, any_digit_in, is_alnum, is_transmitter_id, to_timestamp, digits_of, pad2,
}
use contestscore.Country.Grid.{
  Cell, is_field_letter, is_subsquare_letter, field_cell, square_cell, subsquare_cell, grid_cell,
  center, grid_to_lat_lon,
}
use contestscore.Country.GridLaws.{Refines, earth, grid_cell-Refines}
use contestscore.Lookup.Suffix.{split_at, extend}
use contestscore.Prelude.{ℕ, ◌++◌, ◌≡◌, refl, List, [], ◌∷◌, Option, some}
use contestscore.Prelude.Text.{
  Text, codes, text_eq, every, is_digit, is_upper, trim, trim_start, is_space, to_upper_case,
  upper_code, is_lower,
}

timestamp : to_timestamp (codes "2025-06-07") (codes "1830") ≡ codes "2025-06-07 18:30:00"
unfolding to_timestamp digits_of pad2 is_digit
timestamp = refl

abbrev exchange : List Text
exchange = codes "599" ∷ codes "05" ∷ []

pick_worked_call-between_example :
    (pick_worked_call (exchange ++ codes "W1AW" ∷ exchange) (codes "K1ABC") ≡ codes "W1AW")
    × (pick_worked_call ((exchange ++ codes "W1AW" ∷ exchange) ++ codes "0" ∷ []) (codes "K1ABC")
        ≡ codes "W1AW")
unfolding is_other_call looks_like_callsign is_call_of_parts is_base_call all_parts ends_in_letter
    any_digit_in is_alnum is_transmitter_id split_at extend text_eq every is_digit is_upper
pick_worked_call-between_example =
    pick_worked_call-between exchange exchange (codes "W1AW") (codes "K1ABC") (codes "0") refl refl
      refl

abbrev whole : Text → Option ℕ
whole s = some 14042000

abbrev one_code : ℕ → Text
one_code n = n ∷ []

abbrev log_text : Text
log_text = codes "QSO: 14042 CW 2025-06-07 1830 K1ABC 599 05 W1AW 599 05"

parse_cabrillo-qsos_example :
    (parse_cabrillo whole one_code log_text).qsos ≡ lines_qsos whole one_code (split_at 10 log_text)
parse_cabrillo-qsos_example = parse_cabrillo-qsos whole one_code log_text

-- 41.729 N, 72.708 W
middle_of_fn31pr : grid_to_lat_lon (codes " fn31pr") ≡ some (record { lat = 6323; lon = 5150 })
unfolding grid_to_lat_lon grid_cell center is_field_letter is_subsquare_letter field_cell
    square_cell subsquare_cell is_digit trim trim_start is_space to_upper_case upper_code is_lower
middle_of_fn31pr = refl

abbrev cell_of_fn31pr : Cell
cell_of_fn31pr = record { lat = 6322; lon = 5148; lat_span = 2; lon_span = 4 }

grid_cell-Refines_example :
    (square : Cell) × (field : Cell) × (grid_cell (codes "FN31") ≡ some square)
    × (grid_cell (codes "FN") ≡ some field)
    × Refines cell_of_fn31pr square
    × Refines square field
    × Refines field earth
unfolding grid_cell is_field_letter is_subsquare_letter field_cell square_cell subsquare_cell
    is_digit
grid_cell-Refines_example = grid_cell-Refines b'F' b'N' b'3' b'1' b'P' b'R' cell_of_fn31pr refl
