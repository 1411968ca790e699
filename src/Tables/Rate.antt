-- ===== src/Tables/Rate.antt =====
-- getQsoRate and getQsos of src/db/queries.js on the rows of the qsos table. `age_of r` is the number
-- of seconds since the row's logged_at.
use contestscore.Store.Columns.{Column, Value, text, num, sql_eq}
use contestscore.Store.Qsos.{Row}
use contestscore.Prelude.{
  ℕ, ◌+◌, ◌*◌, ◌/◌, Bool, true, not, ◌&&◌, List, [], ◌∷◌, map, leb, ◌==◌, length, keep,
  if◌then◌else◌,
}
use contestscore.Prelude.Text.{Text}

pub record RateWindow : Type 0 where
  pub minutes : ℕ
  pub qsos : ℕ
  pub rate_per_hour : ℕ

-- COALESCE(is_claimed_qso, 1) != 0
unfoldable pub counts : Value → Bool
counts (num n) = not (n == 0)
counts _ = true

unfoldable pub is_recent : (Row → ℕ) → ℕ → Row → Bool
unfolding counts
is_recent age_of minutes r = leb (age_of r) (minutes * 60) && counts (r.cols Column.is_claimed_qso)

-- Math.round(count * (60 / minutes)): half an hour's QSO is rounded up
unfoldable pub per_hour : ℕ → ℕ → ℕ
per_hour count minutes = (count * 60 * 2 + minutes) / (2 * minutes)

unfoldable pub rate_window : (Row → ℕ) → List Row → ℕ → RateWindow
unfolding is_recent per_hour
rate_window age_of rows minutes =
    let count = length (keep (is_recent age_of minutes) rows) in
    record { minutes = minutes; qsos = count; rate_per_hour = per_hour count minutes }

-- getQsoRate, for RATE_WINDOWS_MINUTES
unfoldable pub get_qso_rate : (Row → ℕ) → List Row → List RateWindow
unfolding rate_window
get_qso_rate age_of rows = map (rate_window age_of rows) (10 ∷ 30 ∷ 60 ∷ [])

-- @x IS NULL OR x = @x, where an empty filter is NULL
unfoldable pub passes_filter : Text → Value → Bool
unfolding sql_eq
passes_filter [] v = true
passes_filter (c ∷ s) v = sql_eq v (text (c ∷ s))

unfoldable pub is_selected : Text → Text → Text → Row → Bool
unfolding passes_filter
is_selected band mode operator r =
    passes_filter band (r.cols Column.band)
    && passes_filter mode (r.cols Column.mode)
    && passes_filter operator (r.cols Column.operator)

unfoldable pub place_newest : (Row → ℕ) → Row → List Row → List Row
place_newest age_of r [] = r ∷ []
place_newest age_of r (x ∷ xs) =
    if leb (age_of r) (age_of x) then r ∷ x ∷ xs else x ∷ place_newest age_of r xs

-- ORDER BY logged_at DESC
unfoldable pub newest_first : (Row → ℕ) → List Row → List Row
unfolding place_newest
newest_first age_of [] = []
newest_first age_of (r ∷ rs) = place_newest age_of r (newest_first age_of rs)

-- getQsos
unfoldable pub get_qsos : (Row → ℕ) → Text → Text → Text → List Row → List Row
unfolding newest_first is_selected
get_qsos age_of band mode operator rows =
    newest_first age_of (keep (is_selected band mode operator) rows)
