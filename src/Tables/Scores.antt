-- ===== src/Tables/Scores.antt =====
-- score_snapshots in src/db/queries.js: the table is the list of its rows in the order of their ids.
use contestscore.Packets.Score.{Score, BreakdownRow}
use contestscore.Prelude.{
  ℕ, Bool, true, false, not, ◌&&◌, ◌||◌, List, [], ◌∷◌, ◌++◌, Option, none, some, map, ltb, ◌==◌,
  if◌then◌else◌,
}
use contestscore.Prelude.Text.{Text, text_eq}

-- The header is the whole score: each row repeats its fields.
pub record Snapshot : Type 0 where
  pub header : Score
  pub band : Option Text
  pub mode : Option Text
  pub qsos : ℕ
  pub points : ℕ
  pub mults : Option ℕ
  pub is_total : Bool
  pub captured_at : ℕ

unfoldable pub snapshot_of : ℕ → Score → BreakdownRow → Snapshot
snapshot_of now score b = record {
  header = score;
  band = b.row.band;
  mode = b.row.mode;
  qsos = b.row.qsos;
  points = b.row.points;
  mults = b.row.mults;
  is_total = b.is_total;
  captured_at = now;
}

-- insertScoreBreakdown: the rows of one broadcast, in one transaction and with one time
unfoldable pub insert_score_breakdown : ℕ → Score → List Snapshot → List Snapshot
unfolding snapshot_of
insert_score_breakdown now score table = table ++ map (snapshot_of now score) score.breakdown

-- WHERE is_total = 1 ORDER BY id DESC LIMIT 1
unfoldable pub get_latest_score : List Snapshot → Option Snapshot
get_latest_score [] = none
get_latest_score (r ∷ rs) = elim (get_latest_score rs) [
  | some l ↦ some l
  | none ↦ if r.is_total then some r else none
]

-- GROUP BY puts NULLs together
unfoldable pub same_value : Option Text → Option Text → Bool
unfolding text_eq
same_value none none = true
same_value (some a) (some b) = text_eq a b
same_value _ _ = false

-- a row of the breakdown with the band and the mode of another
unfoldable pub succeeds : Snapshot → Snapshot → Bool
unfolding same_value
succeeds r s = not s.is_total && same_value r.band s.band && same_value r.mode s.mode

unfoldable pub is_succeeded : Snapshot → List Snapshot → Bool
unfolding succeeds
is_succeeded r [] = false
is_succeeded r (s ∷ rest) = succeeds r s || is_succeeded r rest

-- is_total = 0 and the highest id of its band and mode
unfoldable pub newest_rows : List Snapshot → List Snapshot
unfolding is_succeeded
newest_rows [] = []
newest_rows (r ∷ rs) =
    let rest = newest_rows rs in
    if not r.is_total && not (is_succeeded r rs) then r ∷ rest else rest

-- a < b on texts, by their codes
unfoldable pub text_lt : Text → Text → Bool
text_lt [] [] = false
text_lt [] (y ∷ ys) = true
text_lt (x ∷ xs) [] = false
text_lt (x ∷ xs) (y ∷ ys) = ltb x y || (x == y && text_lt xs ys)

-- NULL stands first
unfoldable pub value_lt : Option Text → Option Text → Bool
unfolding text_lt
value_lt none none = false
value_lt none (some b) = true
value_lt (some a) none = false
value_lt (some a) (some b) = text_lt a b

unfoldable pub row_lt : Snapshot → Snapshot → Bool
unfolding value_lt same_value
row_lt r s = value_lt r.band s.band || (same_value r.band s.band && value_lt r.mode s.mode)

unfoldable pub place_row : Snapshot → List Snapshot → List Snapshot
unfolding row_lt
place_row r [] = r ∷ []
place_row r (x ∷ xs) = if row_lt x r then x ∷ place_row r xs else r ∷ x ∷ xs

-- ORDER BY band, mode
unfoldable pub by_band_and_mode : List Snapshot → List Snapshot
unfolding place_row
by_band_and_mode [] = []
by_band_and_mode (r ∷ rs) = place_row r (by_band_and_mode rs)

-- getScoreBreakdown
unfoldable pub get_score_breakdown : List Snapshot → List Snapshot
unfolding newest_rows by_band_and_mode
get_score_breakdown table = by_band_and_mode (newest_rows table)
