-- ===== src/Analyze/Analysis/Counts.antt =====
-- analyzeLog of src/analyze/index.js loses no QSO of the file and invents none.
use contestscore.Analyze.Adif.Records.{parse_adif}
use contestscore.Analyze.Analysis.{Format, cabrillo, adif, Analysis}
use contestscore.Analyze.Cabrillo.{parse_cabrillo}
use contestscore.Country.Resolver.{Country}
use contestscore.Store.Columns.{Column, Value, text, Qso}
use contestscore.Prelude.{
  ℕ, ◌+◌, ◌≡◌, if◌then◌else◌, List, [], ◌∷◌, Option, some, map, ◌==◌, length,
}
use contestscore.Prelude.Text.{Text}

-- The times of the QSOs that count, flag 0, and of those that do not.
abbrev pub counted_times : List (ℕ × Text) → List Text
counted_times [] = []
counted_times ((flag, t) ∷ qs) = if flag == 0 then t ∷ counted_times qs else counted_times qs

abbrev pub excluded_times : List (ℕ × Text) → List Text
excluded_times [] = []
excluded_times ((flag, t) ∷ qs) = if flag == 0 then excluded_times qs else t ∷ excluded_times qs

abbrev pub time_column : Qso → Option Value
time_column q = q.fields Column.n1mm_timestamp

-- The QSOs of a result are those that were parsed without a flag, in their order, the excluded ones those
-- with a flag, and the counts are theirs.
pub record Counted (parsed : List (ℕ × Text)) (a : Analysis) : Type 0 where
  pub kept : map time_column a.qsos ≡ map (λ t. some (text t)) (counted_times parsed)
  pub left_out : map (λ e. e.n1mm_timestamp) a.excluded ≡ excluded_times parsed
  pub qso_count : a.qso_count ≡ length a.qsos
  pub excluded_count : a.excluded_count ≡ length a.excluded
  pub total : a.qso_count + a.excluded_count ≡ length parsed

module _ (parse_float : Text → Option ℕ) (parse_mhz : Text → Option ℕ) (show_mhz : ℕ → Text)
    (number : Text → Option ℕ) (resolver : Text → Option Country) where
  -- The flags and times of the QSOs that the parser of a format finds.
  abbrev pub parsed_times : Format → Text → List (ℕ × Text)
  parsed_times adif s =
      map (λ q. (q.excluded, q.n1mm_timestamp)) (parse_adif parse_mhz show_mhz number s).qsos
  parsed_times cabrillo s =
      map (λ q. (q.excluded, q.n1mm_timestamp)) (parse_cabrillo parse_float show_mhz s).qsos
