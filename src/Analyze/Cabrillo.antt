-- ===== src/Analyze/Cabrillo.antt =====
-- parseCabrillo of src/analyze/cabrillo.js. The columns of blankQso that no line fills are left out,
-- and `flags`, which are all false.
use contestscore.Analyze.Bands.{freq_to_band}
use contestscore.Analyze.Tokens.{digits_of, norm_mode, to_timestamp, pick_worked_call}
use contestscore.Lookup.Suffix.{split_at}
use contestscore.Prelude.{
  ℕ, ◌+◌, ◌-◌, ◌*◌, Bool, true, false, not, ◌||◌, List, [], ◌∷◌, ◌++◌, Option, none, some, ◌==◌,
  keep, if◌then◌else◌,
}
use contestscore.Prelude.Text.{Text, codes, text_eq, is_empty, is_space, to_upper_case, trim}

pub record CabrilloQso : Type 0 where
  pub mycall : Text
  pub band : Text
  pub rx_freq : Text
  pub mode : Text
  pub n1mm_timestamp : Text
  pub logged_at : Text
  pub call : Text
  pub exch_tokens : List Text
  pub excluded : ℕ

pub record Meta : Type 0 where
  pub contest : Text
  pub station_call : Text
  pub operators : Text
  pub claimed_score : Option ℕ

pub record Log : Type 0 where
  pub meta : Meta
  pub qsos : List CabrilloQso

-- one more character in front of the words
unfoldable pub extend_word : ℕ → List Text → List Text
unfolding is_space
extend_word c [] = if is_space c then [] ∷ [] ∷ [] else (c ∷ []) ∷ []
extend_word c (w ∷ ws) = if is_space c then [] ∷ w ∷ ws else (c ∷ w) ∷ ws

unfoldable pub split_space : Text → List Text
unfolding extend_word
split_space [] = [] ∷ []
split_space (c ∷ s) = extend_word c (split_space s)

-- split(/\s+/).filter(Boolean)
unfoldable pub words : Text → List Text
unfolding split_space
words s = keep (λ w. not (is_empty w)) (split_space s)

-- what stands before the first colon and after it
unfoldable pub at_colon : Text → Option (Text × Text)
at_colon [] = none
at_colon (c ∷ s) = elim (c == b':') [
  | true ↦ some ([], s)
  | false ↦ elim (at_colon s) [ none ↦ none | some (tag, value) ↦ some (c ∷ tag, value) ]
]

-- parseInt on digits
unfoldable pub digits_value : ℕ → Text → ℕ
digits_value n [] = n
digits_value n (c ∷ s) = digits_value (n * 10 + (c - 48)) s

unfoldable pub claimed : Text → Option ℕ → Option ℕ
unfolding digits_of digits_value
claimed value old = let d = digits_of value in if is_empty d then old else some (digits_value 0 d)

-- meta.operators ? `${meta.operators} ${value}` : value
unfoldable pub more_operators : Text → Text → Text
more_operators [] value = value
more_operators (c ∷ s) value = (c ∷ s) ++ b' ' ∷ value

module _ (parse_float : Text → Option ℕ) (show_mhz : ℕ → Text) where
  -- a QSO: or X-QSO: line, `none` if it has fewer than five tokens
  unfoldable pub qso_of_tokens : Bool → List Text → Option CabrilloQso
  unfolding freq_to_band norm_mode to_timestamp pick_worked_call to_upper_case
  qso_of_tokens is_x_qso (freq ∷ mode ∷ date ∷ time ∷ mycall ∷ rest) = some (record {
    mycall = to_upper_case mycall;
    band = freq_to_band parse_float show_mhz freq;
    rx_freq = freq;
    mode = norm_mode mode;
    n1mm_timestamp = to_timestamp date time;
    logged_at = to_timestamp date time;
    call = pick_worked_call rest (to_upper_case mycall);
    exch_tokens = rest;
    excluded = if is_x_qso then 1 else 0;
  })
  qso_of_tokens is_x_qso _ = none

  unfoldable pub add_qso : Option CabrilloQso → Log → Log
  add_qso none log = log
  add_qso (some q) log = record log { qsos = log.qsos ++ q ∷ [] }

  -- one line that has a colon
  unfoldable pub tagged_line : Text → Text → Log → Log
  unfolding text_eq to_upper_case more_operators claimed words qso_of_tokens add_qso
  tagged_line tag value log =
      if text_eq tag (codes "CONTEST")
      then record log { meta = record log.meta { contest = value } }
      else if text_eq tag (codes "CALLSIGN")
      then record log { meta = record log.meta { station_call = to_upper_case value } }
      else if text_eq tag (codes "OPERATORS")
      then record log {
        meta = record log.meta { operators = more_operators log.meta.operators value };
      }
      else if text_eq tag (codes "CLAIMED-SCORE")
      then record log {
        meta = record log.meta { claimed_score = claimed value log.meta.claimed_score };
      }
      else if text_eq tag (codes "QSO") || text_eq tag (codes "X-QSO")
      then add_qso (qso_of_tokens (text_eq tag (codes "X-QSO")) (words value)) log
      else log

  -- the body of the loop over the lines
  unfoldable pub read_line : Text → Log → Log
  unfolding trim at_colon to_upper_case tagged_line
  read_line raw log = elim (at_colon (trim raw)) [
    | none ↦ log
    | some (tag, value) ↦ tagged_line (to_upper_case tag) (trim value) log
  ]

  unfoldable pub read_lines : List Text → Log → Log
  unfolding read_line
  read_lines [] log = log
  read_lines (raw ∷ rest) log = read_lines rest (read_line raw log)

  abbrev pub empty_log : Log
  empty_log = record {
    meta = record { contest = []; station_call = []; operators = []; claimed_score = none };
    qsos = [];
  }

  -- a log without a CALLSIGN takes that of its first QSO
  unfoldable pub with_station : Log → Log
  with_station log = elim log.qsos [
    | [] ↦ log
    | q ∷ qs ↦
        if is_empty log.meta.station_call
        then record log { meta = record log.meta { station_call = q.mycall } }
        else log
  ]

  -- the carriage return of a line's end goes with its white space
  unfoldable pub parse_cabrillo : Text → Log
  unfolding split_at read_lines with_station
  parse_cabrillo text = with_station (read_lines (split_at 10 text) empty_log)
