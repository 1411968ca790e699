-- ===== src/Analyze/Lines.antt =====
-- The QSOs that parseCabrillo of src/analyze/cabrillo.js finds, line by line.
use contestscore.Analyze.Cabrillo.{
  CabrilloQso, Log, words, at_colon, qso_of_tokens, add_qso, tagged_line, read_line, read_lines,
  empty_log, with_station, parse_cabrillo,
}
use contestscore.Analyze.Bands.{freq_to_band}
use contestscore.Analyze.Tokens.{norm_mode, to_timestamp, pick_worked_call}
use contestscore.Lookup.Suffix.{split_at}
use contestscore.Prelude.{
  ℕ, ◌≡◌, ◌∙◌, refl, sym, ap, inl, inr, Bool, true, false, ◌||◌, List, [], ◌∷◌, ◌++◌, Option, none,
  some, arith, Option-cases, Bool-cases, if◌then◌else◌,
}
use contestscore.Prelude.Text.{Text, codes, text_eq, text_eq_iff, to_upper_case, trim}
use mathlib.Core.List.{append_assoc, append-nil}

abbrev pub as_list : Option CabrilloQso → List CabrilloQso
as_list none = []
as_list (some q) = q ∷ []

abbrev pub is_qso_tag : Text → Bool
is_qso_tag tag = text_eq tag (codes "QSO") || text_eq tag (codes "X-QSO")

module _ (parse_float : Text → Option ℕ) (show_mhz : ℕ → Text) where
  -- the QSO of at least five tokens: frequency, mode, date, time, own call, and the exchanges
  abbrev pub logged : ℕ → List Text → List CabrilloQso
  logged struck (freq ∷ mode ∷ date ∷ time ∷ own ∷ exchanges) =
      record {
        mycall = to_upper_case own;
        band = freq_to_band parse_float show_mhz freq;
        rx_freq = freq;
        mode = norm_mode mode;
        n1mm_timestamp = to_timestamp date time;
        logged_at = to_timestamp date time;
        call = pick_worked_call exchanges (to_upper_case own);
        exch_tokens = exchanges;
        excluded = struck;
      }
      ∷ []
  logged struck _ = []

  -- the QSO of a line that has this tag and this value, 1 marking the ones that do not count
  abbrev pub tagged_qso : Text → Text → List CabrilloQso
  tagged_qso tag value =
      if text_eq tag (codes "X-QSO")
      then logged 1 (words value)
      else if text_eq tag (codes "QSO")
      then logged 0 (words value)
      else []

  qso_of_tokens-logged :
      (struck : Bool) (tokens : List Text)
      → as_list (qso_of_tokens parse_float show_mhz struck tokens)
        ≡ logged (if struck then 1 else 0) tokens
  unfolding qso_of_tokens
  qso_of_tokens-logged struck [] = refl
  qso_of_tokens-logged struck (a ∷ []) = refl
  qso_of_tokens-logged struck (a ∷ b ∷ []) = refl
  qso_of_tokens-logged struck (a ∷ b ∷ c ∷ []) = refl
  qso_of_tokens-logged struck (a ∷ b ∷ c ∷ d ∷ []) = refl
  qso_of_tokens-logged struck (a ∷ b ∷ c ∷ d ∷ e ∷ rest) = refl

  -- the code's one call for both tags
  tagged_lem :
      (tag value : Text)
      → (if is_qso_tag tag
          then as_list
              (qso_of_tokens parse_float show_mhz (text_eq tag (codes "X-QSO")) (words value))
          else [])
        ≡ tagged_qso tag value
  tagged_lem tag value = elim (Bool-cases (text_eq tag (codes "X-QSO"))) [
    | inl x ↦ elim (Bool-cases (text_eq tag (codes "QSO"))) [
      | inl e ↦ rw (x, e) (qso_of_tokens-logged true (words value))
      | inr e ↦ rw (x, e) (qso_of_tokens-logged true (words value))
    ]
    | inr x ↦ elim (Bool-cases (text_eq tag (codes "QSO"))) [
      | inl e ↦ rw (x, e) (qso_of_tokens-logged false (words value))
      | inr e ↦ rw (x, e) refl
    ]
  ]

  untagged : (tag value : Text) → is_qso_tag tag ≡ false → tagged_qso tag value ≡ []
  untagged tag value h = sym (tagged_lem tag value) ∙ rw h refl

  abbrev line_of : Option (Text × Text) → List CabrilloQso
  line_of none = []
  line_of (some (tag, value)) = tagged_qso (to_upper_case tag) (trim value)

  -- the QSO of a line, whatever the other lines are
  abbrev pub line_qso : Text → List CabrilloQso
  line_qso raw = line_of (at_colon (trim raw))

  abbrev pub lines_qsos : List Text → List CabrilloQso
  lines_qsos [] = []
  lines_qsos (raw ∷ rest) = line_qso raw ++ lines_qsos rest

  not_qso :
      (tag name : Text) → text_eq tag name ≡ true → is_qso_tag name ≡ false → is_qso_tag tag ≡ false
  not_qso tag name e h = ap is_qso_tag ((text_eq_iff tag name).0 e) ∙ h

  qsos-add_qso :
      (o : Option CabrilloQso) (log : Log)
      → (add_qso parse_float show_mhz o log).qsos ≡ log.qsos ++ as_list o
  unfolding add_qso
  qsos-add_qso none log = sym (append-nil log.qsos)
  qsos-add_qso (some q) log = refl

  qsos-tagged_line :
      (tag value : Text) (log : Log)
      → (tagged_line parse_float show_mhz tag value log).qsos ≡ log.qsos ++ tagged_qso tag value
  unfolding tagged_line text_eq
  qsos-tagged_line tag value log = elim (Bool-cases (text_eq tag (codes "CONTEST"))) [
    | inl e ↦
        rw (e, untagged tag value (not_qso tag (codes "CONTEST") e refl))
          (sym (append-nil log.qsos))
    | inr a ↦ elim (Bool-cases (text_eq tag (codes "CALLSIGN"))) [
      | inl e ↦
          rw (a, e, untagged tag value (not_qso tag (codes "CALLSIGN") e refl))
            (sym (append-nil log.qsos))
      | inr b ↦ elim (Bool-cases (text_eq tag (codes "OPERATORS"))) [
        | inl e ↦
            rw (a, b, e, untagged tag value (not_qso tag (codes "OPERATORS") e refl))
              (sym (append-nil log.qsos))
        | inr c ↦ elim (Bool-cases (text_eq tag (codes "CLAIMED-SCORE"))) [
          | inl e ↦
              rw (a, b, c, e, untagged tag value (not_qso tag (codes "CLAIMED-SCORE") e refl))
                (sym (append-nil log.qsos))
          | inr d ↦ elim (Bool-cases (is_qso_tag tag)) [
            | inl e ↦
                rw (a, b, c, d, e)
                  (qsos-add_qso _ log
                    ∙ ap (λ (l : List CabrilloQso). log.qsos ++ l)
                        (let same = tagged_lem tag value in rw e at same))
            | inr e ↦ rw (a, b, c, d, e, untagged tag value e) (sym (append-nil log.qsos))
          ]
        ]
      ]
    ]
  ]

  qsos-read_line :
      (raw : Text) (log : Log)
      → (read_line parse_float show_mhz raw log).qsos ≡ log.qsos ++ line_qso raw
  unfolding read_line
  qsos-read_line raw log = elim (Option-cases (at_colon (trim raw))) [
    | inl e ↦ rw (e, read_line) (sym (append-nil log.qsos))
    | inr ((tag, value), e) ↦
        rw (e, read_line) (qsos-tagged_line (to_upper_case tag) (trim value) log)
  ]

  qsos-read_lines :
      (lines : List Text) (log : Log)
      → (read_lines parse_float show_mhz lines log).qsos ≡ log.qsos ++ lines_qsos lines
  unfolding read_lines
  qsos-read_lines [] log = sym (append-nil log.qsos)
  qsos-read_lines (raw ∷ rest) log =
      qsos-read_lines rest (read_line parse_float show_mhz raw log)
      ∙ ap (λ (l : List CabrilloQso). l ++ lines_qsos rest) (qsos-read_line raw log)
      ∙ append_assoc log.qsos (line_qso raw) (lines_qsos rest)

  qsos-with_station : (log : Log) → (with_station parse_float show_mhz log).qsos ≡ log.qsos
  unfolding with_station
  qsos-with_station log = ground arith

  -- The QSOs of a log are those of its QSO: and X-QSO: lines with at least five tokens, in their order,
  -- with the columns of their tokens and the X-QSOs marked: no line changes what another one gives,
  -- and a line with another tag or too few tokens gives none.
  pub parse_cabrillo-qsos :
      (text : Text)
      → (parse_cabrillo parse_float show_mhz text).qsos ≡ lines_qsos (split_at 10 text)
  unfolding parse_cabrillo
  parse_cabrillo-qsos text =
      qsos-with_station
        (read_lines parse_float show_mhz (split_at 10 text) (empty_log parse_float show_mhz))
      ∙ qsos-read_lines (split_at 10 text) (empty_log parse_float show_mhz)
