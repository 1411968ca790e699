-- ===== src/Analyze/Analysis.antt =====
-- detectFormat and analyzeLog of src/analyze/index.js.
pub mod Counts
use contestscore.Analyze.Adif.Records.{AdifQso, Flags, AdifLog, parse_adif, joined}
use contestscore.Analyze.Adif.Tags.{starts_like}
use contestscore.Analyze.Cabrillo.{CabrilloQso, Log, parse_cabrillo}
use contestscore.Analyze.Contests.{ContestSpec, spec_for_contest}
use contestscore.Analyze.Grammar.{Target, Entry, apply_exchange, apply_generic_exchange}
use contestscore.Country.Fill.{Override, enrich_geo}
use contestscore.Country.Resolver.{Country}
use contestscore.Store.Columns.{Column, Value, null, text, num, Qso}
use contestscore.Prelude.{
  ℕ, Bool, true, false, not, ◌&&◌, ◌||◌, List, [], ◌∷◌, Option, none, some, map, ◌==◌, length,
  get_elem?, take, keep, if◌then◌else◌,
}
use contestscore.Prelude.Text.{Text, codes, is_digit, is_space, or_else}

pub data Format : Type 0 where
  cabrillo adif : Format

-- a test of a text at any of its positions
unfoldable pub holds_anywhere : (Text → Bool) → Text → Bool
holds_anywhere p [] = false
holds_anywhere p (c ∷ s) = p (c ∷ s) || holds_anywhere p s

-- /^\s*.../m: at a position with nothing but white space before it on its line
unfoldable pub holds_on_line : (Text → Bool) → Bool → Text → Bool
unfolding is_space
holds_on_line p fresh [] = false
holds_on_line p fresh (c ∷ s) =
    (fresh && p (c ∷ s)) || holds_on_line p (c == 10 || c == 13 || (fresh && is_space c)) s

unfoldable pub passes_at : ℕ → (ℕ → Bool) → Text → Bool
passes_at i p s = elim (get_elem? s i) [ none ↦ false | some c ↦ p c ]

-- QSO:\s
unfoldable pub opens_qso_line : Text → Bool
unfolding starts_like passes_at is_space
opens_qso_line s = starts_like (codes "qso:") s && passes_at 4 is_space s

-- <call:\d
unfoldable pub is_call_tag : Text → Bool
unfolding starts_like passes_at is_digit
is_call_tag s = starts_like (codes "<call:") s && passes_at 6 is_digit s

unfoldable pub looks_like_adif : Text → Bool
unfolding holds_anywhere starts_like is_call_tag
looks_like_adif head =
    holds_anywhere (starts_like (codes "<eoh>")) head
    || holds_anywhere is_call_tag head
    || holds_anywhere (starts_like (codes "<adif_ver:")) head

unfoldable pub detect_format : Text → Option Format
unfolding looks_like_adif holds_on_line starts_like opens_qso_line
detect_format s =
    let head = take 4000 s in
    if looks_like_adif head
    then some adif
    else if holds_on_line (starts_like (codes "start-of-log:")) true head
        || holds_on_line opens_qso_line true head
    then some cabrillo
    else if holds_on_line opens_qso_line true s
    then some cabrillo
    else none

pub record Excluded : Type 0 where
  pub call : Text
  pub band : Text
  pub mode : Text
  pub n1mm_timestamp : Text

pub record Analysis : Type 0 where
  pub filename : Text
  pub format : Format
  pub contest : Text
  pub contest_key : Option Text
  pub exchange_parsed : Bool
  pub station_call : Text
  pub operators : Text
  pub claimed_score : Option ℕ
  pub qso_count : ℕ
  pub excluded_count : ℕ
  pub flags : Flags
  pub qsos : List Qso
  pub excluded : List Excluded

-- blankQso
unfoldable pub blank_qso : Column → Option Value
blank_qso Column.ext_id = none
blank_qso Column.rover_loc = none
blank_qso Column.radio_interfaced = none
blank_qso Column.comp_nr = none
blank_qso Column.is_original = none
blank_qso Column.netbios_name = none
blank_qso Column.is_claimed_qso = none
blank_qso Column.radio_nr = some null
blank_qso Column.is_mult1 = some (num 0)
blank_qso Column.is_mult2 = some (num 0)
blank_qso Column.is_mult3 = some (num 0)
blank_qso Column.points = some (num 0)
blank_qso Column.is_run_qso = some (num 0)
blank_qso _ = some (text [])

-- A QSO of a Cabrillo file with what its exchange filled.
unfoldable pub cabrillo_column : CabrilloQso → Entry → Column → Option Value
unfolding blank_qso
cabrillo_column q e Column.call = some (text e.call)
cabrillo_column q e Column.mycall = some (text q.mycall)
cabrillo_column q e Column.band = some (text q.band)
cabrillo_column q e Column.mode = some (text q.mode)
cabrillo_column q e Column.rx_freq = some (text q.rx_freq)
cabrillo_column q e Column.n1mm_timestamp = some (text q.n1mm_timestamp)
cabrillo_column q e Column.rcv_nr = some (text (e.column Target.rcv_nr))
cabrillo_column q e Column.zone = some (text (e.column Target.zone))
cabrillo_column q e Column.section = some (text (e.column Target.section))
cabrillo_column q e Column.gridsquare = some (text (e.column Target.gridsquare))
cabrillo_column q e Column.op_name = some (text (e.column Target.op_name))
cabrillo_column q e Column.ck = some (text (e.column Target.ck))
cabrillo_column q e Column.prec = some (text (e.column Target.prec))
cabrillo_column q e Column.exchange1 = some (text (e.column Target.exchange1))
cabrillo_column q e Column.power = some (text (e.column Target.power))
cabrillo_column q e c = blank_qso c

unfoldable pub adif_column : AdifQso → Column → Option Value
unfolding blank_qso
adif_column q Column.call = some (text q.call)
adif_column q Column.mycall = some (text q.mycall)
adif_column q Column.operator = some (text q.operator)
adif_column q Column.band = some (text q.band)
adif_column q Column.mode = some (text q.mode)
adif_column q Column.rx_freq = some (text q.rx_freq)
adif_column q Column.tx_freq = some (text q.tx_freq)
adif_column q Column.n1mm_timestamp = some (text q.n1mm_timestamp)
adif_column q Column.continent = some (text q.continent)
adif_column q Column.zone = some (text q.zone)
adif_column q Column.gridsquare = some (text q.gridsquare)
adif_column q Column.section = some (text q.section)
adif_column q Column.countryprefix = some (text q.countryprefix)
adif_column q Column.snt_nr = some (text q.snt_nr)
adif_column q Column.rcv_nr = some (text q.rcv_nr)
adif_column q Column.power = some (text q.power)
adif_column q Column.points = some (num q.points)
adif_column q Column.is_mult1 = some (num q.is_mult1)
adif_column q Column.is_mult2 = some (num q.is_mult2)
adif_column q Column.is_mult3 = some (num q.is_mult3)
adif_column q Column.is_run_qso = some (num q.is_run_qso)
adif_column q Column.run1run2 = some (text q.run1run2)
adif_column q c = blank_qso c

unfoldable pub entry_of : CabrilloQso → Entry
entry_of q = record { call = q.call; exch_tokens = q.exch_tokens; column = λ c. [] }

-- the QSOs with their entries, in step
unfoldable pub cabrillo_qsos : List CabrilloQso → List Entry → List Qso
unfolding cabrillo_column
cabrillo_qsos (q ∷ qs) (e ∷ es) =
    record { fields = cabrillo_column q e; logged_at = some q.logged_at } ∷ cabrillo_qsos qs es
cabrillo_qsos _ _ = []

unfoldable pub adif_qsos : List AdifQso → List Qso
unfolding adif_column
adif_qsos [] = []
adif_qsos (q ∷ qs) = record { fields = adif_column q; logged_at = some q.logged_at } ∷ adif_qsos qs

-- the exchange grammar of a Cabrillo log: whether it fitted, and the entries
unfoldable pub grammar : Option ContestSpec → Bool → List Entry → Bool × List Entry
unfolding apply_exchange apply_generic_exchange
grammar none domestic es = (false, map apply_generic_exchange es)
grammar (some spec) domestic es = apply_exchange spec.layout domestic es

unfoldable pub key_of : Option ContestSpec → Option Text
key_of none = none
key_of (some spec) = some spec.key

abbrev pub no_override : Override
no_override = record { continent = false; countryprefix = false; zone = false }

abbrev pub no_flags : Flags
no_flags = record {
  has_points = false;
  has_mults = false;
  has_operator = false;
  has_run_flag = false;
}

module _ (parse_float : Text → Option ℕ) (parse_mhz : Text → Option ℕ) (show_mhz : ℕ → Text)
    (number : Text → Option ℕ) (resolver : Text → Option Country) where
  -- entity 291 is the United States, 1 Canada
  unfoldable pub is_arrl_domestic : Text → Bool
  is_arrl_domestic call = elim (resolver call) [
    | none ↦ false
    | some hit ↦ elim hit.entity [ none ↦ false | some n ↦ n == 291 || n == 1 ]
  ]

  unfoldable pub enrich_all : List Qso → List Qso
  unfolding enrich_geo
  enrich_all qs = map (enrich_geo resolver no_override) qs

  unfoldable pub analyze_cabrillo : Text → Log → Analysis
  unfolding is_arrl_domestic spec_for_contest grammar cabrillo_qsos entry_of enrich_all key_of
  analyze_cabrillo filename log =
      let qsos = keep (λ q. q.excluded == 0) log.qsos in
      let excluded = keep (λ q. not (q.excluded == 0)) log.qsos in
      let spec = spec_for_contest log.meta.contest in
      let (fitted, entries) =
        grammar spec (is_arrl_domestic log.meta.station_call) (map entry_of qsos) in
      record {
        filename = filename;
        format = cabrillo;
        contest = log.meta.contest;
        contest_key = key_of spec;
        exchange_parsed = fitted;
        station_call = log.meta.station_call;
        operators = log.meta.operators;
        claimed_score = log.meta.claimed_score;
        qso_count = length qsos;
        excluded_count = length excluded;
        flags = no_flags;
        qsos = enrich_all (cabrillo_qsos qsos entries);
        excluded =
            map
              (λ q. record {
                call = q.call;
                band = q.band;
                mode = q.mode;
                n1mm_timestamp = q.n1mm_timestamp;
              })
              excluded;
      }

  unfoldable pub analyze_adif : Text → AdifLog → Analysis
  unfolding spec_for_contest key_of enrich_all adif_qsos joined
  analyze_adif filename log =
      let qsos = keep (λ q. q.excluded == 0) log.qsos in
      let excluded = keep (λ q. not (q.excluded == 0)) log.qsos in
      record {
        filename = filename;
        format = adif;
        contest = log.contest;
        contest_key = key_of (spec_for_contest log.contest);
        exchange_parsed = false;
        station_call = log.station_call;
        operators = joined log.operators;
        claimed_score = none;
        qso_count = length qsos;
        excluded_count = length excluded;
        flags = log.flags;
        qsos = enrich_all (adif_qsos qsos);
        excluded =
            map
              (λ q. record {
                call = q.call;
                band = q.band;
                mode = q.mode;
                n1mm_timestamp = q.n1mm_timestamp;
              })
              excluded;
      }

  -- `none` for the error BAD_FORMAT
  unfoldable pub analyze_log : Text → Text → Option Analysis
  unfolding detect_format parse_adif parse_cabrillo analyze_adif analyze_cabrillo
  analyze_log s filename = elim (detect_format s) [
    | none ↦ none
    | some adif ↦ some (analyze_adif filename (parse_adif parse_mhz show_mhz number s))
    | some cabrillo ↦ some (analyze_cabrillo filename (parse_cabrillo parse_float show_mhz s))
  ]
