-- ===== src/Analyze/Adif/Records.antt =====
-- parseAdif of src/analyze/adif.js: a record's QSO, and the loop over the records. The columns of
-- blankQso that no record fills are left out.
use contestscore.Analyze.Adif.Tags.{starts_like, parse_fields, split_records}
use contestscore.Analyze.Adif.Values.{is_yes, adif_mode, band_to_canonical}
use contestscore.Analyze.Tokens.{to_timestamp}
use contestscore.Packets.Fields.{Fields, or_blank, number_or_zero, present}
use contestscore.Prelude.{
  ℕ, Bool, true, false, not, ◌&&◌, ◌||◌, List, [], ◌∷◌, ◌++◌, Option, none, some, if◌then◌else◌,
}
use contestscore.Prelude.Text.{Text, codes, text_eq, is_empty, or_else, to_upper_case, trim}

pub record AdifQso : Type 0 where
  pub call : Text
  pub mycall : Text
  pub operator : Text
  pub band : Text
  pub rx_freq : Text
  pub tx_freq : Text
  pub mode : Text
  pub n1mm_timestamp : Text
  pub logged_at : Text
  pub continent : Text
  pub zone : Text
  pub gridsquare : Text
  pub section : Text
  pub countryprefix : Text
  pub snt_nr : Text
  pub rcv_nr : Text
  pub power : Text
  pub points : ℕ
  pub is_mult1 : ℕ
  pub is_mult2 : ℕ
  pub is_mult3 : ℕ
  pub is_run_qso : ℕ
  pub run1run2 : Text
  pub excluded : ℕ

pub record Flags : Type 0 where
  pub has_points : Bool
  pub has_mults : Bool
  pub has_operator : Bool
  pub has_run_flag : Bool

-- `operators` is the set of the operators, in the order in which they came.
pub record AdifLog : Type 0 where
  pub contest : Text
  pub station_call : Text
  pub operators : List Text
  pub flags : Flags
  pub qsos : List AdifQso

abbrev pub empty_adif : AdifLog
empty_adif = record {
  contest = [];
  station_call = [];
  operators = [];
  flags = record {
    has_points = false;
    has_mults = false;
    has_operator = false;
    has_run_flag = false;
  };
  qsos = [];
}

-- f[k] || ''
unfoldable pub value_or_blank : Fields → Text → Text
unfolding or_blank
value_or_blank f k = or_blank (f k)

-- f[k] != null && f[k] !== ''
unfoldable pub is_given : Fields → Text → Bool
unfolding value_or_blank
is_given f k = not (is_empty (value_or_blank f k))

-- the last of the keys that the record has, as the loop over them leaves it
unfoldable pub last_given : Fields → List Text → Option Text
last_given f [] = none
last_given f (k ∷ ks) = elim (last_given f ks) [ some v ↦ some v | none ↦ f k ]

unfoldable pub flag_of : Bool → ℕ
flag_of true = 1
flag_of false = 0

unfoldable pub mult_value : Option Text → ℕ
unfolding flag_of is_yes
mult_value none = 0
mult_value (some v) = flag_of (is_yes v)

abbrev pub mult_keys1 : List Text
mult_keys1 = codes "app_n1mm_ismultiplier1" ∷ codes "app_n1mm_mult1" ∷ codes "app_n1mm_ismult1" ∷ []

abbrev pub mult_keys2 : List Text
mult_keys2 = codes "app_n1mm_ismultiplier2" ∷ codes "app_n1mm_mult2" ∷ codes "app_n1mm_ismult2" ∷ []

abbrev pub mult_keys3 : List Text
mult_keys3 = codes "app_n1mm_ismultiplier3" ∷ codes "app_n1mm_mult3" ∷ codes "app_n1mm_ismult3" ∷ []

unfoldable pub has_mult_key : Fields → Bool
unfolding present last_given
has_mult_key f =
    present (last_given f mult_keys1)
    || present (last_given f mult_keys2)
    || present (last_given f mult_keys3)

-- is_run_qso with its two sources
unfoldable pub run_flag : Fields → ℕ
unfolding is_given flag_of is_yes value_or_blank text_eq
run_flag f =
    if is_given f (codes "app_n1mm_isrunqso")
    then flag_of (is_yes (value_or_blank f (codes "app_n1mm_isrunqso")))
    else flag_of (text_eq (value_or_blank f (codes "app_n1mm_run1run2")) (codes "1"))

unfoldable pub has_run_key : Fields → Bool
unfolding is_given
has_run_key f = is_given f (codes "app_n1mm_isrunqso") || is_given f (codes "app_n1mm_run1run2")

-- APP_N1MM_ISCLAIMEDQSO is there and false
unfoldable pub is_unclaimed : Fields → Bool
unfolding is_given is_yes value_or_blank
is_unclaimed f =
    is_given f (codes "app_n1mm_isclaimedqso")
    && not (is_yes (value_or_blank f (codes "app_n1mm_isclaimedqso")))

unfoldable pub section_text : Fields → Text
unfolding to_upper_case value_or_blank
section_text f = to_upper_case (
    or_else (value_or_blank f (codes "arrl_sect"))
      (or_else (value_or_blank f (codes "app_n1mm_exchange1")) (value_or_blank f (codes "state"))))

unfoldable pub prefix_text : Fields → Text
unfolding to_upper_case value_or_blank
prefix_text f = to_upper_case (
    or_else (value_or_blank f (codes "app_n1mm_countryprefix"))
      (or_else (value_or_blank f (codes "pfx")) (value_or_blank f (codes "country"))))

-- f[a] || f[b] || ''
unfoldable pub either_value : Fields → Text → Text → Text
unfolding value_or_blank
either_value f a b = or_else (value_or_blank f a) (value_or_blank f b)

-- new Set, with one more value that is not blank
unfoldable pub add_operator : Text → List Text → List Text
unfolding text_eq
add_operator o [] = o ∷ []
add_operator o (p ∷ ps) = if text_eq p o then p ∷ ps else p ∷ add_operator o ps

-- [...opSet].join(' ')
unfoldable pub joined : List Text → Text
joined [] = []
joined (o ∷ []) = o
joined (o ∷ p ∷ ps) = o ++ b' ' ∷ joined (p ∷ ps)

-- /<call:/i.test(rec)
unfoldable pub has_call_tag : Text → Bool
unfolding starts_like
has_call_tag [] = false
has_call_tag (c ∷ s) = starts_like (codes "<call:") (c ∷ s) || has_call_tag s

module _ (parse_mhz : Text → Option ℕ) (show_mhz : ℕ → Text) (number : Text → Option ℕ) where
  unfoldable pub adif_qso : Fields → AdifQso
  unfolding value_or_blank either_value to_upper_case trim band_to_canonical adif_mode to_timestamp
      section_text prefix_text number_or_zero mult_value last_given run_flag is_unclaimed flag_of
  adif_qso f = record {
    call = trim (to_upper_case (value_or_blank f (codes "call")));
    mycall = trim (to_upper_case (either_value f (codes "station_callsign") (codes "operator")));
    operator = trim (to_upper_case (value_or_blank f (codes "operator")));
    band = band_to_canonical parse_mhz show_mhz (f (codes "band")) (f (codes "freq"));
    rx_freq = either_value f (codes "freq_rx") (codes "freq");
    tx_freq = value_or_blank f (codes "freq");
    mode = adif_mode (f (codes "mode")) (f (codes "submode"));
    n1mm_timestamp =
        to_timestamp (value_or_blank f (codes "qso_date")) (value_or_blank f (codes "time_on"));
    logged_at =
        to_timestamp (value_or_blank f (codes "qso_date")) (value_or_blank f (codes "time_on"));
    continent = to_upper_case (value_or_blank f (codes "cont"));
    zone = trim (either_value f (codes "cqz") (codes "app_n1mm_cqz"));
    gridsquare = value_or_blank f (codes "gridsquare");
    section = section_text f;
    countryprefix = prefix_text f;
    snt_nr = either_value f (codes "stx_string") (codes "stx");
    rcv_nr = either_value f (codes "srx_string") (codes "srx");
    power = either_value f (codes "tx_pwr") (codes "rx_pwr");
    points =
        if is_given f (codes "app_n1mm_points")
        then number_or_zero number show_mhz (f (codes "app_n1mm_points"))
        else 0;
    is_mult1 = mult_value (last_given f mult_keys1);
    is_mult2 = mult_value (last_given f mult_keys2);
    is_mult3 = mult_value (last_given f mult_keys3);
    is_run_qso = run_flag f;
    run1run2 = if has_run_key f then value_or_blank f (codes "app_n1mm_run1run2") else [];
    excluded = flag_of (is_unclaimed f);
  }

  unfoldable pub add_flags : Fields → AdifQso → Flags → Flags
  unfolding is_given has_mult_key has_run_key
  add_flags f q flags = record {
    has_points = flags.has_points || is_given f (codes "app_n1mm_points");
    has_mults = flags.has_mults || has_mult_key f;
    has_operator = flags.has_operator || not (is_empty q.operator);
    has_run_flag = flags.has_run_flag || has_run_key f;
  }

  -- the end of the loop's body: the QSO of the record's fields goes into the log
  unfoldable pub add_record : Fields → AdifLog → AdifLog
  unfolding adif_qso add_flags add_operator value_or_blank
  add_record f log =
      let q = adif_qso f in
      record {
        contest = or_else log.contest (value_or_blank f (codes "contest_id"));
        station_call = or_else log.station_call q.mycall;
        operators =
            if is_empty q.operator then log.operators else add_operator q.operator log.operators;
        flags = add_flags f q log.flags;
        qsos = log.qsos ++ q ∷ [];
      }

  -- the loop's body
  unfoldable pub read_record : Text → AdifLog → AdifLog
  unfolding has_call_tag parse_fields value_or_blank add_record
  read_record rec log =
      if has_call_tag rec && not (is_empty (value_or_blank (parse_fields rec) (codes "call")))
      then add_record (parse_fields rec) log
      else log

  unfoldable pub read_records : List Text → AdifLog → AdifLog
  unfolding read_record
  read_records [] log = log
  read_records (rec ∷ rest) log = read_records rest (read_record rec log)

  unfoldable pub parse_adif : Text → AdifLog
  unfolding split_records read_records
  parse_adif text = read_records (split_records text) empty_adif
